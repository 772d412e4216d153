-- ===== src/Store/Events.antt =====
-- internal/store/events.go: the event log.
pub mod Once
use nett.Prelude.{
  ℕ, Bool, ◌&&◌, Option, none, some, List, [], ◌∷◌, ◌==◌, not, take, if◌then◌else◌, Result, ok, err,
  ◌>>=◌,
}
use nett.Text.{Bytes, codes, eq}
use nett.Text.Decimal.{ℤ}
use nett.Model.{Event, event_id}
use nett.Store.Tables.{Table}
use nett.Store.Rows.{
  EventRow, Stored, Database, Error, row_key, query_result, format_time, parse_time, marshal_json,
  unmarshal_json,
}
use nett.Store.Assets.{or_text, or_time}

abbrev pub pending : Bytes
pending = codes "pending"

module _ {F X T : Type 0} (db : Database F X T) where
  -- the fields that InsertEvent fills in
  unfoldable pub filled_event : ℕ → Event X → Event X
  filled_event now e = record e {
    id = or_text e.id (event_id db.hash e.event_type e.asset_id);
    created_at = or_time e.created_at now;
    status = or_text e.status pending;
  }

  -- the row of the INSERT; processed_at has its default
  unfoldable pub event_row : Event X → Bytes → EventRow
  unfolding format_time
  event_row e data_json = record {
    id = e.id;
    project_id = e.project_id;
    event_type = e.event_type;
    asset_id = e.asset_id;
    source = e.source;
    data_json = data_json;
    depth = e.depth;
    status = e.status;
    created_at = format_time db.texts e.created_at;
    processed_at = [];
  }

  -- InsertEvent behind the fields that it fills in: whether a row was inserted, and the state
  unfoldable pub insert_filled_event : Event X → Stored T → Result Error (Bool × Stored T)
  unfolding event_row
  insert_filled_event e s = do
    data_json ← marshal_json db.texts e.data_object
    (n, events) ←
        query_result
          (db.events.insert_row (row_key e.project_id e.id) (event_row e data_json) s.events)
    ok (not (n == 0), record s { events = events })

  -- InsertEvent: whether a row was inserted, the event with its fields, and the state
  unfoldable pub insert_event : ℕ → Event X → Stored T → Result Error (Bool × Event X × Stored T)
  unfolding filled_event insert_filled_event
  insert_event now e s = do
    (inserted, s') ← insert_filled_event (filled_event now e) s
    ok (inserted, filled_event now e, s')

  -- scanEvent of a row
  unfoldable pub scan_event : EventRow → Result Error (Event X)
  scan_event row = do
    data_object ← unmarshal_json db.texts row.data_json
    ok (record {
      id = row.id;
      project_id = row.project_id;
      event_type = row.event_type;
      asset_id = row.asset_id;
      source = row.source;
      data_object = data_object;
      depth = row.depth;
      status = row.status;
      created_at = parse_time db.texts row.created_at;
      processed_at = parse_time db.texts row.processed_at;
    })

  unfoldable pub scan_events : List EventRow → Result Error (List (Event X))
  unfolding scan_event
  scan_events [] = ok []
  scan_events (row ∷ rows) = do e ← scan_event row; rest ← scan_events rows; ok (e ∷ rest)

  -- LIMIT; a negative limit is none
  abbrev pub limited : {A : Type 0} → ℤ → List A → List A
  limited (ℤ.pos n) rows = take n rows
  limited (ℤ.negsuc n) rows = rows

  -- the WHERE of PendingEvents
  unfoldable pub pending_row : Bytes → EventRow → Bool
  unfolding eq
  pending_row project row = eq row.project_id project && eq row.status pending

  -- PendingEvents
  unfoldable pub pending_events : Stored T → Bytes → ℤ → Result Error (List (Event X))
  unfolding pending_row scan_events
  pending_events s project limit = do
    rows ←
        query_result (db.events.select_rows (pending_row project) (λ row. row.created_at) s.events)
    scan_events (limited limit rows)

  -- MarkEventStatus
  unfoldable pub mark_event_status : ℕ → Bytes → Bytes → Bytes → Stored T → Result Error (Stored T)
  mark_event_status now project id status s = do
    events ← query_result (
        db.events.update_row
          (λ row. record row { status = status; processed_at = format_time db.texts now })
          (row_key project id) s.events)
    ok (record s { events = events })
