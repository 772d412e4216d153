-- ===== src/Store/Examples/Logs.antt =====
-- The event log and the runs on concrete inputs.
use nett.Prelude.{
  Option, Result, sym, ℕ, Bool, true, false, ◌&&◌, ◌≡◌, ◌↔◌, refl, none, some, List, [], ◌∷◌, ok,
  Ensures, arith, and_true, ap,
}
use nett.Text.{Bytes, codes, eq}
use nett.Text.Affixes.{eq_iff}
use nett.Text.Decimal.{ℤ}
use nett.Model.{event_id, hash_hex, hash_input, Event, ModuleRun}
use nett.Model.Values.{Object, Value}
use nett.Store.Rows.{
  EventRow, RunRow, Stored, Database, row_key, format_time, marshal_json, unmarshal_json,
  parse_time,
}
use nett.Store.Events.{
  filled_event, insert_filled_event, event_row, insert_event, mark_event_status, pending,
}
use nett.Store.Events.Once.{Steps, Step, insert_event-once}
use nett.Store.Runs.{run_key, upsert_module_run, get_module_run, scan_run}
use nett.Store.Runs.Resumed.{Resumes, IsWritten, upsert_module_run-Resumes}
use nett.Store.Examples.Memory.{memory, memory-IsTable}
use nett.Store.Examples.Instance.{texts, same_pair, same_pair_iff, texts-IsTexts, no_tables, all_of}

abbrev Events : Type 0
Events = List ((Bytes × Bytes) × EventRow)

abbrev event_db : Database ℕ ℕ Events
event_db = record no_tables { events = memory same_pair }

abbrev found_host : Event ℕ
found_host = record {
  id = [];
  project_id = codes "p";
  event_type = codes "host";
  asset_id = codes "a";
  source = codes "ct";
  data_object = [];
  depth = ℤ.pos 1;
  status = [];
  created_at = 0;
  processed_at = 0;
}

abbrev no_events : Stored Events
no_events = all_of []

abbrev inserted_event : Event ℕ
unfolding filled_event
inserted_event = filled_event event_db 5 found_host

abbrev log_with : Bytes → Bytes → Stored Events
unfolding event_row
log_with status at = record no_events {
  events =
      (
        row_key (codes "p") inserted_event.id,
        record (event_row event_db inserted_event (0 ∷ [])) { status = status; processed_at = at },
      )
      ∷ [];
}

inserted_first :
    insert_event event_db 5 found_host no_events ≡ ok (true, inserted_event, log_with pending [])
unfolding insert_event insert_filled_event inserted_event log_with filled_event event_row
    marshal_json memory
inserted_first = refl

-- the same event again, behind a call of `MarkEventStatus`
marked-Steps : Steps event_db (log_with pending []) (log_with (codes "processed") (6 ∷ []))
unfolding mark_event_status log_with inserted_event event_row memory filled_event format_time
    same_pair eq event_id hash_hex hash_input
marked-Steps =
    Steps.next Steps.here (Step.marks 6 (codes "p") inserted_event.id (codes "processed") refl)

insert_event-once_example :
    Ensures
      (λ _. Unit {0})
      (λ u.
        (u.0 ≡ false)
        × (event_db.events.select_row u.2.events
              (row_key (codes "p") (filled_event event_db 7 found_host).id)
            ≡ event_db.events.select_row
                (log_with (codes "processed") (6 ∷ [])).events
                (row_key (codes "p") (filled_event event_db 7 found_host).id)))
      (insert_event event_db 7 found_host (log_with (codes "processed") (6 ∷ [])))
insert_event-once_example =
    insert_event-once event_db (memory-IsTable same_pair same_pair_iff) 5 7 found_host found_host
      no_events (log_with (codes "processed") (6 ∷ [])) none
      (true, inserted_event, log_with pending []) (unfold memory in refl) inserted_first
      marked-Steps (unfold filled_event in refl)

abbrev Runs : Type 0
Runs = List ((Bytes × Bytes × Bytes) × RunRow)

abbrev same_run : Bytes × Bytes × Bytes → Bytes × Bytes × Bytes → Bool
same_run (a, b, c) (x, y, z) = eq a x && same_pair (b, c) (y, z)

same_run_iff : (k j : Bytes × Bytes × Bytes) → (same_run k j ≡ true) ↔ (k ≡ j)
same_run_iff (a, b, c) (x, y, z) = (
  λ h.
      let (p, q) = and_true (eq a x) (same_pair (b, c) (y, z)) h in
      let first = (eq_iff a x).0 p in let last = (same_pair_iff (b, c) (y, z)).0 q in cc,
  λ h. rw (
    (eq_iff a x).1 (ap (λ (k : Bytes × Bytes × Bytes). k.0) h),
    (same_pair_iff (b, c) (y, z)).1 (ap (λ (k : Bytes × Bytes × Bytes). (k.1, k.2)) h),
  ),
)

abbrev run_db : Database ℕ ℕ Runs
run_db = record no_tables { runs = memory same_run }

abbrev run_of : ℕ → ℕ → Object ℕ → ModuleRun ℕ
run_of started finished cursor = record {
  project_id = codes "p";
  run_module = codes "ct";
  target = codes "a.example";
  input_fp = [];
  cursor = cursor;
  status = codes "running";
  error = [];
  started_at = started;
  finished_at = finished;
}

-- a run that was started at time 5
abbrev started_runs : Stored Runs
started_runs = all_of (
    (
      run_key (codes "p") (codes "ct") (codes "a.example"),
      record {
        project_id = codes "p";
        run_module = codes "ct";
        target = codes "a.example";
        input_fp = [];
        cursor_json = 0 ∷ [];
        status = codes "running";
        error = [];
        started_at = 5 ∷ [];
        finished_at = [];
      },
    )
    ∷ [])

found_row :
    {a b : RunRow} → ◌≡◌ {A = Result Bytes (Option RunRow)} (ok (some a)) (ok (some b)) → a ≡ b
found_row h = cc

first_start :
    {r : RunRow}
    → run_db.runs.select_row started_runs.runs
        (run_key (codes "p") (codes "ct") (codes "a.example"))
      ≡ ok (some r)
    → r.started_at ≡ format_time texts 5
unfolding memory same_pair eq format_time
first_start e = sym (ap (λ (x : RunRow). x.started_at) (found_row e))

upsert_module_run-Resumes_example :
    Ensures
      (λ _. Unit {0})
      (λ t.
        (b : ModuleRun ℕ) × (get_module_run run_db t (codes "p") (codes "ct") (codes "a.example")
          ≡ ok (some b))
        × Resumes (some (run_of 5 0 [])) (run_of 8 9 ((codes "n", Value.scalar 3) ∷ [])) b
        × IsWritten run_db
            (memory-IsTable same_run same_run_iff)
            texts-IsTexts
            t
            (run_key (codes "p") (codes "ct") (codes "a.example")))
      (upsert_module_run run_db (run_of 8 9 ((codes "n", Value.scalar 3) ∷ [])) started_runs)
upsert_module_run-Resumes_example =
    upsert_module_run-Resumes run_db (memory-IsTable same_run same_run_iff) texts-IsTexts
      (run_of 8 9 ((codes "n", Value.scalar 3) ∷ [])) started_runs (some (run_of 5 0 []))
      (omega arith) (omega arith)
      (unfold get_module_run memory same_pair eq scan_run unmarshal_json parse_time in refl)
      (λ r e. (5, omega arith, first_start e))
