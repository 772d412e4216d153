-- ===== src/Store/Edges.antt =====
-- internal/store/edges.go: the edges between assets.
pub mod Kept
use nett.Prelude.{
  ℕ, Bool, ◌&&◌, ◌||◌, Option, none, some, List, [], ◌∷◌, if◌then◌else◌, Result, ok, err, ◌>>=◌,
}
use nett.Text.{Bytes, eq}
use nett.Model.{Edge, edge_id}
use nett.Store.Tables.{Table}
use nett.Store.Rows.{
  EdgeRow, Stored, Database, Error, row_key, query_result, format_time, parse_time,
}
use nett.Store.Assets.{or_text, or_time}

module _ {F X T : Type 0} (db : Database F X T) where
  -- scanEdge
  abbrev pub scan_edge : EdgeRow F → Edge F
  scan_edge row = record {
    id = row.id;
    project_id = row.project_id;
    src_id = row.src_id;
    dst_id = row.dst_id;
    rel = row.rel;
    confidence = row.confidence;
    first_seen = parse_time db.texts row.first_seen;
    last_seen = parse_time db.texts row.last_seen;
  }

  abbrev pub scan_edge_found : Option (EdgeRow F) → Option (Edge F)
  scan_edge_found none = none
  scan_edge_found (some row) = some (scan_edge row)

  -- getEdge
  unfoldable pub get_edge : Stored T → Bytes → Bytes → Result Error (Option (Edge F))
  get_edge s project id = do
    found ← query_result (db.edges.select_row s.edges (row_key project id))
    ok (scan_edge_found found)

  -- the fields that UpsertEdge fills in
  unfoldable pub filled_edge : ℕ → Edge F → Edge F
  filled_edge now e = record e {
    id = or_text e.id (edge_id db.hash e.src_id e.rel e.dst_id);
    first_seen = or_time e.first_seen now;
    last_seen = or_time e.last_seen now;
  }

  -- the edge with the values that UpsertEdge computes
  unfoldable pub with_existing_edge : Option (Edge F) → Edge F → Edge F
  with_existing_edge none e = e
  with_existing_edge (some existing) e = record e {
    confidence =
        if db.greater existing.confidence e.confidence then existing.confidence else e.confidence;
    first_seen = existing.first_seen;
  }

  -- the row of the INSERT
  unfoldable pub edge_row : Edge F → EdgeRow F
  unfolding format_time
  edge_row e = record {
    id = e.id;
    project_id = e.project_id;
    src_id = e.src_id;
    dst_id = e.dst_id;
    rel = e.rel;
    confidence = e.confidence;
    first_seen = format_time db.texts e.first_seen;
    last_seen = format_time db.texts e.last_seen;
  }

  -- ON CONFLICT(project_id, id) DO UPDATE SET
  abbrev pub edge_conflict : EdgeRow F → EdgeRow F → EdgeRow F
  edge_conflict old excluded = record old {
    confidence = excluded.confidence;
    last_seen = excluded.last_seen;
  }

  -- UpsertEdge behind the fields that it fills in
  unfoldable pub upsert_filled_edge : Edge F → Stored T → Result Error (Stored T)
  unfolding with_existing_edge edge_row
  upsert_filled_edge e s = do
    existing ← get_edge s e.project_id e.id
    edges ← query_result (
        db.edges.upsert_row edge_conflict (row_key e.project_id e.id)
          (edge_row (with_existing_edge existing e)) s.edges)
    ok (record s { edges = edges })

  -- UpsertEdge
  unfoldable pub upsert_edge : ℕ → Edge F → Stored T → Result Error (Edge F × Stored T)
  unfolding filled_edge
  upsert_edge now e s = do s' ← upsert_filled_edge (filled_edge now e) s; ok (filled_edge now e, s')

  unfoldable pub scan_edges : List (EdgeRow F) → List (Edge F)
  scan_edges [] = []
  scan_edges (row ∷ rows) = scan_edge row ∷ scan_edges rows

  -- queryEdges; the statement has no ORDER BY
  unfoldable pub query_edges : Stored T → (EdgeRow F → Bool) → Result Error (List (Edge F))
  unfolding scan_edges
  query_edges s wanted = do
    rows ← query_result (db.edges.select_rows wanted (λ _. []) s.edges)
    ok (scan_edges rows)

  -- the WHERE of ListEdgesFrom and ListEdgesTo
  unfoldable pub edge_from : Bytes → Bytes → Bytes → EdgeRow F → Bool
  unfolding eq
  edge_from project src rel row =
      eq row.project_id project && (eq row.src_id src && (eq rel [] || eq row.rel rel))

  unfoldable pub edge_to : Bytes → Bytes → Bytes → EdgeRow F → Bool
  unfolding eq
  edge_to project dst rel row =
      eq row.project_id project && (eq row.dst_id dst && (eq rel [] || eq row.rel rel))

  -- ListEdgesFrom
  unfoldable pub list_edges_from : Stored T → Bytes → Bytes → Bytes → Result Error (List (Edge F))
  unfolding edge_from query_edges
  list_edges_from s project src rel = query_edges s (edge_from project src rel)

  -- ListEdgesTo
  unfoldable pub list_edges_to : Stored T → Bytes → Bytes → Bytes → Result Error (List (Edge F))
  unfolding edge_to query_edges
  list_edges_to s project dst rel = query_edges s (edge_to project dst rel)
