-- ===== src/Store/Edges/Kept.antt =====
-- `UpsertEdge` (internal/store/edges.go) against the edge that the store knew before the call.
use nett.Prelude.{
  ℕ, ◌<◌, ◌≡◌, Option, none, some, if◌then◌else◌, ok, >>=-eq-ok, Ensures, Ensures-self,
  Ensures-bind, Ensures-pure, ok-injective, sym, ap,
}
use nett.Model.{Edge}
use nett.Store.Tables.{IsTable, after_upsert}
use nett.Store.Rows.{
  EdgeRow, Stored, Database, IsTexts, row_key, query_result, query_result-eq_ok, end_of_time,
  parse_time-format_time,
}
use nett.Store.Assets.Observed.{first_of}
use nett.Store.Edges.{
  scan_edge, scan_edge_found, get_edge, filled_edge, with_existing_edge, edge_row, edge_conflict,
  upsert_filled_edge, upsert_edge,
}

module _ {F X T : Type 0} (db : Database F X T) where
  abbrev higher_confidence : Option (Edge F) → F → F
  higher_confidence none c = c
  higher_confidence (some o) c = if db.greater o.confidence c then o.confidence else c

  -- What is known of an edge behind an observation `e` of it, where `old` was known before.
  abbrev pub known_edge : Option (Edge F) → Edge F → Edge F
  known_edge old e = record (first_of old e) {
    confidence = higher_confidence old e.confidence;
    last_seen = e.last_seen;
  }

  -- The outcome of an upsert of an edge.
  pub record KeepsEdge (s : Stored T) (e : Edge F) (t : Stored T) : Type 0 where
    pub old : Option (Edge F)
    pub before : get_edge db s e.project_id e.id ≡ ok old
    pub after : get_edge db t e.project_id e.id ≡ ok (some (known_edge old e))

  module _ (laws : IsTable db.edges) (tx : IsTexts db.texts) where
    scan_edge-after :
        (row : Option (EdgeRow F)) (e : Edge F)
        → e.first_seen < end_of_time
        → e.last_seen < end_of_time
        → scan_edge db (
            after_upsert
              (edge_conflict db)
              row
              (edge_row db (with_existing_edge db (scan_edge_found db row) e)))
          ≡ known_edge (scan_edge_found db row) e
    unfolding with_existing_edge edge_row
    scan_edge-after none e first last = rw (
      parse_time-format_time db.texts tx e.first_seen first,
      parse_time-format_time db.texts tx e.last_seen last,
    )
    scan_edge-after (some r) e first last = rw (parse_time-format_time db.texts tx e.last_seen last)

    upsert_filled_edge-KeepsEdge :
        (e : Edge F) (s : Stored T)
        → e.first_seen < end_of_time
        → e.last_seen < end_of_time
        → Ensures (λ _. Unit {0}) (λ t. KeepsEdge s e t) (upsert_filled_edge db e s)
    unfolding upsert_filled_edge get_edge
    upsert_filled_edge-KeepsEdge e s first last =
        let key = row_key e.project_id e.id in
        Ensures-bind (get_edge db s e.project_id e.id) _
          (Ensures-self (get_edge db s e.project_id e.id))
          λ old got.
            let (row, selected, scan) =
              >>=-eq-ok (query_result (db.edges.select_row s.edges key))
                (λ x. ok (scan_edge_found db x)) got in
            let row' = edge_row db (with_existing_edge db old e) in
            let upsert = db.edges.upsert_row (edge_conflict db) key row' s.edges in
            Ensures-bind (query_result upsert) _ (Ensures-self (query_result upsert)) λ edges done.
              let stored =
                laws.upserted (edge_conflict db) key row' s.edges edges row
                  (query_result-eq_ok _ selected) (query_result-eq_ok _ done) in
              Ensures-pure (record {
                old = old;
                before = got;
                after =
                    rw (stored, sym (ok-injective scan))
                      (ap (λ x. ok (some x)) (scan_edge-after row e first last));
              })

    -- `UpsertEdge`, where it succeeds, keeps the ends, the relation and the first time of an edge that
    -- is there, takes the higher confidence and the new last time, and stores an edge that is not there
    -- as it is given, for times before the year 10000.
    pub upsert_edge-KeepsEdge :
        (now : ℕ) (e : Edge F) (s : Stored T)
        → (filled_edge db now e).first_seen < end_of_time
        → (filled_edge db now e).last_seen < end_of_time
        → Ensures (λ _. Unit {0}) (λ r. KeepsEdge s r.0 r.1) (upsert_edge db now e s)
    unfolding upsert_edge
    upsert_edge-KeepsEdge now e s first last =
        Ensures-bind _ _ (upsert_filled_edge-KeepsEdge (filled_edge db now e) s first last)
          λ t h. Ensures-pure h
