-- ===== src/Store/Trail.antt =====
-- internal/store/provenance.go: the observations of assets and edges, which are only added.
use nett.Prelude.{ℕ, ◌&&◌, List, map, Result, ok, ◌>>=◌}
use nett.Text.{Bytes, eq}
use nett.Model.{Provenance}
use nett.Store.Rows.{ProvenanceRow, Stored, Database, Error, query_result, format_time, parse_time}
use nett.Store.Assets.{or_time}

module _ {F X T : Type 0} (db : Database F X T) where
  -- the row of the INSERT
  unfoldable pub provenance_row : Provenance F → ProvenanceRow F
  unfolding format_time
  provenance_row p = record {
    project_id = p.project_id;
    subject_id = p.subject_id;
    subject_kind = p.subject_kind;
    source_module = p.source_module;
    source = p.source;
    evidence = p.evidence;
    confidence = p.confidence;
    parent_id = p.parent_id;
    observed_at = format_time db.texts p.observed_at;
  }

  -- AddProvenance: the observation with its time and its number
  unfoldable pub add_provenance :
      ℕ → Provenance F → Stored T → Result Error (Provenance F × Stored T)
  unfolding provenance_row
  add_provenance now p s = do
    (n, provenance) ← query_result (
        db.provenance.append_row
          (provenance_row (record p { observed_at = or_time p.observed_at now })) s.provenance)
    ok (
      record p { observed_at = or_time p.observed_at now; id = n },
      record s { provenance = provenance },
    )

  abbrev pub scan_provenance : ℕ × ProvenanceRow F → Provenance F
  scan_provenance (n, row) = record {
    id = n;
    project_id = row.project_id;
    subject_id = row.subject_id;
    subject_kind = row.subject_kind;
    source_module = row.source_module;
    source = row.source;
    evidence = row.evidence;
    confidence = row.confidence;
    parent_id = row.parent_id;
    observed_at = parse_time db.texts row.observed_at;
  }

  -- ListProvenance
  unfoldable pub list_provenance : Stored T → Bytes → Bytes → Result Error (List (Provenance F))
  unfolding eq
  list_provenance s project subject = do
    rows ← query_result (
        db.provenance.select_log (λ row. eq row.project_id project && eq row.subject_id subject)
          (λ row. row.observed_at) s.provenance)
    ok (map scan_provenance rows)
