-- ===== src/Store/Projects.antt =====
-- internal/store/store.go: projects.
use nett.Prelude.{ℕ, Option, none, some, Result, ok, ◌>>=◌}
use nett.Text.{Bytes, codes}
use nett.Model.{Project}
use nett.Store.Rows.{ProjectRow, Stored, Database, Error, query_result, format_time, parse_time}

module _ {F X T : Type 0} (db : Database F X T) where
  -- CreateProject
  unfoldable pub create_project : ℕ → Bytes → Bytes → Bytes → Stored T → Result Error (Stored T)
  unfolding format_time
  create_project now id name config_json s = do
    (n, projects) ← query_result (
        db.projects.insert_row id
          (record {
            id = id;
            name = name;
            created_at = format_time db.texts now;
            updated_at = format_time db.texts now;
            config_json = config_json;
            status = codes "active";
          })
          s.projects)
    ok (record s { projects = projects })

  abbrev pub scan_project : Option ProjectRow → Option Project
  scan_project none = none
  scan_project (some row) = some (record {
    id = row.id;
    name = row.name;
    created_at = parse_time db.texts row.created_at;
    updated_at = parse_time db.texts row.updated_at;
    config_json = row.config_json;
    status = row.status;
  })

  -- GetProject
  unfoldable pub get_project : Stored T → Bytes → Result Error (Option Project)
  get_project s id = do
    found ← query_result (db.projects.select_row s.projects id)
    ok (scan_project found)
