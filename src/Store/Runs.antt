-- ===== src/Store/Runs.antt =====
-- internal/store/events.go: the runs of modules.
pub mod Resumed
use nett.Prelude.{ℕ, Bool, Option, none, some, List, [], ◌∷◌, Result, ok, err, ◌>>=◌}
use nett.Text.{Bytes}
use nett.Model.{ModuleRun}
use nett.Model.Values.{Object}
use nett.Store.Tables.{Table}
use nett.Store.Rows.{
  RunRow, Stored, Database, Error, query_result, format_time, parse_time, marshal_json,
  unmarshal_json,
}
use nett.Store.Assets.{or_text}

-- the key (project_id, module, target)
abbrev pub run_key : Bytes → Bytes → Bytes → Bytes × Bytes × Bytes
run_key project name target = (project, name, target)

-- ON CONFLICT(project_id, module, target) DO UPDATE SET
abbrev pub run_conflict : RunRow → RunRow → RunRow
run_conflict old excluded = record old {
  input_fp = excluded.input_fp;
  cursor_json = excluded.cursor_json;
  status = excluded.status;
  error = excluded.error;
  started_at = or_text old.started_at excluded.started_at;
  finished_at = excluded.finished_at;
}

module _ {F X T : Type 0} (db : Database F X T) where
  -- the row of the INSERT
  unfoldable pub run_row : ModuleRun X → Bytes → RunRow
  unfolding format_time
  run_row r cursor_json = record {
    project_id = r.project_id;
    run_module = r.run_module;
    target = r.target;
    input_fp = r.input_fp;
    cursor_json = cursor_json;
    status = r.status;
    error = r.error;
    started_at = format_time db.texts r.started_at;
    finished_at = format_time db.texts r.finished_at;
  }

  -- UpsertModuleRun
  unfoldable pub upsert_module_run : ModuleRun X → Stored T → Result Error (Stored T)
  unfolding run_row
  upsert_module_run r s = do
    cursor_json ← marshal_json db.texts r.cursor
    runs ← query_result (
        db.runs.upsert_row run_conflict (run_key r.project_id r.run_module r.target)
          (run_row r cursor_json) s.runs)
    ok (record s { runs = runs })

  abbrev pub run_of_row : RunRow → Object X → ModuleRun X
  run_of_row row cursor = record {
    project_id = row.project_id;
    run_module = row.run_module;
    target = row.target;
    input_fp = row.input_fp;
    cursor = cursor;
    status = row.status;
    error = row.error;
    started_at = parse_time db.texts row.started_at;
    finished_at = parse_time db.texts row.finished_at;
  }

  unfoldable pub scan_run : Option RunRow → Result Error (Option (ModuleRun X))
  scan_run none = ok none
  scan_run (some row) = do
    cursor ← unmarshal_json db.texts row.cursor_json
    ok (some (run_of_row row cursor))

  -- GetModuleRun
  unfoldable pub get_module_run :
      Stored T → Bytes → Bytes → Bytes → Result Error (Option (ModuleRun X))
  unfolding scan_run
  get_module_run s project name target = do
    found ← query_result (db.runs.select_row s.runs (run_key project name target))
    scan_run found
