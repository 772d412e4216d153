-- ===== src/Store/Runs/Resumed.antt =====
-- What `GetModuleRun` finds behind `UpsertModuleRun` (internal/store/events.go).
use nett.Prelude.{
  ℕ, ◌==◌, if◌then◌else◌, Bool-cases, inl, inr, ◌∙◌, ◌<◌, ◌≡◌, ◌≢◌, refl, sym, Option, none, some,
  [], ◌∷◌, ok, >>=-eq-ok, Ensures, Ensures-self, Ensures-bind, Ensures-pure, ap, ok-injective,
}
use nett.Text.{Bytes}
use nett.Model.{ModuleRun}
use nett.Model.Values.{Object, lookup}
use nett.Store.Tables.{IsTable, after_upsert}
use nett.Store.Rows.{
  RunRow, Stored, Database, IsTexts, query_result, query_result-eq_ok, format_time, parse_time,
  marshal_json, unmarshal_json, end_of_time, parse_time-format_time, unmarshal_json-marshal_json,
}
use nett.Store.Assets.{or_text}
use nett.Store.Assets.Observed.{first_of}
use nett.Store.Runs.{
  run_key, run_conflict, run_row, upsert_module_run, run_of_row, scan_run, get_module_run,
}

-- The start of a run behind its update: the one that it had, if it had one.
abbrev pub started_of : {X : Type 0} → Option (ModuleRun X) → ModuleRun X → ℕ
started_of none a = a.started_at
started_of (some o) a = if o.started_at == 0 then a.started_at else o.started_at

-- The run `b` is `a`, but has the name of `old` and, if `old` was started, its start.
pub record Resumes {X : Type 0} (old : Option (ModuleRun X)) (a b : ModuleRun X) : Type 0 where
  pub project_id : b.project_id ≡ (first_of old a).project_id
  pub run_module : b.run_module ≡ (first_of old a).run_module
  pub target : b.target ≡ (first_of old a).target
  pub input_fp : b.input_fp ≡ a.input_fp
  pub status : b.status ≡ a.status
  pub error : b.error ≡ a.error
  pub started_at : b.started_at ≡ started_of old a
  pub finished_at : b.finished_at ≡ a.finished_at
  pub cursor : (k : Bytes) → lookup k b.cursor ≡ lookup k a.cursor

same_row : {r r' : RunRow} → some r ≡ some r' → r ≡ r'
same_row h = cc

module _ {F X T : Type 0} (db : Database F X T) (laws : IsTable db.runs)
    (tx : IsTexts db.texts) where
  after_new_run :
      (a : ModuleRun X) (json : Bytes)
      → a.started_at < end_of_time
      → a.finished_at < end_of_time
      → marshal_json db.texts a.cursor ≡ ok json
      → (b : ModuleRun X) × (scan_run db (some (run_row db a json)) ≡ ok (some b))
        × Resumes none a b
  unfolding scan_run run_row
  after_new_run a json started finished e =
      let (p, read, valid, same) = unmarshal_json-marshal_json db.texts tx a.cursor e in
      (
        run_of_row db (run_row db a json) p,
        rw read,
        record {
          project_id = refl;
          run_module = refl;
          target = refl;
          input_fp = refl;
          status = refl;
          error = refl;
          started_at = parse_time-format_time db.texts tx a.started_at started;
          finished_at = parse_time-format_time db.texts tx a.finished_at finished;
          cursor = same;
        },
      )

  -- A column holds a time that was written by `formatTime`.
  abbrev pub IsTime : Bytes → Type 0
  IsTime s = (n : ℕ) × (n < end_of_time) × (s ≡ format_time db.texts n)

  -- the row of a run, where there is one, has a time in the column of its start
  abbrev pub IsWritten : Stored T → Bytes × Bytes × Bytes → Type 0
  IsWritten s key =
      (row : RunRow) → db.runs.select_row s.runs key ≡ ok (some row) → IsTime row.started_at

  or_text-left : (s t : Bytes) → s ≢ [] → or_text s t ≡ s
  or_text-left [] t h = absurd (h refl)
  or_text-left (c ∷ s) t h = refl

  or_text-IsTime : (s t : Bytes) → IsTime s → IsTime t → IsTime (or_text s t)
  or_text-IsTime [] t h k = k
  or_text-IsTime (c ∷ s) t h k = h

  -- the start that is read behind an update
  or_text-started :
      (s : Bytes) (n : ℕ)
      → IsTime s
      → n < end_of_time
      → parse_time db.texts (or_text s (format_time db.texts n))
        ≡ (if parse_time db.texts s == 0 then n else parse_time db.texts s)
  or_text-started s n (m, early, e) late =
      let back = parse_time-format_time db.texts tx m early in
      elim (Bool-cases (m == 0)) [
        | inl zero_time ↦
            let empty : format_time db.texts m ≡ [] = unfold format_time in rw zero_time refl in
            rw (e, back, zero_time)
              (ap (λ x. parse_time db.texts (or_text x (format_time db.texts n))) empty
                ∙ parse_time-format_time db.texts tx n late)
        | inr some_time ↦
            let text : format_time db.texts m ≡ db.texts.print_time m =
              unfold format_time in rw some_time refl in
            rw (e, back, some_time)
              (ap (parse_time db.texts) (
                  or_text-left (format_time db.texts m) (format_time db.texts n)
                    (λ none_there. tx.time_text m early (sym text ∙ none_there)))
                ∙ back)
      ]

  after_known_run :
      (r : RunRow) (v : Object X) (a : ModuleRun X) (json : Bytes)
      → IsTime r.started_at
      → a.started_at < end_of_time
      → a.finished_at < end_of_time
      → marshal_json db.texts a.cursor ≡ ok json
      → (b : ModuleRun X) × (scan_run db (some (run_conflict r (run_row db a json))) ≡ ok (some b))
        × Resumes (some (run_of_row db r v)) a b
  unfolding scan_run run_row
  after_known_run r v a json h started finished e =
      let (p, read, valid, same) = unmarshal_json-marshal_json db.texts tx a.cursor e in
      (
        run_of_row db (run_conflict r (run_row db a json)) p,
        rw read,
        record {
          project_id = refl;
          run_module = refl;
          target = refl;
          input_fp = refl;
          status = refl;
          error = refl;
          started_at = or_text-started r.started_at a.started_at h started;
          finished_at = parse_time-format_time db.texts tx a.finished_at finished;
          cursor = same;
        },
      )

  after_any_run :
      (row : Option RunRow) (old : Option (ModuleRun X)) (a : ModuleRun X) (json : Bytes)
      → a.started_at < end_of_time
      → a.finished_at < end_of_time
      → ((r : RunRow) → row ≡ some r → IsTime r.started_at)
      → scan_run db row ≡ ok old
      → marshal_json db.texts a.cursor ≡ ok json
      → (b : ModuleRun X) × (scan_run db (some (after_upsert run_conflict row (run_row db a json)))
          ≡ ok (some b))
        × Resumes old a b
  unfolding scan_run
  after_any_run none none a json started finished h scan e = after_new_run a json started finished e
  after_any_run none (some o) a json started finished h scan e = cc scan
  after_any_run (some r) old a json started finished h scan e =
      let (v, read, same) =
        >>=-eq-ok (unmarshal_json db.texts r.cursor_json) (λ x. ok (some (run_of_row db r x)))
          scan in
      let known = sym (ok-injective same) in
      rw known (after_known_run r v a json (h r refl) started finished e)

  after_upsert-IsTime :
      (row : Option RunRow) (a : ModuleRun X) (json : Bytes)
      → a.started_at < end_of_time
      → ((r : RunRow) → row ≡ some r → IsTime r.started_at)
      → IsTime (after_upsert run_conflict row (run_row db a json)).started_at
  unfolding run_row
  after_upsert-IsTime none a json started h = (a.started_at, started, refl)
  after_upsert-IsTime (some r) a json started h =
      or_text-IsTime r.started_at (format_time db.texts a.started_at) (h r refl)
        (a.started_at, started, refl)

  -- Behind a call of `UpsertModuleRun` that succeeds, `GetModuleRun` gives the run with its new state,
  -- but with the name of the run that was there, if one was there, and with its start, if it had one: a
  -- run that was there with no start gets the new one. The times of the call lie before the year 10000,
  -- and the start of a row that was there was written by `formatTime`, which holds again behind the call.
  pub upsert_module_run-Resumes :
      (a : ModuleRun X) (s : Stored T) (old : Option (ModuleRun X))
      → a.started_at < end_of_time
      → a.finished_at < end_of_time
      → get_module_run db s a.project_id a.run_module a.target ≡ ok old
      → IsWritten s (run_key a.project_id a.run_module a.target)
      → Ensures
          (λ _. Unit {0})
          (λ t.
            (b : ModuleRun X) × (get_module_run db t a.project_id a.run_module a.target
              ≡ ok (some b))
            × Resumes old a b
            × IsWritten t (run_key a.project_id a.run_module a.target))
          (upsert_module_run db a s)
  unfolding upsert_module_run get_module_run
  upsert_module_run-Resumes a s old started finished got h =
      let key = run_key a.project_id a.run_module a.target in
      let (row, selected, scan) =
        >>=-eq-ok (query_result (db.runs.select_row s.runs key)) (λ x. scan_run db x) got in
      let there = query_result-eq_ok _ selected in
      let known : (r : RunRow) → row ≡ some r → IsTime r.started_at =
        λ r e. h r (there ∙ ap ok e) in
      Ensures-bind (marshal_json db.texts a.cursor) _ (Ensures-self _) λ json written.
        let upsert = db.runs.upsert_row run_conflict key (run_row db a json) s.runs in
        Ensures-bind (query_result upsert) _ (Ensures-self (query_result upsert)) λ runs done.
          let (b, found, resumes) =
            after_any_run row old a json started finished known scan written in
          let stored =
            laws.upserted run_conflict key (run_row db a json) s.runs runs row there
              (query_result-eq_ok _ done) in
          Ensures-pure (
            b,
            rw stored found,
            resumes,
            λ r e.
                let same = same_row (ok-injective (sym stored ∙ e)) in
                rw (sym same) (after_upsert-IsTime row a json started known),
          )
