-- ===== src/Store/Events/Once.antt =====
-- The loop guard of internal/store/events.go: an event is inserted once, whatever the store does between
-- two calls of `InsertEvent`.
use nett.Prelude.{
  ℕ, Bool, false, not, ◌==◌, ◌≡◌, ◌≢◌, ◌⊎◌, ap, refl, sym, ◌∙◌, Option, some, inl, inr, Bool-cases,
  ok, >>=-eq-ok, Ensures, Ensures-self, Ensures-bind, Ensures-pure, Ensures-ok, Ensures-map,
  ok-injective,
}
use mathlib.Core.Bool.{false≢true}
use nett.Text.{Bytes, eq}
use nett.Text.Affixes.{eq_iff}
use nett.Model.{Event}
use nett.Store.Tables.{IsTable, after_insert, inserted_rows}
use nett.Store.Rows.{
  EventRow, Stored, Database, row_key, query_result, query_result-eq_ok, marshal_json,
}
use nett.Store.Events.{
  filled_event, event_row, insert_filled_event, insert_event, mark_event_status,
}

eq-apart : (s t : Bytes) → eq s t ≡ false → s ≢ t
eq-apart s t e h = false≢true (sym e ∙ (eq_iff s t).1 h)

module _ {F X T : Type 0} (db : Database F X T) where
  -- The event log holds an event.
  pub record IsRecorded (s : Stored T) (project id : Bytes) : Type 0 where
    pub row : EventRow
    pub found : db.events.select_row s.events (row_key project id) ≡ ok (some row)

  -- what a call of the store does with the event log
  pub data Step (s : Stored T) : Stored T → Type 0 where
    inserts :
        (now : ℕ) (e : Event X) {b : Bool} {e' : Event X} {t : Stored T}
        → insert_event db now e s ≡ ok (b, e', t)
        → Step s t
    marks :
        (now : ℕ) (project id status : Bytes) {t : Stored T}
        → mark_event_status db now project id status s ≡ ok t
        → Step s t
    -- the calls on the other tables
    keeps : {t : Stored T} → t.events ≡ s.events → Step s t

  pub data Steps (s : Stored T) : Stored T → Type 0 where
    here : Steps s s
    next : {t u : Stored T} → Steps s t → Step t u → Steps s u

  same_key : (p q i j : Bytes) → (row_key p i ≡ row_key q j) ⊎ (row_key p i ≢ row_key q j)
  same_key p q i j = elim (Bool-cases (eq p q)) [
    | inl e ↦ elim (Bool-cases (eq i j)) [
      | inl e' ↦ inl (rw ((eq_iff p q).0 e, (eq_iff i j).0 e'))
      | inr e' ↦ inr λ h. eq-apart i j e' (ap (λ (k : Bytes × Bytes). k.1) h)
    ]
    | inr e ↦ inr λ h. eq-apart p q e (ap (λ (k : Bytes × Bytes). k.0) h)
  ]

  module _ (laws : IsTable db.events) where
    -- what an `INSERT` that succeeds says of the log
    insert_row-IsRecorded :
        (p q i j : Bytes) (row : EventRow) (s : Stored T) (n : ℕ) (events : T)
        → IsRecorded s p i
        → db.events.insert_row (row_key q j) row s.events ≡ ok (n, events)
        → IsRecorded (record s { events = events }) p i
    insert_row-IsRecorded p q i j row s n events h e = elim (same_key p q i j) [
      | inl same ↦ record {
        row = h.row;
        found =
            rw same
              (laws.inserted (row_key q j) row s.events events n (some h.row)
                (rw (sym same) h.found) e).1;
      }
      | inr apart ↦ record {
        row = h.row;
        found =
            laws.insert_other (row_key q j) (row_key p i) row s.events events n e apart ∙ h.found;
      }
    ]

    update_row-IsRecorded :
        (f : EventRow → EventRow) (p q i j : Bytes) (s : Stored T) (events : T)
        → IsRecorded s p i
        → db.events.update_row f (row_key q j) s.events ≡ ok events
        → IsRecorded (record s { events = events }) p i
    update_row-IsRecorded f p q i j s events h e = elim (same_key p q i j) [
      | inl same ↦ record {
        row = f h.row;
        found =
            rw same
              (laws.updated f (row_key q j) s.events events (some h.row) (rw (sym same) h.found) e);
      }
      | inr apart ↦ record {
        row = h.row;
        found = laws.update_other f (row_key q j) (row_key p i) s.events events e apart ∙ h.found;
      }
    ]

    -- What an insertion that succeeds is: the outcome `b` and the state `t` are those of an `INSERT`.
    record Insertion (project id : Bytes) (s : Stored T) (b : Bool) (t : Stored T) : Type 0 where
      row : EventRow
      n : ℕ
      events : T
      inserted : db.events.insert_row (row_key project id) row s.events ≡ ok (n, events)
      outcome : b ≡ not (n == 0)
      state : t ≡ record s { events = events }

    insert_filled_event-Insertion :
        (e : Event X) (s : Stored T)
        → Ensures
            (λ _. Unit {0})
            (λ r. Insertion e.project_id e.id s r.0 r.1)
            (insert_filled_event db e s)
    unfolding insert_filled_event
    insert_filled_event-Insertion e s =
        Ensures-bind (marshal_json db.texts e.data_object) _ (Ensures-self _) λ json _.
          let insert =
            db.events.insert_row (row_key e.project_id e.id) (event_row db e json) s.events in
          Ensures-bind (query_result insert) _ (Ensures-self (query_result insert)) λ r done.
            Ensures-pure (record {
              row = event_row db e json;
              n = r.0;
              events = r.1;
              inserted = query_result-eq_ok _ done;
              outcome = refl;
              state = refl;
            })

    insert_event-Insertion :
        (now : ℕ) (e : Event X) (s : Stored T)
        → Ensures
            (λ _. Unit {0})
            (λ r. Insertion e.project_id (filled_event db now e).id s r.0 r.2)
            (insert_event db now e s)
    unfolding insert_event
    insert_event-Insertion now e s =
        Ensures-bind _ _ (insert_filled_event-Insertion (filled_event db now e) s)
          λ r h. Ensures-pure (unfold filled_event in h)

    Step-IsRecorded :
        (p i : Bytes) {s t : Stored T} → IsRecorded s p i → Step s t → IsRecorded t p i
    unfolding mark_event_status
    Step-IsRecorded p i {s} {t} h (Step.inserts now e {b} {e'} done) =
        let made = Ensures-ok (insert_event-Insertion now e s) done in
        rw made.state (
          insert_row-IsRecorded p e.project_id i (filled_event db now e).id made.row s made.n
            made.events h made.inserted)
    Step-IsRecorded p i {s} {t} h (Step.marks now project id status done) =
        let (events, e1, e2) =
          >>=-eq-ok (query_result (db.events.update_row _ (row_key project id) s.events)) _ done in
        rw (sym (ok-injective e2))
          (update_row-IsRecorded _ p project i id s events h (query_result-eq_ok _ e1))
    Step-IsRecorded p i {s} {t} h (Step.keeps same) = record {
      row = h.row;
      found = rw same h.found;
    }

    Steps-IsRecorded :
        (p i : Bytes) {s t : Stored T} → IsRecorded s p i → Steps s t → IsRecorded t p i
    Steps-IsRecorded p i h Steps.here = h
    Steps-IsRecorded p i h (Steps.next before step) =
        Step-IsRecorded p i (Steps-IsRecorded p i h before) step

    insert_event-IsRecorded :
        (now : ℕ) (e : Event X) (s : Stored T) (old : Option EventRow)
        (r : Bool × Event X × Stored T)
        → db.events.select_row s.events (row_key e.project_id (filled_event db now e).id) ≡ ok old
        → insert_event db now e s ≡ ok r
        → (r.0 ≡ not (inserted_rows old == 0))
          × IsRecorded r.2 e.project_id (filled_event db now e).id
    insert_event-IsRecorded now e s old r h done =
        let made = Ensures-ok (insert_event-Insertion now e s) done in
        let stored =
          laws.inserted (row_key e.project_id (filled_event db now e).id) made.row s.events
            made.events made.n old h made.inserted in
        (
          made.outcome ∙ rw stored.0,
          rw made.state (record { row = after_insert old made.row; found = stored.1 }),
        )

    -- The loop guard: behind a call of `InsertEvent` that succeeds, and any calls of the store that
    -- succeed, a call with an event of the same project and id inserts nothing, and keeps the row as it is.
    pub insert_event-once :
        (now later : ℕ) (e f : Event X) (s t : Stored T) (old : Option EventRow)
        (r : Bool × Event X × Stored T)
        → db.events.select_row s.events (row_key e.project_id (filled_event db now e).id) ≡ ok old
        → insert_event db now e s ≡ ok r
        → Steps r.2 t
        → row_key f.project_id (filled_event db later f).id
          ≡ row_key e.project_id (filled_event db now e).id
        → Ensures
            (λ _. Unit {0})
            (λ u.
              (u.0 ≡ false)
              × (db.events.select_row u.2.events (row_key f.project_id (filled_event db later f).id)
                  ≡ db.events.select_row t.events
                      (row_key f.project_id (filled_event db later f).id)))
            (insert_event db later f t)
    insert_event-once now later e f s t old r h done steps same =
        let known = Steps-IsRecorded _ _ (insert_event-IsRecorded now e s old r h done).1 steps in
        let found = ap (λ k. db.events.select_row t.events k) same ∙ known.found in
        Ensures-map _
          (λ u made.
            let stored =
              laws.inserted (row_key f.project_id (filled_event db later f).id) made.row t.events
                made.events made.n (some known.row) found made.inserted in
            (made.outcome ∙ rw stored.0, rw (made.state, found) stored.1))
          (insert_event-Insertion later f t)
