-- ===== src/Workerpool/Examples.antt =====
-- A pool for one item, from its start to its end.
use nett.Prelude.{ℕ, ◌*◌, ◌+◌, ◌≤◌, true, false, List, [], ◌∷◌, ◌++◌, ◌≡◌, refl, ◌⊎◌, length, arith}
use mathlib.Core.List.{Perm}
use nett.Text.Decimal.{ℤ}
use nett.Workerpool.{Phase, Pool, start, Step, Run, capacity}
use nett.Workerpool.Calls.{Run-bounded, Run-once, Run-complete, Run-cancelled}
use nett.Workerpool.Progress.{Moves, Run-ends}

abbrev one_item : List ℕ
one_item = 7 ∷ []

-- the call of `fn` runs
abbrev at_work : Pool ℕ
at_work = record (start false one_item) {
  rest = [];
  slots = 1;
  wg = 1;
  launched = one_item;
  running = one_item;
}

abbrev ended : Pool ℕ
ended = record (start false one_item) {
  phase = Phase.returned;
  rest = [];
  launched = one_item;
  finished = one_item;
}

Run-at_work : Run (capacity (ℤ.pos 0)) (start false one_item) 3 at_work
Run-at_work =
    Run.next
      (Run.next (Run.next Run.here (Step.go_on refl refl refl)) (Step.acquire refl (omega arith)))
      (Step.launch refl refl)

Run-at_end : Run (capacity (ℤ.pos 0)) (start false one_item) 7 ended
Run-at_end =
    Run.next
      (Run.next (Run.next (Run.next Run-at_work (Step.release [] [] refl)) (Step.finish [] [] refl))
        (Step.no_items refl refl))
      (Step.returns refl refl)

-- the context is cancelled before the start
Run-stopped :
    Run 1 (start true one_item) 2 (record (start true one_item) { phase = Phase.returned })
Run-stopped = Run.next (Run.next Run.here (Step.break_loop refl refl refl)) (Step.returns refl refl)

Run-bounded_example : length at_work.running ≤ 1
Run-bounded_example = Run-bounded (ℤ.pos 0) one_item false Run-at_work

Run-once_example :
    (at_work.launched ++ at_work.rest ≡ one_item)
    × Perm (at_work.running ++ (at_work.released ++ at_work.finished)) at_work.launched
Run-once_example = Run-once (ℤ.pos 0) one_item false Run-at_work

Run-complete_example :
    (ended.running ≡ [])
    × Perm ended.finished ended.launched
    × ((ended.launched ≡ one_item) ⊎ (ended.cancelled ≡ true))
Run-complete_example = Run-complete (ℤ.pos 0) one_item false Run-at_end refl

Run-cancelled_example :
    length (record (start true one_item) { phase = Phase.returned }).launched ≤ 0
Run-cancelled_example = Run-cancelled 1 (start true one_item) refl Run-stopped

Run-ends_example :
    (7 ≤ 6 * length one_item + 5)
    × ((ended.phase ≡ Phase.returned) ⊎ Moves (capacity (ℤ.pos 0)) ended)
Run-ends_example = Run-ends (ℤ.pos 0) one_item false Run-at_end
