-- ===== src/Workerpool/Progress.antt =====
-- `Run` (internal/workerpool/pool.go) ends: it never stands still before it returns, and takes a number
-- of steps that the number of items bounds. A call of `fn` may return at any time.
use nett.Prelude.{
  ℕ, zero, suc, ◌+◌, ◌*◌, ◌≤◌, ◌<◌, Bool, true, false, List, [], ◌∷◌, ◌≡◌, ◌≢◌, refl, ◌⊎◌, inl, inr,
  length, length-middle, Bool-cases, ltb, ltb→lt, arith,
}
use nett.Text.Decimal.{ℤ}
use nett.Workerpool.{Phase, Pool, start, Step, Run, capacity}
use nett.Workerpool.Invariant.{IsPool, Run-IsPool}

-- the steps that a phase has before it
abbrev phase_steps : Phase → ℕ
phase_steps Phase.looping = 4
phase_steps Phase.selecting = 3
phase_steps Phase.launching = 2
phase_steps Phase.waiting = 1
phase_steps Phase.returned = 0

abbrev cancel_steps : Bool → ℕ
cancel_steps true = 0
cancel_steps false = 1

cancel_steps-le : (c : Bool) → cancel_steps c ≤ 1
cancel_steps-le true = omega arith
cancel_steps-le false = omega arith

capacity-IsPositive : (concurrency : ℤ) → 1 ≤ capacity concurrency
capacity-IsPositive (ℤ.pos zero) = omega arith
capacity-IsPositive (ℤ.pos (suc n)) = omega arith
capacity-IsPositive (ℤ.negsuc n) = omega arith

module _ {A : Type 0} where
  -- a bound of the steps that a pool has before it
  abbrev steps_left : Pool A → ℕ
  steps_left s =
      6 * length s.rest
      + phase_steps s.phase
      + 2 * length s.running
      + length s.released
      + cancel_steps s.cancelled

  Step-steps_left : (limit : ℕ) {s t : Pool A} → Step limit s t → steps_left t < steps_left s
  Step-steps_left limit (Step.cancel e) = rw e (omega arith)
  Step-steps_left limit (Step.no_items e r) = rw e (omega arith)
  Step-steps_left limit (Step.break_loop e r c) = rw e (omega arith)
  Step-steps_left limit (Step.go_on e r c) = rw e (omega arith)
  Step-steps_left limit (Step.acquire e f) = rw e (omega arith)
  Step-steps_left limit (Step.break_select e c) = rw e (omega arith)
  Step-steps_left limit (Step.launch e r) = rw (e, r) (omega arith)
  Step-steps_left limit (Step.release {x} xs ys e) =
      let size = length-middle x xs ys e in omega arith
  Step-steps_left limit (Step.finish {x} xs ys e) =
      let size = length-middle x xs ys e in omega arith
  Step-steps_left limit (Step.returns e z) = rw e (omega arith)

  Run-steps_left :
      (limit : ℕ) {s : Pool A} {n : ℕ} {t : Pool A}
      → Run limit s n t
      → n + steps_left t ≤ steps_left s
  Run-steps_left limit Run.here = omega arith
  Run-steps_left limit (Run.next before step) =
      let less = Step-steps_left limit step in
      let bound = Run-steps_left limit before in omega arith

  -- Some goroutine can take a step: one that is not the cancelling of the context.
  abbrev pub Moves : ℕ → Pool A → Type 0
  Moves limit s = (t : Pool A) × Step limit s t × (t.cancelled ≡ s.cancelled)

  -- a pool with a call that runs, or with a slot that was freed, moves on
  running-Moves :
      (limit : ℕ) (s : Pool A) (xs : List A) → s.running ≡ xs → 0 < length xs → Moves limit s
  running-Moves limit s [] e h = absurd (omega arith)
  running-Moves limit s (x ∷ xs) e h = (_, Step.release [] xs e, refl)

  released-Moves :
      (limit : ℕ) (s : Pool A) (xs : List A) → s.released ≡ xs → 0 < length xs → Moves limit s
  released-Moves limit s [] e h = absurd (omega arith)
  released-Moves limit s (x ∷ xs) e h = (_, Step.finish [] xs e, refl)

  -- the goroutines move on while the wait group counts some
  counted-Moves :
      (limit : ℕ) (items : List A) (s : Pool A) → IsPool limit items s → 0 < s.wg → Moves limit s
  counted-Moves limit items s h some =
      let count = h.wg in
      elim (Bool-cases (ltb 0 (length s.running))) [
        | inl e ↦ running-Moves limit s s.running refl (ltb→lt 0 (length s.running) e)
        | inr e ↦ released-Moves limit s s.released refl (ground arith)
      ]

  looping-Moves :
      (limit : ℕ) (s : Pool A) (rest : List A)
      → s.phase ≡ Phase.looping
      → s.rest ≡ rest
      → Moves limit s
  looping-Moves limit s [] e r = (_, Step.no_items e r, refl)
  looping-Moves limit s (x ∷ xs) e r = elim (Bool-cases s.cancelled) [
    | inl c ↦ (_, Step.break_loop e r c, refl)
    | inr c ↦ (_, Step.go_on e r c, refl)
  ]

  launching-Moves :
      (limit : ℕ) (s : Pool A) (rest : List A)
      → s.phase ≡ Phase.launching
      → s.rest ≡ rest
      → rest ≢ []
      → Moves limit s
  launching-Moves limit s [] e r h = absurd (h refl)
  launching-Moves limit s (x ∷ xs) e r h = (_, Step.launch e r, refl)

  selecting-Moves :
      (limit : ℕ) (items : List A) (s : Pool A)
      → 1 ≤ limit
      → IsPool limit items s
      → s.phase ≡ Phase.selecting
      → Moves limit s
  selecting-Moves limit items s one h e = elim (Bool-cases (ltb s.slots limit)) [
    | inl free ↦ (_, Step.acquire e (ltb→lt s.slots limit free), refl)
    | inr full ↦ let count = rw e at h.slots in running-Moves limit s s.running refl (ground arith)
  ]

  waiting-Moves :
      (limit : ℕ) (items : List A) (s : Pool A)
      → IsPool limit items s
      → s.phase ≡ Phase.waiting
      → Moves limit s
  waiting-Moves limit items s h e = elim (Bool-cases (ltb 0 s.wg)) [
    | inl some ↦ counted-Moves limit items s h (ltb→lt 0 s.wg some)
    | inr none_left ↦ (_, Step.returns e (ground arith), refl)
  ]

  Moves-or_returned :
      (limit : ℕ) (items : List A) (s : Pool A) (p : Phase)
      → 1 ≤ limit
      → IsPool limit items s
      → s.phase ≡ p
      → (s.phase ≡ Phase.returned) ⊎ Moves limit s
  Moves-or_returned limit items s Phase.looping one h e = inr (looping-Moves limit s s.rest e refl)
  Moves-or_returned limit items s Phase.selecting one h e =
      inr (selecting-Moves limit items s one h e)
  Moves-or_returned limit items s Phase.launching one h e =
      inr (launching-Moves limit s s.rest e refl (rw e at h.items_left))
  Moves-or_returned limit items s Phase.waiting one h e = inr (waiting-Moves limit items s h e)
  Moves-or_returned limit items s Phase.returned one h e = inl e

  -- `Run` ends: behind any steps it has returned, or one of its goroutines can take a further one
  -- although the context is not cancelled by it, and there are at most six steps for each item and
  -- five more. A call of `fn` may return at any time.
  pub Run-ends :
      (concurrency : ℤ) (items : List A) (c : Bool) {n : ℕ} {t : Pool A}
      → Run (capacity concurrency) (start c items) n t
      → (n ≤ 6 * length items + 5) × ((t.phase ≡ Phase.returned) ⊎ Moves (capacity concurrency) t)
  Run-ends concurrency items c {t = t} run =
      let bound = Run-steps_left (capacity concurrency) run in
      let once = cancel_steps-le c in
      (
        omega arith,
        Moves-or_returned _ items t t.phase (capacity-IsPositive concurrency)
            (Run-IsPool _ items c run) refl,
      )
