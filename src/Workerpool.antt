-- ===== src/Workerpool.antt =====
-- internal/workerpool/pool.go: `Run` as a step relation. The goroutine of `Run` and those of the items
-- take steps in any order, and the context may be cancelled between two of them.
pub mod Invariant
pub mod Calls
pub mod Progress
mod Examples
use nett.Prelude.{ℕ, zero, suc, ◌+◌, ◌-◌, ◌<◌, Bool, true, false, List, [], ◌∷◌, ◌++◌, ◌≡◌}
use nett.Text.Decimal.{ℤ}

-- the capacity of `sem`
abbrev pub capacity : ℤ → ℕ
capacity (ℤ.pos zero) = 1
capacity (ℤ.pos (suc n)) = suc n
capacity (ℤ.negsuc n) = 1

-- Where the goroutine of `Run` stands: at the head of the loop, at the `select`, behind the send on
-- `sem`, at `wg.Wait()`, or behind it.
pub data Phase : Type 0 where
  looping : Phase
  selecting : Phase
  launching : Phase
  waiting : Phase
  returned : Phase

pub record Pool (A : Type 0) : Type 0 where
  pub phase : Phase
  -- ctx.Err() != nil
  pub cancelled : Bool
  -- the items that are not launched yet, the one of this round first
  pub rest : List A
  -- len(sem)
  pub slots : ℕ
  -- the counter of `wg`
  pub wg : ℕ
  -- the items whose goroutine has been started, in order
  pub launched : List A
  -- those whose call of `fn` is not over, those whose slot is free again, and those that are done
  pub running : List A
  pub released : List A
  pub finished : List A

-- the state in which `Run` starts
abbrev pub start : {A : Type 0} → Bool → List A → Pool A
start cancelled items = record {
  phase = Phase.looping;
  cancelled = cancelled;
  rest = items;
  slots = 0;
  wg = 0;
  launched = [];
  running = [];
  released = [];
  finished = [];
}

module _ {A : Type 0} (limit : ℕ) where
  pub data Step (s : Pool A) : Pool A → Type 0 where
    -- the context is cancelled
    cancel : s.cancelled ≡ false → Step s (record s { cancelled = true })
    -- the range is over
    no_items : s.phase ≡ Phase.looping → s.rest ≡ [] → Step s (record s { phase = Phase.waiting })
    -- if ctx.Err() != nil { break loop }
    break_loop :
        {x : A} {xs : List A}
        → s.phase ≡ Phase.looping
        → s.rest ≡ x ∷ xs
        → s.cancelled ≡ true
        → Step s (record s { phase = Phase.waiting })
    go_on :
        {x : A} {xs : List A}
        → s.phase ≡ Phase.looping
        → s.rest ≡ x ∷ xs
        → s.cancelled ≡ false
        → Step s (record s { phase = Phase.selecting })
    -- case sem <- struct{}{}
    acquire :
        s.phase ≡ Phase.selecting
        → s.slots < limit
        → Step s (record s { phase = Phase.launching; slots = suc s.slots })
    -- case <-ctx.Done(): break loop
    break_select :
        s.phase ≡ Phase.selecting → s.cancelled ≡ true → Step s (record s { phase = Phase.waiting })
    -- wg.Add(1); go func
    launch :
        {x : A} {xs : List A}
        → s.phase ≡ Phase.launching
        → s.rest ≡ x ∷ xs
        → Step s (record s {
          phase = Phase.looping;
          rest = xs;
          wg = suc s.wg;
          launched = s.launched ++ x ∷ [];
          running = x ∷ s.running;
        })
    -- a call of `fn` returns, and <-sem
    release :
        {x : A} (xs ys : List A)
        → s.running ≡ xs ++ x ∷ ys
        → Step s (record s { slots = s.slots - 1; running = xs ++ ys; released = x ∷ s.released })
    -- wg.Done()
    finish :
        {x : A} (xs ys : List A)
        → s.released ≡ xs ++ x ∷ ys
        → Step s (record s { wg = s.wg - 1; released = xs ++ ys; finished = x ∷ s.finished })
    -- wg.Wait() returns
    returns : s.phase ≡ Phase.waiting → s.wg ≡ 0 → Step s (record s { phase = Phase.returned })

  -- the states behind n steps
  pub data Run (s : Pool A) : ℕ → Pool A → Type 0 where
    here : Run s 0 s
    next : {n : ℕ} {t u : Pool A} → Run s n t → Step t u → Run s (suc n) u
