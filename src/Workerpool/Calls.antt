-- ===== src/Workerpool/Calls.antt =====
-- The calls of `fn` that `Run` (internal/workerpool/pool.go) makes: how many at once, for which items,
-- and what is done when it returns.
use nett.Prelude.{
  ℕ, ◌+◌, ◌≤◌, Bool, true, List, [], ◌∷◌, ◌++◌, ◌≡◌, refl, sym, ◌∙◌, ◌⊎◌, inl, inr, length,
  length-append, append_assoc, append-nil, arith,
}
use mathlib.Core.Bool.{false≢true}
use mathlib.Core.List.{Perm, perm_middle, perm_append_singleton}
use mathlib.Core.List.Perm
use nett.Text.Decimal.{ℤ}
use nett.Workerpool.{Phase, Pool, start, Step, Run, capacity}
use nett.Workerpool.Invariant.{Run-IsPool}

-- the item that a cancelled `Run` may still launch: the one of a round that is past the test
abbrev pub unsettled : Phase → ℕ
unsettled Phase.selecting = 1
unsettled Phase.launching = 1
unsettled _ = 0

module _ {A : Type 0} where
  -- an item moves from one list to the head of the next
  moved : (x : A) (xs ys zs : List A) → Perm ((xs ++ ys) ++ x ∷ zs) ((xs ++ x ∷ ys) ++ zs)
  moved x xs ys zs = Perm.trans (perm_middle (xs ++ ys) zs) (
      rw (append_assoc xs (x ∷ ys) zs, append_assoc xs ys zs)
        (Perm.symm (perm_middle xs (ys ++ zs))))

  -- Every item that was launched is running, released or finished, once.
  abbrev IsCounted : Pool A → Type 0
  IsCounted s = Perm (s.running ++ (s.released ++ s.finished)) s.launched

  Step-IsCounted : (limit : ℕ) {s t : Pool A} → IsCounted s → Step limit s t → IsCounted t
  Step-IsCounted limit {s} h (Step.launch {x} e r) =
      Perm.trans (Perm.cons x h) (Perm.symm (perm_append_singleton x s.launched))
  Step-IsCounted limit {s} h (Step.release {x} xs ys e) =
      Perm.trans (moved x xs ys (s.released ++ s.finished)) (rw e at h)
  Step-IsCounted limit {s} h (Step.finish {x} xs ys e) =
      Perm.trans
        (rw
          (
            sym (append_assoc s.running (xs ++ ys) (x ∷ s.finished)),
            sym (append_assoc s.running xs ys),
            sym (append_assoc s.running (xs ++ x ∷ ys) s.finished),
            sym (append_assoc s.running xs (x ∷ ys)),
          )
          (moved x (s.running ++ xs) ys s.finished))
        (rw e at h)
  Step-IsCounted limit h (Step.cancel e) = h
  Step-IsCounted limit h (Step.no_items e r) = h
  Step-IsCounted limit h (Step.break_loop e r c) = h
  Step-IsCounted limit h (Step.go_on e r c) = h
  Step-IsCounted limit h (Step.acquire e f) = h
  Step-IsCounted limit h (Step.break_select e c) = h
  Step-IsCounted limit h (Step.returns e z) = h

  Run-IsCounted :
      (limit : ℕ) (items : List A) (c : Bool) {n : ℕ} {t : Pool A}
      → Run limit (start c items) n t
      → IsCounted t
  Run-IsCounted limit items c Run.here = Perm.rfl
  Run-IsCounted limit items c (Run.next before step) =
      Step-IsCounted limit (Run-IsCounted limit items c before) step

  -- At most `concurrency` calls of `fn` run at once, where 1 stands for a concurrency below 1.
  pub Run-bounded :
      (concurrency : ℤ) (items : List A) (c : Bool) {n : ℕ} {t : Pool A}
      → Run (capacity concurrency) (start c items) n t
      → length t.running ≤ capacity concurrency
  Run-bounded concurrency items c run =
      let h = Run-IsPool (capacity concurrency) items c run in
      let counted = h.slots in let bound = h.bounded in omega arith

  -- At every moment the items launched are the first ones, in order, and each of them is running,
  -- released or finished, once.
  pub Run-once :
      (concurrency : ℤ) (items : List A) (c : Bool) {n : ℕ} {t : Pool A}
      → Run (capacity concurrency) (start c items) n t
      → (t.launched ++ t.rest ≡ items) × Perm (t.running ++ (t.released ++ t.finished)) t.launched
  Run-once concurrency items c run = (
    (Run-IsPool (capacity concurrency) items c run).order,
    Run-IsCounted (capacity concurrency) items c run,
  )

  length-zero : (xs : List A) → length xs ≡ 0 → xs ≡ []
  length-zero [] h = refl
  length-zero (x ∷ xs) h = absurd (omega arith)

  -- When `Run` returns, no call is left running: each item launched is finished, once, and these are all
  -- the items unless the context was cancelled.
  pub Run-complete :
      (concurrency : ℤ) (items : List A) (c : Bool) {n : ℕ} {t : Pool A}
      → Run (capacity concurrency) (start c items) n t
      → t.phase ≡ Phase.returned
      → (t.running ≡ [])
        × Perm t.finished t.launched
        × ((t.launched ≡ items) ⊎ (t.cancelled ≡ true))
  Run-complete concurrency items c {t = t} run e =
      let h = Run-IsPool (capacity concurrency) items c run in
      let count = h.wg in
      let over : t.wg ≡ 0 = rw e at h.over in
      let quiet = length-zero t.running (omega arith) in
      let free = length-zero t.released (omega arith) in
      let once = Run-IsCounted (capacity concurrency) items c run in
      let left : (t.rest ≡ []) ⊎ (t.cancelled ≡ true) = rw e at h.items_left in
      (
        quiet,
        rw (quiet, free) at once,
        elim left [
          | inl none_left ↦ inl (sym (append-nil t.launched) ∙ rw none_left at h.order)
          | inr stopped ↦ inr stopped
        ],
      )

  -- what a cancelled pool has launched and may still launch
  abbrev IsStopping : ℕ → Pool A → Type 0
  IsStopping most s = (s.cancelled ≡ true) × (length s.launched + unsettled s.phase ≤ most)

  Step-IsStopping :
      (limit most : ℕ) {s t : Pool A} → IsStopping most s → Step limit s t → IsStopping most t
  Step-IsStopping limit most (c, h) (Step.cancel e) = (refl, h)
  Step-IsStopping limit most (c, h) (Step.no_items e r) = (c, omega arith)
  Step-IsStopping limit most (c, h) (Step.break_loop e r c') = (c, omega arith)
  Step-IsStopping limit most (c, h) (Step.go_on e r c') = absurd (false≢true (sym c' ∙ c))
  Step-IsStopping limit most (c, h) (Step.acquire e f) = (c, rw e at h)
  Step-IsStopping limit most (c, h) (Step.break_select e c') = (c, omega arith)
  Step-IsStopping limit most {s} (c, h) (Step.launch {x} e r) =
      let bound = rw e at h in let size = length-append s.launched (x ∷ []) in (c, omega arith)
  Step-IsStopping limit most (c, h) (Step.release xs ys e) = (c, h)
  Step-IsStopping limit most (c, h) (Step.finish xs ys e) = (c, h)
  Step-IsStopping limit most (c, h) (Step.returns e z) = (c, omega arith)

  Run-IsStopping :
      (limit most : ℕ) {s : Pool A} {n : ℕ} {t : Pool A}
      → IsStopping most s
      → Run limit s n t
      → IsStopping most t
  Run-IsStopping limit most h Run.here = h
  Run-IsStopping limit most h (Run.next before step) =
      Step-IsStopping limit most (Run-IsStopping limit most h before) step

  -- Once the context is cancelled, no item is launched but that of a round that is past its test: none
  -- at all where the context was cancelled before `Run` started.
  pub Run-cancelled :
      (limit : ℕ) (s : Pool A) {n : ℕ} {t : Pool A}
      → s.cancelled ≡ true
      → Run limit s n t
      → length t.launched ≤ length s.launched + unsettled s.phase
  Run-cancelled limit s c run =
      let h =
        (Run-IsStopping limit (length s.launched + unsettled s.phase) (c, omega arith) run).1 in
      omega arith
