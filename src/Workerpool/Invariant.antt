-- ===== src/Workerpool/Invariant.antt =====
-- The invariant of the worker pool: the semaphore and the wait group count what they stand for, and
-- the items are launched in order.
use nett.Prelude.{
  ℕ, ◌+◌, ◌-◌, ◌≤◌, Bool, true, List, [], ◌∷◌, ◌++◌, ◌≡◌, ◌≢◌, refl, sym, ◌∙◌, ◌⊎◌, inl, inr,
  length, length-middle, append_assoc, arith,
}
use nett.Workerpool.{Phase, Pool, start, Step, Run}

-- the slot that `Run` itself holds
abbrev pub held : Phase → ℕ
held Phase.launching = 1
held _ = 0

-- what a phase says of the items that are left
abbrev pub IsIn : {A : Type 0} → Phase → List A → Bool → Type 0
IsIn Phase.looping rest cancelled = Unit
IsIn Phase.selecting rest cancelled = rest ≢ []
IsIn Phase.launching rest cancelled = rest ≢ []
IsIn _ rest cancelled = (rest ≡ []) ⊎ (cancelled ≡ true)

-- what has been returned from has no goroutines
abbrev pub IsOver : Phase → ℕ → Type 0
IsOver Phase.returned n = n ≡ 0
IsOver _ n = Unit

module _ {A : Type 0} (limit : ℕ) (items : List A) where
  pub record IsPool (s : Pool A) : Type 0 where
    pub slots : s.slots ≡ length s.running + held s.phase
    pub bounded : s.slots ≤ limit
    pub wg : s.wg ≡ length s.running + length s.released
    pub order : s.launched ++ s.rest ≡ items
    pub items_left : IsIn s.phase s.rest s.cancelled
    pub over : IsOver s.phase s.wg

  start-IsPool : (c : Bool) → IsPool (start c items)
  start-IsPool c = record {
    slots = refl;
    bounded = omega arith;
    wg = refl;
    order = refl;
    items_left = tt;
    over = tt;
  }

  IsIn-cancel : (p : Phase) (rest : List A) (c : Bool) → IsIn p rest c → IsIn p rest true
  IsIn-cancel Phase.looping rest c h = tt
  IsIn-cancel Phase.selecting rest c h = h
  IsIn-cancel Phase.launching rest c h = h
  IsIn-cancel Phase.waiting rest c h = inr refl
  IsIn-cancel Phase.returned rest c h = inr refl

  IsOver-less : (p : Phase) (n : ℕ) → IsOver p n → IsOver p (n - 1)
  IsOver-less Phase.looping n h = tt
  IsOver-less Phase.selecting n h = tt
  IsOver-less Phase.launching n h = tt
  IsOver-less Phase.waiting n h = tt
  IsOver-less Phase.returned n h = omega arith

  Step-IsPool : {s t : Pool A} → IsPool s → Step limit s t → IsPool t
  Step-IsPool {s} h (Step.cancel e) = record {
    slots = h.slots;
    bounded = h.bounded;
    wg = h.wg;
    order = h.order;
    items_left = IsIn-cancel s.phase s.rest s.cancelled h.items_left;
    over = h.over;
  }
  Step-IsPool {s} h (Step.no_items e r) = record {
    slots = rw e at h.slots;
    bounded = h.bounded;
    wg = h.wg;
    order = h.order;
    items_left = inl r;
    over = tt;
  }
  Step-IsPool {s} h (Step.break_loop e r c) = record {
    slots = rw e at h.slots;
    bounded = h.bounded;
    wg = h.wg;
    order = h.order;
    items_left = inr c;
    over = tt;
  }
  Step-IsPool {s} h (Step.go_on e r c) = record {
    slots = rw e at h.slots;
    bounded = h.bounded;
    wg = h.wg;
    order = h.order;
    items_left = λ n. cc (sym r ∙ n);
    over = tt;
  }
  Step-IsPool {s} h (Step.acquire e free) = record {
    slots = let counted = rw e at h.slots in omega arith;
    bounded = omega arith;
    wg = h.wg;
    order = h.order;
    items_left = rw e at h.items_left;
    over = tt;
  }
  Step-IsPool {s} h (Step.break_select e c) = record {
    slots = rw e at h.slots;
    bounded = h.bounded;
    wg = h.wg;
    order = h.order;
    items_left = inr c;
    over = tt;
  }
  Step-IsPool {s} h (Step.launch {x} {xs} e r) = record {
    slots = let counted = rw e at h.slots in omega arith;
    bounded = h.bounded;
    wg = let counted = h.wg in omega arith;
    order = append_assoc s.launched (x ∷ []) xs ∙ (rw r at h.order);
    items_left = tt;
    over = tt;
  }
  Step-IsPool {s} h (Step.release {x} xs ys e) =
      let size = length-middle x xs ys e in
      record {
        slots = let counted = h.slots in omega arith;
        bounded = let counted = h.bounded in omega arith;
        wg = let counted = h.wg in omega arith;
        order = h.order;
        items_left = h.items_left;
        over = h.over;
      }
  Step-IsPool {s} h (Step.finish {x} xs ys e) =
      let size = length-middle x xs ys e in
      record {
        slots = h.slots;
        bounded = h.bounded;
        wg = let counted = h.wg in omega arith;
        order = h.order;
        items_left = h.items_left;
        over = IsOver-less s.phase s.wg h.over;
      }
  Step-IsPool {s} h (Step.returns e z) = record {
    slots = rw e at h.slots;
    bounded = h.bounded;
    wg = h.wg;
    order = h.order;
    items_left = rw e at h.items_left;
    over = z;
  }

  -- every state that `Run` reaches
  pub Run-IsPool : (c : Bool) {n : ℕ} {t : Pool A} → Run limit (start c items) n t → IsPool t
  Run-IsPool c Run.here = start-IsPool c
  Run-IsPool c (Run.next before step) = Step-IsPool (Run-IsPool c before) step
