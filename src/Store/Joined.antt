-- ===== src/Store/Joined.antt =====
-- The union of two lists: what `unionAny` keeps, adds and drops.
use nett.Prelude.{
  Bool, true, false, ◌||◌, List, [], ◌∷◌, ◌++◌, any, ◌≡◌, refl, sym, ap, ◌∙◌, Bool-cases, inl, inr,
  arith, All, All-map, append_assoc, append-nil,
}
use nett.Text.{Bytes, eq}
use nett.Text.Affixes.{eq_iff, eq_refl}
use nett.Store.Merge.{Keys, Union, key_of, add_item, add_items, union_any}

eq_comm : (s t : Bytes) → eq s t ≡ eq t s
unfolding eq
eq_comm [] [] = refl
eq_comm [] (d ∷ t) = refl
eq_comm (c ∷ s) [] = refl
eq_comm (c ∷ s) (d ∷ t) = ground (arith, eq_comm s t)

or_false : (a b : Bool) → (a || b) ≡ false → (a ≡ false) × (b ≡ false)
or_false true b h = cc
or_false false b h = (refl, h)

or_assoc : (a b c : Bool) → ((a || b) || c) ≡ (a || (b || c))
or_assoc true b c = refl
or_assoc false b c = refl

or_end : (a b : Bool) → (a || b) ≡ (b || (a || false))
or_end true true = refl
or_end true false = refl
or_end false true = refl
or_end false false = refl

or_swap : (a b c : Bool) → (a || (b || c)) ≡ ((b || a) || c)
or_swap true true c = refl
or_swap true false c = refl
or_swap false true c = refl
or_swap false false c = refl

module _ {X : Type 0} (ks : Keys X) where
  -- some item of the list has the key
  abbrev pub has_key : Bytes → List X → Bool
  has_key k xs = any (λ x. eq k (key_of ks x)) xs

  -- no two items have the same key
  abbrev pub Distinct : List X → Type 0
  Distinct [] = Unit
  Distinct (x ∷ xs) = (has_key (key_of ks x) xs ≡ false) × Distinct xs

  has_key-append :
      (k : Bytes) (xs ys : List X) → has_key k (xs ++ ys) ≡ (has_key k xs || has_key k ys)
  has_key-append k [] ys = refl
  has_key-append k (x ∷ xs) ys =
      rw (has_key-append k xs ys)
        (sym (or_assoc (eq k (key_of ks x)) (has_key k xs) (has_key k ys)))

  Distinct-end :
      (xs : List X) (it : X)
      → Distinct xs
      → has_key (key_of ks it) xs ≡ false
      → Distinct (xs ++ it ∷ [])
  Distinct-end [] it d h = (refl, tt)
  Distinct-end (x ∷ xs) it (fresh, d) h =
      let (other, later) = or_false (eq (key_of ks it) (key_of ks x)) _ h in
      let apart : eq (key_of ks x) (key_of ks it) ≡ false =
        eq_comm (key_of ks x) (key_of ks it) ∙ other in
      (rw (has_key-append (key_of ks x) xs (it ∷ []), fresh, apart), Distinct-end xs it d later)

  -- the keys seen are those of the list so far, which are distinct
  record Tracks (u : Union X) : Type 0 where
    seen : (k : Bytes) → any (eq k) u.seen ≡ has_key k u.out
    distinct : Distinct u.out

  add_item-Tracks : (it : X) (u : Union X) → Tracks u → Tracks (add_item ks it u)
  unfolding add_item
  add_item-Tracks it u t = elim (Bool-cases (any (eq (key_of ks it)) u.seen)) [
    | inl e ↦ rw e t
    | inr e ↦ rw e (record {
      seen = λ k.
          rw (has_key-append k u.out (it ∷ []), t.seen k)
            (or_end (eq k (key_of ks it)) (has_key k u.out));
      distinct = Distinct-end u.out it t.distinct (sym (t.seen (key_of ks it)) ∙ e);
    })
  ]

  add_items-Tracks : (its : List X) (u : Union X) → Tracks u → Tracks (add_items ks its u)
  unfolding add_items
  add_items-Tracks [] u t = t
  add_items-Tracks (it ∷ its) u t = add_items-Tracks its (add_item ks it u) (add_item-Tracks it u t)

  -- the keys seen behind one item, and behind many
  add_item-seen :
      (it : X) (u : Union X) (k : Bytes)
      → any (eq k) (add_item ks it u).seen ≡ (eq k (key_of ks it) || any (eq k) u.seen)
  unfolding add_item
  add_item-seen it u k = elim (Bool-cases (any (eq (key_of ks it)) u.seen)) [
    | inl e ↦ rw e (known (eq k (key_of ks it)) _ λ same. rw ((eq_iff k (key_of ks it)).0 same) e)
    | inr e ↦ rw e
  ]
    where
      known : (a b : Bool) → (a ≡ true → b ≡ true) → b ≡ (a || b)
      known true b h = h refl
      known false b h = refl

  add_items-seen :
      (its : List X) (u : Union X) (k : Bytes)
      → any (eq k) (add_items ks its u).seen ≡ (has_key k its || any (eq k) u.seen)
  unfolding add_items
  add_items-seen [] u k = refl
  add_items-seen (it ∷ its) u k =
      rw (add_items-seen its (add_item ks it u) k, add_item-seen it u k)
        (or_swap (has_key k its) (eq k (key_of ks it)) (any (eq k) u.seen))

  start-Tracks : Tracks (record { seen = []; out = [] })
  start-Tracks = record { seen = λ k. refl; distinct = tt }

  union-Tracks :
      (a b : List X) → Tracks (add_items ks b (add_items ks a (record { seen = []; out = [] })))
  union-Tracks a b = add_items-Tracks b _ (add_items-Tracks a _ start-Tracks)

  -- A union has the keys of both lists and no others: nothing that was observed is lost.
  pub union_any-has_key :
      (a b : List X) (k : Bytes) → has_key k (union_any ks a b) ≡ (has_key k b || has_key k a)
  unfolding union_any
  union_any-has_key a b k =
      let start : Union X = record { seen = []; out = [] } in
      sym ((union-Tracks a b).seen k)
      ∙ add_items-seen b (add_items ks a start) k
      ∙ ap (λ t. has_key k b || t) (add_items-seen a start k ∙ no_more (has_key k a))
    where
      no_more : (t : Bool) → (t || false) ≡ t
      no_more true = refl
      no_more false = refl

  -- A union has each key once.
  pub union_any-Distinct : (a b : List X) → Distinct (union_any ks a b)
  unfolding union_any
  union_any-Distinct a b = (union-Tracks a b).distinct

  Distinct-new :
      (xs : List X) (it : X) (its : List X)
      → Distinct (xs ++ it ∷ its)
      → has_key (key_of ks it) xs ≡ false
  Distinct-new [] it its d = refl
  Distinct-new (x ∷ xs) it its (fresh, d) =
      let split = has_key-append (key_of ks x) xs (it ∷ its) in
      let (before, behind) = or_false (has_key (key_of ks x) xs) _ (sym split ∙ fresh) in
      let (other, later) = or_false (eq (key_of ks x) (key_of ks it)) _ behind in
      let apart : eq (key_of ks it) (key_of ks x) ≡ false =
        eq_comm (key_of ks it) (key_of ks x) ∙ other in
      rw (apart, Distinct-new xs it its d)

  -- items with new keys are appended
  add_items-new :
      (its : List X) (u : Union X)
      → Distinct (u.out ++ its)
      → Tracks u
      → (add_items ks its u).out ≡ u.out ++ its
  unfolding add_items
  add_items-new [] u d t = sym (append-nil u.out)
  add_items-new (it ∷ its) u d t =
      let fresh = t.seen (key_of ks it) ∙ Distinct-new u.out it its d in
      let next : add_item ks it u
          ≡ record { seen = key_of ks it ∷ u.seen; out = u.out ++ it ∷ [] } =
        unfold add_item in rw fresh in
      let tracked = rw next at (add_item-Tracks it u t) in
      let d' : Distinct ((u.out ++ it ∷ []) ++ its) = rw append_assoc d in
      rw (next, add_items)
        (add_items-new its (record { seen = key_of ks it ∷ u.seen; out = u.out ++ it ∷ [] }) d'
            tracked
          ∙ append_assoc u.out (it ∷ []) its)

  -- items with known keys change nothing
  add_items-known :
      (its : List X) (u : Union X)
      → All (λ it. any (eq (key_of ks it)) u.seen ≡ true) its
      → add_items ks its u ≡ u
  unfolding add_items add_item
  add_items-known [] u h = refl
  add_items-known (it ∷ its) u h = rw (h.0) (add_items-known its u h.1)

  added :
      (its : List X) (u : Union X)
      → All (λ it. any (eq (key_of ks it)) (add_items ks its u).seen ≡ true) its
  unfolding add_items
  added [] u = tt
  added (it ∷ its) u = (
    rw
        (
          add_items-seen its (add_item ks it u) (key_of ks it),
          add_item-seen it u (key_of ks it),
          eq_refl (key_of ks it),
        )
        (or_true_end (has_key (key_of ks it) its)),
    added its (add_item ks it u),
  )
    where
      or_true_end : (b : Bool) → (b || true) ≡ true
      or_true_end true = refl
      or_true_end false = refl

  -- Observing the same items again changes nothing: a union joined once more with its second list is
  -- the same list.
  pub union_any_again : (a b : List X) → union_any ks (union_any ks a b) b ≡ union_any ks a b
  unfolding union_any
  union_any_again a b =
      let start : Union X = record { seen = []; out = [] } in
      let v = add_items ks b (add_items ks a start) in
      let w = add_items ks v.out start in
      let tv = union-Tracks a b in
      let tw = add_items-Tracks v.out start start-Tracks in
      let same : w.out ≡ v.out = add_items-new v.out start tv.distinct start-Tracks in
      let known =
        All-map (λ it. any (eq (key_of ks it)) v.seen ≡ true)
          (λ it. any (eq (key_of ks it)) w.seen ≡ true) b
          (λ it h.
            tw.seen (key_of ks it)
            ∙ ap (λ l. has_key (key_of ks it) l) same
            ∙ sym (tv.seen (key_of ks it))
            ∙ h)
          (added b (add_items ks a start)) in
      ap (λ u. u.out) (add_items-known b w known) ∙ same
