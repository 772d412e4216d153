-- ===== src/Modules/Shown.antt =====
-- What `Capabilities` (internal/module/registry.go) shows.
use mathlib.Core.Bool.{false≢true}
use nett.Prelude.{
  ◌⊎◌, Bool, true, false, ◌&&◌, ◌||◌, List, [], ◌∷◌, ◌++◌, map, ◌≡◌, refl, sym, ◌∙◌, ap,
  if◌then◌else◌, any, Bool-cases, inl, inr, or-false, or_assoc,
}
use nett.Text.{Bytes, eq}
use nett.Text.Affixes.{eq_iff, eq_refl}
use nett.Text.Order.{sort_strings, sort_strings-perm, any-perm}
use nett.Scope.{has_key}
use nett.Modules.{Capability, Descriptor}
use nett.Modules.Views.{
  Merged, has_group, items_of, put_items, put_in_group, merge_capability, merge_capabilities,
  merge_modules, capabilities_of, new_merged,
}

-- whether a list of capabilities has the item in a capability of the group
abbrev pub has_item : Bytes → Bytes → List Capability → Bool
has_item g i cs = any (λ c. eq g c.group && has_key i c.items) cs

-- whether the sets have the item in the one of the group
abbrev in_group : Bytes → Bytes → List (Bytes × List Bytes) → Bool
in_group g i groups = has_key i (items_of g groups)

turn : (a b c : Bool) → (a || (b || c)) ≡ (b || (a || c))
turn true true c = refl
turn true false c = refl
turn false b c = refl

twice : (a b : Bool) → (a || b) ≡ (a || (a || b))
twice true b = refl
twice false b = refl

eq_flip : (s t : Bytes) → eq s t ≡ false → eq t s ≡ false
eq_flip s t h = elim (Bool-cases (eq t s)) [
  | inl same ↦ elim (false≢true (sym h ∙ rw ((eq_iff t s).0 same) (eq_refl s))) [ ]
  | inr other ↦ other
]

absorb : (a b : Bool) → (a || b && a) ≡ a
absorb true b = refl
absorb false true = refl
absorb false false = refl

put_items-has_key :
    (i : Bytes) (items set : List Bytes)
    → has_key i (put_items items set) ≡ (has_key i items || has_key i set)
unfolding put_items has_key
put_items-has_key i [] set = refl
put_items-has_key i (x ∷ items) set =
    put_items-has_key i items (if has_key x set then set else x ∷ set)
    ∙ ap (λ b. has_key i items || b) (one (Bool-cases (has_key x set)))
    ∙ turn (has_key i items) (eq i x) (has_key i set)
    ∙ sym (or_assoc (eq i x) (has_key i items) (has_key i set))
  where
    one :
        (has_key x set ≡ true) ⊎ (has_key x set ≡ false)
        → has_key i (if has_key x set then set else x ∷ set) ≡ (eq i x || has_key i set)
    one (inl e) = rw e (elim (Bool-cases (eq i x)) [
      | inl same ↦ rw same (ap (λ k. has_key k set) ((eq_iff i x).0 same) ∙ e)
      | inr other ↦ rw other refl
    ])
    one (inr e) = rw e refl

put_in_group-in_group :
    (g i h : Bytes) (items : List Bytes) (groups : List (Bytes × List Bytes))
    → in_group g i (put_in_group h items groups)
      ≡ (eq g h && has_key i items || in_group g i groups)
unfolding put_in_group items_of
put_in_group-in_group g i h items [] = elim (Bool-cases (eq g h)) [
  | inl e ↦ rw e (put_items-has_key i items [])
  | inr e ↦ rw e refl
]
put_in_group-in_group g i h items ((k, set) ∷ rest) = elim (Bool-cases (eq h k)) [
  | inl e ↦
      rw (e, (eq_iff h k).0 e)
        (elim (Bool-cases (eq g k)) [
          | inl same ↦ rw same (put_items-has_key i items set)
          | inr other ↦ rw other refl
        ])
  | inr e ↦ rw e (elim (Bool-cases (eq g k)) [
    | inl same ↦
        rw (same, (eq_iff g k).0 same)
          (sym (ap (λ b. b && has_key i items || any (eq i) set) (eq_flip h k e)))
    | inr other ↦ rw other (put_in_group-in_group g i h items rest)
  ])
]

put_in_group-has_group :
    (g h : Bytes) (items : List Bytes) (groups : List (Bytes × List Bytes))
    → has_group g (put_in_group h items groups) ≡ (eq g h || has_group g groups)
unfolding put_in_group has_group
put_in_group-has_group g h items [] = refl
put_in_group-has_group g h items ((k, set) ∷ rest) = elim (Bool-cases (eq h k)) [
  | inl e ↦ rw (e, (eq_iff h k).0 e) (twice (eq g k) (has_group g rest))
  | inr e ↦
      rw (e, put_in_group-has_group g h items rest) (turn (eq g k) (eq g h) (has_group g rest))
]

-- the order has the groups of the sets
abbrev IsOrdered : Merged → Type 0
IsOrdered m = (g : Bytes) → has_key g m.group_order ≡ has_group g m.groups

append-has_key :
    (g : Bytes) (gs : List Bytes) (x : Bytes) → has_key g (gs ++ x ∷ []) ≡ (eq g x || has_key g gs)
unfolding has_key
append-has_key g [] x = refl
append-has_key g (y ∷ gs) x =
    ap (λ b. eq g y || b) (append-has_key g gs x) ∙ turn (eq g y) (eq g x) (has_key g gs)

merge_capability-IsOrdered :
    (c : Capability) (m : Merged) → IsOrdered m → IsOrdered (merge_capability c m)
unfolding merge_capability
merge_capability-IsOrdered c m h g =
    one (Bool-cases (has_group c.group m.groups))
    ∙ sym (put_in_group-has_group g c.group c.items m.groups)
  where
    one :
        (has_group c.group m.groups ≡ true) ⊎ (has_group c.group m.groups ≡ false)
        → has_key g
            (if has_group c.group m.groups then m.group_order else m.group_order ++ c.group ∷ [])
          ≡ (eq g c.group || has_group g m.groups)
    one (inl e) = rw e (elim (Bool-cases (eq g c.group)) [
      | inl same ↦ rw same (h g ∙ ap (λ k. has_group k m.groups) ((eq_iff g c.group).0 same) ∙ e)
      | inr other ↦ rw other (h g)
    ])
    one (inr e) = rw e (append-has_key g m.group_order c.group ∙ ap (λ b. eq g c.group || b) (h g))

merge_capabilities-IsOrdered :
    (cs : List Capability) (m : Merged) → IsOrdered m → IsOrdered (merge_capabilities cs m)
unfolding merge_capabilities
merge_capabilities-IsOrdered [] m h = h
merge_capabilities-IsOrdered (c ∷ cs) m h =
    merge_capabilities-IsOrdered cs (merge_capability c m) (merge_capability-IsOrdered c m h)

merge_modules-IsOrdered :
    (ds : List Descriptor) (m : Merged) → IsOrdered m → IsOrdered (merge_modules ds m)
unfolding merge_modules
merge_modules-IsOrdered [] m h = h
merge_modules-IsOrdered (d ∷ ds) m h =
    merge_modules-IsOrdered ds (merge_capabilities d.capabilities m)
      (merge_capabilities-IsOrdered d.capabilities m h)

merge_capabilities-in_group :
    (g i : Bytes) (cs : List Capability) (m : Merged)
    → in_group g i (merge_capabilities cs m).groups ≡ (has_item g i cs || in_group g i m.groups)
unfolding merge_capabilities merge_capability
merge_capabilities-in_group g i [] m = refl
merge_capabilities-in_group g i (c ∷ cs) m =
    let first = eq g c.group && has_key i c.items in
    merge_capabilities-in_group g i cs (merge_capability c m)
    ∙ ap (λ b. has_item g i cs || b) (put_in_group-in_group g i c.group c.items m.groups)
    ∙ turn (has_item g i cs) first (in_group g i m.groups)
    ∙ sym (or_assoc first (has_item g i cs) (in_group g i m.groups))

merge_modules-in_group :
    (g i : Bytes) (ds : List Descriptor) (m : Merged)
    → in_group g i (merge_modules ds m).groups
      ≡ (any (λ d. has_item g i d.capabilities) ds || in_group g i m.groups)
unfolding merge_modules
merge_modules-in_group g i [] m = refl
merge_modules-in_group g i (d ∷ ds) m =
    let first = has_item g i d.capabilities in
    let more = any (λ x. has_item g i x.capabilities) ds in
    merge_modules-in_group g i ds (merge_capabilities d.capabilities m)
    ∙ ap (λ b. more || b) (merge_capabilities-in_group g i d.capabilities m)
    ∙ turn more first (in_group g i m.groups)
    ∙ sym (or_assoc first more (in_group g i m.groups))

-- a set with an item has its group
has_group-in_group :
    (g i : Bytes) (groups : List (Bytes × List Bytes))
    → (has_group g groups && in_group g i groups) ≡ in_group g i groups
unfolding has_group items_of has_key
has_group-in_group g i [] = refl
has_group-in_group g i ((k, set) ∷ rest) = elim (Bool-cases (eq g k)) [
  | inl e ↦ rw e refl
  | inr e ↦ rw e (has_group-in_group g i rest)
]

-- the sets as they are shown
shown-has_item :
    (g i : Bytes) (groups : List (Bytes × List Bytes)) (gs : List Bytes)
    → has_item g i (map (λ k. record { group = k; items = sort_strings (items_of k groups) }) gs)
      ≡ (has_key g gs && in_group g i groups)
unfolding has_key
shown-has_item g i groups [] = refl
shown-has_item g i groups (k ∷ gs) = elim (Bool-cases (eq g k)) [
  | inl e ↦
      rw
        (
          e,
          shown-has_item g i groups gs,
          any-perm (eq i) (sort_strings-perm (items_of k groups)),
          (eq_iff g k).0 e,
        )
        (absorb (has_key i (items_of k groups)) (any (eq k) gs))
  | inr e ↦ rw e (shown-has_item g i groups gs)
]

-- the groups that are shown have an item if and only if one of the descriptors
-- has a capability of that group with the item
pub capabilities_of-has_item :
    (g i : Bytes) (ds : List Descriptor)
    → has_item g i (capabilities_of (merge_modules ds new_merged))
      ≡ any (λ d. has_item g i d.capabilities) ds
unfolding capabilities_of has_group has_key
capabilities_of-has_item g i ds =
    let m = merge_modules ds new_merged in
    shown-has_item g i m.groups (sort_strings m.group_order)
    ∙ ap (λ b. b && in_group g i m.groups)
        (any-perm (eq g) (sort_strings-perm m.group_order)
          ∙ merge_modules-IsOrdered ds new_merged (λ k. refl) g)
    ∙ has_group-in_group g i m.groups
    ∙ merge_modules-in_group g i ds new_merged
    ∙ or-false (any (λ d. has_item g i d.capabilities) ds)
