-- ===== src/Modules/Listing.antt =====
-- What the registry lists.
use nett.Prelude.{
  true, not, Option, none, some, List, [], ◌∷◌, ◌++◌, map, ◌≡◌, refl, ap, ◌∙◌, ok, check, ◌>>◌, All,
  All-map, All-append, Bool-cases, inl, inr, Ensures, Ensures-check, Ensures-pure, Ensures-bind,
  Ensures-map, append_assoc, append-nil, ◌||◌,
}
use nett.Text.{Bytes, eq}
use nett.Text.Affixes.{eq_iff, eq_refl}
use nett.Modules.{
  Descriptor, Registry, Error, new_registry, status_implemented, status_planned, find_module,
  is_set, register_descriptor, register, list_names, list, register_all,
}

-- The registry holds exactly the descriptors `ds`, registered in this order.
record Registered (ds : List Descriptor) (r : Registry) : Type 0 where
  order : r.order ≡ map (λ d. d.name) ds
  found : All (λ d. find_module d.name r.mods ≡ some d) ds

find-other :
    (d e : Descriptor) (mods : List (Bytes × Descriptor))
    → find_module e.name mods ≡ none
    → find_module d.name mods ≡ some d
    → find_module d.name ((e.name, e) ∷ mods) ≡ some d
unfolding find_module
find-other d e mods absent here = elim (Bool-cases (eq d.name e.name)) [
  | inl same ↦ absurd (clash ((eq_iff d.name e.name).0 same))
  | inr other ↦ rw other here
]
  where
    clash : d.name ≡ e.name → ⊥
    clash p = cc (absent, here, ap (λ n. find_module n mods) p)

find-same :
    (e : Descriptor) (mods : List (Bytes × Descriptor))
    → find_module e.name ((e.name, e) ∷ mods) ≡ some e
unfolding find_module
find-same e mods = rw (eq_refl e.name)

not_set : {A : Type 0} (o : Option A) → not (is_set o) ≡ true → o ≡ none
not_set none h = refl
not_set (some a) h = cc

map-append :
    (ds : List Descriptor) (e : Descriptor)
    → map (λ d. d.name) ds ++ e.name ∷ [] ≡ map (λ d. d.name) (ds ++ e ∷ [])
map-append [] e = refl
map-append (d ∷ ds) e = ap (λ ns. d.name ∷ ns) (map-append ds e)

abbrev pub AnyError : Error → Type 0
AnyError _ = Unit {0}

register_descriptor-Registered :
    (ds : List Descriptor) (e : Descriptor) (r : Registry)
    → Registered ds r
    → Ensures AnyError (Registered (ds ++ e ∷ [])) (register_descriptor e r)
unfolding register_descriptor
register_descriptor-Registered ds e r v =
    let after : Registry = record { mods = (e.name, e) ∷ r.mods; order = r.order ++ e.name ∷ [] } in
    let unique =
      check (not (is_set (find_module e.name r.mods))) (Error.already_registered e.name) in
    let known = eq e.status status_implemented || eq e.status status_planned in
    Ensures-check (not (eq e.name [])) Error.empty_name
      (check known (Error.invalid_status e.name) >> (unique >> ok after)) tt
      λ _. Ensures-check known (Error.invalid_status e.name) (unique >> ok after) tt λ _.
        Ensures-check (not (is_set (find_module e.name r.mods))) (Error.already_registered e.name)
          (ok after) tt
          λ fresh.
            let absent = not_set (find_module e.name r.mods) fresh in
            Ensures-pure {a = after} (record {
              order = ap (λ ns. ns ++ e.name ∷ []) v.order ∙ map-append ds e;
              found =
                  All-append _ ds (e ∷ [])
                    (All-map _ _ ds (λ d here. find-other d e r.mods absent here) v.found)
                    (find-same e r.mods, tt);
            })

register_all-Registered :
    (ds es : List Descriptor) (r : Registry)
    → Registered ds r
    → Ensures AnyError (Registered (ds ++ es)) (register_all es r)
unfolding register_all register
register_all-Registered ds [] r v = Ensures-pure (rw append-nil v)
register_all-Registered ds (e ∷ es) r v =
    Ensures-bind _ _ (register_descriptor-Registered ds e r v)
      λ r' v'. rw append_assoc at (register_all-Registered (ds ++ e ∷ []) es r' v')

list_names-found :
    (ds : List Descriptor) (mods : List (Bytes × Descriptor))
    → All (λ d. find_module d.name mods ≡ some d) ds
    → list_names (map (λ d. d.name) ds) mods ≡ map some ds
unfolding list_names
list_names-found [] mods h = refl
list_names-found (d ∷ ds) mods h = cc (h.0, list_names-found ds mods h.1)

-- When a sequence of descriptors is registered without an error, in an empty registry, `List` gives
-- these descriptors in the order of their registration, none of them nil.
pub list-register_all :
    (ds : List Descriptor)
    → Ensures AnyError (λ r. list r ≡ map some ds) (register_all ds new_registry)
unfolding list
list-register_all ds =
    Ensures-map _ (λ r v. rw v.order (list_names-found ds r.mods v.found))
      (register_all-Registered [] ds new_registry (record { order = refl; found = tt }))
