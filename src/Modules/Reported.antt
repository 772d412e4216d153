-- ===== src/Modules/Reported.antt =====
-- What `Capabilities` (internal/module/registry.go) shows of the modules that were registered.
use nett.Prelude.{
  Bool, ◌&&◌, ◌||◌, Option, none, some, List, [], ◌∷◌, map, ◌≡◌, refl, ◌∙◌, ap, if◌then◌else◌, any,
  Bool-cases, inl, inr, Ensures, Ensures-map,
}
use nett.Text.{Bytes}
use nett.Modules.{Capability, Descriptor, new_registry, register_all}
use nett.Modules.Listing.{AnyError, list-register_all}
use nett.Modules.Shown.{has_item, capabilities_of-has_item}
use nett.Modules.Views.{
  is_implemented, implemented, implemented_of, add_implemented, capabilities, merged_of,
}

-- whether the capabilities that are shown have the item in the group; `none` where the code panics
abbrev pub is_shown : Bytes → Bytes → Option (List Capability) → Option Bool
is_shown g i none = none
is_shown g i (some cs) = some (has_item g i cs)

-- the descriptors that are implemented
abbrev only_implemented : List Descriptor → List Descriptor
only_implemented [] = []
only_implemented (d ∷ ds) =
    let below = only_implemented ds in if is_implemented d then d ∷ below else below

implemented_of-some :
    (ds : List Descriptor) → implemented_of (map some ds) ≡ some (only_implemented ds)
unfolding implemented_of
implemented_of-some [] = refl
implemented_of-some (d ∷ ds) = ap (add_implemented d) (implemented_of-some ds)

any-only_implemented :
    (p : Descriptor → Bool) (ds : List Descriptor)
    → any p (only_implemented ds) ≡ any (λ d. is_implemented d && p d) ds
any-only_implemented p [] = refl
any-only_implemented p (d ∷ ds) = elim (Bool-cases (is_implemented d)) [
  | inl e ↦ rw e (ap (λ b. p d || b) (any-only_implemented p ds))
  | inr e ↦ rw e (any-only_implemented p ds)
]

is_shown-merged_of :
    (g i : Bytes) (ds : List Descriptor)
    → is_shown g i (merged_of (some ds)) ≡ some (any (λ d. has_item g i d.capabilities) ds)
unfolding merged_of
is_shown-merged_of g i ds = ap some (capabilities_of-has_item g i ds)

-- When a sequence of descriptors is registered without an error, in an empty registry, `Capabilities`
-- does not panic, and it shows an item in a group if and only if one of these descriptors is
-- implemented and has a capability of that group with that item.
pub capabilities-is_shown :
    (g i : Bytes) (ds : List Descriptor)
    → Ensures AnyError
        (λ r.
          is_shown g i (capabilities r)
          ≡ some (any (λ d. is_implemented d && has_item g i d.capabilities) ds))
        (register_all ds new_registry)
unfolding capabilities implemented
capabilities-is_shown g i ds =
    Ensures-map (register_all ds new_registry)
      (λ r listed.
        ap (λ l. is_shown g i (merged_of (implemented_of l))) listed
        ∙ ap (λ l. is_shown g i (merged_of l)) (implemented_of-some ds)
        ∙ is_shown-merged_of g i (only_implemented ds)
        ∙ ap some (any-only_implemented (λ d. has_item g i d.capabilities) ds))
      (list-register_all ds)
