-- ===== src/Modules/Views.antt =====
-- internal/module/registry.go: the views of the implemented modules. A map is the list of its entries,
-- a set the list of its items; a nil descriptor, on which the methods panic, is `none`.
use nett.Prelude.{Bool, Option, none, some, List, [], ◌∷◌, ◌++◌, map, if◌then◌else◌, any}
use nett.Text.{Bytes, eq}
use nett.Text.Order.{sort_strings}
use nett.Scope.{has_key}
use nett.Modules.{Capability, Descriptor, Registry, list, status_implemented}

-- Implemented of a descriptor
unfoldable pub is_implemented : Descriptor → Bool
unfolding eq
is_implemented d = eq d.status status_implemented

-- with a descriptor in front if it is implemented
abbrev pub add_implemented : Descriptor → Option (List Descriptor) → Option (List Descriptor)
unfolding is_implemented
add_implemented d none = none
add_implemented d (some ds) = some (if is_implemented d then d ∷ ds else ds)

unfoldable pub implemented_of : List (Option Descriptor) → Option (List Descriptor)
unfolding add_implemented
implemented_of [] = some []
implemented_of (none ∷ ds) = none
implemented_of (some d ∷ ds) = add_implemented d (implemented_of ds)

-- Implemented
unfoldable pub implemented : Registry → Option (List Descriptor)
unfolding implemented_of list
implemented r = implemented_of (list r)

-- the variables `groups` and `groupOrder`
pub record Merged : Type 0 where
  pub groups : List (Bytes × List Bytes)
  pub group_order : List Bytes

unfoldable pub has_group : Bytes → List (Bytes × List Bytes) → Bool
unfolding eq
has_group g groups = any (λ e. eq g e.0) groups

-- groups[g]
unfoldable pub items_of : Bytes → List (Bytes × List Bytes) → List Bytes
unfolding eq
items_of g [] = []
items_of g ((k, items) ∷ rest) = let below = items_of g rest in if eq g k then items else below

-- the items put in a set one by one
unfoldable pub put_items : List Bytes → List Bytes → List Bytes
unfolding has_key
put_items [] set = set
put_items (item ∷ items) set = put_items items (if has_key item set then set else item ∷ set)

-- the items put in the set of a group, which is made where it is missing
unfoldable pub put_in_group :
    Bytes → List Bytes → List (Bytes × List Bytes) → List (Bytes × List Bytes)
unfolding put_items eq
put_in_group g items [] = (g, put_items items []) ∷ []
put_in_group g items ((k, set) ∷ rest) =
    let below = put_in_group g items rest in
    if eq g k then (k, put_items items set) ∷ rest else (k, set) ∷ below

-- the round for one capability
unfoldable pub merge_capability : Capability → Merged → Merged
unfolding has_group put_in_group
merge_capability c m = record {
  groups = put_in_group c.group c.items m.groups;
  group_order = if has_group c.group m.groups then m.group_order else m.group_order ++ c.group ∷ [];
}

unfoldable pub merge_capabilities : List Capability → Merged → Merged
unfolding merge_capability
merge_capabilities [] m = m
merge_capabilities (c ∷ cs) m = merge_capabilities cs (merge_capability c m)

unfoldable pub merge_modules : List Descriptor → Merged → Merged
unfolding merge_capabilities
merge_modules [] m = m
merge_modules (d ∷ ds) m = merge_modules ds (merge_capabilities d.capabilities m)

-- the groups in order, with sorted items
unfoldable pub capabilities_of : Merged → List Capability
unfolding sort_strings items_of
capabilities_of m =
    map (λ g. record { group = g; items = sort_strings (items_of g m.groups) })
      (sort_strings m.group_order)

abbrev pub new_merged : Merged
new_merged = record { groups = []; group_order = [] }

-- Capabilities of the implemented descriptors
unfoldable pub merged_of : Option (List Descriptor) → Option (List Capability)
unfolding merge_modules capabilities_of
merged_of none = none
merged_of (some ds) = some (capabilities_of (merge_modules ds new_merged))

-- Capabilities
unfoldable pub capabilities : Registry → Option (List Capability)
unfolding implemented merged_of
capabilities r = merged_of (implemented r)
