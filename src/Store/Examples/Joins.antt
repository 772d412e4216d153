-- ===== src/Store/Examples/Joins.antt =====
-- Joins of values on concrete inputs.
use nett.Prelude.{ℕ, ◌==◌, if◌then◌else◌, none, some, [], ◌∷◌, ◌≡◌, refl}
use nett.Text.{codes}
use nett.Model.Values.{Object, Value, lookup}
use nett.Store.Merge.{Keys, merge_value, merge_entries, merged, union_any, add_items, add_item}
use nett.Store.Additive.{IsMerged, merge_value-IsMerged}

-- numbers, with their own key, and 0 without JSON
abbrev pub digits : Keys ℕ
digits = record {
  marshal_item = λ n. if n == 0 then none else some (n ∷ []);
  print_item = λ n. codes "zero";
}

abbrev known : Object ℕ
known = (codes "ports", Value.items (80 ∷ 0 ∷ [])) ∷ (codes "os", Value.scalar 1) ∷ []

abbrev seen : Object ℕ
seen = (codes "ports", Value.items (0 ∷ 443 ∷ 443 ∷ [])) ∷ []

joined_ports :
    lookup (codes "ports") (merge_value digits known seen) ≡ some (Value.items (80 ∷ 0 ∷ 443 ∷ []))
unfolding merge_value lookup merge_entries merged union_any add_items add_item
joined_ports = refl

union_any_once : union_any digits (1 ∷ 2 ∷ 1 ∷ []) (2 ∷ 3 ∷ []) ≡ 1 ∷ 2 ∷ 3 ∷ []
unfolding union_any add_items add_item
union_any_once = refl

merge_value-IsMerged_example :
    IsMerged digits
      (lookup (codes "ports") known)
      (lookup (codes "ports") seen)
      (lookup (codes "ports") (merge_value digits known seen))
merge_value-IsMerged_example =
    merge_value-IsMerged digits known seen (codes "ports") (unfold lookup in (refl, tt))
