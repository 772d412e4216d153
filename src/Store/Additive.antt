-- ===== src/Store/Additive.antt =====
-- Merging observations: what `mergeValue` and `unionAny` keep and add.
use nett.Prelude.{
  Bool, true, false, Option, none, some, List, [], ◌∷◌, ◌||◌, ◌≡◌, ◌≢◌, refl, ◌∙◌, Bool-cases, inl,
  inr,
}
use nett.Text.{Bytes, eq}
use nett.Text.Affixes.{eq_iff, eq_refl}
use nett.Model.Values.{Value, Object, IsObject, lookup, set, lookup-set_same, lookup-set_other}
use nett.Store.Merge.{Keys, merged, merge_entries, merge_value, union_any}
use nett.Store.Joined.{has_key, Distinct, union_any-has_key, union_any-Distinct}

-- The value of a key behind a merge.
abbrev pub combined : {X : Type 0} → Keys X → Option (Value X) → Option (Value X) → Option (Value X)
combined ks old none = old
combined ks old (some v) = some (merged ks old v)

module _ {X : Type 0} (ks : Keys X) where
  entries-lookup :
      (next out : Object X) (k : Bytes)
      → IsObject next
      → lookup k (merge_entries ks next out) ≡ combined ks (lookup k out) (lookup k next)
  unfolding merge_entries lookup
  entries-lookup [] out k v = refl
  entries-lookup ((j, w) ∷ next) out k (fresh, v) =
      let there = set j (merged ks (lookup j out) w) out in
      elim (Bool-cases (eq k j)) [
        | inl e ↦
            let hit : lookup j (merge_entries ks next there) ≡ some (merged ks (lookup j out) w) =
              entries-lookup next there j v
              ∙ rw (fresh, lookup-set_same j (merged ks (lookup j out) w) out) in
            rw (e, (eq_iff k j).0 e) hit
        | inr e ↦
            let other : k ≢ j = λ p. clash e (rw p (eq_refl j)) in
            rw e (
              entries-lookup next there k v
              ∙ rw (lookup-set_other j k (merged ks (lookup j out) w) out other))
      ]
    where
      clash : {b : Bool} → b ≡ false → b ≡ true → ⊥
      clash p q = cc

  -- Behind a merge, each key has the combination of its two values.
  pub lookup-merge_value :
      (existing next : Object X) (k : Bytes)
      → IsObject next
      → lookup k (merge_value ks existing next) ≡ combined ks (lookup k existing) (lookup k next)
  unfolding merge_value
  lookup-merge_value existing next k v = entries-lookup next existing k v

  -- The value of a key behind a merge, told of the two values: the old one where there is no new one;
  -- for two lists, a list with the items of both and no others, each of them once; and otherwise the new.
  abbrev pub IsMerged : Option (Value X) → Option (Value X) → Option (Value X) → Type 0
  IsMerged old none r = r ≡ old
  IsMerged (some (Value.items a)) (some (Value.items b)) r =
      (l : List X) × (r ≡ some (Value.items l))
      × ((i : Bytes) → has_key ks i l ≡ (has_key ks i b || has_key ks i a))
      × Distinct ks l
  IsMerged _ (some v) r = r ≡ some v

  combined-IsMerged : (old next : Option (Value X)) → IsMerged old next (combined ks old next)
  unfolding merged
  combined-IsMerged old none = refl
  combined-IsMerged (some (Value.items a)) (some (Value.items b)) =
      (union_any ks a b, refl, union_any-has_key ks a b, union_any-Distinct ks a b)
  combined-IsMerged none (some v) = refl
  combined-IsMerged (some (Value.scalar x)) (some v) = refl
  combined-IsMerged (some (Value.items a)) (some (Value.scalar x)) = refl

  pub combined_lem :
      (old next r : Option (Value X)) → r ≡ combined ks old next → IsMerged old next r
  combined_lem old next r e = rw e (combined-IsMerged old next)

  -- Behind a merge no key is lost: each has its new value if there is a new one and its old value
  -- otherwise, except that two lists give a list with the items of both and no others, each of them
  -- once. The new object is a map: no key stands twice in it.
  pub merge_value-IsMerged :
      (existing next : Object X) (k : Bytes)
      → IsObject next
      → IsMerged (lookup k existing) (lookup k next) (lookup k (merge_value ks existing next))
  merge_value-IsMerged existing next k v =
      rw (lookup-merge_value existing next k v)
        (combined-IsMerged (lookup k existing) (lookup k next))
