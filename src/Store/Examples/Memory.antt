-- ===== src/Store/Examples/Memory.antt =====
-- A table as the list of its rows with their keys, which satisfies the laws of `IsTable`.
use nett.Prelude.{
  ℕ, Bool, true, Option, none, some, List, [], ◌∷◌, ◌≡◌, ◌≢◌, ◌↔◌, refl, sym, ap, ◌∙◌, Bool-cases,
  inl, inr, if◌then◌else◌, ok, All, ok-injective,
}
use nett.Store.Tables.{Table, IsTable, after_upsert, after_insert, after_update, inserted_rows}

module _ {Key Row : Type 0} (same : Key → Key → Bool) where
  unfoldable find_row : List (Key × Row) → Key → Option Row
  find_row [] k = none
  find_row ((j, r) ∷ rest) k = let below = find_row rest k in if same k j then some r else below

  unfoldable put : Key → Row → List (Key × Row) → List (Key × Row)
  put k r [] = (k, r) ∷ []
  put k r ((j, q) ∷ rest) =
      let below = put k r rest in if same k j then (j, r) ∷ rest else (j, q) ∷ below

  unfoldable put_found : (Row → Row) → Key → List (Key × Row) → Option Row → List (Key × Row)
  unfolding put
  put_found f k s none = s
  put_found f k s (some r) = put k (f r) s

  unfoldable keep : (Row → Bool) → List (Key × Row) → List Row
  keep p [] = []
  keep p ((j, r) ∷ rest) = let below = keep p rest in if p r then r ∷ below else below

  unfoldable pub memory : Table (List (Key × Row)) Key Row
  unfolding find_row put put_found keep
  memory = record {
    select_row = λ s k. ok (find_row s k);
    upsert_row = λ f k r s. ok (put k (after_upsert f (find_row s k) r) s);
    insert_row =
        λ k r s. ok (inserted_rows (find_row s k), put k (after_insert (find_row s k) r) s);
    update_row = λ f k s. ok (put_found f k s (find_row s k));
    select_rows = λ p order s. ok (keep p s);
  }

  module _ (same_iff : (k j : Key) → (same k j ≡ true) ↔ (k ≡ j)) where
    find_row-put : (k : Key) (r : Row) (s : List (Key × Row)) → find_row (put k r s) k ≡ some r
    unfolding find_row put
    find_row-put k r [] = rw ((same_iff k k).1 refl)
    find_row-put k r ((j, q) ∷ rest) = elim (Bool-cases (same k j)) [
      | inl e ↦ rw e (rw e)
      | inr e ↦ rw e (rw e (find_row-put k r rest))
    ]

    find_row-put_other :
        (k i : Key) (r : Row) (s : List (Key × Row)) → i ≢ k → find_row (put k r s) i ≡ find_row s i
    unfolding find_row put
    find_row-put_other k i r [] h = elim (Bool-cases (same i k)) [
      | inl e ↦ absurd (h ((same_iff i k).0 e))
      | inr e ↦ rw e
    ]
    find_row-put_other k i r ((j, q) ∷ rest) h = elim (Bool-cases (same k j)) [
      | inl e ↦ elim (Bool-cases (same i j)) [
        | inl e' ↦ absurd (h ((same_iff i j).0 e' ∙ sym ((same_iff k j).0 e)))
        | inr e' ↦ rw (e, e')
      ]
      | inr e ↦
          rw e (ap (λ below. if same i j then some q else below) (find_row-put_other k i r rest h))
    ]

    find_row-put_found :
        (f : Row → Row) (k : Key) (s : List (Key × Row)) (old : Option Row)
        → find_row s k ≡ old
        → find_row (put_found f k s old) k ≡ after_update f old
    unfolding put_found
    find_row-put_found f k s none h = h
    find_row-put_found f k s (some r) h = find_row-put k (f r) s

    find_row-put_found_other :
        (f : Row → Row) (k i : Key) (s : List (Key × Row)) (old : Option Row)
        → i ≢ k
        → find_row (put_found f k s old) i ≡ find_row s i
    unfolding put_found
    find_row-put_found_other f k i s none h = refl
    find_row-put_found_other f k i s (some r) h = find_row-put_other k i (f r) s h

    keep-All : (p : Row → Bool) (s : List (Key × Row)) → All (λ r. p r ≡ true) (keep p s)
    unfolding keep
    keep-All p [] = tt
    keep-All p ((j, r) ∷ rest) = elim (Bool-cases (p r)) [
      | inl e ↦ rw e (e, keep-All p rest)
      | inr e ↦ rw e (keep-All p rest)
    ]

    pub memory-IsTable : IsTable memory
    unfolding memory
    memory-IsTable = record {
      upserted = λ f k r s t old h e.
          rw (sym (ok-injective e), sym (ok-injective h))
            (ap ok (find_row-put k (after_upsert f (find_row s k) r) s));
      upsert_other = λ f k j r s t e h.
          rw (sym (ok-injective e))
            (ap ok (find_row-put_other k j (after_upsert f (find_row s k) r) s h));
      inserted = λ k r s t n old h e.
          let out = ok-injective e in
          let known = ok-injective h in
          (
            sym (ap (λ (x : ℕ × List (Key × Row)). x.0) out) ∙ ap inserted_rows known,
            rw (sym (ap (λ (x : ℕ × List (Key × Row)). x.1) out), sym known)
                (ap ok (find_row-put k (after_insert (find_row s k) r) s)),
          );
      insert_other = λ k j r s t n e h.
          rw (sym (ap (λ (x : ℕ × List (Key × Row)). x.1) (ok-injective e)))
            (ap ok (find_row-put_other k j (after_insert (find_row s k) r) s h));
      updated = λ f k s t old h e.
          rw (sym (ok-injective e), sym (ok-injective h))
            (ap ok (find_row-put_found f k s (find_row s k) refl));
      update_other = λ f k j s t e h.
          rw (sym (ok-injective e)) (ap ok (find_row-put_found_other f k j s (find_row s k) h));
      selected = λ p order s rows e. rw (sym (ok-injective e)) (keep-All p s);
    }
