-- ===== src/Text/Split.antt =====
-- Laws of `split` and `join`.
use nett.Prelude.{ℕ, List, [], ◌∷◌, ◌≡◌, ◌≢◌, refl, arith}
use nett.Text.{Bytes, cons_head, split, join, joined}

module _ (sep : ℕ) where
  pub split-ne-nil : (s : Bytes) → split s sep ≢ []
  unfolding split
  split-ne-nil [] h = cc
  split-ne-nil (c ∷ s) h = ground (arith)

  join-cons_head : (c : ℕ) (ps : List Bytes) → ps ≢ [] → join (cons_head c ps) sep ≡ c ∷ join ps sep
  unfolding join joined
  join-cons_head c [] h = absurd (h refl)
  join-cons_head c (p ∷ ps) h = refl

  join-nil-cons : (ps : List Bytes) → ps ≢ [] → join ([] ∷ ps) sep ≡ sep ∷ join ps sep
  unfolding join joined
  join-nil-cons [] h = absurd (h refl)
  join-nil-cons (p ∷ ps) h = refl

  -- Joining the parts of a split gives the text back.
  pub join-split : (s : Bytes) → join (split s sep) sep ≡ s
  unfolding split
  join-split [] = unfold join joined in refl
  join-split (c ∷ s) = ground (
    arith,
    join-split s,
    join-cons_head c (split s sep) (split-ne-nil s),
    join-nil-cons (split s sep) (split-ne-nil s),
  )
