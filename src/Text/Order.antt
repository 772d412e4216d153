-- ===== src/Text/Order.antt =====
-- Go's `sort.Strings`: ascending by bytes. The result does not depend on how it sorts.
use mathlib.Core.List.{Perm}
use mathlib.Core.List.Perm
use mathlib.Core.List.{Permᴰ}
use mathlib.Core.Logic.{∥∥₁_elim}
use mathlib.Core.Bool.{Bool-set}
use nett.Prelude.{
  Bool, true, false, ◌&&◌, ◌||◌, List, [], ◌∷◌, ◌≡◌, refl, sym, ◌∙◌, ltb, ◌==◌, if◌then◌else◌, any,
  All, Bool-cases, inl, inr,
}
use nett.Text.{Bytes}

-- s < t
unfoldable pub before : Bytes → Bytes → Bool
before [] [] = false
before [] (y ∷ ys) = true
before (x ∷ xs) [] = false
before (x ∷ xs) (y ∷ ys) = ltb x y || x == y && before xs ys

unfoldable pub insert_text : Bytes → List Bytes → List Bytes
unfolding before
insert_text s [] = s ∷ []
insert_text s (t ∷ ts) =
    let below = insert_text s ts in if before t s then t ∷ below else s ∷ t ∷ ts

-- sort.Strings
unfoldable pub sort_strings : List Bytes → List Bytes
unfolding insert_text
sort_strings [] = []
sort_strings (s ∷ ss) = insert_text s (sort_strings ss)

pub insert_text-perm : (s : Bytes) (ts : List Bytes) → Perm (insert_text s ts) (s ∷ ts)
unfolding insert_text
insert_text-perm s [] = Perm.rfl
insert_text-perm s (t ∷ ts) = elim (Bool-cases (before t s)) [
  | inl e ↦ rw e (Perm.trans (Perm.cons t (insert_text-perm s ts)) (Perm.swap s t ts))
  | inr e ↦ rw e Perm.rfl
]

pub sort_strings-perm : (ss : List Bytes) → Perm (sort_strings ss) ss
unfolding sort_strings
sort_strings-perm [] = Perm.rfl
sort_strings-perm (s ∷ ss) =
    Perm.trans (insert_text-perm s (sort_strings ss)) (Perm.cons s (sort_strings-perm ss))

module _ {ℓ} {A : Type ℓ} (p : A → Bool) where
  any-perm_d : {xs ys : List A} → Permᴰ xs ys → any p xs ≡ any p ys
  any-perm_d Permᴰ.nil = refl
  any-perm_d (Permᴰ.cons e d) = rw (e, any-perm_d d)
  any-perm_d (Permᴰ.swap {a} {b} {l = l} e e') = rw (sym e, sym e') (turn (p a) (p b) (any p l))
    where
      turn : (x y z : Bool) → (x || (y || z)) ≡ (y || (x || z))
      turn true true z = refl
      turn true false z = refl
      turn false y z = refl
  any-perm_d (Permᴰ.trans d d') = any-perm_d d ∙ any-perm_d d'

  -- a permutation has the same items
  pub any-perm : {xs ys : List A} → Perm xs ys → any p xs ≡ any p ys
  any-perm {xs} {ys} d = ∥∥₁_elim d (Bool-set (any p xs) (any p ys)) (λ e. any-perm_d e)

module _ {ℓ} (P : Bytes → Type ℓ) where
  insert_text-All : (s : Bytes) (ts : List Bytes) → P s → All P ts → All P (insert_text s ts)
  unfolding insert_text
  insert_text-All s [] h all = (h, tt)
  insert_text-All s (t ∷ ts) h (first, all) = elim (Bool-cases (before t s)) [
    | inl e ↦ rw e (first, insert_text-All s ts h all)
    | inr e ↦ rw e (h, (first, all))
  ]

  pub sort_strings-All : (ss : List Bytes) → All P ss → All P (sort_strings ss)
  unfolding sort_strings
  sort_strings-All [] all = tt
  sort_strings-All (s ∷ ss) (h, all) =
      insert_text-All s (sort_strings ss) h (sort_strings-All ss all)
