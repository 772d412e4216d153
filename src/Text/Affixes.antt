-- ===== src/Text/Affixes.antt =====
-- Laws of the equality of texts and of suffixes.
use nett.Prelude.{
  [], ◌∷◌, ◌++◌, ◌≡◌, refl, ap, true, arith, ◌==◌, ◌↔◌, inl, inr, or_true, and_true, ==_iff,
}
use nett.Text.{Bytes, eq, has_suffix}

pub eq_refl : (s : Bytes) → eq s s ≡ true
unfolding eq
eq_refl [] = refl
eq_refl (c ∷ s) = ground (arith, eq_refl s)

eq_sound : (s t : Bytes) → eq s t ≡ true → s ≡ t
unfolding eq
eq_sound [] [] h = refl
eq_sound [] (y ∷ t) h = cc
eq_sound (x ∷ s) [] h = cc
eq_sound (x ∷ s) (y ∷ t) h =
    let (a, b) = and_true (x == y) _ h in cc ((==_iff x y).0 a, eq_sound s t b)

pub eq_iff : (s t : Bytes) → (eq s t ≡ true) ↔ (s ≡ t)
eq_iff s t = (eq_sound s t, λ p. rw p (eq_refl t))

has_suffix_sound : (s t : Bytes) → has_suffix s t ≡ true → (p : Bytes) × (s ≡ p ++ t)
unfolding has_suffix
has_suffix_sound [] t h = ([], (eq_iff [] t).0 h)
has_suffix_sound (c ∷ s) t h = elim (or_true (eq (c ∷ s) t) _ h) [
  | inl e ↦ ([], (eq_iff (c ∷ s) t).0 e)
  | inr e ↦ let (p, q) = has_suffix_sound s t e in (c ∷ p, ap (λ l. c ∷ l) q)
]

pub has_suffix_self : (s : Bytes) → has_suffix s s ≡ true
unfolding has_suffix
has_suffix_self [] = eq_refl []
has_suffix_self (c ∷ s) = rw eq_refl

pub has_suffix-append : (p t : Bytes) → has_suffix (p ++ t) t ≡ true
unfolding has_suffix
has_suffix-append [] t = has_suffix_self t
has_suffix-append (c ∷ p) t = ground (arith, has_suffix-append p t)

-- A text has a suffix exactly if it is something in front of the suffix.
pub has_suffix_iff : (s t : Bytes) → (has_suffix s t ≡ true) ↔ ((p : Bytes) × (s ≡ p ++ t))
has_suffix_iff s t = (has_suffix_sound s t, λ (p, e). rw e (has_suffix-append p t))
