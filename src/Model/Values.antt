-- ===== src/Model/Values.antt =====
-- A `map[string]any` as the list of its entries, with the laws of its reads and writes.
use nett.Prelude.{
  false, Option, none, some, List, [], ◌∷◌, ◌≡◌, ◌≢◌, if◌then◌else◌, Bool-cases, inl, inr, arith,
  ◌∙◌, sym,
}
use nett.Text.{Bytes, eq}
use nett.Text.Affixes.{eq_iff, eq_refl}

-- A value that is an `[]any`, or another one.
pub data Value (X : Type 0) : Type 0 where
  items : List X → Value X
  scalar : X → Value X

abbrev pub Object : Type 0 → Type 0
Object X = List (Bytes × Value X)

-- m[k]
unfoldable pub lookup : {X : Type 0} → Bytes → Object X → Option (Value X)
unfolding eq
lookup k [] = none
lookup k ((j, v) ∷ rest) = let below = lookup k rest in if eq k j then some v else below

-- m[k] = v
unfoldable pub set : {X : Type 0} → Bytes → Value X → Object X → Object X
unfolding eq
set k v [] = (k, v) ∷ []
set k v ((j, w) ∷ rest) =
    let below = set k v rest in if eq k j then (k, v) ∷ rest else (j, w) ∷ below

-- No key stands twice.
abbrev pub IsObject : {X : Type 0} → Object X → Type 0
IsObject [] = Unit
IsObject ((k, v) ∷ rest) = (lookup k rest ≡ none) × IsObject rest

eq-ne : (s t : Bytes) → s ≢ t → eq s t ≡ false
eq-ne s t h = elim (Bool-cases (eq s t)) [ inl e ↦ absurd (h ((eq_iff s t).0 e)) | inr e ↦ e ]

module _ {X : Type 0} where
  pub lookup-set_same : (k : Bytes) (v : Value X) (o : Object X) → lookup k (set k v o) ≡ some v
  unfolding lookup set
  lookup-set_same k v [] = rw (eq_refl k)
  lookup-set_same k v ((j, w) ∷ rest) = elim (Bool-cases (eq k j)) [
    | inl e ↦ rw (e, eq_refl k)
    | inr e ↦ rw (e, e) (lookup-set_same k v rest)
  ]

  pub lookup-set_other :
      (k l : Bytes) (v : Value X) (o : Object X) → l ≢ k → lookup l (set k v o) ≡ lookup l o
  unfolding lookup set
  lookup-set_other k l v [] h = rw (eq-ne l k h)
  lookup-set_other k l v ((j, w) ∷ rest) h = elim (Bool-cases (eq k j)) [
    | inl e ↦
        let same : k ≡ j = (eq_iff k j).0 e in
        rw (e, eq-ne l k h, eq-ne l j (λ p. h (p ∙ sym same)))
    | inr e ↦ ground (arith, e, lookup-set_other k l v rest h)
  ]
