-- ===== src/Permute/Candidates.antt =====
-- Which names `BruteForce` (internal/permute/permute.go) resolves.
use nett.Prelude.{
  Bool, true, false, ◌&&◌, ◌||◌, List, [], ◌∷◌, ◌++◌, ◌≡◌, refl, sym, ap, ◌∙◌, any, Bool-cases, inl,
  inr, or-false, or-true, or_assoc,
}
use nett.Text.{Bytes, eq}
use nett.Text.Affixes.{eq_iff, eq_refl}
use nett.Text.Order.{
  before, insert_text, insert_text-perm, sort_strings, sort_strings-perm, any-perm,
}
use nett.Scope.{Scope, allow_host, has_key}
use nett.Permute.{
  common_affixes, variants, generate_permutations, labels_of, host_of, add_candidate, add_labels,
  add_words, candidates_of,
}

has_key-append :
    (h : Bytes) (xs ys : List Bytes) → has_key h (xs ++ ys) ≡ (has_key h xs || has_key h ys)
unfolding has_key
has_key-append h [] ys = refl
has_key-append h (x ∷ xs) ys =
    ap (λ t. eq h x || t) (has_key-append h xs ys)
    ∙ sym (or_assoc (eq h x) (has_key h xs) (has_key h ys))

has_key-one : (h x : Bytes) → has_key h (x ∷ []) ≡ eq h x
unfolding has_key
has_key-one h x = or-false (eq h x)

-- whether a name is made of the domain and a variant of a word with an affix
abbrev pub is_variant : Bytes → Bytes → Bytes → Bytes → Bool
is_variant domain h w a =
    eq h ((a ++ (b'-' ∷ w)) ++ (b'.' ∷ domain))
    || (eq h ((w ++ (b'-' ∷ a)) ++ (b'.' ∷ domain)) || eq h ((w ++ a) ++ (b'.' ∷ domain)))

-- whether a name is made of the domain and a word, or of one of its variants where these are wanted
abbrev pub is_made_of : Bytes → Bool → Bytes → Bytes → Bool
is_made_of domain perms h w =
    eq h (w ++ (b'.' ∷ domain)) || perms && any (λ a. is_variant domain h w a) common_affixes

or_assoc_three : (a b c d : Bool) → (a || (b || (c || d))) ≡ ((a || (b || c)) || d)
or_assoc_three true b c d = refl
or_assoc_three false b c d = sym (or_assoc b c d)

module _ (sc : Scope) where
  add_candidate-same :
      (x : Bytes) (cs : List Bytes) (known allowed : Bool)
      → has_key x cs ≡ known
      → allow_host sc x ≡ allowed
      → has_key x (add_candidate sc x cs) ≡ (known || allowed)
  unfolding add_candidate
  add_candidate-same x cs true b e f = rw e e
  add_candidate-same x cs false true e f =
      rw (e, f)
        (has_key-append x cs (x ∷ []) ∙ rw (has_key-one x x, eq_refl x) (or-true (has_key x cs)))
  add_candidate-same x cs false false e f = rw (e, f) e

  add_candidate-other :
      (h x : Bytes) (cs : List Bytes) (known allowed : Bool)
      → has_key x cs ≡ known
      → allow_host sc x ≡ allowed
      → eq h x ≡ false
      → has_key h (add_candidate sc x cs) ≡ has_key h cs
  unfolding add_candidate
  add_candidate-other h x cs true b e f g = rw e refl
  add_candidate-other h x cs false true e f g =
      rw (e, f) (has_key-append h cs (x ∷ []) ∙ rw (has_key-one h x, g) (or-false (has_key h cs)))
  add_candidate-other h x cs false false e f g = rw (e, f) refl

  add_candidate-has_key :
      (h x : Bytes) (cs : List Bytes)
      → has_key h (add_candidate sc x cs) ≡ (has_key h cs || eq h x && allow_host sc h)
  add_candidate-has_key h x cs = elim (Bool-cases (eq h x)) [
    | inl same ↦
        let one = (eq_iff h x).0 same in
        rw (one, eq_refl x) (add_candidate-same x cs (has_key x cs) (allow_host sc x) refl refl)
    | inr other ↦ rw other (
        add_candidate-other h x cs (has_key x cs) (allow_host sc x) refl refl other
        ∙ sym (or-false (has_key h cs)))
  ]

  -- one test for two additions in turn
  join : (a b c d : Bool) → ((a || b && d) || c && d) ≡ (a || (b || c) && d)
  join true b c d = refl
  join false true c true = refl
  join false true true false = refl
  join false true false false = refl
  join false false c d = refl

  module _ (domain : Bytes) where
    add_labels-has_key :
        (h : Bytes) (labels cs : List Bytes)
        → has_key h (add_labels sc domain labels cs)
          ≡ (has_key h cs || any (λ l. eq h (host_of domain l)) labels && allow_host sc h)
    unfolding add_labels
    add_labels-has_key h [] cs = sym (or-false (has_key h cs))
    add_labels-has_key h (l ∷ labels) cs =
        add_labels-has_key h labels (add_candidate sc (host_of domain l) cs)
        ∙ rw (add_candidate-has_key h (host_of domain l) cs)
            (join (has_key h cs) (eq h (host_of domain l)) _ _)

    add_words-has_key :
        (perms : Bool) (h : Bytes) (words cs : List Bytes)
        → has_key h (add_words sc domain perms words cs) ≡ (
            has_key h cs
            || any (λ w. any (λ l. eq h (host_of domain l)) (labels_of perms w)) words
              && allow_host sc h)
    unfolding add_words
    add_words-has_key perms h [] cs = sym (or-false (has_key h cs))
    add_words-has_key perms h (w ∷ words) cs =
        add_words-has_key perms h words (add_labels sc domain (labels_of perms w) cs)
        ∙ rw (add_labels-has_key h (labels_of perms w) cs) (
            join (has_key h cs) (any (λ l. eq h (host_of domain l)) (labels_of perms w))
              (any (λ v. any (λ l. eq h (host_of domain l)) (labels_of perms v)) words)
              (allow_host sc h))

    variants-has_host :
        (h w : Bytes) (affixes : List Bytes)
        → any (λ l. eq h (host_of domain l)) (variants w affixes)
          ≡ any (λ a. is_variant domain h w a) affixes
    unfolding variants
    variants-has_host h w [] = refl
    variants-has_host h w (a ∷ rest) = rw (variants-has_host h w rest) (
        or_assoc_three (eq h ((a ++ (b'-' ∷ w)) ++ (b'.' ∷ domain)))
          (eq h ((w ++ (b'-' ∷ a)) ++ (b'.' ∷ domain))) (eq h ((w ++ a) ++ (b'.' ∷ domain))) _)

    labels_of-has_host :
        (perms : Bool) (h w : Bytes)
        → any (λ l. eq h (host_of domain l)) (labels_of perms w) ≡ is_made_of domain perms h w
    unfolding labels_of generate_permutations
    labels_of-has_host true h w =
        ap (λ b. eq h (host_of domain w) || b) (variants-has_host h w common_affixes)
    labels_of-has_host false h w = refl

    any-is_made_of :
        (perms : Bool) (h : Bytes) (words : List Bytes)
        → any (λ w. any (λ l. eq h (host_of domain l)) (labels_of perms w)) words
          ≡ any (is_made_of domain perms h) words
    any-is_made_of perms h [] = refl
    any-is_made_of perms h (w ∷ words) =
        rw (labels_of-has_host perms h w, any-is_made_of perms h words) refl

    -- A name is a candidate exactly if it is in scope and is `w.domain` for one of the words w, or, where
    -- permutations are enabled, `a-w.domain`, `w-a.domain` or `wa.domain` for one of the affixes a.
    pub candidates_of-has_key :
        (perms : Bool) (words : List Bytes) (h : Bytes)
        → has_key h (candidates_of sc domain perms words)
          ≡ (any (is_made_of domain perms h) words && allow_host sc h)
    unfolding candidates_of has_key
    candidates_of-has_key perms words h =
        any-perm (eq h) (sort_strings-perm (add_words sc domain perms words []))
        ∙ add_words-has_key perms h words []
        ∙ ap (λ b. b && allow_host sc h) (any-is_made_of perms h words)

-- No name stands twice.
abbrev pub IsDistinct : List Bytes → Type 0
IsDistinct [] = Unit
IsDistinct (x ∷ xs) = (has_key x xs ≡ false) × IsDistinct xs

or_false_both : (a b : Bool) → (a || b) ≡ false → (a ≡ false) × (b ≡ false)
or_false_both true b h = cc
or_false_both false b h = (refl, h)

pub eq_swap : (s t : Bytes) → eq s t ≡ false → eq t s ≡ false
eq_swap s t h = elim (Bool-cases (eq t s)) [
  | inl e ↦ let same = (eq_iff t s).0 e in cc (h, same, eq_refl t)
  | inr e ↦ e
]

append-IsDistinct :
    (xs : List Bytes) (x : Bytes) → has_key x xs ≡ false → IsDistinct xs → IsDistinct (xs ++ x ∷ [])
unfolding has_key
append-IsDistinct [] x e d = (refl, tt)
append-IsDistinct (y ∷ xs) x e (new, d) =
    let (other, later) = or_false_both (eq x y) (has_key x xs) e in
    (
      has_key-append y xs (x ∷ []) ∙ rw (new, has_key-one y x, eq_swap x y other) refl,
      append-IsDistinct xs x later d,
    )

add_candidate-IsDistinct :
    (sc : Scope) (x : Bytes) (cs : List Bytes) → IsDistinct cs → IsDistinct (add_candidate sc x cs)
unfolding add_candidate
add_candidate-IsDistinct sc x cs d = elim (Bool-cases (has_key x cs)) [
  | inl e ↦ rw e d
  | inr e ↦ elim (Bool-cases (allow_host sc x)) [
    | inl f ↦ rw (e, f) (append-IsDistinct cs x e d)
    | inr f ↦ rw (e, f) d
  ]
]

add_labels-IsDistinct :
    (sc : Scope) (domain : Bytes) (labels cs : List Bytes)
    → IsDistinct cs
    → IsDistinct (add_labels sc domain labels cs)
unfolding add_labels
add_labels-IsDistinct sc domain [] cs d = d
add_labels-IsDistinct sc domain (l ∷ labels) cs d =
    add_labels-IsDistinct sc domain labels _ (add_candidate-IsDistinct sc (host_of domain l) cs d)

add_words-IsDistinct :
    (sc : Scope) (domain : Bytes) (perms : Bool) (words cs : List Bytes)
    → IsDistinct cs
    → IsDistinct (add_words sc domain perms words cs)
unfolding add_words
add_words-IsDistinct sc domain perms [] cs d = d
add_words-IsDistinct sc domain perms (w ∷ words) cs d =
    add_words-IsDistinct sc domain perms words _
      (add_labels-IsDistinct sc domain (labels_of perms w) cs d)

insert_text-IsDistinct :
    (x : Bytes) (xs : List Bytes)
    → has_key x xs ≡ false
    → IsDistinct xs
    → IsDistinct (insert_text x xs)
unfolding insert_text has_key
insert_text-IsDistinct x [] e d = (refl, tt)
insert_text-IsDistinct x (y ∷ xs) e (new, d) =
    let (other, later) = or_false_both (eq x y) (has_key x xs) e in
    elim (Bool-cases (before y x)) [
      | inl f ↦ rw f (
        any-perm (eq y) (insert_text-perm x xs) ∙ rw (eq_swap x y other) new,
        insert_text-IsDistinct x xs later d,
      )
      | inr f ↦ rw f (e, (new, d))
    ]

pub sort_strings-IsDistinct : (xs : List Bytes) → IsDistinct xs → IsDistinct (sort_strings xs)
unfolding sort_strings
sort_strings-IsDistinct [] d = tt
sort_strings-IsDistinct (x ∷ xs) (new, d) =
    insert_text-IsDistinct x (sort_strings xs)
      (unfold has_key in any-perm (eq x) (sort_strings-perm xs) ∙ new)
      (sort_strings-IsDistinct xs d)

-- No name is resolved twice.
pub candidates_of-IsDistinct :
    (sc : Scope) (domain : Bytes) (perms : Bool) (words : List Bytes)
    → IsDistinct (candidates_of sc domain perms words)
unfolding candidates_of
candidates_of-IsDistinct sc domain perms words =
    sort_strings-IsDistinct _ (add_words-IsDistinct sc domain perms words [] tt)
