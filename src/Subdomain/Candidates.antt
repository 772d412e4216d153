-- ===== src/Subdomain/Candidates.antt =====
-- Which names `Discover` (internal/subdomain/subdomain.go) resolves.
use nett.Prelude.{
  Bool, true, false, ◌&&◌, ◌||◌, List, [], ◌∷◌, ◌≡◌, refl, sym, ◌∙◌, if◌then◌else◌, any, Bool-cases,
  inl, inr, or-false, or_assoc, Result, ok, err,
}
use nett.Text.{Bytes, eq}
use nett.Text.Affixes.{eq_iff, eq_refl}
use nett.Text.Order.{sort_strings-perm}
use nett.Scope.{Scope, allow_host, has_key}
use nett.Permute.Found.{same_keys}
use nett.Subdomain.{
  Provider, Hits, add_source, add_hits, add_answer, ask, in_scope_keys, candidates_in,
}

-- whether a name has an entry
abbrev pub has_source : Bytes → List (Bytes × List Bytes) → Bool
has_source h sources = any (λ e. eq h e.0) sources

-- whether what a query gives has the name
abbrev pub is_hit : Bytes → Result Bytes (List Bytes) → Bool
is_hit h (err e) = false
is_hit h (ok found) = has_key h found

turn : (a b c : Bool) → (a || (b || c)) ≡ (b || (a || c))
turn true true c = refl
turn true false c = refl
turn false b c = refl

pub add_source-has_source :
    (name h x : Bytes) (sources : List (Bytes × List Bytes))
    → has_source h (add_source name x sources) ≡ (eq h x || has_source h sources)
unfolding add_source
add_source-has_source name h x [] = refl
add_source-has_source name h x ((k, names) ∷ rest) = elim (Bool-cases (eq x k)) [
  | inl e ↦ rw (e, (eq_iff x k).0 e) (twice (eq h k) (has_source h rest))
  | inr e ↦ rw (e, add_source-has_source name h x rest) (turn (eq h k) (eq h x) (has_source h rest))
]
  where
    twice : (a b : Bool) → (a || b) ≡ (a || (a || b))
    twice true b = refl
    twice false b = refl

add_hits-has_source :
    (name h : Bytes) (hits : List Bytes) (sources : List (Bytes × List Bytes))
    → has_source h (add_hits name hits sources) ≡ (has_key h hits || has_source h sources)
unfolding add_hits has_key
add_hits-has_source name h [] sources = refl
add_hits-has_source name h (x ∷ hits) sources =
    add_hits-has_source name h hits (add_source name x sources)
    ∙ rw (add_source-has_source name h x sources) (
        turn (any (eq h) hits) (eq h x) (has_source h sources)
        ∙ sym (or_assoc (eq h x) (any (eq h) hits) (has_source h sources)))

add_answer-has_source :
    (name h : Bytes) (answer : Result Bytes (List Bytes)) (hits : Hits)
    → has_source h (add_answer name answer hits).sources
      ≡ (is_hit h answer || has_source h hits.sources)
unfolding add_answer
add_answer-has_source name h (err e) hits = refl
add_answer-has_source name h (ok found) hits = add_hits-has_source name h found hits.sources

ask-has_source :
    (domain h : Bytes) (providers : List Provider) (hits : Hits)
    → has_source h (ask domain providers hits).sources
      ≡ (any (λ p. is_hit h (p.query domain)) providers || has_source h hits.sources)
unfolding ask
ask-has_source domain h [] hits = refl
ask-has_source domain h (p ∷ providers) hits =
    let answer = is_hit h (p.query domain) in
    let more = any (λ p. is_hit h (p.query domain)) providers in
    ask-has_source domain h providers (add_answer p.name (p.query domain) hits)
    ∙ rw (add_answer-has_source p.name h (p.query domain) hits) (
        turn more answer (has_source h hits.sources)
        ∙ sym (or_assoc answer more (has_source h hits.sources)))

module _ (sc : Scope) where
  key_in_scope :
      (h k : Bytes) (below : List Bytes) (allowed : Bool)
      → allow_host sc k ≡ allowed
      → has_key h (if allowed then k ∷ below else below)
        ≡ (eq h k && allow_host sc h || has_key h below)
  unfolding has_key
  key_in_scope h k below allowed e = elim (Bool-cases (eq h k)) [
    | inl same ↦ rw ((eq_iff h k).0 same, eq_refl k, e) (found allowed (eq_refl k))
    | inr other ↦ rw other (missed allowed other)
  ]
    where
      found :
          (b : Bool)
          → eq k k ≡ true
          → any (eq k) (if b then k ∷ below else below) ≡ (b || any (eq k) below)
      found true f = rw f refl
      found false f = refl

      missed :
          (b : Bool)
          → eq h k ≡ false
          → any (eq h) (if b then k ∷ below else below) ≡ any (eq h) below
      missed true f = rw f refl
      missed false f = refl

  distribute : (a b c : Bool) → (a && c || b && c) ≡ ((a || b) && c)
  distribute true true true = refl
  distribute true true false = refl
  distribute true false true = refl
  distribute true false false = refl
  distribute false b c = refl

  pub in_scope_keys-has_key :
      (h : Bytes) (sources : List (Bytes × List Bytes))
      → has_key h (in_scope_keys sc sources) ≡ (has_source h sources && allow_host sc h)
  unfolding in_scope_keys
  in_scope_keys-has_key h [] = unfold has_key in refl
  in_scope_keys-has_key h ((k, names) ∷ rest) =
      key_in_scope h k (in_scope_keys sc rest) (allow_host sc k) refl
      ∙ rw (in_scope_keys-has_key h rest)
          (distribute (eq h k) (has_source h rest) (allow_host sc h))

  -- A name is a candidate exactly if some provider that did not fail reported it and it is in scope.
  pub candidates_in-has_key :
      (providers : List Provider) (domain h : Bytes)
      → has_key h (
          candidates_in sc
            (ask domain providers (record { sources = []; provider_errs = [] })).sources)
        ≡ (any (λ p. is_hit h (p.query domain)) providers && allow_host sc h)
  unfolding candidates_in
  candidates_in-has_key providers domain h =
      let sources = (ask domain providers (record { sources = []; provider_errs = [] })).sources in
      same_keys h (sort_strings-perm (in_scope_keys sc sources))
      ∙ in_scope_keys-has_key h sources
      ∙ rw
          (
            ask-has_source domain h providers (record { sources = []; provider_errs = [] }),
            or-false (any (λ p. is_hit h (p.query domain)) providers),
          )
          refl
