-- ===== src/Subdomain/Once.antt =====
-- The map of the sources in `Discover` (internal/subdomain/subdomain.go) has each key once.
use nett.Prelude.{
  Bool, false, ◌&&◌, List, [], ◌∷◌, ◌≡◌, refl, ◌∙◌, Bool-cases, inl, inr, Result, ok, err,
}
use nett.Text.{Bytes, eq}
use nett.Scope.{Scope, allow_host}
use nett.Permute.Candidates.{IsDistinct, eq_swap, sort_strings-IsDistinct}
use nett.Subdomain.{
  Provider, Hits, add_source, add_hits, add_answer, ask, in_scope_keys, candidates_in,
}
use nett.Subdomain.Candidates.{has_source, add_source-has_source, in_scope_keys-has_key}

abbrev IsOnce : List (Bytes × List Bytes) → Type 0
IsOnce [] = Unit
IsOnce ((k, names) ∷ rest) = (has_source k rest ≡ false) × IsOnce rest

add_source-IsOnce :
    (name x : Bytes) (sources : List (Bytes × List Bytes))
    → IsOnce sources
    → IsOnce (add_source name x sources)
unfolding add_source
add_source-IsOnce name x [] h = (refl, tt)
add_source-IsOnce name x ((k, names) ∷ rest) (new, h) = elim (Bool-cases (eq x k)) [
  | inl e ↦ rw e (new, h)
  | inr e ↦ rw e (
    add_source-has_source name k x rest ∙ rw (eq_swap x k e) new,
    add_source-IsOnce name x rest h,
  )
]

add_hits-IsOnce :
    (name : Bytes) (found : List Bytes) (sources : List (Bytes × List Bytes))
    → IsOnce sources
    → IsOnce (add_hits name found sources)
unfolding add_hits
add_hits-IsOnce name [] sources h = h
add_hits-IsOnce name (x ∷ found) sources h =
    add_hits-IsOnce name found (add_source name x sources) (add_source-IsOnce name x sources h)

add_answer-IsOnce :
    (name : Bytes) (answer : Result Bytes (List Bytes)) (hits : Hits)
    → IsOnce hits.sources
    → IsOnce (add_answer name answer hits).sources
unfolding add_answer
add_answer-IsOnce name (err e) hits h = h
add_answer-IsOnce name (ok found) hits h = add_hits-IsOnce name found hits.sources h

ask-IsOnce :
    (domain : Bytes) (providers : List Provider) (hits : Hits)
    → IsOnce hits.sources
    → IsOnce (ask domain providers hits).sources
unfolding ask
ask-IsOnce domain [] hits h = h
ask-IsOnce domain (p ∷ providers) hits h =
    ask-IsOnce domain providers (add_answer p.name (p.query domain) hits)
      (add_answer-IsOnce p.name (p.query domain) hits h)

and_left : (a b : Bool) → a ≡ false → (a && b) ≡ false
and_left a b h = rw h refl

in_scope_keys-IsDistinct :
    (sc : Scope) (sources : List (Bytes × List Bytes))
    → IsOnce sources
    → IsDistinct (in_scope_keys sc sources)
unfolding in_scope_keys
in_scope_keys-IsDistinct sc [] h = tt
in_scope_keys-IsDistinct sc ((k, names) ∷ rest) (new, h) = elim (Bool-cases (allow_host sc k)) [
  | inl e ↦ rw e (
    in_scope_keys-has_key sc k rest ∙ and_left (has_source k rest) (allow_host sc k) new,
    in_scope_keys-IsDistinct sc rest h,
  )
  | inr e ↦ rw e (in_scope_keys-IsDistinct sc rest h)
]

-- No name is resolved twice.
pub candidates_in-IsDistinct :
    (sc : Scope) (providers : List Provider) (domain : Bytes)
    → IsDistinct (
        candidates_in sc
          (ask domain providers (record { sources = []; provider_errs = [] })).sources)
unfolding candidates_in
candidates_in-IsDistinct sc providers domain = sort_strings-IsDistinct _ (
    in_scope_keys-IsDistinct sc _
      (ask-IsOnce domain providers (record { sources = []; provider_errs = [] }) tt))
