-- ===== src/Subdomain/Sources.antt =====
-- The providers that `Discover` (internal/subdomain/subdomain.go) keeps for each name.
use nett.Prelude.{
  List, [], ◌∷◌, ◌++◌, ◌≡◌, refl, sym, ◌∙◌, if◌then◌else◌, Bool-cases, inl, inr, append_assoc,
  append-nil, Result, ok, err,
}
use nett.Text.{Bytes, eq}
use nett.Text.Affixes.{eq_iff, eq_refl}
use nett.Permute.Candidates.{eq_swap}
use nett.Subdomain.{Provider, Hits, add_source, add_hits, add_answer, ask, sources_of}

-- the provider's name, once for each time that it reports the name
abbrev pub reports : Bytes → Bytes → List Bytes → List Bytes
reports name h [] = []
reports name h (x ∷ found) =
    let below = reports name h found in if eq h x then name ∷ below else below

abbrev pub reports_of : Bytes → Bytes → Result Bytes (List Bytes) → List Bytes
reports_of name h (err e) = []
reports_of name h (ok found) = reports name h found

-- the names of the providers that reported a name, in their order
abbrev pub reported : Bytes → Bytes → List Provider → List Bytes
reported domain h [] = []
reported domain h (p ∷ providers) =
    reports_of p.name h (p.query domain) ++ reported domain h providers

add_source-sources :
    (name h x : Bytes) (sources : List (Bytes × List Bytes))
    → sources_of h (add_source name x sources)
      ≡ sources_of h sources ++ (if eq h x then name ∷ [] else [])
unfolding add_source sources_of
add_source-sources name h x [] = elim (Bool-cases (eq h x)) [
  | inl e ↦ rw e refl
  | inr e ↦ rw e refl
]
add_source-sources name h x ((k, names) ∷ rest) = elim (Bool-cases (eq x k)) [
  | inl e ↦
      rw (e, (eq_iff x k).0 e)
        (elim (Bool-cases (eq h k)) [
          | inl same ↦ rw same refl
          | inr other ↦ rw other (sym (append-nil (sources_of h rest)))
        ])
  | inr e ↦ rw e (elim (Bool-cases (eq h k)) [
    | inl same ↦ rw ((eq_iff h k).0 same, eq_refl k) (rw (eq_swap x k e) (sym (append-nil names)))
    | inr other ↦ rw other (add_source-sources name h x rest)
  ])
]

add_hits-sources :
    (name h : Bytes) (found : List Bytes) (sources : List (Bytes × List Bytes))
    → sources_of h (add_hits name found sources) ≡ sources_of h sources ++ reports name h found
unfolding add_hits
add_hits-sources name h [] sources = sym (append-nil (sources_of h sources))
add_hits-sources name h (x ∷ found) sources =
    add_hits-sources name h found (add_source name x sources)
    ∙ rw (add_source-sources name h x sources) (elim (Bool-cases (eq h x)) [
      | inl e ↦ rw e (append_assoc (sources_of h sources) (name ∷ []) (reports name h found))
      | inr e ↦ rw (e, append-nil (sources_of h sources)) refl
    ])

add_answer-sources :
    (name h : Bytes) (answer : Result Bytes (List Bytes)) (hits : Hits)
    → sources_of h (add_answer name answer hits).sources
      ≡ sources_of h hits.sources ++ reports_of name h answer
unfolding add_answer
add_answer-sources name h (err e) hits = sym (append-nil (sources_of h hits.sources))
add_answer-sources name h (ok found) hits = add_hits-sources name h found hits.sources

pub ask-sources :
    (domain h : Bytes) (providers : List Provider) (hits : Hits)
    → sources_of h (ask domain providers hits).sources
      ≡ sources_of h hits.sources ++ reported domain h providers
unfolding ask
ask-sources domain h [] hits = sym (append-nil (sources_of h hits.sources))
ask-sources domain h (p ∷ providers) hits =
    ask-sources domain h providers (add_answer p.name (p.query domain) hits)
    ∙ rw (add_answer-sources p.name h (p.query domain) hits) (
        append_assoc (sources_of h hits.sources) (reports_of p.name h (p.query domain))
          (reported domain h providers))
