-- ===== src/Scope/Changes.antt =====
-- How each rule that is added changes what the scope allows: exclude rules only take away, include
-- rules only add, and with no include rule nothing is allowed.
use nett.Prelude.{
  Bool, true, false, none, some, List, [], ◌∷◌, ◌≡◌, ◌⊎◌, inl, inr, refl, arith, Option-cases, ok,
  err, Ensures, Ensures-pure, Ensures-err, Ensures-cases, Ensures-ok, >>=-eq-ok,
}
use nett.Text.{Bytes, codes, contains, has_prefix}
use nett.Net.{Net, Ip, Url}
use nett.Scope.Pattern.{compile}
use nett.Scope.{
  Scope, Error, host_rule, normalize_host, allow_normalized, allow_host, add_domain, add_normalized,
  has_key, ip_excluded, allow_ip, allow_parsed, include_name, add_include, exclude_normalized,
  exclude_name, add_exclude, include_all, exclude_all, add_wildcards, new, empty,
}
use nett.Scope.Order.{Below, Below-Tighter, Below-refl, Below-trans}
use nett.Scope.Rules.{Rule, exclude_rule, include_rule, exclude_rule-Tighter, include_rule-Tighter}

-- Any error is allowed: what is said is of the state that a call returns.
abbrev AnyError : Error → Type 0
AnyError _ = Unit {0}

module _ (net : Net) (s : Scope) where
  Excludes : Scope → Type 0
  Excludes t = (r : Rule) × (t ≡ exclude_rule r s)

  Includes : Scope → Type 0
  Includes t = (t ≡ s) ⊎ ((r : Rule) × (t ≡ include_rule r s))

  exclude_normalized-Excludes : (d : Bytes) → Ensures AnyError Excludes (exclude_normalized d s)
  unfolding exclude_normalized exclude_rule Excludes
  exclude_normalized-Excludes [] = Ensures-err tt
  exclude_normalized-Excludes (c ∷ d) = Ensures-pure (Rule.domain (c ∷ d), refl)

  exclude_name-Excludes : (raw : Bytes) → Ensures AnyError Excludes (exclude_name raw s)
  unfolding exclude_name exclude_rule Excludes
  exclude_name-Excludes raw =
      Ensures-cases (has_prefix raw (codes "/")) (Ensures-pure (Rule.path (compile raw), refl)) (
        Ensures-cases (contains raw (codes "*")) (Ensures-pure (Rule.wild (compile raw), refl))
          (exclude_normalized-Excludes (normalize_host raw)))

  add_exclude-Excludes : (raw : Bytes) → Ensures AnyError Excludes (add_exclude net raw s)
  unfolding add_exclude exclude_rule Excludes
  add_exclude-Excludes raw = elim (Option-cases (net.parse_ip raw)) [
    | inl e ↦ elim (Option-cases (net.parse_cidr raw)) [
      | inl e' ↦ rw (e, e', add_exclude) (exclude_name-Excludes raw)
      | inr (n, e') ↦ rw (e, e', add_exclude) (Ensures-pure (Rule.network n, refl))
    ]
    | inr (ip, e) ↦ rw (e, add_exclude) (Ensures-pure (Rule.key (net.ip_string ip), refl))
  ]

  add_domain-Includes : (d : Bytes) → Includes (add_domain d s)
  unfolding add_domain include_rule Includes
  add_domain-Includes d = go (normalize_host d)
    where
      go : (n : Bytes) → Includes (add_normalized n s)
      go [] = inl refl
      go (c ∷ n) = inr (Rule.domain (c ∷ n), refl)

  include_name-Includes : (raw : Bytes) → Ensures AnyError Includes (include_name net raw s)
  unfolding include_name include_rule Includes
  include_name-Includes raw = Ensures-cases (contains raw (codes "://")) parsed (
      Ensures-cases (contains raw (codes "*")) (Ensures-pure (inr (Rule.wild (compile raw), refl)))
        (Ensures-pure (add_domain-Includes raw)))
    where
      parsed : Ensures AnyError Includes (elim (net.parse_url raw) [
        | none ↦ err Error.include_invalid_url
        | some u ↦ ok (add_domain u.hostname s)
      ])
      parsed = elim (Option-cases (net.parse_url raw)) [
        | inl e ↦ rw e (Ensures-err tt)
        | inr (u, e) ↦ rw e (Ensures-pure (add_domain-Includes u.hostname))
      ]

  add_include-Includes : (raw : Bytes) → Ensures AnyError Includes (add_include net raw s)
  unfolding add_include include_rule Includes
  add_include-Includes raw = elim (Option-cases (net.parse_ip raw)) [
    | inl e ↦ elim (Option-cases (net.parse_cidr raw)) [
      | inl e' ↦ rw (e, e', add_include) (include_name-Includes raw)
      | inr (n, e') ↦ rw (e, e', add_include) (Ensures-pure (inr (Rule.network n, refl)))
    ]
    | inr (ip, e) ↦ rw (e, add_include) (Ensures-pure (inr (Rule.key (net.ip_string ip), refl)))
  ]

module _ (net : Net) (raw : Bytes) (s : Scope) {t : Scope} where
  -- An exclude entry that is accepted, of whatever kind, takes away only: the new scope allows no
  -- host, no address and no URL that the old one did not allow.
  pub add_exclude-Below : add_exclude net raw s ≡ ok t → Below net t s
  unfolding Excludes
  add_exclude-Below e =
      let (r, q) = Ensures-ok (add_exclude-Excludes net s raw) e in
      rw q (Below-Tighter net (exclude_rule r s) s (exclude_rule-Tighter r s))

  -- An include entry that is accepted adds only: what the old scope allowed, the new one allows.
  pub add_include-Below : add_include net raw s ≡ ok t → Below net s t
  unfolding Includes
  add_include-Below e = elim (Ensures-ok (add_include-Includes net s raw) e) [
    | inl q ↦ rw q (Below-refl net s)
    | inr (r, q) ↦ rw q (Below-Tighter net s (include_rule r s) (include_rule-Tighter r s))
  ]

exclude_all-Below :
    (net : Net) (entries : List Bytes) (s : Scope) {t : Scope}
    → exclude_all net entries s ≡ ok t
    → Below net t s
unfolding exclude_all
exclude_all-Below net [] s {t} e = let q : s ≡ t = cc in rw (← q) (Below-refl net s)
exclude_all-Below net (raw ∷ rest) s {t} e =
    let (s', e1, e2) = >>=-eq-ok (add_exclude net raw s) (λ x. exclude_all net rest x) e in
    Below-trans (exclude_all-Below net rest s' e2) (add_exclude-Below net raw s e1)

empty-normalized : (h : Bytes) → allow_normalized empty h ≡ false
unfolding allow_normalized host_rule
empty-normalized [] = refl
empty-normalized (c ∷ h) = refl

not_true : (b : Bool) → (b ≡ true → ⊥) → b ≡ false
not_true true h = absurd (h refl)
not_true false h = refl

module _ (net : Net) (excluded : List Bytes) {s : Scope} where
  exclude_only :
      new net (record { include = []; exclude = excluded; wildcards = [] }) ≡ ok s
      → Below net s empty
  unfolding new include_all add_wildcards
  exclude_only e =
      let (s', e1, e2) = >>=-eq-ok (exclude_all net excluded empty) (λ x. ok x) e in
      let q : s' ≡ s = cc in rw (← q) (exclude_all-Below net excluded empty e1)

  -- Nothing is implicitly in scope: with no include entry and no wildcard, whatever the exclude
  -- entries, a scope that `New` builds allows no host, no address and no URL.
  pub new_fail_closed :
      new net (record { include = []; exclude = excluded; wildcards = [] }) ≡ ok s
      → ((h : Bytes) → allow_host s h ≡ false)
        × ((ip : Ip) → allow_ip net s ip ≡ false)
        × ((u : Url) → allow_parsed s u ≡ false)
  new_fail_closed e =
      let b = exclude_only e in
      (
        (λ h. not_true _ λ t. host h (b.hosts h t)),
        (λ ip. not_true _ λ t. address ip (b.addresses ip t)),
        (λ u. not_true _ λ t. url u (b.urls u t)),
      )
    where
      host : (h : Bytes) → allow_host empty h ≡ true → ⊥
      host h t = unfold allow_host in cc (t, empty-normalized (normalize_host h))

      address : (ip : Ip) → allow_ip net empty ip ≡ true → ⊥
      address ip t = unfold allow_ip ip_excluded has_key in cc t

      url : (u : Url) → allow_parsed empty u ≡ true → ⊥
      url u t =
          unfold allow_parsed allow_host in
          ground (arith, t, empty-normalized (normalize_host u.hostname))
