-- ===== src/Scope/Hosts.antt =====
-- What `AllowHost` decides, against a specification by relations.
use nett.Prelude.{
  Bool, true, ◌||◌, List, [], ◌∷◌, ◌++◌, ◌≡◌, ◌≢◌, ◌↔◌, ◌⊎◌, inl, inr, refl, arith, any, or_true,
  Bool-cases,
}
use nett.Text.{Bytes, eq, has_suffix}
use nett.Text.Affixes.{eq_iff, has_suffix_iff}
use nett.Scope.Pattern.{Glob, match, Matches, match_iff}
use nett.Scope.{Scope, host_matches_domain, host_rule, normalize_host, allow_normalized, allow_host}

-- a domain or one of its subdomains
abbrev pub InDomain : Bytes → Bytes → Type 0
InDomain h d = (h ≡ d) ⊎ ((p : Bytes) × (h ≡ p ++ (b'.' ∷ d)))

-- some item of a list
abbrev pub Some {ℓ} : {A : Type ℓ} → (A → Type 0) → List A → Type 0
Some P [] = ⊥
Some P (x ∷ xs) = P x ⊎ Some P xs

-- Some rule of the two kinds covers the host.
abbrev pub Covers : List Bytes → List Glob → Bytes → Type 0
Covers domains globs h = Some (InDomain h) domains ⊎ Some (λ re. Matches re h) globs

host_matches_domain_iff : (h d : Bytes) → (host_matches_domain h d ≡ true) ↔ InDomain h d
unfolding host_matches_domain
host_matches_domain_iff h d = (sound, complete)
  where
    sound : (eq h d || has_suffix h (b'.' ∷ d)) ≡ true → InDomain h d
    sound e = elim (or_true (eq h d) _ e) [
      | inl x ↦ inl ((eq_iff h d).0 x)
      | inr x ↦ inr ((has_suffix_iff h (b'.' ∷ d)).0 x)
    ]

    complete : InDomain h d → (eq h d || has_suffix h (b'.' ∷ d)) ≡ true
    complete (inl x) = ground (arith, (eq_iff h d).1 x)
    complete (inr x) = ground (arith, (has_suffix_iff h (b'.' ∷ d)).1 x)

module _ {ℓ} {A : Type ℓ} (p : A → Bool) (P : A → Type 0)
    (same : (a : A) → (p a ≡ true) ↔ P a) where
  any_sound : (xs : List A) → any p xs ≡ true → Some P xs
  any_sound [] h = cc
  any_sound (x ∷ xs) h = elim (or_true (p x) _ h) [
    | inl e ↦ inl ((same x).0 e)
    | inr e ↦ inr (any_sound xs e)
  ]

  any_complete : (xs : List A) → Some P xs → any p xs ≡ true
  any_complete [] h = absurd h
  any_complete (x ∷ xs) (inl h) = ground (arith, (same x).1 h)
  any_complete (x ∷ xs) (inr h) = ground (arith, any_complete xs h)

module _ (ds : List Bytes) (gs : List Glob) (h : Bytes) where
  in_domain : (d : Bytes) → (host_matches_domain h d ≡ true) ↔ InDomain h d
  in_domain = host_matches_domain_iff h

  in_glob : (re : Glob) → (match re h ≡ true) ↔ Matches re h
  in_glob re = match_iff re h

  host_rule_sound : host_rule ds gs h ≡ true → Covers ds gs h
  unfolding host_rule
  host_rule_sound e = elim (or_true (any (host_matches_domain h) ds) _ e) [
    | inl x ↦ inl (any_sound (host_matches_domain h) (InDomain h) in_domain ds x)
    | inr x ↦ inr (any_sound (λ re. match re h) (λ re. Matches re h) in_glob gs x)
  ]

  host_rule_complete : Covers ds gs h → host_rule ds gs h ≡ true
  unfolding host_rule
  host_rule_complete (inl x) =
      ground (arith, any_complete (host_matches_domain h) (InDomain h) in_domain ds x)
  host_rule_complete (inr x) =
      ground (arith, any_complete (λ re. match re h) (λ re. Matches re h) in_glob gs x)

  pub host_rule_iff : (host_rule ds gs h ≡ true) ↔ Covers ds gs h
  host_rule_iff = (host_rule_sound, host_rule_complete)

-- The host is named, no exclude rule covers it, and some include rule does.
abbrev pub InScope : Scope → Bytes → Type 0
InScope s h =
    (h ≢ []) × ¬ Covers s.exclude_domains s.exclude_wild h × Covers s.domains s.wildcards h

module _ (s : Scope) where
  allow_sound : (h : Bytes) → allow_normalized s h ≡ true → InScope s h
  unfolding allow_normalized
  allow_sound [] e = cc
  allow_sound (c ∷ h) e =
      let ex = host_rule_iff s.exclude_domains s.exclude_wild (c ∷ h) in
      let inc = host_rule_iff s.domains s.wildcards (c ∷ h) in
      ((λ p. cc), (λ x. ground (arith, ex.1 x)), inc.0 (ground arith))

  allow_complete : (h : Bytes) → InScope s h → allow_normalized s h ≡ true
  unfolding allow_normalized
  allow_complete [] v = absurd (v.0 refl)
  allow_complete (c ∷ h) v =
      let ex = host_rule_iff s.exclude_domains s.exclude_wild (c ∷ h) in
      let inc = host_rule_iff s.domains s.wildcards (c ∷ h) in
      elim (Bool-cases (host_rule s.exclude_domains s.exclude_wild (c ∷ h))) [
        | inl e ↦ absurd (v.1 (ex.0 e))
        | inr e ↦ rw e (inc.1 v.2)
      ]

  -- `AllowHost` accepts exactly the hosts whose normalized form is not empty, is covered by no
  -- exclude rule, and is covered by an include rule: is a domain of the rules or a subdomain of one
  -- (a text that ends in a dot and the domain), or matches a wildcard.
  pub allow_host_iff : (host : Bytes) → (allow_host s host ≡ true) ↔ InScope s (normalize_host host)
  unfolding allow_host
  allow_host_iff host = (allow_sound (normalize_host host), allow_complete (normalize_host host))
