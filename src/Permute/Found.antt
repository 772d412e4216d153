-- ===== src/Permute/Found.antt =====
-- What `BruteForce` (internal/permute/permute.go) reports, whatever the order of its calls.
use mathlib.Core.List.{Perm}
use nett.Prelude.{
  Bool, true, false, ◌||◌, Option, none, some, List, [], ◌∷◌, map, ◌≡◌, refl, sym, ap, ◌∙◌,
  if◌then◌else◌, All, Bool-cases, inl, inr, or-true, Ensures, Ensures-pure, Ensures-err,
}
use nett.Text.{Bytes, eq}
use nett.Text.Affixes.{eq_iff, eq_refl}
use nett.Text.Order.{any-perm}
use nett.Net.{Net, Ip}
use nett.Scope.{Scope, allow_host, has_key}
use nett.Dns.Wildcard.{WildcardResult, Probing, is, detect_wildcard}
use nett.Permute.{
  Error, Finding, blank, store_finding, brute_call, brute_calls, resolved_of, candidates_of,
  without_error, brute_force,
}

module _ (net : Net) (w : Option WildcardResult) (p : Probing) where
  -- the finding of a name, of the answer of its lookup
  abbrev finding_of : Bytes → Option (List Ip) → Finding
  finding_of h none = blank h
  finding_of h (some []) = blank h
  finding_of h (some (ip ∷ ips)) = record {
    hostname = h;
    ips = ip ∷ ips;
    resolved = true;
    wildcard_match = is net w (ip ∷ ips);
  }

  -- the finding of a name, once its call is over if `done`
  abbrev after : Bool → Bytes → Finding
  after done h = if done then finding_of h (p.lookup_a h) else blank h

  finding_of-hostname : (h : Bytes) (answer : Option (List Ip)) → (finding_of h answer).hostname ≡ h
  finding_of-hostname h none = refl
  finding_of-hostname h (some []) = refl
  finding_of-hostname h (some (ip ∷ ips)) = refl

  after-hostname : (done : Bool) (h : Bytes) → (after done h).hostname ≡ h
  after-hostname true h = finding_of-hostname h (p.lookup_a h)
  after-hostname false h = refl

  -- storing what a call found, in the finding of a name, and in those of some names
  stored_one :
      (host : Bytes) (ip : Ip) (ips : List Ip) (done : Bool) (h : Bytes)
      → p.lookup_a host ≡ some (ip ∷ ips)
      → (if eq (after done h).hostname host
          then record (after done h) {
            ips = ip ∷ ips;
            resolved = true;
            wildcard_match = is net w (ip ∷ ips);
          }
          else after done h)
        ≡ after (eq h host || done) h
  stored_one host ip ips done h e = elim (Bool-cases (eq h host)) [
    | inl same ↦
        rw (after-hostname done h, same)
          (sym (ap (finding_of h) (ap p.lookup_a ((eq_iff h host).0 same) ∙ e)))
    | inr other ↦ rw (after-hostname done h, other) refl
  ]

  stored :
      (host : Bytes) (ip : Ip) (ips : List Ip) (done : Bytes → Bool) (names : List Bytes)
      → p.lookup_a host ≡ some (ip ∷ ips)
      → store_finding host (ip ∷ ips) (is net w (ip ∷ ips)) (map (λ h. after (done h) h) names)
        ≡ map (λ h. after (eq h host || done h) h) names
  unfolding store_finding
  stored host ip ips done [] e = refl
  stored host ip ips done (h ∷ names) e =
      let first = stored_one host ip ips (done h) h e in
      let rest = stored host ip ips done names e in cc

  -- a call that stores nothing leaves the finding blank
  unstored_one :
      (host : Bytes) (done : Bool) (h : Bytes)
      → finding_of host (p.lookup_a host) ≡ blank host
      → after done h ≡ after (eq h host || done) h
  unstored_one host true h e = rw (or-true (eq h host)) refl
  unstored_one host false h e = elim (Bool-cases (eq h host)) [
    | inl same ↦ rw same (rw ((eq_iff h host).0 same) (sym e))
    | inr other ↦ rw other refl
  ]

  unstored :
      (host : Bytes) (done : Bytes → Bool) (names : List Bytes)
      → finding_of host (p.lookup_a host) ≡ blank host
      → map (λ h. after (done h) h) names ≡ map (λ h. after (eq h host || done h) h) names
  unstored host done [] e = refl
  unstored host done (h ∷ names) e =
      let first = unstored_one host (done h) h e in let rest = unstored host done names e in cc

  call-findings :
      (host : Bytes) (answer : Option (List Ip)) (done : Bytes → Bool) (names : List Bytes)
      (sc : Scope)
      → p.lookup_a host ≡ answer
      → (brute_call net w host answer (map (λ h. after (done h) h) names, sc)).0
        ≡ map (λ h. after (eq h host || done h) h) names
  unfolding brute_call
  call-findings host none done names sc e = unstored host done names (ap (finding_of host) e)
  call-findings host (some []) done names sc e = unstored host done names (ap (finding_of host) e)
  call-findings host (some (ip ∷ ips)) done names sc e = stored host ip ips done names e

  -- the test of a name's call being over, behind more calls
  map_same :
      (d d' : Bytes → Bool) (names : List Bytes)
      → ((h : Bytes) → d h ≡ d' h)
      → map (λ h. after (d h) h) names ≡ map (λ h. after (d' h) h) names
  map_same d d' [] e = refl
  map_same d d' (h ∷ names) e =
      let first = ap (λ b. after b h) (e h) in let rest = map_same d d' names e in cc

  calls-findings :
      (calls names : List Bytes) (done : Bytes → Bool) (state : List Finding × Scope)
      → state.0 ≡ map (λ h. after (done h) h) names
      → (brute_calls net w p calls state).0 ≡ map (λ h. after (has_key h calls || done h) h) names
  unfolding brute_calls has_key
  calls-findings [] names done state e = e
  calls-findings (host ∷ calls) names done (findings, sc) e =
      calls-findings calls names (λ h. eq h host || done h) _
        (rw e (call-findings host (p.lookup_a host) done names sc refl))
      ∙ map_same _ _ names (λ h. turn (has_key h calls) (eq h host) (done h))
    where
      turn : (a b c : Bool) → (a || (b || c)) ≡ ((b || a) || c)
      turn true true c = refl
      turn true false c = refl
      turn false true c = refl
      turn false false c = refl

  -- What is to be reported: each name with an answer that has an address, with that answer.
  abbrev pub expected_one : Bytes → Option (List Ip) → List Finding → List Finding
  expected_one h none rest = rest
  expected_one h (some []) rest = rest
  expected_one h (some (ip ∷ ips)) rest =
      record { hostname = h; ips = ip ∷ ips; resolved = true; wildcard_match = is net w (ip ∷ ips) }
      ∷ rest

  unfoldable pub expected : List Bytes → List Finding
  expected [] = []
  expected (h ∷ names) = expected_one h (p.lookup_a h) (expected names)

  resolved_one :
      (h : Bytes) (answer : Option (List Ip)) (rest : List Finding)
      → resolved_of (finding_of h answer ∷ rest) ≡ expected_one h answer (resolved_of rest)
  unfolding resolved_of
  resolved_one h none rest = refl
  resolved_one h (some []) rest = refl
  resolved_one h (some (ip ∷ ips)) rest = refl

  resolved-All :
      (names : List Bytes) (done : Bytes → Bool)
      → All (λ h. done h ≡ true) names
      → resolved_of (map (λ h. after (done h) h) names) ≡ expected names
  unfolding expected
  resolved-All [] done d = unfold resolved_of in refl
  resolved-All (h ∷ names) done (here, d) =
      rw here (resolved_one h (p.lookup_a h) _ ∙ rw (resolved-All names done d) refl)

pub All-keys :
    (d : Bytes → Bool) (names : List Bytes)
    → ((h : Bytes) → has_key h names ≡ true → d h ≡ true)
    → All (λ h. d h ≡ true) names
unfolding has_key
All-keys d [] f = tt
All-keys d (h ∷ names) f =
    (f h (rw (eq_refl h) refl), All-keys d names (λ k e. f k (rw e (or-true (eq k h)))))

pub same_keys : (h : Bytes) {xs ys : List Bytes} → Perm xs ys → has_key h xs ≡ has_key h ys
unfolding has_key
same_keys h once = any-perm (eq h) once

-- `BruteForce` of a domain in scope reports exactly the candidates whose lookup gives an address, in
-- their order, each with its addresses and with whether `Is` takes them for the wildcard's: whatever
-- the order of the calls, where the worker pool calls each candidate once.
pub brute_force-expected :
    (net : Net) (p : Probing) (pool : List Bytes → List Bytes) (sc : Scope) (domain : Bytes)
    (words : List Bytes) (perms : Bool)
    → Perm (pool (candidates_of sc domain perms words)) (candidates_of sc domain perms words)
    → Ensures
        (λ e. (e ≡ Error.out_of_scope) × (allow_host sc domain ≡ false))
        (λ r.
          r.0
          ≡ expected net
              (without_error (detect_wildcard net p domain))
              p
              (candidates_of sc domain perms words))
        (brute_force net p pool sc domain words perms)
unfolding brute_force
brute_force-expected net p pool sc domain words perms once =
    let w = without_error (detect_wildcard net p domain) in
    let names = candidates_of sc domain perms words in
    let found = calls-findings net w p (pool names) names (λ h. false) (map blank names, sc) refl in
    let all =
      All-keys (λ h. has_key h (pool names) || false) names
        (λ h e. rw (same_keys h once ∙ e) refl) in
    elim (Bool-cases (allow_host sc domain)) [
      | inl e ↦ rw e (Ensures-pure (ap resolved_of found ∙ resolved-All net w p names _ all))
      | inr e ↦ rw e (Ensures-err (refl, refl))
    ]
