-- ===== src/Subdomain/Calls.antt =====
-- What the calls of `Discover` (internal/subdomain/subdomain.go) store in its findings, in any order.
use nett.Prelude.{
  Bool, true, false, ◌||◌, Option, none, some, List, [], ◌∷◌, map, ◌≡◌, refl, sym, ap, ◌∙◌,
  if◌then◌else◌, Bool-cases, inl, inr, or-true,
}
use nett.Text.{Bytes, eq}
use nett.Text.Affixes.{eq_iff}
use nett.Net.{Net, Ip}
use nett.Scope.{Scope, has_key}
use nett.Dns.Wildcard.{WildcardResult, Probing, is}
use nett.Subdomain.{Finding, is_some_ip, store_answer, discover_call, discover_calls, listed}

module _ (net : Net) (w : Option WildcardResult) (p : Probing)
    (sources : List (Bytes × List Bytes)) where
  -- the finding of a name, of the answer of its lookup
  abbrev pub finding_of : Bytes → Option (List Ip) → Finding
  finding_of h none = listed sources h
  finding_of h (some ips) = record (listed sources h) {
    ips = ips;
    resolved = is_some_ip ips;
    wildcard_match = is net w ips;
  }

  -- the finding of a name, once its call is over if `done`
  abbrev pub after : Bool → Bytes → Finding
  after done h = if done then finding_of h (p.lookup_a h) else listed sources h

  finding_of-hostname : (h : Bytes) (answer : Option (List Ip)) → (finding_of h answer).hostname ≡ h
  unfolding listed
  finding_of-hostname h none = refl
  finding_of-hostname h (some ips) = refl

  after-hostname : (done : Bool) (h : Bytes) → (after done h).hostname ≡ h
  unfolding listed
  after-hostname true h = finding_of-hostname h (p.lookup_a h)
  after-hostname false h = refl

  finding_of-again :
      (h : Bytes) (answer : Option (List Ip)) (ips : List Ip)
      → record {
        hostname = h;
        sources = (finding_of h answer).sources;
        ips = ips;
        resolved = is_some_ip ips;
        wildcard_match = is net w ips;
      }
        ≡ finding_of h (some ips)
  unfolding listed
  finding_of-again h none ips = refl
  finding_of-again h (some old) ips = refl

  after-again :
      (done : Bool) (h : Bytes) (ips : List Ip)
      → record {
        hostname = h;
        sources = (after done h).sources;
        ips = ips;
        resolved = is_some_ip ips;
        wildcard_match = is net w ips;
      }
        ≡ finding_of h (some ips)
  unfolding listed
  after-again true h ips = finding_of-again h (p.lookup_a h) ips
  after-again false h ips = refl

  stored_one :
      (host : Bytes) (ips : List Ip) (done : Bool) (h : Bytes)
      → p.lookup_a host ≡ some ips
      → (if eq (after done h).hostname host
          then record (after done h) {
            ips = ips;
            resolved = is_some_ip ips;
            wildcard_match = is net w ips;
          }
          else after done h)
        ≡ after (eq h host || done) h
  stored_one host ips done h e = elim (Bool-cases (eq h host)) [
    | inl same ↦
        rw (after-hostname done h, same)
          (after-again done h ips
            ∙ sym (ap (finding_of h) (ap p.lookup_a ((eq_iff h host).0 same) ∙ e)))
    | inr other ↦ rw (after-hostname done h, other) refl
  ]

  stored :
      (host : Bytes) (ips : List Ip) (done : Bytes → Bool) (names : List Bytes)
      → p.lookup_a host ≡ some ips
      → store_answer host ips (is net w ips) (map (λ h. after (done h) h) names)
        ≡ map (λ h. after (eq h host || done h) h) names
  unfolding store_answer
  stored host ips done [] e = refl
  stored host ips done (h ∷ names) e =
      let first = stored_one host ips (done h) h e in let rest = stored host ips done names e in cc

  -- a call with no answer stores nothing
  unstored_one :
      (host : Bytes) (done : Bool) (h : Bytes)
      → p.lookup_a host ≡ none
      → after done h ≡ after (eq h host || done) h
  unstored_one host true h e = rw (or-true (eq h host)) refl
  unstored_one host false h e = elim (Bool-cases (eq h host)) [
    | inl same ↦ rw same (sym (ap (finding_of h) (ap p.lookup_a ((eq_iff h host).0 same) ∙ e)))
    | inr other ↦ rw other refl
  ]

  unstored :
      (host : Bytes) (done : Bytes → Bool) (names : List Bytes)
      → p.lookup_a host ≡ none
      → map (λ h. after (done h) h) names ≡ map (λ h. after (eq h host || done h) h) names
  unstored host done [] e = refl
  unstored host done (h ∷ names) e =
      let first = unstored_one host (done h) h e in let rest = unstored host done names e in cc

  call-findings :
      (host : Bytes) (answer : Option (List Ip)) (done : Bytes → Bool) (names : List Bytes)
      (sc : Scope)
      → p.lookup_a host ≡ answer
      → (discover_call net w host answer (map (λ h. after (done h) h) names, sc)).0
        ≡ map (λ h. after (eq h host || done h) h) names
  unfolding discover_call
  call-findings host none done names sc e = unstored host done names e
  call-findings host (some ips) done names sc e = stored host ips done names e

  map_same :
      (d d' : Bytes → Bool) (names : List Bytes)
      → ((h : Bytes) → d h ≡ d' h)
      → map (λ h. after (d h) h) names ≡ map (λ h. after (d' h) h) names
  map_same d d' [] e = refl
  map_same d d' (h ∷ names) e =
      let first = ap (λ b. after b h) (e h) in let rest = map_same d d' names e in cc

  pub calls-findings :
      (calls names : List Bytes) (done : Bytes → Bool) (state : List Finding × Scope)
      → state.0 ≡ map (λ h. after (done h) h) names
      → (discover_calls net w p calls state).0
        ≡ map (λ h. after (has_key h calls || done h) h) names
  unfolding discover_calls has_key
  calls-findings [] names done state e = e
  calls-findings (host ∷ calls) names done (findings, sc) e =
      calls-findings calls names (λ h. eq h host || done h) _
        (rw e (call-findings host (p.lookup_a host) done names sc refl))
      ∙ map_same _ _ names (λ h. turn (has_key h calls) (eq h host) (done h))
    where
      turn : (a b c : Bool) → (a || (b || c)) ≡ ((b || a) || c)
      turn true true c = refl
      turn true false c = refl
      turn false true c = refl
      turn false false c = refl
