-- ===== src/Subdomain/Found.antt =====
-- What `Discover` (internal/subdomain/subdomain.go) reports, whatever the order of its calls.
use mathlib.Core.List.{Perm}
use nett.Prelude.{
  Bool, true, false, ◌&&◌, ◌||◌, Option, none, some, List, [], ◌∷◌, map, ◌≡◌, refl, ◌∙◌, All,
  Bool-cases, inl, inr, any, Ensures, Ensures-pure, Ensures-err,
}
use nett.Text.{Bytes}
use nett.Net.{Net, Ip}
use nett.Scope.{Scope, allow_host, has_key}
use nett.Dns.Wildcard.{WildcardResult, Probing, is, detect_wildcard}
use nett.Permute.{without_error}
use nett.Permute.Found.{same_keys, All-keys}
use nett.Subdomain.{
  Error, Finding, Provider, ask, sources_of, is_some_ip, listed, candidates_in, discover,
}
use nett.Subdomain.Candidates.{is_hit, candidates_in-has_key}
use nett.Subdomain.Sources.{reported, ask-sources}
use nett.Permute.Candidates.{IsDistinct}
use nett.Subdomain.Once.{candidates_in-IsDistinct}
use nett.Subdomain.Calls.{finding_of, after, calls-findings}

-- What is to be reported of a name: the providers that reported it, and its addresses where its lookup
-- has an answer, with what `Is` takes them for.
abbrev pub expected_of :
    Net → Option WildcardResult → Bytes → List Provider → Bytes → Option (List Ip) → Finding
expected_of net w domain providers h none = record {
  hostname = h;
  sources = reported domain h providers;
  ips = [];
  resolved = false;
  wildcard_match = false;
}
expected_of net w domain providers h (some ips) = record {
  hostname = h;
  sources = reported domain h providers;
  ips = ips;
  resolved = is_some_ip ips;
  wildcard_match = is net w ips;
}

finding_of-expected :
    (net : Net) (w : Option WildcardResult) (p : Probing) (sources : List (Bytes × List Bytes))
    (domain : Bytes) (providers : List Provider) (h : Bytes) (answer : Option (List Ip))
    → sources_of h sources ≡ reported domain h providers
    → finding_of net w p sources h answer ≡ expected_of net w domain providers h answer
unfolding listed
finding_of-expected net w p sources domain providers h none e = rw e refl
finding_of-expected net w p sources domain providers h (some ips) e = rw e refl

map-All :
    (f : Bool → Bytes → Finding) (g : Bytes → Finding) (d : Bytes → Bool) (names : List Bytes)
    → ((h : Bytes) → f true h ≡ g h)
    → All (λ h. d h ≡ true) names
    → map (λ h. f (d h) h) names ≡ map g names
map-All f g d [] e all = refl
map-All f g d (h ∷ names) e (here, all) =
    let first : f (d h) h ≡ g h = rw here (e h) in let rest = map-All f g d names e all in cc

map_blank :
    (net : Net) (w : Option WildcardResult) (p : Probing) (sources : List (Bytes × List Bytes))
    (names : List Bytes)
    → map (listed sources) names ≡ map (λ h. after net w p sources false h) names
map_blank net w p sources [] = refl
map_blank net w p sources (h ∷ names) = let rest = map_blank net w p sources names in cc

-- The report of a discovery: the findings that are to be reported of some names, which are those in
-- scope that some provider that did not fail reported, each once.
pub record IsReport (net : Net) (p : Probing) (sc : Scope) (providers : List Provider)
    (domain : Bytes) (report : List Finding) : Type 0 where
  pub names : List Bytes
  pub findings :
      report
      ≡ map
          (λ h.
            expected_of net
              (without_error (detect_wildcard net p domain))
              domain
              providers
              h
              (p.lookup_a h))
          names
  pub members :
      (h : Bytes)
      → has_key h names ≡ (any (λ q. is_hit h (q.query domain)) providers && allow_host sc h)
  pub distinct : IsDistinct names

-- `Discover` of a domain in scope reports exactly the names that some provider that did not fail reported
-- and that are in scope, each once, with the names of the providers that reported it and, where its
-- lookup succeeded, its addresses and whether `Is` takes them for the wildcard's, whatever the order of the
-- calls, where the worker pool calls each candidate once. It fails for a domain out of scope only.
pub discover-expected :
    (net : Net) (p : Probing) (pool : List Bytes → List Bytes) (sc : Scope)
    (providers : List Provider) (domain : Bytes)
    → ((names : List Bytes) → Perm (pool names) names)
    → Ensures
        (λ e. (e ≡ Error.out_of_scope) × (allow_host sc domain ≡ false))
        (λ r. IsReport net p sc providers domain r.0)
        (discover net p pool sc providers domain)
unfolding discover sources_of
discover-expected net p pool sc providers domain once =
    let w = without_error (detect_wildcard net p domain) in
    let hits = ask domain providers (record { sources = []; provider_errs = [] }) in
    let names = candidates_in sc hits.sources in
    let found =
      calls-findings net w p hits.sources (pool names) names (λ h. false)
        (map (listed hits.sources) names, sc) (map_blank net w p hits.sources names) in
    let all =
      All-keys (λ h. has_key h (pool names) || false) names
        (λ h e. rw (same_keys h (once names) ∙ e) refl) in
    let sources =
      λ (h : Bytes). ask-sources domain h providers (record { sources = []; provider_errs = [] }) in
    elim (Bool-cases (allow_host sc domain)) [
      | inl e ↦ rw e (
          Ensures-pure (record {
            names = names;
            findings =
                found
                ∙ map-All (after net w p hits.sources) _ (λ h. has_key h (pool names) || false)
                    names
                    (λ h.
                      finding_of-expected net w p hits.sources domain providers h (p.lookup_a h)
                        (sources h))
                    all;
            members = candidates_in-has_key sc providers domain;
            distinct = candidates_in-IsDistinct sc providers domain;
          }))
      | inr e ↦ rw e (Ensures-err (refl, refl))
    ]
