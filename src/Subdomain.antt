-- ===== src/Subdomain.antt =====
-- internal/subdomain/subdomain.go: the discovery of subdomains. A provider is its name and what its
-- query gives; the map from host names to the names of their providers is the list of its entries.
pub mod Candidates
pub mod Sources
pub mod Once
pub mod Calls
pub mod Found
mod Examples
use nett.Prelude.{
  ℕ, Bool, true, false, Option, none, some, List, [], ◌∷◌, ◌++◌, map, if◌then◌else◌, Result, ok,
  err, ◌>>=◌, ◌>>◌, check,
}
use nett.Text.{Bytes, codes, eq, trim_space, trim_suffix, to_lower}
use nett.Text.Order.{sort_strings}
use nett.Net.{Net, Ip}
use nett.Scope.{Scope, allow_host}
use nett.Dns.Wildcard.{WildcardResult, Probing, is, detect_wildcard}
use nett.Permute.{learn_ips, without_error}

pub data Error : Type 0 where
  out_of_scope : Error

pub record Finding : Type 0 where
  pub hostname : Bytes
  pub sources : List Bytes
  pub ips : List Ip
  pub resolved : Bool
  pub wildcard_match : Bool

pub record Provider : Type 0 where
  pub name : Bytes
  pub query : Bytes → Result Bytes (List Bytes)

-- the variables `sources` and `providerErrs`
pub record Hits : Type 0 where
  pub sources : List (Bytes × List Bytes)
  pub provider_errs : List (Bytes × Bytes)

-- sources[h] = append(sources[h], name)
unfoldable pub add_source : Bytes → Bytes → List (Bytes × List Bytes) → List (Bytes × List Bytes)
unfolding eq
add_source name h [] = (h, name ∷ []) ∷ []
add_source name h ((k, names) ∷ rest) =
    let below = add_source name h rest in
    if eq h k then (k, names ++ name ∷ []) ∷ rest else (k, names) ∷ below

unfoldable pub add_hits : Bytes → List Bytes → List (Bytes × List Bytes) → List (Bytes × List Bytes)
unfolding add_source
add_hits name [] sources = sources
add_hits name (h ∷ hits) sources = add_hits name hits (add_source name h sources)

-- providerErrs[p.Name()] = err
unfoldable pub set_error : Bytes → Bytes → List (Bytes × Bytes) → List (Bytes × Bytes)
unfolding eq
set_error name e [] = (name, e) ∷ []
set_error name e ((k, old) ∷ rest) =
    let below = set_error name e rest in if eq name k then (k, e) ∷ rest else (k, old) ∷ below

-- the round for one provider, of what its query gives
abbrev pub add_answer : Bytes → Result Bytes (List Bytes) → Hits → Hits
unfolding add_hits set_error
add_answer name (err e) hits = record hits { provider_errs = set_error name e hits.provider_errs }
add_answer name (ok found) hits = record hits { sources = add_hits name found hits.sources }

unfoldable pub ask : Bytes → List Provider → Hits → Hits
unfolding add_answer
ask domain [] hits = hits
ask domain (p ∷ providers) hits = ask domain providers (add_answer p.name (p.query domain) hits)

-- the keys that are in scope
unfoldable pub in_scope_keys : Scope → List (Bytes × List Bytes) → List Bytes
in_scope_keys sc [] = []
in_scope_keys sc ((h, names) ∷ rest) =
    let below = in_scope_keys sc rest in if allow_host sc h then h ∷ below else below

-- sources[h]
unfoldable pub sources_of : Bytes → List (Bytes × List Bytes) → List Bytes
unfolding eq
sources_of h [] = []
sources_of h ((k, names) ∷ rest) = let below = sources_of h rest in if eq h k then names else below

abbrev pub is_some_ip : List Ip → Bool
is_some_ip [] = false
is_some_ip (ip ∷ ips) = true

-- the finding of `host`, whose name is its key in the map, with what its call stores in it
unfoldable pub store_answer : Bytes → List Ip → Bool → List Finding → List Finding
unfolding eq
store_answer host ips wild findings =
    map
      (λ f.
        if eq f.hostname host
        then record f { ips = ips; resolved = is_some_ip ips; wildcard_match = wild }
        else f)
      findings

-- the call for one candidate, of the answer of LookupA
unfoldable pub discover_call :
    Net
    → Option WildcardResult
    → Bytes
    → Option (List Ip)
    → List Finding × Scope
    → List Finding × Scope
unfolding store_answer learn_ips is
discover_call net w host none state = state
discover_call net w host (some ips) (findings, sc) =
    (store_answer host ips (is net w ips) findings, learn_ips net host ips sc)

unfoldable pub discover_calls :
    Net → Option WildcardResult → Probing → List Bytes → List Finding × Scope → List Finding × Scope
unfolding discover_call
discover_calls net w p [] state = state
discover_calls net w p (host ∷ calls) state =
    discover_calls net w p calls (discover_call net w host (p.lookup_a host) state)

-- &Finding{Hostname: h, Sources: sources[h]}
unfoldable pub listed : List (Bytes × List Bytes) → Bytes → Finding
unfolding sources_of
listed sources h = record {
  hostname = h;
  sources = sources_of h sources;
  ips = [];
  resolved = false;
  wildcard_match = false;
}

-- the sorted candidates
unfoldable pub candidates_in : Scope → List (Bytes × List Bytes) → List Bytes
unfolding sort_strings in_scope_keys
candidates_in sc sources = sort_strings (in_scope_keys sc sources)

-- Discover: the findings, the errors of the providers, and the scope
unfoldable pub discover :
    Net
    → Probing
    → (List Bytes → List Bytes)
    → Scope
    → List Provider
    → Bytes
    → Result Error (List Finding × List (Bytes × Bytes) × Scope)
unfolding ask candidates_in discover_calls detect_wildcard
discover net p pool sc providers domain = do
  check (allow_host sc domain) Error.out_of_scope
  let w = without_error (detect_wildcard net p domain)
  let hits = ask domain providers (record { sources = []; provider_errs = [] })
  let candidates = candidates_in sc hits.sources
  let (findings, sc') =
      discover_calls net w p (pool candidates) (map (listed hits.sources) candidates, sc)
  ok (findings, hits.provider_errs, sc')

-- NormalizeDomain
unfoldable pub normalize_domain : Bytes → Bytes
unfolding to_lower trim_suffix trim_space
normalize_domain domain = to_lower (trim_suffix (trim_space domain) (codes "."))
