-- ===== src/Permute.antt =====
-- internal/permute/permute.go: the brute force of host names. What the outside answers is a parameter:
-- the lines of the wordlist, the probes and lookups (`Probing`), and the order in which the worker pool
-- ends the calls for its items.
pub mod Candidates
pub mod Found
pub mod Learned
mod Examples
use nett.Prelude.{
  ℕ, Bool, true, false, not, ◌||◌, Option, none, some, List, [], ◌∷◌, ◌++◌, map, if◌then◌else◌,
  Result, ok, err, ◌>>=◌, ◌>>◌, check,
}
use nett.Text.{Bytes, codes, eq, has_prefix, trim_space, to_lower}
use nett.Text.Order.{sort_strings}
use nett.Net.{Net, Ip}
use nett.Scope.{Scope, allow_host, has_key, learn_ip}
use nett.Dns.Wildcard.{WildcardResult, Probing, is, detect_wildcard}

pub data Error : Type 0 where
  open_failed read_failed : Bytes → Error
  no_entries out_of_scope : Error

pub record Finding : Type 0 where
  pub hostname : Bytes
  pub ips : List Ip
  pub resolved : Bool
  pub wildcard_match : Bool

-- the round for one line; `seen` has the words that were added
unfoldable pub add_line : Bytes → List Bytes → List Bytes
unfolding has_key has_prefix trim_space to_lower
add_line raw words =
    let line = to_lower (trim_space raw) in
    if eq line [] || has_prefix line (codes "#")
    then words
    else if has_key line words
    then words
    else words ++ line ∷ []

unfoldable pub add_lines : List Bytes → List Bytes → List Bytes
unfolding add_line
add_lines [] words = words
add_lines (raw ∷ lines) words = add_lines lines (add_line raw words)

-- if err := scanner.Err(), if len(words) == 0
abbrev pub checked_words : Option Bytes → List Bytes → Result Error (List Bytes)
checked_words (some e) words = err (Error.read_failed e)
checked_words none [] = err Error.no_entries
checked_words none (w ∷ words) = ok (w ∷ words)

-- LoadWordlist: of the error of os.Open, or the lines that are read and the error that ends them
unfoldable pub load_wordlist : Result Bytes (List Bytes × Option Bytes) → Result Error (List Bytes)
unfolding add_lines
load_wordlist (err e) = err (Error.open_failed e)
load_wordlist (ok (lines, e)) = checked_words e (add_lines lines [])

-- commonAffixes
abbrev pub common_affixes : List Bytes
common_affixes =
    codes "dev"
    ∷ codes "staging"
    ∷ codes "stage"
    ∷ codes "test"
    ∷ codes "uat"
    ∷ codes "qa"
    ∷ codes "01"
    ∷ codes "02"
    ∷ []

unfoldable pub variants : Bytes → List Bytes → List Bytes
variants word [] = []
variants word (affix ∷ rest) =
    (affix ++ (b'-' ∷ word)) ∷ (word ++ (b'-' ∷ affix)) ∷ (word ++ affix) ∷ variants word rest

-- GeneratePermutations
unfoldable pub generate_permutations : Bytes → List Bytes
unfolding variants
generate_permutations word = word ∷ variants word common_affixes

abbrev pub labels_of : Bool → Bytes → List Bytes
unfolding generate_permutations
labels_of enable_permutations w = if enable_permutations then generate_permutations w else w ∷ []

-- label + "." + domain
abbrev pub host_of : Bytes → Bytes → Bytes
host_of domain label = label ++ (b'.' ∷ domain)

-- addCandidate
unfoldable pub add_candidate : Scope → Bytes → List Bytes → List Bytes
unfolding has_key
add_candidate sc host candidates =
    if has_key host candidates
    then candidates
    else if not (allow_host sc host)
    then candidates
    else candidates ++ host ∷ []

unfoldable pub add_labels : Scope → Bytes → List Bytes → List Bytes → List Bytes
unfolding add_candidate
add_labels sc domain [] candidates = candidates
add_labels sc domain (l ∷ labels) candidates =
    add_labels sc domain labels (add_candidate sc (host_of domain l) candidates)

unfoldable pub add_words : Scope → Bytes → Bool → List Bytes → List Bytes → List Bytes
unfolding add_labels labels_of
add_words sc domain perms [] candidates = candidates
add_words sc domain perms (w ∷ words) candidates =
    add_words sc domain perms words (add_labels sc domain (labels_of perms w) candidates)

-- the sorted candidates
unfoldable pub candidates_of : Scope → Bytes → Bool → List Bytes → List Bytes
unfolding add_words sort_strings
candidates_of sc domain perms words = sort_strings (add_words sc domain perms words [])

-- &Finding{Hostname: h}
abbrev pub blank : Bytes → Finding
blank h = record { hostname = h; ips = []; resolved = false; wildcard_match = false }

-- the finding of `host`, whose name is its key in the map, with what its call stores in it
unfoldable pub store_finding : Bytes → List Ip → Bool → List Finding → List Finding
unfolding eq
store_finding host ips wild findings =
    map
      (λ f.
        if eq f.hostname host
        then record f { ips = ips; resolved = true; wildcard_match = wild }
        else f)
      findings

unfoldable pub learn_ips : Net → Bytes → List Ip → Scope → Scope
unfolding learn_ip
learn_ips net host [] sc = sc
learn_ips net host (ip ∷ ips) sc = learn_ips net host ips (learn_ip net host ip sc)

-- the call for one candidate, of the answer of LookupA: the findings and the scope
unfoldable pub brute_call :
    Net
    → Option WildcardResult
    → Bytes
    → Option (List Ip)
    → List Finding × Scope
    → List Finding × Scope
unfolding store_finding learn_ips is
brute_call net w host none state = state
brute_call net w host (some []) state = state
brute_call net w host (some (ip ∷ ips)) (findings, sc) =
    (store_finding host (ip ∷ ips) (is net w (ip ∷ ips)) findings, learn_ips net host (ip ∷ ips) sc)

unfoldable pub brute_calls :
    Net → Option WildcardResult → Probing → List Bytes → List Finding × Scope → List Finding × Scope
unfolding brute_call
brute_calls net w p [] state = state
brute_calls net w p (host ∷ calls) state =
    brute_calls net w p calls (brute_call net w host (p.lookup_a host) state)

-- the findings that are resolved
unfoldable pub resolved_of : List Finding → List Finding
resolved_of [] = []
resolved_of (f ∷ findings) =
    let rest = resolved_of findings in if f.resolved then f ∷ rest else rest

-- wildcard, _ :=
abbrev pub without_error : {E A : Type 0} → Result E A → Option A
without_error (err e) = none
without_error (ok a) = some a

-- BruteForce
unfoldable pub brute_force :
    Net
    → Probing
    → (List Bytes → List Bytes)
    → Scope
    → Bytes
    → List Bytes
    → Bool
    → Result Error (List Finding × Scope)
unfolding candidates_of brute_calls resolved_of detect_wildcard
brute_force net p pool sc domain words perms = do
  check (allow_host sc domain) Error.out_of_scope
  let w = without_error (detect_wildcard net p domain)
  let candidates = candidates_of sc domain perms words
  let (findings, sc') = brute_calls net w p (pool candidates) (map blank candidates, sc)
  ok (resolved_of findings, sc')
