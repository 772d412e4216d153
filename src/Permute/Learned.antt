-- ===== src/Permute/Learned.antt =====
-- The scope that `BruteForce` (internal/permute/permute.go) leaves behind: its lookups teach it addresses.
use nett.Prelude.{
  Bool, true, false, Option, none, some, List, [], ◌∷◌, map, ◌≡◌, Bool-cases, inl, inr, Ensures,
  Ensures-pure, Ensures-err,
}
use nett.Text.{Bytes}
use nett.Net.{Net, Ip}
use nett.Scope.{Scope, allow_host, ip_excluded, allow_ip}
use nett.Scope.Runtime.{Step, Reach, excluded_ip_stays}
use nett.Dns.Wildcard.{WildcardResult, Probing, detect_wildcard}
use nett.Permute.{
  Finding, blank, learn_ips, brute_call, brute_calls, candidates_of, without_error, brute_force,
}

module _ (net : Net) where
  learn_ips-Reach :
      (host : Bytes) (ips : List Ip) {sc t : Scope}
      → Reach net sc t
      → Reach net sc (learn_ips net host ips t)
  unfolding learn_ips
  learn_ips-Reach host [] r = r
  learn_ips-Reach host (ip ∷ ips) {t = t} r =
      learn_ips-Reach host ips (Reach.next r (Step.learn t host ip))

  brute_call-Reach :
      (w : Option WildcardResult) (host : Bytes) (answer : Option (List Ip)) (fs : List Finding)
      {sc t : Scope}
      → Reach net sc t
      → Reach net sc (brute_call net w host answer (fs, t)).1
  unfolding brute_call
  brute_call-Reach w host none fs r = r
  brute_call-Reach w host (some []) fs r = r
  brute_call-Reach w host (some (ip ∷ ips)) fs r = learn_ips-Reach host (ip ∷ ips) r

  brute_calls-Reach :
      (w : Option WildcardResult) (p : Probing) (calls : List Bytes) (state : List Finding × Scope)
      {sc : Scope}
      → Reach net sc state.1
      → Reach net sc (brute_calls net w p calls state).1
  unfolding brute_calls
  brute_calls-Reach w p [] state r = r
  brute_calls-Reach w p (host ∷ calls) (fs, t) r =
      brute_calls-Reach w p calls _ (brute_call-Reach w host (p.lookup_a host) fs r)

  -- An address that the scope excludes is allowed neither before a brute force nor behind it, whatever
  -- the lookups answer.
  pub brute_force-excluded :
      (p : Probing) (pool : List Bytes → List Bytes) (sc : Scope) (domain : Bytes)
      (words : List Bytes) (perms : Bool) (ip : Ip)
      → ip_excluded net sc ip ≡ true
      → Ensures
          (λ _. Unit {0})
          (λ r. allow_ip net r.1 ip ≡ false)
          (brute_force net p pool sc domain words perms)
  unfolding brute_force
  brute_force-excluded p pool sc domain words perms ip excluded =
      let w = without_error (detect_wildcard net p domain) in
      let names = candidates_of sc domain perms words in
      let reached = brute_calls-Reach w p (pool names) (map blank names, sc) Reach.here in
      elim (Bool-cases (allow_host sc domain)) [
        | inl e ↦ rw e (Ensures-pure (excluded_ip_stays net ip reached excluded))
        | inr e ↦ rw e (Ensures-err tt)
      ]
