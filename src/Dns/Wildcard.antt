-- ===== src/Dns/Wildcard.antt =====
-- internal/dns/wildcard.go: the detection of catch-all domains. The random bytes of each probe and the
-- answers of `LookupA` are parameters. The map from the text of an address to the address is the
-- list of its values, each under its own text.
pub mod Probes
pub mod Examples
use nett.Prelude.{
  ℕ, zero, suc, ◌+◌, ◌/◌, ◌%◌, Bool, true, false, not, ◌&&◌, Option, none, some, List, [], ◌∷◌,
  ◌++◌, if◌then◌else◌, any, get_elem?, Result, ok, err, ◌>>=◌,
}
use mathlib.Core.Option.{get_or}
use nett.Text.{Bytes, codes, eq}
use nett.Net.{Net, Ip}

pub record WildcardResult : Type 0 where
  pub detected : Bool
  pub ips : List Ip

-- wildcardProbes
abbrev pub wildcard_probes : ℕ
wildcard_probes = 3

-- whether an address with this text is in the list
unfoldable pub is_known : Net → Bytes → List Ip → Bool
unfolding eq
is_known net k ips = any (λ ip. eq k (net.ip_string ip)) ips

unfoldable pub all_known : Net → List Ip → List Ip → Bool
unfolding is_known
all_known net known [] = true
all_known net known (ip ∷ ips) = is_known net (net.ip_string ip) known && all_known net known ips

-- Is
unfoldable pub is : Net → Option WildcardResult → List Ip → Bool
unfolding all_known
is net none ips = false
is net (some w) [] = false
is net (some w) (ip ∷ ips) = w.detected && all_known net w.ips (ip ∷ ips)

-- seen[ip.String()] = ip
unfoldable pub see_ip : Net → Ip → List Ip → List Ip
unfolding eq
see_ip net ip [] = ip ∷ []
see_ip net ip (j ∷ seen) =
    let below = see_ip net ip seen in
    if eq (net.ip_string ip) (net.ip_string j) then ip ∷ seen else j ∷ below

unfoldable pub see_ips : Net → List Ip → List Ip → List Ip
unfolding see_ip
see_ips net [] seen = seen
see_ips net (ip ∷ ips) seen = see_ips net ips (see_ip net ip seen)

abbrev pub hex_digits : Bytes
hex_digits = codes "0123456789abcdef"

-- hexDigits[i]
abbrev pub hex_digit : ℕ → ℕ
hex_digit i = get_or (get_elem? hex_digits i) 0

-- randomLabel, of the bytes read
unfoldable pub random_label : List ℕ → Bytes
random_label [] = []
random_label (b ∷ buf) = hex_digit (b / 16) ∷ hex_digit (b % 16) ∷ random_label buf

-- What DetectWildcard asks of the outside: the bytes that are read for each probe, or the error, and the
-- answer of LookupA, where an error is `none`.
pub record Probing : Type 0 where
  pub random : ℕ → Result Bytes (List ℕ)
  pub lookup_a : Bytes → Option (List Ip)

-- what a lookup adds to `seen`
abbrev pub see_answer : Net → Option (List Ip) → List Ip → List Ip
unfolding see_ips
see_answer net none seen = seen
see_answer net (some ips) seen = see_ips net ips seen

abbrev pub probe_name : Bytes → List ℕ → Bytes
unfolding random_label
probe_name domain buf = random_label buf ++ (b'.' ∷ domain)

-- the rounds of the loop that are left, the first of them with the number `i`
unfoldable pub probe_rounds : Net → Probing → Bytes → ℕ → ℕ → List Ip → Result Bytes (List Ip)
unfolding see_answer probe_name
probe_rounds net p domain zero i seen = ok seen
probe_rounds net p domain (suc left) i seen = do
  buf ← p.random i
  probe_rounds net p domain left (suc i) (see_answer net (p.lookup_a (probe_name domain buf)) seen)

abbrev pub result_of : List Ip → WildcardResult
result_of [] = record { detected = false; ips = [] }
result_of (ip ∷ seen) = record { detected = true; ips = ip ∷ seen }

-- DetectWildcard
unfoldable pub detect_wildcard : Net → Probing → Bytes → Result Bytes WildcardResult
unfolding probe_rounds
detect_wildcard net p domain = do
  seen ← probe_rounds net p domain wildcard_probes 0 []
  ok (result_of seen)
