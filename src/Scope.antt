-- ===== src/Scope.antt =====
-- internal/scope/scope.go: the scope engine. A state is the record `Scope`; the mutex makes each
-- method one step, so that a method is a function of the state. An IP set is the list of its keys.
pub mod Pattern
pub mod Hosts
pub mod Order
pub mod Rules
pub mod Changes
pub mod Runtime
pub mod Globs
pub mod Gained
mod Examples
use nett.Prelude.{
  ℕ, Bool, true, false, not, ◌&&◌, ◌||◌, Option, none, some, List, [], ◌∷◌, ◌++◌, if◌then◌else◌,
  Result, ok, err, ◌>>=◌, any, map, length, ◌==◌,
}
use nett.Text.{
  Bytes, codes, eq, has_prefix, has_suffix, trim_suffix, trim_space, to_lower, contains,
}
use nett.Net.{Net, Ip, Cidr, Url, cidr_contains}
use nett.Scope.Pattern.{Glob, compile, match}

-- config.ScopeConfig
pub record ScopeConfig : Type 0 where
  pub include : List Bytes
  pub exclude : List Bytes
  pub wildcards : List Bytes

pub record Scope : Type 0 where
  pub domains : List Bytes
  pub wildcards : List Glob
  pub exclude_domains : List Bytes
  pub exclude_wild : List Glob
  pub exclude_paths : List Glob
  pub ips : List Bytes
  pub cidrs : List Cidr
  pub exclude_ips : List Bytes
  pub exclude_cidrs : List Cidr
  pub dynamic : List Bytes

pub data Error : Type 0 where
  include_invalid_url exclude_empty_rule : Error
  url_unparsable url_no_host : Error

-- the value that `New` starts from
abbrev pub empty : Scope
empty = record {
  domains = [];
  wildcards = [];
  exclude_domains = [];
  exclude_wild = [];
  exclude_paths = [];
  ips = [];
  cidrs = [];
  exclude_ips = [];
  exclude_cidrs = [];
  dynamic = [];
}

-- hostMatchesDomain
unfoldable pub host_matches_domain : Bytes → Bytes → Bool
host_matches_domain host domain = eq host domain || has_suffix host (b'.' ∷ domain)

-- normalizeHost
unfoldable pub normalize_host : Bytes → Bytes
normalize_host host = trim_suffix (to_lower (trim_space host)) (codes ".")

-- whether a rule of the two kinds matches the normalized host
unfoldable pub host_rule : List Bytes → List Glob → Bytes → Bool
host_rule domains globs h = any (host_matches_domain h) domains || any (λ re. match re h) globs

unfoldable pub add_normalized : Bytes → Scope → Scope
add_normalized [] s = s
add_normalized (c ∷ d) s = record s { domains = s.domains ++ (c ∷ d) ∷ [] }

-- AddDomain
unfoldable pub add_domain : Bytes → Scope → Scope
unfolding add_normalized
add_domain domain s = add_normalized (normalize_host domain) s

unfoldable pub allow_normalized : Scope → Bytes → Bool
allow_normalized s [] = false
allow_normalized s (c ∷ h) =
    if host_rule s.exclude_domains s.exclude_wild (c ∷ h)
    then false
    else host_rule s.domains s.wildcards (c ∷ h)

-- AllowHost
unfoldable pub allow_host : Scope → Bytes → Bool
allow_host s host = allow_normalized s (normalize_host host)

unfoldable pub has_key : Bytes → List Bytes → Bool
has_key key keys = any (eq key) keys

-- whether an address is excluded, by itself or by a network
unfoldable pub ip_excluded : Net → Scope → Ip → Bool
ip_excluded net s ip =
    has_key (net.ip_string ip) s.exclude_ips || any (λ n. cidr_contains n ip) s.exclude_cidrs

-- AllowIP of an address that is not nil
unfoldable pub allow_ip : Net → Scope → Ip → Bool
allow_ip net s ip =
    if ip_excluded net s ip
    then false
    else if has_key (net.ip_string ip) s.ips
    then true
    else if has_key (net.ip_string ip) s.dynamic
    then true
    else any (λ n. cidr_contains n ip) s.cidrs

-- AddIP of an address that is not nil
unfoldable pub add_ip : Net → Ip → Scope → Scope
add_ip net ip s = record s { ips = net.ip_string ip ∷ s.ips }

-- LearnIP of an address that is not nil
unfoldable pub learn_ip : Net → Bytes → Ip → Scope → Scope
learn_ip net host ip s =
    if allow_host s host then record s { dynamic = net.ip_string ip ∷ s.dynamic } else s

-- what AllowURL does with a parsed URL that has a host
unfoldable pub allow_parsed : Scope → Url → Bool
allow_parsed s u =
    if allow_host s u.hostname
    then not
        (any (λ re. match re (if length u.path == 0 then codes "/" else u.path)) s.exclude_paths)
    else false

-- AllowURL
unfoldable pub allow_url : Net → Scope → Bytes → Result Error Bool
allow_url net s raw = elim (net.parse_url raw) [
  | none ↦ err Error.url_unparsable
  | some u ↦ if length u.hostname == 0 then err Error.url_no_host else ok (allow_parsed s u)
]

-- addInclude of an entry that is neither an IP nor a CIDR
unfoldable pub include_name : Net → Bytes → Scope → Result Error Scope
include_name net raw s =
    if contains raw (codes "://")
    then elim (net.parse_url raw) [
      | none ↦ err Error.include_invalid_url
      | some u ↦ ok (add_domain u.hostname s)
    ]
    else if contains raw (codes "*")
    then ok (record s { wildcards = s.wildcards ++ compile raw ∷ [] })
    else ok (add_domain raw s)

-- addInclude
unfoldable pub add_include : Net → Bytes → Scope → Result Error Scope
add_include net raw s = elim (net.parse_ip raw) [
  | some ip ↦ ok (record s { ips = net.ip_string ip ∷ s.ips })
  | none ↦ elim (net.parse_cidr raw) [
    | some n ↦ ok (record s { cidrs = s.cidrs ++ n ∷ [] })
    | none ↦ include_name net raw s
  ]
]

unfoldable pub exclude_normalized : Bytes → Scope → Result Error Scope
exclude_normalized [] s = err Error.exclude_empty_rule
exclude_normalized (c ∷ d) s = ok (record s { exclude_domains = s.exclude_domains ++ (c ∷ d) ∷ [] })

-- addExclude of an entry that is neither an IP nor a CIDR
unfoldable pub exclude_name : Bytes → Scope → Result Error Scope
unfolding exclude_normalized
exclude_name raw s =
    if has_prefix raw (codes "/")
    then ok (record s { exclude_paths = s.exclude_paths ++ compile raw ∷ [] })
    else if contains raw (codes "*")
    then ok (record s { exclude_wild = s.exclude_wild ++ compile raw ∷ [] })
    else exclude_normalized (normalize_host raw) s

-- addExclude
unfoldable pub add_exclude : Net → Bytes → Scope → Result Error Scope
add_exclude net raw s = elim (net.parse_ip raw) [
  | some ip ↦ ok (record s { exclude_ips = net.ip_string ip ∷ s.exclude_ips })
  | none ↦ elim (net.parse_cidr raw) [
    | some n ↦ ok (record s { exclude_cidrs = s.exclude_cidrs ++ n ∷ [] })
    | none ↦ exclude_name raw s
  ]
]

unfoldable pub include_all : Net → List Bytes → Scope → Result Error Scope
include_all net [] s = ok s
include_all net (raw ∷ rest) s = do s' ← add_include net raw s; include_all net rest s'

unfoldable pub exclude_all : Net → List Bytes → Scope → Result Error Scope
exclude_all net [] s = ok s
exclude_all net (raw ∷ rest) s = do s' ← add_exclude net raw s; exclude_all net rest s'

unfoldable pub add_wildcards : List Bytes → Scope → Scope
add_wildcards [] s = s
add_wildcards (raw ∷ rest) s =
    add_wildcards rest (record s { wildcards = s.wildcards ++ compile raw ∷ [] })

-- New
unfoldable pub new : Net → ScopeConfig → Result Error Scope
new net cfg = do
  s ← include_all net cfg.include empty
  s' ← exclude_all net cfg.exclude s
  ok (add_wildcards cfg.wildcards s')
