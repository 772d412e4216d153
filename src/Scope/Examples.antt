-- ===== src/Scope/Examples.antt =====
-- A scope on concrete inputs.
use nett.Prelude.{not, ◌&&◌, ◌||◌, ◌≡◌, ◌↔◌, refl, true, false, none, some, [], ◌∷◌, ok}
use nett.Text.{
  Bytes, codes, eq, contains, has_prefix, has_suffix, trim_suffix, trim_space, trim_left,
  trim_right, is_space, to_lower, to_lower_byte,
}
use nett.Net.{Net, Url, Ip}
use nett.Scope.Gained.{gained, allow_ip-gained}
use nett.Scope.{
  Scope, host_matches_domain, host_rule, normalize_host, allow_host, has_key, ip_excluded, allow_ip,
  learn_ip, add_include, include_name, add_domain, add_normalized, add_exclude, exclude_name,
  exclude_normalized, include_all, exclude_all, add_wildcards, new, empty, allow_parsed, add_ip,
}
use nett.Scope.Hosts.{InScope, allow_host_iff}
use nett.Scope.Order.{Below}
use nett.Scope.Changes.{new_fail_closed, add_exclude-Below, add_include-Below}
use nett.Scope.Runtime.{Step, Reach, excluded_ip_stays, excluded_host_stays}

-- no text is an address
abbrev names_only : Net
names_only = record {
  parse_ip = λ _. none;
  ip_string = λ ip. ip;
  parse_cidr = λ _. none;
  parse_url = λ s. some (record { hostname = s; path = [] });
}

abbrev shop : Scope
shop = record empty {
  domains = codes "shop.io" ∷ [];
  exclude_domains = codes "dev.shop.io" ∷ [];
  exclude_ips = (10 ∷ 0 ∷ 0 ∷ 9 ∷ []) ∷ [];
}

allow_host_iff_example :
    (allow_host shop (codes "WWW.shop.io.") ≡ true)
    ↔ InScope shop (normalize_host (codes "WWW.shop.io."))
allow_host_iff_example = allow_host_iff shop (codes "WWW.shop.io.")

abbrev excluding : Scope
excluding = record empty { exclude_domains = codes "shop.io" ∷ [] }

only_excluded :
    new names_only (record { include = []; exclude = codes "shop.io" ∷ []; wildcards = [] })
    ≡ ok excluding
unfolding new include_all exclude_all add_exclude exclude_name exclude_normalized add_wildcards
    normalize_host contains has_prefix has_suffix trim_suffix trim_space trim_left trim_right
    is_space to_lower to_lower_byte eq
only_excluded = refl

new_fail_closed_example :
    ((h : Bytes) → allow_host excluding h ≡ false)
    × ((ip : Ip) → allow_ip names_only excluding ip ≡ false)
    × ((u : Url) → allow_parsed excluding u ≡ false)
new_fail_closed_example = new_fail_closed names_only (codes "shop.io" ∷ []) only_excluded

abbrev tightened : Scope
tightened = record shop { exclude_domains = codes "dev.shop.io" ∷ codes "old.shop.io" ∷ [] }

old_excluded : add_exclude names_only (codes "old.shop.io") shop ≡ ok tightened
unfolding add_exclude exclude_name exclude_normalized normalize_host contains has_prefix has_suffix
    trim_suffix trim_space trim_left trim_right is_space to_lower to_lower_byte eq
old_excluded = refl

add_exclude-Below_example : Below names_only tightened shop
add_exclude-Below_example = add_exclude-Below names_only (codes "old.shop.io") shop old_excluded

abbrev widened : Scope
widened = record shop { domains = codes "shop.io" ∷ codes "shop.net" ∷ [] }

net_included : add_include names_only (codes "shop.net") shop ≡ ok widened
unfolding add_include include_name add_domain add_normalized normalize_host contains has_prefix
    has_suffix trim_suffix trim_space trim_left trim_right is_space to_lower to_lower_byte eq
net_included = refl

add_include-Below_example : Below names_only shop widened
add_include-Below_example = add_include-Below names_only (codes "shop.net") shop net_included

-- a domain, an address, and an address learned for a host in scope
abbrev after : Scope
after =
    learn_ip names_only (codes "www.shop.io") (10 ∷ 0 ∷ 0 ∷ 7 ∷ [])
      (add_ip names_only (10 ∷ 0 ∷ 0 ∷ 9 ∷ []) (add_domain (codes "dev.shop.io") shop))

run : Reach names_only shop after
run =
    Reach.next (Reach.next (Reach.next Reach.here (Step.domain _ _)) (Step.address _ _))
      (Step.learn _ (codes "www.shop.io") _)

ip_ruled_out : ip_excluded names_only shop (10 ∷ 0 ∷ 0 ∷ 9 ∷ []) ≡ true
unfolding ip_excluded has_key eq
ip_ruled_out = refl

excluded_ip_stays_example : allow_ip names_only after (10 ∷ 0 ∷ 0 ∷ 9 ∷ []) ≡ false
excluded_ip_stays_example = excluded_ip_stays names_only (10 ∷ 0 ∷ 0 ∷ 9 ∷ []) run ip_ruled_out

host_ruled_out :
    host_rule shop.exclude_domains shop.exclude_wild (normalize_host (codes "a.dev.shop.io")) ≡ true
unfolding host_rule host_matches_domain normalize_host has_suffix trim_suffix trim_space trim_left
    trim_right is_space to_lower to_lower_byte eq
host_ruled_out = refl

excluded_host_stays_example : allow_host after (codes "a.dev.shop.io") ≡ false
excluded_host_stays_example =
    excluded_host_stays names_only (codes "a.dev.shop.io") run host_ruled_out

allow_ip-gained_example : allow_ip names_only after (10 ∷ 0 ∷ 0 ∷ 7 ∷ []) ≡ (
    allow_ip names_only shop (10 ∷ 0 ∷ 0 ∷ 7 ∷ [])
    || (not (ip_excluded names_only shop (10 ∷ 0 ∷ 0 ∷ 7 ∷ []))
        && gained names_only (10 ∷ 0 ∷ 0 ∷ 7 ∷ []) run))
allow_ip-gained_example = allow_ip-gained names_only (10 ∷ 0 ∷ 0 ∷ 7 ∷ []) run
