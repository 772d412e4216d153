-- ===== src/Scope/Order.antt =====
-- When one scope allows no more than another: told by the answers, and by the rules.
use nett.Prelude.{
  Bool, true, ◌||◌, List, [], ◌∷◌, ◌++◌, ◌≡◌, refl, arith, any, if◌then◌else◌, length, ◌==◌,
}
use nett.Text.{Bytes, codes}
use nett.Net.{Net, Ip, Url, cidr_contains}
use nett.Scope.Pattern.{Glob, match}
use nett.Scope.{
  Scope, host_matches_domain, host_rule, normalize_host, allow_normalized, allow_host, has_key,
  ip_excluded, allow_ip, allow_parsed,
}

pub any-append {ℓ} :
    {A : Type ℓ} (p : A → Bool) (xs ys : List A) → any p (xs ++ ys) ≡ (any p xs || any p ys)
any-append p [] ys = refl
any-append p (x ∷ xs) ys = ground (arith, any-append p xs ys)

-- whatever is allowed in `t` is allowed in `s`
pub record Below (net : Net) (t s : Scope) : Type 0 where
  pub hosts : (h : Bytes) → allow_host t h ≡ true → allow_host s h ≡ true
  pub addresses : (ip : Ip) → allow_ip net t ip ≡ true → allow_ip net s ip ≡ true
  pub urls : (u : Url) → allow_parsed t u ≡ true → allow_parsed s u ≡ true

-- every exclude rule of `s` is one of `t`, and every include rule of `t` is one of `s`: said by what
-- the rules decide
pub record Tighter (t s : Scope) : Type 0 where
  pub excluded :
      (h : Bytes)
      → host_rule s.exclude_domains s.exclude_wild h ≡ true
      → host_rule t.exclude_domains t.exclude_wild h ≡ true
  pub included :
      (h : Bytes)
      → host_rule t.domains t.wildcards h ≡ true
      → host_rule s.domains s.wildcards h ≡ true
  pub excluded_key : (k : Bytes) → has_key k s.exclude_ips ≡ true → has_key k t.exclude_ips ≡ true
  pub excluded_net :
      (ip : Ip)
      → any (λ n. cidr_contains n ip) s.exclude_cidrs ≡ true
      → any (λ n. cidr_contains n ip) t.exclude_cidrs ≡ true
  pub key : (k : Bytes) → has_key k t.ips ≡ true → has_key k s.ips ≡ true
  pub learned : (k : Bytes) → has_key k t.dynamic ≡ true → has_key k s.dynamic ≡ true
  pub network :
      (ip : Ip)
      → any (λ n. cidr_contains n ip) t.cidrs ≡ true
      → any (λ n. cidr_contains n ip) s.cidrs ≡ true
  pub path :
      (p : Bytes)
      → any (λ re. match re p) s.exclude_paths ≡ true
      → any (λ re. match re p) t.exclude_paths ≡ true

module _ (net : Net) (t s : Scope) (v : Tighter t s) where
  hosts_below : (h : Bytes) → allow_normalized t h ≡ true → allow_normalized s h ≡ true
  unfolding allow_normalized
  hosts_below [] e = cc
  hosts_below (c ∷ h) e = ground (arith, v.excluded (c ∷ h), v.included (c ∷ h))

  addresses_below : (ip : Ip) → allow_ip net t ip ≡ true → allow_ip net s ip ≡ true
  unfolding allow_ip ip_excluded
  addresses_below ip e =
      let k = net.ip_string ip in
      ground (arith, v.excluded_key k, v.excluded_net ip, v.key k, v.learned k, v.network ip)

  urls_below : (u : Url) → allow_parsed t u ≡ true → allow_parsed s u ≡ true
  unfolding allow_parsed allow_host
  urls_below u e =
      let p = if length u.path == 0 then codes "/" else u.path in
      ground (arith, v.path p, hosts_below (normalize_host u.hostname))

  pub Below-Tighter : Below net t s
  Below-Tighter = record {
    hosts = λ h. unfold allow_host in hosts_below (normalize_host h);
    addresses = addresses_below;
    urls = urls_below;
  }

pub Tighter-refl : (s : Scope) → Tighter s s
Tighter-refl s = record {
  excluded = λ h e. e;
  included = λ h e. e;
  excluded_key = λ k e. e;
  excluded_net = λ ip e. e;
  key = λ k e. e;
  learned = λ k e. e;
  network = λ ip e. e;
  path = λ p e. e;
}

pub any_front {ℓ} :
    {A : Type ℓ} (p : A → Bool) (xs ys : List A) → any p xs ≡ true → any p (xs ++ ys) ≡ true
any_front p xs ys h = rw any-append (rw h refl)

pub domain_front :
    (h : Bytes) (ds ds' : List Bytes) (gs : List Glob)
    → host_rule ds gs h ≡ true
    → host_rule (ds ++ ds') gs h ≡ true
unfolding host_rule
domain_front h ds ds' gs e = ground (arith, any-append (host_matches_domain h) ds ds')

pub glob_front :
    (h : Bytes) (ds : List Bytes) (gs gs' : List Glob)
    → host_rule ds gs h ≡ true
    → host_rule ds (gs ++ gs') h ≡ true
unfolding host_rule
glob_front h ds gs gs' e = ground (arith, any-append (λ re. match re h) gs gs')

pub key_front : (k j : Bytes) (ks : List Bytes) → has_key k ks ≡ true → has_key k (j ∷ ks) ≡ true
unfolding has_key
key_front k j ks e = ground arith

pub Below-refl : (net : Net) (s : Scope) → Below net s s
Below-refl net s = Below-Tighter net s s (Tighter-refl s)

pub Below-trans : {net : Net} {a b c : Scope} → Below net a b → Below net b c → Below net a c
Below-trans x y = record {
  hosts = λ h e. y.hosts h (x.hosts h e);
  addresses = λ ip e. y.addresses ip (x.addresses ip e);
  urls = λ u e. y.urls u (x.urls u e);
}
