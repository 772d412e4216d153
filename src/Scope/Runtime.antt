-- ===== src/Scope/Runtime.antt =====
-- The scope while a scan runs: `AddDomain`, `AddIP` and `LearnIP`, in any order and number.
use nett.Prelude.{true, false, [], ◌∷◌, ◌++◌, ◌≡◌, refl, arith, Bool-cases, inl, inr}
use nett.Text.{Bytes}
use nett.Net.{Net, Ip}
use nett.Scope.Order.{domain_front}
use nett.Scope.{
  Scope, host_rule, normalize_host, allow_normalized, allow_host, add_domain, add_normalized,
  ip_excluded, allow_ip, add_ip, learn_ip,
}

pub data Step (net : Net) : Scope → Scope → Type 0 where
  domain : (s : Scope) (d : Bytes) → Step net s (add_domain d s)
  address : (s : Scope) (ip : Ip) → Step net s (add_ip net ip s)
  learn : (s : Scope) (host : Bytes) (ip : Ip) → Step net s (learn_ip net host ip s)

pub data Reach (net : Net) (s : Scope) : Scope → Type 0 where
  here : Reach net s s
  next : {t u : Scope} → Reach net s t → Step net t u → Reach net s u

-- What the steps leave as it is, and what they only add to.
pub record Keeps (s t : Scope) : Type 0 where
  pub exclude_domains : t.exclude_domains ≡ s.exclude_domains
  pub exclude_wild : t.exclude_wild ≡ s.exclude_wild
  pub exclude_ips : t.exclude_ips ≡ s.exclude_ips
  pub exclude_cidrs : t.exclude_cidrs ≡ s.exclude_cidrs
  pub hosts : (h : Bytes) → allow_host s h ≡ true → allow_host t h ≡ true

Keeps-refl : (s : Scope) → Keeps s s
Keeps-refl s = record {
  exclude_domains = refl;
  exclude_wild = refl;
  exclude_ips = refl;
  exclude_cidrs = refl;
  hosts = λ h e. e;
}

more_domains :
    (s : Scope) (d h : Bytes)
    → allow_normalized s h ≡ true
    → allow_normalized (record s { domains = s.domains ++ d ∷ [] }) h ≡ true
unfolding allow_normalized
more_domains s d [] e = cc
more_domains s d (c ∷ h) e = ground (arith, domain_front (c ∷ h) s.domains (d ∷ []) s.wildcards)

add_normalized-Keeps : (d : Bytes) (s : Scope) → Keeps s (add_normalized d s)
unfolding add_normalized allow_host
add_normalized-Keeps [] s = Keeps-refl s
add_normalized-Keeps (c ∷ d) s = record {
  exclude_domains = refl;
  exclude_wild = refl;
  exclude_ips = refl;
  exclude_cidrs = refl;
  hosts = λ h. more_domains s (c ∷ d) (normalize_host h);
}

learned-Keeps : (s : Scope) (k : Bytes) → Keeps s (record s { dynamic = k ∷ s.dynamic })
unfolding allow_host
learned-Keeps s k = record {
  exclude_domains = refl;
  exclude_wild = refl;
  exclude_ips = refl;
  exclude_cidrs = refl;
  hosts = λ h. same (normalize_host h);
}
  where
    same :
        (h : Bytes)
        → allow_normalized s h ≡ true
        → allow_normalized (record s { dynamic = k ∷ s.dynamic }) h ≡ true
    same [] e = unfold allow_normalized in e
    same (c ∷ h) e = unfold allow_normalized in e

address-Keeps : (s : Scope) (k : Bytes) → Keeps s (record s { ips = k ∷ s.ips })
unfolding allow_host
address-Keeps s k = record {
  exclude_domains = refl;
  exclude_wild = refl;
  exclude_ips = refl;
  exclude_cidrs = refl;
  hosts = λ h. same (normalize_host h);
}
  where
    same :
        (h : Bytes)
        → allow_normalized s h ≡ true
        → allow_normalized (record s { ips = k ∷ s.ips }) h ≡ true
    same [] e = unfold allow_normalized in e
    same (c ∷ h) e = unfold allow_normalized in e

module _ (net : Net) where
  learn_ip-Keeps : (host : Bytes) (ip : Ip) (s : Scope) → Keeps s (learn_ip net host ip s)
  unfolding learn_ip
  learn_ip-Keeps host ip s = elim (Bool-cases (allow_host s host)) [
    | inl e ↦ rw e (learned-Keeps s (net.ip_string ip))
    | inr e ↦ rw e (Keeps-refl s)
  ]

  Step-Keeps : {s t : Scope} → Step net s t → Keeps s t
  unfolding add_domain add_ip
  Step-Keeps (Step.domain s d) = add_normalized-Keeps (normalize_host d) s
  Step-Keeps (Step.address s ip) = address-Keeps s (net.ip_string ip)
  Step-Keeps (Step.learn s host ip) = learn_ip-Keeps host ip s

  pub Reach-Keeps : {s t : Scope} → Reach net s t → Keeps s t
  Reach-Keeps {s} Reach.here = Keeps-refl s
  Reach-Keeps (Reach.next r st) =
      let a = Reach-Keeps r in
      let b = Step-Keeps st in
      record {
        exclude_domains = cc (a.exclude_domains, b.exclude_domains);
        exclude_wild = cc (a.exclude_wild, b.exclude_wild);
        exclude_ips = cc (a.exclude_ips, b.exclude_ips);
        exclude_cidrs = cc (a.exclude_cidrs, b.exclude_cidrs);
        hosts = λ h e. b.hosts h (a.hosts h e);
      }

  still_refused :
      (t : Scope) (h : Bytes)
      → host_rule t.exclude_domains t.exclude_wild h ≡ true
      → allow_normalized t h ≡ false
  unfolding allow_normalized
  still_refused t [] e = refl
  still_refused t (c ∷ h) e = rw e

  -- An address that the scope excludes, by itself or by its network, stays refused through a whole
  -- run, whatever domains and addresses are added and whatever addresses are learned.
  pub excluded_ip_stays :
      {s t : Scope} (ip : Ip)
      → Reach net s t
      → ip_excluded net s ip ≡ true
      → allow_ip net t ip ≡ false
  unfolding allow_ip ip_excluded
  excluded_ip_stays ip r e = let k = Reach-Keeps r in ground (arith, k.exclude_ips, k.exclude_cidrs)

  -- A host that an exclude rule covers stays refused through a whole run, whatever domains and
  -- addresses are added and whatever addresses are learned.
  pub excluded_host_stays :
      {s t : Scope} (host : Bytes)
      → Reach net s t
      → host_rule s.exclude_domains s.exclude_wild (normalize_host host) ≡ true
      → allow_host t host ≡ false
  unfolding allow_host
  excluded_host_stays {t = t} host r e =
      let k = Reach-Keeps r in
      still_refused t (normalize_host host) (rw (k.exclude_domains, k.exclude_wild) e)
