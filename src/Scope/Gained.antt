-- ===== src/Scope/Gained.antt =====
-- The addresses that a scope gains while a scan runs, by `AddIP` and `LearnIP` (internal/scope/scope.go).
use nett.Prelude.{Bool, true, false, not, ◌&&◌, ◌||◌, [], ◌∷◌, ◌≡◌, refl, sym, ◌∙◌, any, arith, ap}
use nett.Text.{Bytes, eq}
use nett.Net.{Net, Ip, cidr_contains}
use nett.Scope.Runtime.{Step, Reach, Keeps, Reach-Keeps}
use nett.Scope.{
  Scope, normalize_host, allow_host, add_domain, add_normalized, has_key, ip_excluded, allow_ip,
  add_ip, learn_ip,
}

module _ (net : Net) where
  -- whether two addresses have the same text
  abbrev pub same_ip : Ip → Ip → Bool
  same_ip a b = eq (net.ip_string a) (net.ip_string b)

  -- whether a call adds the address, or learns it for a host that is in scope when it is made
  abbrev pub adds : {s t : Scope} → Ip → Step net s t → Bool
  adds a (Step.domain s d) = false
  adds a (Step.address s ip) = same_ip a ip
  adds a (Step.learn s host ip) = same_ip a ip && allow_host s host

  -- whether some call of a run does
  abbrev pub gained : {s t : Scope} → Ip → Reach net s t → Bool
  gained a Reach.here = false
  gained a (Reach.next r st) = adds a st || gained a r

  -- whether an address that is not excluded is allowed
  abbrev included : Scope → Ip → Bool
  included s a =
      has_key (net.ip_string a) s.ips
      || (has_key (net.ip_string a) s.dynamic || any (λ n. cidr_contains n a) s.cidrs)

  allow_ip-included :
      (s : Scope) (a : Ip) → allow_ip net s a ≡ (not (ip_excluded net s a) && included s a)
  unfolding allow_ip
  allow_ip-included s a = ground arith

  included-add_normalized :
      (d : Bytes) (s : Scope) (a : Ip) → included (add_normalized d s) a ≡ included s a
  unfolding add_normalized
  included-add_normalized [] s a = refl
  included-add_normalized (c ∷ d) s a = refl

  Step-included :
      {s t : Scope} (a : Ip) (st : Step net s t) → included t a ≡ (adds a st || included s a)
  unfolding add_domain add_ip learn_ip has_key
  Step-included a (Step.domain s d) = included-add_normalized (normalize_host d) s a
  Step-included a (Step.address s ip) = ground arith
  Step-included a (Step.learn s host ip) = ground arith

  Reach-included :
      {s t : Scope} (a : Ip) (r : Reach net s t) → included t a ≡ (gained a r || included s a)
  Reach-included a Reach.here = refl
  Reach-included a (Reach.next r st) =
      let first = Step-included a st in let rest = Reach-included a r in ground (arith, first, rest)

  same_excluded : {s t : Scope} (a : Ip) → Keeps s t → ip_excluded net t a ≡ ip_excluded net s a
  unfolding ip_excluded
  same_excluded a k = rw (k.exclude_ips, k.exclude_cidrs) refl

  spread : (n g i : Bool) → (n && (g || i)) ≡ (n && i || n && g)
  spread true true true = refl
  spread true true false = refl
  spread true false true = refl
  spread true false false = refl
  spread false g i = refl

  -- Behind a run, the scope allows an address exactly if it does not exclude it and either allowed it at
  -- the start or gained it: by a call of AddIP with an address of the same text, or by a call of LearnIP
  -- with one for a host that was in scope when the call was made.
  pub allow_ip-gained :
      {s t : Scope} (a : Ip) (r : Reach net s t)
      → allow_ip net t a ≡ (allow_ip net s a || (not (ip_excluded net s a) && gained a r))
  allow_ip-gained {s} {t} a r =
      let n = not (ip_excluded net s a) in
      allow_ip-included t a
      ∙ rw (same_excluded a (Reach-Keeps net r), Reach-included a r)
          (spread n (gained a r) (included s a))
      ∙ ap (λ b. b || n && gained a r) (sym (allow_ip-included s a))
