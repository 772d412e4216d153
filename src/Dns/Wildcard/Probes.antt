-- ===== src/Dns/Wildcard/Probes.antt =====
-- What `Is` takes for the answer of a wildcard (internal/dns/wildcard.go).
use nett.Prelude.{
  ℕ, zero, suc, ◌+◌, ◌≤◌, ◌<◌, Bool, true, false, ◌||◌, Option, none, some, List, [], ◌∷◌, ◌≡◌, ◌≢◌,
  ◌↔◌, ◌⊎◌, inl, inr, refl, sym, ◌∙◌, All, All-map, Bool-cases, or_true, and_true, ok, >>=-eq-ok,
  ok-injective, arith, ◌==◌, ==_iff,
}
use mathlib.Core.Bool.{false≢true}
use nett.Text.{Bytes, eq}
use nett.Text.Affixes.{eq_iff}
use nett.Net.{Net, Ip}
use nett.Dns.Wildcard.{
  WildcardResult, Probing, is_known, all_known, is, see_ip, see_ips, see_answer, probe_name,
  probe_rounds, result_of, detect_wildcard, wildcard_probes,
}

module _ (net : Net) where
  see_ip-is_known :
      (k : Bytes) (ip : Ip) (seen : List Ip)
      → is_known net k (see_ip net ip seen) ≡ (eq k (net.ip_string ip) || is_known net k seen)
  unfolding is_known see_ip
  see_ip-is_known k ip [] = refl
  see_ip-is_known k ip (j ∷ seen) = elim (Bool-cases (eq (net.ip_string ip) (net.ip_string j))) [
    | inl e ↦
        rw (e, sym ((eq_iff (net.ip_string ip) (net.ip_string j)).0 e))
          (twice (eq k (net.ip_string ip)) _)
    | inr e ↦ rw (e, see_ip-is_known k ip seen) (swap (eq k (net.ip_string j)) _ _)
  ]
    where
      twice : (a b : Bool) → (a || b) ≡ (a || (a || b))
      twice true b = refl
      twice false b = refl

      swap : (a b c : Bool) → (a || (b || c)) ≡ (b || (a || c))
      swap true true c = refl
      swap true false c = refl
      swap false b c = refl

  is_known-cons :
      (k : Bytes) (ip : Ip) (ips : List Ip)
      → is_known net k (ip ∷ ips) ≡ (eq k (net.ip_string ip) || is_known net k ips)
  unfolding is_known
  is_known-cons k ip ips = refl

  see_ips-is_known :
      (k : Bytes) (ips seen : List Ip)
      → is_known net k (see_ips net ips seen) ≡ (is_known net k ips || is_known net k seen)
  unfolding see_ips
  see_ips-is_known k [] seen = unfold is_known in refl
  see_ips-is_known k (ip ∷ ips) seen =
      see_ips-is_known k ips (see_ip net ip seen)
      ∙ rw (see_ip-is_known k ip seen, is_known-cons k ip ips)
          (turn (is_known net k ips) (eq k (net.ip_string ip)) (is_known net k seen))
    where
      turn : (a b c : Bool) → (a || (b || c)) ≡ ((b || a) || c)
      turn true true c = refl
      turn true false c = refl
      turn false true c = refl
      turn false false c = refl

  module _ (p : Probing) (domain : Bytes) where
    -- The text `k` is that of an address in the answer to a probe.
    pub record IsProbed (k : Bytes) (first limit : ℕ) : Type 0 where
      pub i : ℕ
      pub from : first ≤ i
      pub below : i < limit
      pub buf : List ℕ
      pub read : p.random i ≡ ok buf
      pub answer : List Ip
      pub looked_up : p.lookup_a (probe_name domain buf) ≡ some answer
      pub known : is_known net k answer ≡ true

    -- one round: what is known behind it is what was known, or in its answer
    round-is_known :
        (k : Bytes) (buf : List ℕ) (answer : Option (List Ip)) (seen : List Ip)
        → p.lookup_a (probe_name domain buf) ≡ answer
        → is_known net k (see_answer net answer seen) ≡ true
        → ((ips : List Ip) × (p.lookup_a (probe_name domain buf) ≡ some ips)
            × (is_known net k ips ≡ true))
          ⊎ (is_known net k seen ≡ true)
    unfolding see_answer
    round-is_known k buf none seen e h = inr h
    round-is_known k buf (some ips) seen e h =
        elim (or_true (is_known net k ips) (is_known net k seen)
          (sym (see_ips-is_known k ips seen) ∙ h)) [
            | inl there ↦ inl (ips, e, there)
            | inr before ↦ inr before
          ]

    round_keeps :
        (k : Bytes) (answer : Option (List Ip)) (seen : List Ip)
        → is_known net k seen ≡ true
        → is_known net k (see_answer net answer seen) ≡ true
    unfolding see_answer
    round_keeps k none seen h = h
    round_keeps k (some ips) seen h =
        see_ips-is_known k ips seen ∙ rw h (or_last (is_known net k ips))
      where
        or_last : (b : Bool) → (b || true) ≡ true
        or_last true = refl
        or_last false = refl

    rounds-IsProbed :
        (k : Bytes) (left i : ℕ) (seen : List Ip) {out : List Ip}
        → probe_rounds net p domain left i seen ≡ ok out
        → is_known net k out ≡ true
        → IsProbed k i (i + left) ⊎ (is_known net k seen ≡ true)
    unfolding probe_rounds
    rounds-IsProbed k zero i seen e h = inr (rw (ok-injective e) h)
    rounds-IsProbed k (suc left) i seen e h =
        let (buf, read, rest) = >>=-eq-ok (p.random i) _ e in
        let answer = p.lookup_a (probe_name domain buf) in
        elim (rounds-IsProbed k left (suc i) (see_answer net answer seen) rest h) [
          | inl q ↦ inl (record {
            i = q.i;
            from = let later = q.from in omega arith;
            below = let sooner = q.below in omega arith;
            buf = q.buf;
            read = q.read;
            answer = q.answer;
            looked_up = q.looked_up;
            known = q.known;
          })
          | inr now ↦ elim (round-is_known k buf answer seen refl now) [
            | inl (ips, looked_up, known) ↦ inl (record {
              i = i;
              from = omega arith;
              below = omega arith;
              buf = buf;
              read = read;
              answer = ips;
              looked_up = looked_up;
              known = known;
            })
            | inr before ↦ inr before
          ]
        ]

    rounds_keep :
        (k : Bytes) (left i : ℕ) (seen : List Ip) {out : List Ip}
        → probe_rounds net p domain left i seen ≡ ok out
        → is_known net k seen ≡ true
        → is_known net k out ≡ true
    unfolding probe_rounds
    rounds_keep k zero i seen e h = rw (sym (ok-injective e)) h
    rounds_keep k (suc left) i seen e h =
        let (buf, read, rest) = >>=-eq-ok (p.random i) _ e in
        rounds_keep k left (suc i) _ rest
          (round_keeps k (p.lookup_a (probe_name domain buf)) seen h)

    probed_rounds :
        (k : Bytes) (left i : ℕ) (seen : List Ip) {out : List Ip}
        → probe_rounds net p domain left i seen ≡ ok out
        → IsProbed k i (i + left)
        → is_known net k out ≡ true
    unfolding probe_rounds
    probed_rounds k zero i seen e q =
        let sooner = q.below in let later = q.from in absurd (omega arith)
    probed_rounds k (suc left) i seen e q =
        let (buf, read, rest) = >>=-eq-ok (p.random i) _ e in
        elim (Bool-cases (q.i == i)) [
          | inl same ↦
              rounds_keep k left (suc i) _ rest (this_round buf read ((==_iff q.i i).0 same))
          | inr other ↦ probed_rounds k left (suc i) _ rest (record {
            i = q.i;
            from = let later = q.from in ground arith;
            below = let sooner = q.below in omega arith;
            buf = q.buf;
            read = q.read;
            answer = q.answer;
            looked_up = q.looked_up;
            known = q.known;
          })
        ]
      where
        this_round :
            (buf : List ℕ)
            → p.random i ≡ ok buf
            → q.i ≡ i
            → is_known net k (see_answer net (p.lookup_a (probe_name domain buf)) seen) ≡ true
        this_round buf read same =
            let read' : p.random i ≡ ok q.buf = rw (sym same) q.read in
            let one : buf ≡ q.buf = ok-injective (sym read ∙ read') in
            rw (one, q.looked_up) (see_ips-is_known k q.answer seen ∙ rw q.known)

  all_known_iff :
      (known ips : List Ip)
      → (all_known net known ips ≡ true)
        ↔ All (λ ip. is_known net (net.ip_string ip) known ≡ true) ips
  unfolding all_known
  all_known_iff known [] = (λ h. tt, λ h. refl)
  all_known_iff known (ip ∷ ips) = (
    λ h.
        let (first, rest) =
          and_true (is_known net (net.ip_string ip) known) (all_known net known ips) h in
        (first, (all_known_iff known ips).0 rest),
    λ h. rw (h.0, (all_known_iff known ips).1 h.1),
  )

  result_of-is :
      (seen ips : List Ip)
      → (is net (some (result_of seen)) ips ≡ true) ↔ ((ips ≢ []) × (all_known net seen ips ≡ true))
  unfolding is all_known is_known
  result_of-is seen [] = (λ h. absurd (false≢true h), λ h. absurd (h.0 refl))
  result_of-is [] (ip ∷ ips) = (λ h. absurd (false≢true h), λ h. absurd (false≢true h.1))
  result_of-is (j ∷ seen) (ip ∷ ips) = (λ h. (λ e. cc e, h), λ h. h.1)

  -- `Is` and `DetectWildcard` together: where the detection succeeds, an answer is taken for that of a
  -- wildcard if and only if it has an address, and each of its addresses was in the answer to one of
  -- the three probes.
  pub detect_wildcard-is :
      (p : Probing) (domain : Bytes) (w : WildcardResult) (ips : List Ip)
      → detect_wildcard net p domain ≡ ok w
      → (is net (some w) ips ≡ true)
        ↔ ((ips ≢ []) × All (λ ip. IsProbed p domain (net.ip_string ip) 0 wildcard_probes) ips)
  unfolding detect_wildcard
  detect_wildcard-is p domain w ips e =
      let (seen, rounds, result) = >>=-eq-ok (probe_rounds net p domain wildcard_probes 0 []) _ e in
      let same : result_of seen ≡ w = ok-injective result in
      let fine = result_of-is seen ips in
      (
        λ h.
            let (some_ip, known) = fine.0 (rw same h) in
            (
              some_ip,
              All-map _ _ ips (λ ip k. probed (net.ip_string ip) seen rounds k)
                  ((all_known_iff seen ips).0 known),
            ),
        λ h. rw (sym same) (
            fine.1 (
              h.0,
              (all_known_iff seen ips).1
                  (All-map _ _ ips (λ ip q. probed_rounds p domain _ 3 0 [] rounds q) h.1),
            )),
      )
    where
      probed :
          (k : Bytes) (seen : List Ip)
          → probe_rounds net p domain wildcard_probes 0 [] ≡ ok seen
          → is_known net k seen ≡ true
          → IsProbed p domain k 0 wildcard_probes
      probed k seen rounds h = elim (rounds-IsProbed p domain k 3 0 [] rounds h) [
        | inl q ↦ q
        | inr none_yet ↦ absurd (false≢true (unfold is_known in none_yet))
      ]
