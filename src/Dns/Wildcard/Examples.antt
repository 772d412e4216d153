-- ===== src/Dns/Wildcard/Examples.antt =====
-- A domain that answers every name with one address.
use nett.Prelude.{◌≡◌, ◌≢◌, ◌↔◌, refl, true, none, some, [], ◌∷◌, All, ok}
use nett.Text.{codes, eq}
use nett.Net.{Net, Ip}
use nett.Dns.Wildcard.{
  WildcardResult, Probing, is, is_known, all_known, see_ip, see_ips, see_answer, probe_rounds,
  random_label, detect_wildcard, wildcard_probes,
}
use nett.Dns.Wildcard.Probes.{IsProbed, detect_wildcard-is}

-- an address is its own text
abbrev pub own_text : Net
own_text = record {
  parse_ip = λ s. some s;
  ip_string = λ ip. ip;
  parse_cidr = λ s. none;
  parse_url = λ s. none;
}

abbrev pub one_address : Ip
one_address = 10 ∷ 0 ∷ 0 ∷ 1 ∷ []

abbrev pub catch_all : Probing
catch_all = record { random = λ i. ok (i ∷ 255 ∷ []); lookup_a = λ name. some (one_address ∷ []) }

abbrev caught : WildcardResult
caught = record { detected = true; ips = one_address ∷ [] }

detected_catch_all : detect_wildcard own_text catch_all (codes "a.example") ≡ ok caught
unfolding detect_wildcard probe_rounds see_answer see_ips see_ip eq
detected_catch_all = refl

first_label : random_label (10 ∷ 255 ∷ []) ≡ codes "0aff"
unfolding random_label
first_label = refl

-- a part of the wildcard's addresses is enough
other_answer :
    is own_text (some (record caught { ips = (1 ∷ []) ∷ one_address ∷ [] })) (one_address ∷ [])
    ≡ true
unfolding is all_known is_known eq
other_answer = refl

detect_wildcard-is_example : (is own_text (some caught) (one_address ∷ []) ≡ true) ↔ (
    (one_address ∷ [] ≢ [])
    × All
        (λ ip. IsProbed own_text catch_all (codes "a.example") ip 0 wildcard_probes)
        (one_address ∷ []))
detect_wildcard-is_example =
    detect_wildcard-is own_text catch_all (codes "a.example") caught (one_address ∷ [])
      detected_catch_all
