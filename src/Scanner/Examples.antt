-- ===== src/Scanner/Examples.antt =====
-- A scan of two ports of which one accepts.
use mathlib.Core.List.{Perm}
use mathlib.Core.List.Perm
use nett.Prelude.{
  ℕ, ◌≡◌, refl, true, false, ◌==◌, if◌then◌else◌, some, none, Option, [], ◌∷◌, map, All,
}
use nett.Text.{Bytes, codes}
use nett.Text.Decimal.{ℤ}
use nett.Dns.Wildcard.Examples.{own_text, one_address}
use nett.Scanner.{
  State, ScanConfig, DialError, Dialer, scan, probe, scan_calls, classify_error, new,
}
use nett.Scanner.Outcomes.{IsTrue, scan-ports}

abbrev web_answer : Bytes → Option DialError
web_answer [] = none
web_answer (port ∷ host) =
    if port == 80
    then none
    else some (record {
      timed_out = false;
      refused = true;
      refused_inside = false;
      message = codes "refused";
    })

-- port 80 accepts, and no other
abbrev pub web_only : Dialer
web_only = record {
  wait_fails = λ port. false;
  join_host_port = λ host port. port ∷ host;
  dial = λ addr timeout. (web_answer addr, 7);
}

abbrev pub no_bounds : ScanConfig ℕ
no_bounds = record { concurrency = ℤ.pos 0; timeout = ℤ.negsuc 0; rate_limit_per_sec = 0 }

bounded :
    new no_bounds
    ≡ record { concurrency = ℤ.pos 1; timeout = ℤ.pos 3000000000; rate_limit_per_sec = 0 }
unfolding new
bounded = refl

states_of_ports :
    map
      (λ r. r.state)
      (scan own_text web_only (λ ports. ports) no_bounds one_address (22 ∷ 80 ∷ []))
    ≡ State.state_closed ∷ State.state_open ∷ []
unfolding scan scan_calls probe classify_error
states_of_ports = refl

scan-ports_example :
    Perm
      (map
        (λ r. r.port)
        (scan own_text web_only (λ ports. ports) no_bounds one_address (22 ∷ 80 ∷ [])))
      (22 ∷ 80 ∷ [])
    × All
        (IsTrue own_text web_only no_bounds one_address)
        (scan own_text web_only (λ ports. ports) no_bounds one_address (22 ∷ 80 ∷ []))
scan-ports_example =
    scan-ports own_text web_only no_bounds one_address (λ ports. ports) (22 ∷ 80 ∷ []) Perm.rfl
      (λ port. refl)
