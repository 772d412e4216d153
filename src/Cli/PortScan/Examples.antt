-- ===== src/Cli/PortScan/Examples.antt =====
-- A port scan of an address in scope.
use nett.Prelude.{ℕ, ◌≡◌, refl, true, some, none, [], ◌∷◌, All, err, Ensures, if◌then◌else◌}
use nett.Text.{codes}
use nett.Text.Decimal.{ℤ}
use nett.Config.{default}
use nett.Config.Examples.{naturals}
use nett.Scope.{Scope, empty, allow_ip, ip_excluded, has_key}
use nett.Dns.Wildcard.Examples.{own_text, one_address}
use nett.Scanner.Examples.{web_only}
use nett.Store.Examples.Instance.{all_of}
use nett.Store.Examples.Calls.{asset_db}
use nett.Cli.ScanArgs.{ScanFlags, no_flags}
use nett.Cli.Persist.{Literals}
use nett.Cli.PortScan.{Error, seconds, run_port_scan}
use nett.Cli.PortScan.Guard.{IsPermitted, run_port_scan-IsPermitted}

abbrev literals : Literals ℕ ℕ
literals = record {
  one = 100;
  of_text = λ s. 0;
  of_bool = λ b. if b then 1 else 0;
  of_int = λ n. n;
}

-- a timeout that 64 bits cannot hold is negative
long_timeout : seconds (ℤ.pos 10000000000) ≡ ℤ.negsuc 8446744073709551615
unfolding seconds
long_timeout = refl

abbrev host_scope : Scope
host_scope = record empty { ips = one_address ∷ [] }

abbrev web_flags : ScanFlags
web_flags = record no_flags { target = one_address; tcp_requested = true; tcp_spec = codes "22,80" }

-- an address that is not in scope
refused :
    run_port_scan asset_db literals own_text
      (λ name. none)
      web_only
      (λ ports. ports)
      5
      (default naturals)
      empty
      one_address
      (some one_address)
      web_flags
      (all_of [])
    ≡ err Error.not_in_scope
unfolding run_port_scan allow_ip ip_excluded has_key
refused = refl

run_port_scan-IsPermitted_example :
    Ensures
      (λ _. Unit {0})
      (λ r. All (IsPermitted own_text host_scope r.1) r.0)
      (run_port_scan asset_db literals own_text
        (λ name. none)
        web_only
        (λ ports. ports)
        5
        (default naturals)
        host_scope
        one_address
        (some one_address)
        web_flags
        (all_of []))
run_port_scan-IsPermitted_example =
    run_port_scan-IsPermitted own_text asset_db literals (λ name. none) web_only (λ ports. ports) 5
      (default naturals) host_scope one_address (some one_address) web_flags (all_of [])
