-- ===== src/Cli/PortScan.antt =====
-- internal/cli/scan.go: `runPortScan`. What is printed is left out; the outcome is the results of the
-- scan with the scope and the store behind it.
pub mod Guard
mod Examples
use nett.Prelude.{
  ℕ, suc, ◌+◌, ◌-◌, ◌*◌, ◌%◌, ◌^◌, Bool, true, false, Option, none, some, List, [], ◌∷◌,
  if◌then◌else◌, ltb, Result, ok, err, ◌>>=◌, ◌>>◌, check,
}
use nett.Text.{Bytes}
use nett.Text.Decimal.{ℤ}
use nett.Net.{Net, Ip}
use nett.Config.{Config}
use nett.Scope.{Scope, allow_ip, learn_ip}
use nett.Ports.{parse_ports, all_ports}
use nett.Ports as Ports
use nett.Scanner.{State, ScanResult, ScanConfig, Dialer, new, scan}
use nett.Store.Rows.{Stored, Database}
use nett.Store.Rows as Rows
use nett.Cli.ScanArgs.{ScanFlags}
use nett.Cli.Persist.{Literals, persist_port}

pub data Error : Type 0 where
  not_resolved no_address not_in_scope : Error
  bad_ports : Ports.Error → Error
  store : Rows.Error → Error

abbrev signed_64 : ℕ → ℤ
signed_64 v = if ltb v (2 ^ 63) then ℤ.pos v else ℤ.negsuc (2 ^ 64 - 1 - v)

-- time.Duration(n) * time.Second, in 64 bits
unfoldable pub seconds : ℤ → ℤ
seconds (ℤ.pos n) = signed_64 (n * 10 ^ 9 % 2 ^ 64)
seconds (ℤ.negsuc n) = signed_64 ((2 ^ 64 - suc n * 10 ^ 9 % 2 ^ 64) % 2 ^ 64)

-- what LookupA gives, or nil: the address to scan, and the scope behind it
abbrev pub first_address : Net → Bytes → Option (List Ip) → Scope → Result Error (Ip × Scope)
first_address net target none sc = err Error.not_resolved
first_address net target (some []) sc = err Error.no_address
first_address net target (some (ip ∷ ips)) sc = ok (ip, learn_ip net target ip sc)

abbrev pub find_address :
    Net → (Bytes → Option (List Ip)) → Bytes → Option Ip → Scope → Result Error (Ip × Scope)
find_address net lookup_a target (some ip) sc = ok (ip, sc)
find_address net lookup_a target none sc = first_address net target (lookup_a target) sc

abbrev pub of_ports : Result Ports.Error (List ℕ) → Result Error (List ℕ)
of_ports (err e) = err (Error.bad_ports e)
of_ports (ok ports) = ok ports

abbrev pub of_store : {A : Type 0} → Result Rows.Error A → Result Error A
of_store (err e) = err (Error.store e)
of_store (ok s) = ok s

-- the ports that the flags ask for
abbrev pub chosen_ports : ScanFlags → Result Error (List ℕ)
unfolding parse_ports
chosen_ports f = if f.all_ports then ok (all_ports tt) else of_ports (parse_ports f.tcp_spec)

abbrev pub scanner_config : {F : Type 0} → Config F → ScanConfig F
unfolding seconds
scanner_config c = record {
  concurrency = c.concurrency.port;
  timeout = seconds c.http.timeout_seconds;
  rate_limit_per_sec = c.http.rate_limit_per_sec;
}

module _ {F X T : Type 0} (db : Database F X T) (lit : Literals F X) (net : Net) where
  -- the round for one result
  abbrev pub persist_result : ℕ → Bytes → Ip → ℕ → State → Stored T → Result Rows.Error (Stored T)
  unfolding persist_port
  persist_result now project ip port State.state_open s =
      persist_port db lit net now project ip port s
  persist_result now project ip port _ s = ok s

  unfoldable pub persist_open :
      ℕ → Bytes → Ip → List ScanResult → Stored T → Result Rows.Error (Stored T)
  unfolding persist_result
  persist_open now project ip [] s = ok s
  persist_open now project ip (r ∷ results) s = do
    s' ← persist_result now project ip r.port r.state s
    persist_open now project ip results s'

  -- runPortScan
  unfoldable pub run_port_scan :
      (Bytes → Option (List Ip))
      → Dialer
      → (List ℕ → List ℕ)
      → ℕ
      → Config F
      → Scope
      → Bytes
      → Option Ip
      → ScanFlags
      → Stored T
      → Result Error (List ScanResult × Scope × Stored T)
  unfolding new scan persist_open chosen_ports scanner_config
  run_port_scan lookup_a d pool now cfg sc target target_ip f s = do
    (ip, sc') ← find_address net lookup_a target target_ip sc
    check (allow_ip net sc' ip) Error.not_in_scope
    ports ← chosen_ports f
    let results = scan net d pool (new (scanner_config cfg)) ip ports
    s' ← of_store (persist_open now cfg.project ip results s)
    ok (results, sc', s')
