-- ===== src/Cli/PortScan/Guard.antt =====
-- The scope guard of `runPortScan` (internal/cli/scan.go).
use nett.Prelude.{
  ℕ, true, false, ◌≡◌, sym, ◌∙◌, Option, none, some, List, [], ◌∷◌, All, All-map, Bool-cases, inl,
  inr, Ensures, Ensures-self, Ensures-bind, Ensures-pure, Ensures-check, Ensures-err,
}
use mathlib.Core.Bool.{false≢true}
use nett.Text.{Bytes}
use nett.Net.{Net, Ip}
use nett.Config.{Config}
use nett.Scope.{Scope, allow_ip, ip_excluded}
use nett.Scope.Runtime.{Step, Reach, excluded_ip_stays}
use nett.Scanner.{ScanResult, Dialer, new, scan}
use nett.Scanner.Outcomes.{scan-ip}
use nett.Store.Rows.{Stored, Database}
use nett.Cli.ScanArgs.{ScanFlags}
use nett.Cli.Persist.{Literals}
use nett.Cli.PortScan.{
  Error, first_address, find_address, chosen_ports, scanner_config, of_store, persist_open,
  run_port_scan,
}

module _ (net : Net) where
  first_address-Reach :
      (target : Bytes) (answer : Option (List Ip)) (sc : Scope)
      → Ensures (λ _. Unit {0}) (λ r. Reach net sc r.1) (first_address net target answer sc)
  first_address-Reach target none sc = Ensures-err tt
  first_address-Reach target (some []) sc = Ensures-err tt
  first_address-Reach target (some (ip ∷ ips)) sc =
      Ensures-pure (Reach.next Reach.here (Step.learn sc target ip))

  find_address-Reach :
      (lookup_a : Bytes → Option (List Ip)) (target : Bytes) (ip : Option Ip) (sc : Scope)
      → Ensures (λ _. Unit {0}) (λ r. Reach net sc r.1) (find_address net lookup_a target ip sc)
  find_address-Reach lookup_a target none sc = first_address-Reach target (lookup_a target) sc
  find_address-Reach lookup_a target (some ip) sc = Ensures-pure Reach.here

  allowed-not_excluded :
      (ip : Ip) {sc t : Scope}
      → Reach net sc t
      → allow_ip net t ip ≡ true
      → ip_excluded net sc ip ≡ false
  allowed-not_excluded ip {sc} r allowed = elim (Bool-cases (ip_excluded net sc ip)) [
    | inl bad ↦ absurd (false≢true (sym (excluded_ip_stays net ip r bad) ∙ allowed))
    | inr fine ↦ fine
  ]

  -- A result may stand in a report of a run that started with the scope `sc` and ended with `t`.
  abbrev pub IsPermitted : Scope → Scope → ScanResult → Type 0
  IsPermitted sc t r = (allow_ip net t r.ip ≡ true) × (ip_excluded net sc r.ip ≡ false)

  -- A port scan connects only to an address that the scope allows and does not exclude: whatever the
  -- name of the target resolves to, every result is of such an address.
  pub run_port_scan-IsPermitted :
      {F X T : Type 0} (db : Database F X T) (lit : Literals F X)
      (lookup_a : Bytes → Option (List Ip)) (d : Dialer) (pool : List ℕ → List ℕ) (now : ℕ)
      (cfg : Config F) (sc : Scope) (target : Bytes) (ip : Option Ip) (f : ScanFlags) (s : Stored T)
      → Ensures
          (λ _. Unit {0})
          (λ r. All (IsPermitted sc r.1) r.0)
          (run_port_scan db lit net lookup_a d pool now cfg sc target ip f s)
  unfolding run_port_scan
  run_port_scan-IsPermitted db lit lookup_a d pool now cfg sc target ip f s =
      Ensures-bind (find_address net lookup_a target ip sc) _
        (find_address-Reach lookup_a target ip sc)
        λ a reached. Ensures-check (allow_ip net a.1 a.0) Error.not_in_scope _ tt λ allowed.
          Ensures-bind (chosen_ports f) _ (Ensures-self (chosen_ports f)) λ ports _.
            let results = scan net d pool (new (scanner_config cfg)) a.0 ports in
            let stored = of_store (persist_open db lit net now cfg.project a.0 results s) in
            Ensures-bind stored _ (Ensures-self stored) λ s' _. Ensures-pure (
              All-map (λ r. r.ip ≡ a.0) (IsPermitted sc a.1) results
                (λ r same. (rw same allowed, rw same (allowed-not_excluded a.0 reached allowed)))
                (scan-ip net d (new (scanner_config cfg)) a.0 pool ports))
