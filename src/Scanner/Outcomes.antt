-- ===== src/Scanner/Outcomes.antt =====
-- What `Scan` (internal/portscan/scanner.go) reports.
use mathlib.Core.List.{Perm}
use nett.Prelude.{
  ℕ, Bool, true, false, Option, none, some, List, [], ◌∷◌, map, ◌≡◌, refl, All, Bool-cases, inl,
  inr,
}
use nett.Net.{Net, Ip}
use nett.Scanner.{
  State, ScanResult, ScanConfig, DialError, Dialer, classify_error, result_of_dial, probe,
  scan_calls, scan,
}

-- whether a dial ended without an error
abbrev pub is_connected : Option DialError × ℕ → Bool
is_connected (none, latency) = true
is_connected (some e, latency) = false

abbrev pub is_open : State → Bool
is_open State.state_open = true
is_open _ = false

classify-not_open : (e : DialError) → is_open (classify_error e) ≡ false
unfolding classify_error
classify-not_open e = elim (Bool-cases e.timed_out) [
  | inl a ↦ rw a refl
  | inr a ↦ elim (Bool-cases e.refused) [
    | inl b ↦ rw (a, b) refl
    | inr b ↦ elim (Bool-cases e.refused_inside) [
      | inl c ↦ rw (a, b, c) refl
      | inr c ↦ rw (a, b, c) refl
    ]
  ]
]

module _ {F : Type 0} (net : Net) (d : Dialer) (cfg : ScanConfig F) (ip : Ip) where
  dial_open :
      (port : ℕ) (r : Option DialError × ℕ)
      → ((result_of_dial ip port r).ip ≡ ip)
        × ((result_of_dial ip port r).port ≡ port)
        × (is_open (result_of_dial ip port r).state ≡ is_connected r)
  unfolding result_of_dial
  dial_open port (none, latency) = (refl, refl, refl)
  dial_open port (some e, latency) = (refl, refl, classify-not_open e)

  -- A result is that of the scanned address, and reports a port as open exactly if the dial of the
  -- address and the port connected.
  abbrev pub IsTrue : ScanResult → Type 0
  IsTrue r =
      (r.ip ≡ ip)
      × (is_open r.state
          ≡ is_connected (d.dial (d.join_host_port (net.ip_string ip) r.port) cfg.timeout))

  probe-IsTrue : (port : ℕ) → IsTrue (probe net d cfg ip port)
  unfolding probe
  probe-IsTrue port =
      let r = d.dial (d.join_host_port (net.ip_string ip) port) cfg.timeout in
      let (same, at, fine) = dial_open port r in (same, rw at fine)

  scan_calls-ports :
      (calls : List ℕ)
      → All (λ port. d.wait_fails port ≡ false) calls
      → (map (λ r. r.port) (scan_calls net d cfg ip calls) ≡ calls)
        × All IsTrue (scan_calls net d cfg ip calls)
  unfolding scan_calls
  scan_calls-ports [] all = (refl, tt)
  scan_calls-ports (port ∷ calls) (passed, all) =
      let (ports, true_rest) = scan_calls-ports calls all in
      rw passed (cons_eq (probe-port port) ports, (probe-IsTrue port, true_rest))
    where
      probe-port : (port : ℕ) → (probe net d cfg ip port).port ≡ port
      probe-port port =
          unfold probe in
          (dial_open port (d.dial (d.join_host_port (net.ip_string ip) port) cfg.timeout)).1

      cons_eq : {x y : ℕ} {xs ys : List ℕ} → x ≡ y → xs ≡ ys → x ∷ xs ≡ y ∷ ys
      cons_eq e f = cc

  passes-All :
      (calls : List ℕ)
      → ((port : ℕ) → d.wait_fails port ≡ false)
      → All (λ port. d.wait_fails port ≡ false) calls
  passes-All [] f = tt
  passes-All (port ∷ calls) f = (f port, passes-All calls f)

  -- Where the worker pool calls each port once and the limiter returns no error, a scan has one result
  -- for each port, and a result says that its port is open exactly if the dial of it connected.
  pub scan-ports :
      (pool : List ℕ → List ℕ) (ports : List ℕ)
      → Perm (pool ports) ports
      → ((port : ℕ) → d.wait_fails port ≡ false)
      → Perm (map (λ r. r.port) (scan net d pool cfg ip ports)) ports
        × All IsTrue (scan net d pool cfg ip ports)
  unfolding scan
  scan-ports pool ports once passes =
      let (same, fine) = scan_calls-ports (pool ports) (passes-All (pool ports) passes) in
      (rw same once, fine)

  -- Every result is of the address that was to be scanned, whatever the limiter and the pool do.
  pub scan-ip :
      (pool : List ℕ → List ℕ) (ports : List ℕ)
      → All (λ r. r.ip ≡ ip) (scan net d pool cfg ip ports)
  unfolding scan
  scan-ip pool ports = calls_ip (pool ports)
    where
      calls_ip : (calls : List ℕ) → All (λ r. r.ip ≡ ip) (scan_calls net d cfg ip calls)
      calls_ip [] = unfold scan_calls in tt
      calls_ip (port ∷ calls) = elim (Bool-cases (d.wait_fails port)) [
        | inl e ↦ unfold scan_calls in rw e (calls_ip calls)
        | inr e ↦ unfold scan_calls in rw e ((probe-IsTrue port).0, calls_ip calls)
      ]
