-- ===== src/Scanner.antt =====
-- internal/portscan/scanner.go: the TCP connect scanner. The dialer and the rate limiter are a
-- parameter, and so is the order in which the worker pool ends the calls for the ports. A Go duration
-- is a number of nanoseconds.
pub mod Outcomes
pub mod Examples
use nett.Prelude.{
  ℕ, zero, suc, ◌*◌, ◌^◌, Bool, true, false, ◌||◌, Option, none, some, List, [], ◌∷◌, ◌++◌,
  if◌then◌else◌,
}
use nett.Text.{Bytes}
use nett.Text.Decimal.{ℤ}
use nett.Net.{Net, Ip}
use nett.Workerpool.{capacity}

pub data State : Type 0 where
  state_open state_closed state_filtered state_unknown : State

pub record ScanResult : Type 0 where
  pub ip : Ip
  pub port : ℕ
  pub state : State
  pub latency : ℕ
  pub message : Bytes

-- Config
pub record ScanConfig (F : Type 0) : Type 0 where
  pub concurrency : ℤ
  pub timeout : ℤ
  pub rate_limit_per_sec : F

-- New: the bounds of the configuration; the limiter is built of its rate
abbrev pub three_seconds : ℤ
three_seconds = ℤ.pos (3 * 10 ^ 9)

abbrev pub some_timeout : ℤ → ℤ
some_timeout (ℤ.pos zero) = three_seconds
some_timeout (ℤ.pos (suc n)) = ℤ.pos (suc n)
some_timeout (ℤ.negsuc n) = three_seconds

unfoldable pub new : {F : Type 0} → ScanConfig F → ScanConfig F
new cfg = record cfg {
  concurrency = ℤ.pos (capacity cfg.concurrency);
  timeout = some_timeout cfg.timeout;
}

-- What classifyError asks of an error.
pub record DialError : Type 0 where
  -- errors.As(err, &netErr) && netErr.Timeout()
  pub timed_out : Bool
  -- errors.Is(err, syscall.ECONNREFUSED)
  pub refused : Bool
  -- the same of the syscall error in a *net.OpError
  pub refused_inside : Bool
  -- err.Error()
  pub message : Bytes

-- classifyError
unfoldable pub classify_error : DialError → State
classify_error e =
    if e.timed_out
    then State.state_filtered
    else if e.refused
    then State.state_closed
    else if e.refused_inside
    then State.state_closed
    else State.state_unknown

pub record Dialer : Type 0 where
  -- limiter.Wait for the call of a port; true for an error
  pub wait_fails : ℕ → Bool
  -- net.JoinHostPort of the address and the decimal port
  pub join_host_port : Bytes → ℕ → Bytes
  -- DialContext of an address under a timeout, and its latency
  pub dial : Bytes → ℤ → Option DialError × ℕ

-- the result of a dial
abbrev pub result_of_dial : Ip → ℕ → Option DialError × ℕ → ScanResult
unfolding classify_error
result_of_dial ip port (none, latency) = record {
  ip = ip;
  port = port;
  state = State.state_open;
  latency = latency;
  message = [];
}
result_of_dial ip port (some e, latency) = record {
  ip = ip;
  port = port;
  state = classify_error e;
  latency = latency;
  message = e.message;
}

-- probe
unfoldable pub probe : {F : Type 0} → Net → Dialer → ScanConfig F → Ip → ℕ → ScanResult
unfolding result_of_dial
probe net d cfg ip port =
    result_of_dial ip port (d.dial (d.join_host_port (net.ip_string ip) port) cfg.timeout)

-- the calls for the ports, in the order in which they end
unfoldable pub scan_calls :
    {F : Type 0} → Net → Dialer → ScanConfig F → Ip → List ℕ → List ScanResult
unfolding probe
scan_calls net d cfg ip [] = []
scan_calls net d cfg ip (port ∷ calls) =
    let rest = scan_calls net d cfg ip calls in
    if d.wait_fails port then rest else probe net d cfg ip port ∷ rest

-- Scan
unfoldable pub scan :
    {F : Type 0} → Net → Dialer → (List ℕ → List ℕ) → ScanConfig F → Ip → List ℕ → List ScanResult
unfolding scan_calls
scan net d pool cfg ip ports = scan_calls net d cfg ip (pool ports)
