-- ===== src/Cli/ScanArgs/Accepts.antt =====
-- What `parseScanArgs` accepts.
use nett.Prelude.{
  ◌≡◌, inl, inr, refl, Bool, true, false, not, ◌||◌, List, [], ◌∷◌, ◌++◌, Result, ok, err, arith,
  Option, none, some, Bool-cases, Ensures, Ensures-pure, Ensures-check,
}
use nett.Text.{Bytes, codes, eq, has_prefix}
use nett.Text.Affixes.{eq_iff}
use nett.Cli.ScanArgs.{
  Error, ScanFlags, no_flags, looks_like_flag, Parsed, Arg, arg_of, Waiting, take_arg, take_next,
  at_end, parse_loop, the_target, check_flags, parse_scan_args,
}

abbrev pub AnyError : Error → Type 0
AnyError _ = Unit {0}

-- Accepted flags ask for an action, and for nothing that is not implemented.
pub record IsRunnable (f : ScanFlags) : Type 0 where
  pub action : (f.discover || (f.brute_requested || (f.tcp_requested || f.all_ports))) ≡ true
  pub no_udp : f.udp_requested ≡ false
  pub no_fingerprint : f.fingerprint ≡ false
  pub no_enumerate : f.enumerate ≡ false
  pub no_dir : f.dir_requested ≡ false

pub anything : {A : Type 0} (r : Result Error A) → Ensures AnyError (λ _. Unit {0}) r
anything (ok a) = record { holds = tt }
anything (err e) = record { holds = tt }

not-false : (b : Bool) → not b ≡ true → b ≡ false
not-false true h = cc
not-false false h = refl

pub check_flags-IsRunnable :
    (f : ScanFlags) → Ensures AnyError (λ g. (g ≡ f) × IsRunnable g) (check_flags f)
unfolding check_flags
check_flags-IsRunnable f = Ensures-check _ _ _ tt λ u. Ensures-check _ _ _ tt λ p.
    Ensures-check _ _ _ tt λ e. Ensures-check _ _ _ tt λ d. Ensures-check _ _ _ tt λ a.
      Ensures-pure (
        refl,
        record {
          action = a;
          no_udp = not-false _ u;
          no_fingerprint = not-false _ p;
          no_enumerate = not-false _ e;
          no_dir = not-false _ d;
        },
      )

-- one argument moves the loop
loop_step :
    (w w' : Waiting) (a : Bytes) (args : List Bytes) (p p' : Parsed)
    → take_next w a p ≡ ok (w', p')
    → parse_loop w (a ∷ args) p ≡ parse_loop w' args p'
unfolding parse_loop
loop_step w w' a args p p' e = rw e

abbrev start : Parsed
start = record { flags = no_flags; positional = [] }

-- The flags that arguments ask for: the target, then what is wanted of the four actions.
pub record Request : Type 0 where
  pub target : Bytes
  pub discover : Bool
  pub brute : Option Bytes
  pub tcp : Option Bytes
  pub all_ports : Bool

abbrev option_args : Bool → Bytes → List Bytes
option_args true flag = flag ∷ []
option_args false flag = []

abbrev brute_args : Option Bytes → List Bytes
brute_args none = []
brute_args (some wordlist) = codes "-brute" ∷ wordlist ∷ []

abbrev tcp_args : Option Bytes → List Bytes
tcp_args none = []
tcp_args (some []) = codes "-tcp" ∷ []
tcp_args (some (c ∷ spec)) = codes "-tcp" ∷ (c ∷ spec) ∷ []

-- a command line for a request
abbrev pub command_line : Request → List Bytes
command_line r =
    r.target
    ∷ (option_args r.discover (codes "-d")
        ++ (brute_args r.brute ++ (tcp_args r.tcp ++ option_args r.all_ports (codes "-p"))))

abbrev is_given : Option Bytes → Bool
is_given none = false
is_given (some v) = true

abbrev given : Option Bytes → Bytes
given none = []
given (some v) = v

-- the flags that the request means
abbrev pub flags_of : Request → ScanFlags
flags_of r = record {
  target = r.target;
  discover = r.discover;
  brute_requested = is_given r.brute;
  brute_wordlist = given r.brute;
  tcp_requested = is_given r.tcp;
  tcp_spec = given r.tcp;
  all_ports = r.all_ports;
  udp_requested = false;
  fingerprint = false;
  enumerate = false;
  dir_requested = false;
  dir_wordlist = [];
}

-- The target and a port specification do not look like flags, and some action is asked for.
pub record IsRequest (r : Request) : Type 0 where
  pub target : looks_like_flag r.target ≡ false
  pub spec : looks_like_flag (given r.tcp) ≡ false
  pub action : (r.discover || (is_given r.brute || (is_given r.tcp || r.all_ports))) ≡ true

other : (a b : Bytes) → looks_like_flag a ≡ false → looks_like_flag b ≡ true → eq a b ≡ false
other a b h k = elim (Bool-cases (eq a b)) [ inl e ↦ absurd (clash ((eq_iff a b).0 e)) | inr e ↦ e ]
  where
    clash : a ≡ b → ⊥
    clash e = cc

pub arg_of-value : (a : Bytes) → looks_like_flag a ≡ false → arg_of a ≡ Arg.value
unfolding arg_of has_prefix eq
arg_of-value a h = ground (
  arith,
  other a (codes "-d") h refl,
  other a (codes "-p") h refl,
  other a (codes "-f") h refl,
  other a (codes "-en") h refl,
  other a (codes "-tcp") h refl,
  other a (codes "-udp") h refl,
  other a (codes "-brute") h refl,
  other a (codes "-dir") h refl,
)

loop_rest :
    (d : Bool) (b c : Option Bytes) (p : Bool) (t : Bytes)
    → looks_like_flag (given c) ≡ false
    → parse_loop Waiting.nothing
        (option_args d (codes "-d") ++ (brute_args b ++ (tcp_args c ++ option_args p (codes "-p"))))
        (record { flags = no_flags; positional = t ∷ [] })
      ≡ ok (record {
        flags =
            record (flags_of
              (record { target = t; discover = d; brute = b; tcp = c; all_ports = p })) {
                target = [];
              };
        positional = t ∷ [];
      })
unfolding parse_loop take_next take_arg at_end arg_of has_prefix eq
loop_rest true (some w) (some (c ∷ s)) true t h = ground (arith, h)
loop_rest d b c p t h = ground (arith, h)

first_arg :
    (t : Bytes) (rest : List Bytes)
    → looks_like_flag t ≡ false
    → parse_loop Waiting.nothing (t ∷ rest) start
      ≡ parse_loop Waiting.nothing rest (record { flags = no_flags; positional = t ∷ [] })
unfolding take_next take_arg
first_arg t rest h =
    loop_step Waiting.nothing Waiting.nothing t rest start _ (rw (arg_of-value t h))

-- From the command line of a request, `parseScanArgs` reads exactly the flags that the request
-- means: for any of the four actions in any combination, at least one, if neither the target nor
-- the port specification looks like a flag.
pub parse_scan_args-command_line :
    (r : Request) → IsRequest r → parse_scan_args (command_line r) ≡ ok (flags_of r)
unfolding parse_scan_args the_target check_flags
parse_scan_args-command_line r v =
    let one =
      first_arg r.target
        (option_args r.discover (codes "-d")
          ++ (brute_args r.brute ++ (tcp_args r.tcp ++ option_args r.all_ports (codes "-p"))))
        v.target in
    let two = loop_rest r.discover r.brute r.tcp r.all_ports r.target v.spec in
    rw (one, two, v.action)
