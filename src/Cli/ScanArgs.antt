-- ===== src/Cli/ScanArgs.antt =====
-- internal/cli/scan.go: `parseScanArgs` and `looksLikeFlag`. The index into the arguments is the
-- list of those that are left.
pub mod Accepts
pub mod Switches
pub mod Asked
mod Examples
use nett.Prelude.{
  ℕ, zero, suc, ◌+◌, Bool, true, false, not, ◌&&◌, ◌||◌, List, [], ◌∷◌, ◌++◌, ◌==◌, if◌then◌else◌,
  Result, ok, err, ◌>>=◌, ◌>>◌, check,
}
use nett.Text.{Bytes, codes, eq, has_prefix}

pub data Error : Type 0 where
  missing_value unknown_flag : Bytes → Error
  missing_target too_many_targets no_action : Error
  not_implemented : Bytes → Error

-- scanFlags
pub record ScanFlags : Type 0 where
  pub target : Bytes
  pub discover : Bool
  pub brute_requested : Bool
  pub brute_wordlist : Bytes
  pub tcp_requested : Bool
  pub tcp_spec : Bytes
  pub all_ports : Bool
  pub udp_requested : Bool
  pub fingerprint : Bool
  pub enumerate : Bool
  pub dir_requested : Bool
  pub dir_wordlist : Bytes

abbrev pub no_flags : ScanFlags
no_flags = record {
  target = [];
  discover = false;
  brute_requested = false;
  brute_wordlist = [];
  tcp_requested = false;
  tcp_spec = [];
  all_ports = false;
  udp_requested = false;
  fingerprint = false;
  enumerate = false;
  dir_requested = false;
  dir_wordlist = [];
}

-- looksLikeFlag
unfoldable pub looks_like_flag : Bytes → Bool
looks_like_flag s = if not (has_prefix s (codes "-")) || eq s (codes "-") then false else true

-- what the loop has gathered
pub record Parsed : Type 0 where
  pub flags : ScanFlags
  pub positional : List Bytes

-- which case of the switch an argument is
pub data Arg : Type 0 where
  flag_d flag_p flag_f flag_en flag_tcp flag_udp flag_brute flag_dir other_flag value : Arg

unfoldable pub arg_of : Bytes → Arg
unfolding looks_like_flag
arg_of a =
    if eq a (codes "-d")
    then Arg.flag_d
    else if eq a (codes "-p")
    then Arg.flag_p
    else if eq a (codes "-f")
    then Arg.flag_f
    else if eq a (codes "-en")
    then Arg.flag_en
    else if eq a (codes "-tcp")
    then Arg.flag_tcp
    else if eq a (codes "-udp")
    then Arg.flag_udp
    else if eq a (codes "-brute")
    then Arg.flag_brute
    else if eq a (codes "-dir")
    then Arg.flag_dir
    else if looks_like_flag a
    then Arg.other_flag
    else Arg.value

-- The loop. Its state between two arguments is `p`, or `p` with a flag that waits for a value.
pub data Waiting : Type 0 where
  nothing : Waiting
  tcp_value udp_value brute_value dir_value : Waiting

-- an argument that stands where a flag or a target may stand
unfoldable pub take_arg : Arg → Bytes → Parsed → Result Error (Waiting × Parsed)
take_arg Arg.flag_d a p =
    ok (Waiting.nothing, record p { flags = record p.flags { discover = true } })
take_arg Arg.flag_p a p =
    ok (Waiting.nothing, record p { flags = record p.flags { all_ports = true } })
take_arg Arg.flag_f a p =
    ok (Waiting.nothing, record p { flags = record p.flags { fingerprint = true } })
take_arg Arg.flag_en a p =
    ok (Waiting.nothing, record p { flags = record p.flags { enumerate = true } })
take_arg Arg.flag_tcp a p =
    ok (
      Waiting.tcp_value,
      record p { flags = record p.flags { tcp_requested = true; tcp_spec = [] } },
    )
take_arg Arg.flag_udp a p =
    ok (Waiting.udp_value, record p { flags = record p.flags { udp_requested = true } })
take_arg Arg.flag_brute a p =
    ok (Waiting.brute_value, record p { flags = record p.flags { brute_requested = true } })
take_arg Arg.flag_dir a p =
    ok (Waiting.dir_value, record p { flags = record p.flags { dir_requested = true } })
take_arg Arg.other_flag a p = err (Error.unknown_flag a)
take_arg Arg.value a p = ok (Waiting.nothing, record p { positional = p.positional ++ a ∷ [] })

-- an argument behind a flag: an optional value is one that does not look like a flag
unfoldable pub take_next : Waiting → Bytes → Parsed → Result Error (Waiting × Parsed)
take_next Waiting.nothing a p = take_arg (arg_of a) a p
take_next Waiting.tcp_value a p =
    if looks_like_flag a
    then take_arg (arg_of a) a p
    else ok (Waiting.nothing, record p { flags = record p.flags { tcp_spec = a } })
take_next Waiting.udp_value a p =
    if looks_like_flag a then take_arg (arg_of a) a p else ok (Waiting.nothing, p)
take_next Waiting.brute_value a p =
    ok (Waiting.nothing, record p { flags = record p.flags { brute_wordlist = a } })
take_next Waiting.dir_value a p =
    ok (Waiting.nothing, record p { flags = record p.flags { dir_wordlist = a } })

-- the end of the arguments: a required value is missing there
unfoldable pub at_end : Waiting → Parsed → Result Error Parsed
at_end Waiting.brute_value p = err (Error.missing_value (codes "-brute"))
at_end Waiting.dir_value p = err (Error.missing_value (codes "-dir"))
at_end w p = ok p

unfoldable pub parse_loop : Waiting → List Bytes → Parsed → Result Error Parsed
parse_loop w [] p = at_end w p
parse_loop w (a ∷ args) p = do (w', p') ← take_next w a p; parse_loop w' args p'

-- exactly one positional argument
unfoldable pub the_target : List Bytes → Result Error Bytes
the_target [] = err Error.missing_target
the_target (t ∷ []) = ok t
the_target (t ∷ (u ∷ rest)) = err Error.too_many_targets

-- the checks behind the loop, in their order
unfoldable pub check_flags : ScanFlags → Result Error ScanFlags
check_flags f = do
  check (not f.udp_requested) (Error.not_implemented (codes "-udp"))
  check (not f.fingerprint) (Error.not_implemented (codes "-f"))
  check (not f.enumerate) (Error.not_implemented (codes "-en"))
  check (not f.dir_requested) (Error.not_implemented (codes "-dir"))
  check (f.discover || (f.brute_requested || (f.tcp_requested || f.all_ports))) Error.no_action
  ok f

-- parseScanArgs
unfoldable pub parse_scan_args : List Bytes → Result Error ScanFlags
parse_scan_args args = do
  p ← parse_loop Waiting.nothing args (record { flags = no_flags; positional = [] })
  t ← the_target p.positional
  check_flags (record p.flags { target = t })
