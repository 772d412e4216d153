-- ===== src/Cli/ScanArgs/Examples.antt =====
-- Command lines of a scan.
use nett.Prelude.{◌≡◌, refl, true, false, some, none, [], ◌∷◌, ok, Ensures}
use nett.Text.{codes, has_prefix, eq}
use nett.Cli.ScanArgs.{
  looks_like_flag, parse_scan_args, parse_loop, take_next, take_arg, arg_of, at_end, the_target,
  check_flags,
}
use nett.Cli.ScanArgs.Asked.{IsAsked, parse_scan_args-IsAsked}
use nett.Cli.ScanArgs.Accepts.{
  AnyError, Request, command_line, flags_of, parse_scan_args-command_line,
}

abbrev ports_and_names : Request
ports_and_names = record {
  target = codes "shop.io";
  discover = true;
  brute = some (codes "words");
  tcp = some (codes "80");
  all_ports = false;
}

no_flags_there :
    (looks_like_flag (codes "shop.io") ≡ false) × (looks_like_flag (codes "80") ≡ false)
unfolding looks_like_flag has_prefix
no_flags_there = (refl, refl)

parse_scan_args-command_line_example :
    parse_scan_args (command_line ports_and_names) ≡ ok (flags_of ports_and_names)
parse_scan_args-command_line_example =
    parse_scan_args-command_line ports_and_names
      (record { target = no_flags_there.0; spec = no_flags_there.1; action = refl })

parse_scan_args-IsAsked_example :
    Ensures AnyError
      (IsAsked (codes "shop.io" ∷ codes "-brute" ∷ codes "-f" ∷ []))
      (parse_scan_args (codes "shop.io" ∷ codes "-brute" ∷ codes "-f" ∷ []))
parse_scan_args-IsAsked_example =
    parse_scan_args-IsAsked (codes "shop.io" ∷ codes "-brute" ∷ codes "-f" ∷ [])

-- the value of -brute may look like a flag
brute_value_taken :
    parse_scan_args (codes "shop.io" ∷ codes "-brute" ∷ codes "-f" ∷ [])
    ≡ ok (
        flags_of (record {
          target = codes "shop.io";
          discover = false;
          brute = some (codes "-f");
          tcp = none;
          all_ports = false;
        }))
unfolding parse_scan_args parse_loop take_next take_arg arg_of at_end the_target check_flags eq
    looks_like_flag has_prefix
brute_value_taken = refl
