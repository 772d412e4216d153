-- ===== src/Cli/App.antt =====
-- internal/cli/app.go and the command table of internal/cli/commands.go. What is printed is left out; the
-- flag package, the logger and the runs of the commands are parameters.
pub mod Dispatch
mod Examples
use nett.Prelude.{
  ℕ, Bool, true, false, ◌||◌, Option, none, some, List, [], ◌∷◌, any, if◌then◌else◌, Result, ok,
  err,
}
use nett.Text.{Bytes, codes, eq}
use nett.Config.{Config, Floats}
use nett.Config.Load.{Source, load}
use nett.Config.Validate.{validate}

-- the variables of the global flags
pub record GlobalFlags : Type 0 where
  pub config_path : Bytes
  pub log_level : Bytes
  pub log_format : Bytes
  pub data_dir : Bytes
  pub project : Bytes
  pub verbose : Bool
  pub quiet : Bool
  pub show_version : Bool

-- what fs.Parse gives: flag.ErrHelp, another error, or the flags and fs.Args()
pub data ParsedFlags : Type 0 where
  asks_help bad_flags : ParsedFlags
  flags_and_args : GlobalFlags → List Bytes → ParsedFlags

-- the commands that are registered
pub data Command : Type 0 where
  run_version run_capabilities run_modules run_config run_scan : Command

abbrev pub commands : List (Bytes × Command)
commands =
    (codes "version", Command.run_version)
    ∷ (codes "capabilities", Command.run_capabilities)
    ∷ (codes "modules", Command.run_modules)
    ∷ (codes "config", Command.run_config)
    ∷ (codes "scan", Command.run_scan)
    ∷ []

unfoldable pub lookup_in : Bytes → List (Bytes × Command) → Option Command
unfolding eq
lookup_in name [] = none
lookup_in name ((n, c) ∷ rest) =
    let below = lookup_in name rest in if eq n name then some c else below

-- lookup
unfoldable pub lookup_command : Bytes → Option Command
unfolding lookup_in
lookup_command name = lookup_in name commands

-- hasHelpFlag
unfoldable pub has_help_flag : List Bytes → Bool
unfolding eq
has_help_flag args =
    any (λ a. eq a (codes "-h") || (eq a (codes "--help") || eq a (codes "help"))) args

-- `v`, or `w` if it is empty
abbrev or_given : Bytes → Bytes → Bytes
or_given [] w = w
or_given (c ∷ v) w = c ∷ v

-- the switch of applyFlagOverrides
unfoldable pub log_level_of : GlobalFlags → Bytes → Bytes
log_level_of f level =
    or_given f.log_level
      (if f.verbose then codes "debug" else if f.quiet then codes "error" else level)

-- applyFlagOverrides
unfoldable pub apply_flag_overrides : {F : Type 0} → GlobalFlags → Config F → Config F
unfolding log_level_of
apply_flag_overrides f cfg = record cfg {
  logging = record cfg.logging {
    level = log_level_of f cfg.logging.level;
    format = or_given f.log_format cfg.logging.format;
  };
  data_dir = or_given f.data_dir cfg.data_dir;
  project = or_given f.project cfg.project;
}

-- the exit code, and the command that was run with its configuration and arguments
pub record Outcome (F : Type 0) : Type 0 where
  pub code : ℕ
  pub ran : Option (Command × Config F × List Bytes)

abbrev pub exit_with : {F : Type 0} → ℕ → Outcome F
exit_with code = record { code = code; ran = none }

pub record Process (F : Type 0) : Type 0 where
  pub floats : Floats F
  pub source : Source F
  -- whether logging.New succeeds
  pub opens_log : Config F → Bool
  -- whether the run of a command returns no error
  pub succeeds : Command → Config F → List Bytes → Bool

module _ {F : Type 0} (p : Process F) where
  -- from `logging.New` on
  unfoldable pub run_command : Command → List Bytes → Config F → Outcome F
  run_command c args cfg =
      if p.opens_log cfg
      then record { code = if p.succeeds c cfg args then 0 else 1; ran = some (c, cfg, args) }
      else exit_with 1

  -- of the overridden configuration
  abbrev pub run_validated : Command → List Bytes → {E : Type 0} → Result E (Config F) → Outcome F
  unfolding run_command
  run_validated c args (err e) = exit_with 1
  run_validated c args (ok cfg) = run_command c args cfg

  -- of the configuration that was loaded
  abbrev pub run_loaded :
      GlobalFlags → Command → List Bytes → {E : Type 0} → Result E (Config F) → Outcome F
  unfolding run_validated apply_flag_overrides
  run_loaded f c args (err e) = exit_with 1
  run_loaded f c args (ok cfg) =
      run_validated c args (validate p.floats (apply_flag_overrides f cfg))

  abbrev pub run_found : GlobalFlags → List Bytes → Option Command → Outcome F
  unfolding run_loaded has_help_flag
  run_found f args none = exit_with 2
  run_found f args (some c) =
      if has_help_flag args
      then exit_with 0
      else run_loaded f c args (load p.floats p.source f.config_path)

  abbrev pub run_args : GlobalFlags → List Bytes → Outcome F
  unfolding run_found lookup_command
  run_args f [] = exit_with 0
  run_args f (name ∷ args) = run_found f args (lookup_command name)

  -- Execute
  unfoldable pub execute : ParsedFlags → Outcome F
  unfolding run_args
  execute ParsedFlags.asks_help = exit_with 0
  execute ParsedFlags.bad_flags = exit_with 2
  execute (ParsedFlags.flags_and_args f rest) =
      if f.show_version then exit_with 0 else run_args f rest
