-- ===== src/Cli/App/Examples.antt =====
-- A run of `nett version` with the defaults.
use nett.Prelude.{ℕ, ◌≡◌, refl, true, false, some, [], ◌∷◌}
use nett.Text.{codes, eq}
use nett.Config.{default}
use nett.Config.Examples.{naturals, nothing_set}
use nett.Config.Load.{load-default, default-IsValid}
use nett.Cli.App.{
  GlobalFlags, ParsedFlags, Command, Process, execute, run_args, run_found, run_loaded,
  run_validated, run_command, lookup_command, lookup_in, has_help_flag, apply_flag_overrides,
  log_level_of,
}
use nett.Cli.App.Dispatch.{IsAsked, execute-IsAsked}

abbrev no_global_flags : GlobalFlags
no_global_flags = record {
  config_path = [];
  log_level = [];
  log_format = [];
  data_dir = [];
  project = [];
  verbose = false;
  quiet = false;
  show_version = false;
}

abbrev quiet_process : Process ℕ
quiet_process = record {
  floats = naturals;
  source = nothing_set;
  opens_log = λ c. true;
  succeeds = λ c cfg args. true;
}

-- the exit codes
help_code : (execute quiet_process ParsedFlags.asks_help).code ≡ 0
unfolding execute
help_code = refl

unknown_command :
    (execute quiet_process
      (ParsedFlags.flags_and_args no_global_flags (codes "pipeline" ∷ []))).code
    ≡ 2
unfolding execute run_args run_found lookup_command lookup_in eq
unknown_command = refl

same_config : apply_flag_overrides no_global_flags (default naturals) ≡ default naturals
unfolding apply_flag_overrides log_level_of
same_config = refl

version_ran :
    (execute quiet_process (ParsedFlags.flags_and_args no_global_flags (codes "version" ∷ []))).ran
    ≡ some (Command.run_version, default naturals, [])
unfolding execute run_args run_found lookup_command lookup_in eq has_help_flag run_loaded
    run_validated run_command
version_ran =
    rw (load-default naturals nothing_set refl refl (λ key. refl), same_config)
      (rw (default-IsValid naturals refl refl) refl)

execute-IsAsked_example :
    IsAsked quiet_process
      (ParsedFlags.flags_and_args no_global_flags (codes "version" ∷ []))
      Command.run_version
      (default naturals)
      []
execute-IsAsked_example =
    execute-IsAsked quiet_process
      (ParsedFlags.flags_and_args no_global_flags (codes "version" ∷ [])) Command.run_version
      (default naturals) [] version_ran
