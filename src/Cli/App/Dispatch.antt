-- ===== src/Cli/App/Dispatch.antt =====
-- Which command `Execute` (internal/cli/app.go) runs, and with which configuration.
use nett.Prelude.{
  Bool, true, false, ◌≡◌, refl, Option, none, some, List, [], ◌∷◌, if◌then◌else◌, Bool-cases, inl,
  inr, Result, ok, err, Ensures-ok,
}
use nett.Text.{Bytes}
use nett.Config.{Config}
use nett.Config.Load.{load}
use nett.Config.Validate.{validate}
use nett.Config.Valid.{IsValid, validate-Ensures}
use nett.Cli.App.{
  GlobalFlags, ParsedFlags, Command, lookup_command, has_help_flag, apply_flag_overrides, exit_with,
  Process, run_command, run_validated, run_loaded, run_found, run_args, execute,
}

module _ {F : Type 0} (p : Process F) where
  -- A command was run as the arguments ask: it is the one that the first of them names, the others are
  -- its own and do not ask for help, and the configuration is valid.
  pub record IsAsked (parsed : ParsedFlags) (c : Command) (cfg : Config F) (args : List Bytes)
      : Type 0 where
    pub flags : GlobalFlags
    pub name : Bytes
    pub given : parsed ≡ ParsedFlags.flags_and_args flags (name ∷ args)
    pub shows_version : flags.show_version ≡ false
    pub found : lookup_command name ≡ some c
    pub helps : has_help_flag args ≡ false
    pub valid : IsValid p.floats cfg

  abbrev WasAsked : ParsedFlags → Option (Command × Config F × List Bytes) → Type 0
  WasAsked parsed none = Unit
  WasAsked parsed (some (c, cfg, args)) = IsAsked parsed c cfg args

  command_asked :
      (f : GlobalFlags) (name : Bytes) (args : List Bytes) (c : Command) (cfg : Config F)
      → IsAsked (ParsedFlags.flags_and_args f (name ∷ args)) c cfg args
      → WasAsked (ParsedFlags.flags_and_args f (name ∷ args)) (run_command p c args cfg).ran
  unfolding run_command
  command_asked f name args c cfg h = elim (Bool-cases (p.opens_log cfg)) [
    | inl e ↦ rw e h
    | inr e ↦ rw e tt
  ]

  found_asked :
      (f : GlobalFlags) (name : Bytes) (args : List Bytes) (o : Option Command)
      → f.show_version ≡ false
      → lookup_command name ≡ o
      → WasAsked (ParsedFlags.flags_and_args f (name ∷ args)) (run_found p f args o).ran
  unfolding run_found run_loaded run_validated
  found_asked f name args none s e = tt
  found_asked f name args (some c) s e = elim (Bool-cases (has_help_flag args)) [
    | inl h ↦ rw h tt
    | inr h ↦ rw h (loaded (load p.floats p.source f.config_path) h)
  ]
    where
      validated :
          (cfg : Config F) (r : Result nett.Config.Error (Config F))
          → validate p.floats cfg ≡ r
          → has_help_flag args ≡ false
          → WasAsked (ParsedFlags.flags_and_args f (name ∷ args)) (run_validated p c args r).ran
      validated cfg (err x) v h = tt
      validated cfg (ok cfg') v h = command_asked f name args c cfg' (record {
        flags = f;
        name = name;
        given = refl;
        shows_version = s;
        found = e;
        helps = h;
        valid = Ensures-ok (validate-Ensures p.floats cfg) v;
      })

      loaded :
          (r : Result nett.Config.Error (Config F))
          → has_help_flag args ≡ false
          → WasAsked (ParsedFlags.flags_and_args f (name ∷ args)) (run_loaded p f c args r).ran
      loaded (err x) h = tt
      loaded (ok cfg) h = validated (apply_flag_overrides f cfg) _ refl h

  execute_asked : (parsed : ParsedFlags) → WasAsked parsed (execute p parsed).ran
  unfolding execute run_args
  execute_asked ParsedFlags.asks_help = tt
  execute_asked ParsedFlags.bad_flags = tt
  execute_asked (ParsedFlags.flags_and_args f rest) = shown f.show_version refl
    where
      asked :
          (rest : List Bytes)
          → f.show_version ≡ false
          → WasAsked (ParsedFlags.flags_and_args f rest) (run_args p f rest).ran
      asked [] s = tt
      asked (name ∷ args) s = found_asked f name args (lookup_command name) s refl

      shown :
          (b : Bool)
          → f.show_version ≡ b
          → WasAsked
              (ParsedFlags.flags_and_args f rest)
              (if b then exit_with 0 else run_args p f rest).ran
      shown true s = tt
      shown false s = asked rest s

  -- `Execute` runs a command only as the arguments ask for it, and only with a configuration that is
  -- valid, the overrides of the flags included.
  pub execute-IsAsked :
      (parsed : ParsedFlags) (c : Command) (cfg : Config F) (args : List Bytes)
      → (execute p parsed).ran ≡ some (c, cfg, args)
      → IsAsked parsed c cfg args
  execute-IsAsked parsed c cfg args e = let h = execute_asked parsed in rw e at h
