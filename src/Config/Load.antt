-- ===== src/Config/Load.antt =====
-- internal/config/config.go: `Load`. What is read from outside is the record `Source`.
use nett.Prelude.{
  ◌≡◌, refl, false, Option, [], ◌∷◌, Result, ok, err, ◌>>=◌, require, Ensures, Ensures-bind,
}
use nett.Text.{Bytes}
use nett.Config.{Floats, Config, Error, default}
use nett.Config.Env.{set_value, set_str, set_csv, set_int, set_float, set_bool, apply_env}
use nett.Config.Validate.{
  validate, problems, is_not_blank, valid_log_level, valid_log_format, valid_protocol,
}
use nett.Config.Valid.{IsValid, validate-Ensures}

-- os.Getenv, os.Open, and the decoder of encoding/json on a configuration, which overrides the
-- fields that the text names; `none` is an error
pub record Source (F : Type 0) : Type 0 where
  pub env : Bytes → Bytes
  pub read_file : Bytes → Option Bytes
  pub decode : Bytes → Config F → Option (Config F)

-- mergeFile
unfoldable pub merge_file : {F : Type 0} → Source F → Bytes → Config F → Result Error (Config F)
merge_file src path c = do
  text ← require (src.read_file path) (Error.no_file path)
  require (src.decode text c) (Error.bad_file path)

-- Load
unfoldable pub load : {F : Type 0} → Floats F → Source F → Bytes → Result Error (Config F)
unfolding default
load fl src path = do
  c ← elim path [ [] ↦ ok (default fl) | x ∷ p ↦ merge_file src (x ∷ p) (default fl) ]
  c' ← apply_env fl src.env c
  validate fl c'

anything : {A : Type 0} (r : Result Error A) → Ensures (λ _. Unit {0}) (λ _. Unit {0}) r
anything (ok a) = record { holds = tt }
anything (err e) = record { holds = tt }

-- Whatever the file and the environment hold, a configuration that `Load` returns is valid.
pub load-IsValid :
    {F : Type 0} (fl : Floats F) (src : Source F) (path : Bytes)
    → Ensures (λ _. Unit {0}) (IsValid fl) (load fl src path)
unfolding load
load-IsValid fl src path = Ensures-bind {Q = λ _. Unit {0}} _ _ (anything _) λ c _.
    Ensures-bind {Q = λ _. Unit {0}} (apply_env fl src.env c) _ (anything _)
      λ c' _. validate-Ensures fl c'

-- The defaults pass, if the two rates of the source are not negative.
pub default-IsValid :
    {F : Type 0} (fl : Floats F)
    → fl.is_negative (fl.of_nat 20) ≡ false
    → fl.is_negative (fl.of_nat 50) ≡ false
    → validate fl (default fl) ≡ ok (default fl)
unfolding validate default problems is_not_blank valid_log_level valid_log_format valid_protocol
default-IsValid fl h k = rw (h, k)

-- with no variable set, each setter keeps the value
apply_env_unset : {F : Type 0} (fl : Floats F) (c : Config F) → apply_env fl (λ _. []) c ≡ ok c
unfolding apply_env set_value set_str set_csv set_int set_float set_bool
apply_env_unset fl c = refl

-- With no file and no variable set, `Load` succeeds and gives the defaults, if the two default
-- rates are not negative numbers.
pub load-default :
    {F : Type 0} (fl : Floats F) (src : Source F)
    → fl.is_negative (fl.of_nat 20) ≡ false
    → fl.is_negative (fl.of_nat 50) ≡ false
    → ((key : Bytes) → src.env key ≡ [])
    → load fl src [] ≡ ok (default fl)
unfolding load
load-default fl src h k e =
    let unset : src.env ≡ (λ _. []) = (λ i x. e x i) in
    rw unset (rw (apply_env_unset fl (default fl), default-IsValid fl h k))
