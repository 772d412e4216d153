-- ===== src/Config/Examples.antt =====
-- A configuration over concrete numbers in place of `float64`.
use nett.Prelude.{ℕ, ◌≡◌, ◌↔◌, refl, false, none, some, [], ok, Ensures}
use nett.Text.{codes}
use nett.Text.Decimal.{unsigned}
use nett.Config.{Floats, default}
use nett.Config.Validate.{validate}
use nett.Config.Valid.{IsValid, validate_iff}
use nett.Config.Load.{Source, load, load-IsValid, load-default}

abbrev pub naturals : Floats ℕ
naturals = record { of_nat = λ n. n; is_negative = λ _. false; parse = unsigned }

abbrev pub nothing_set : Source ℕ
nothing_set = record { env = λ _. []; read_file = λ _. none; decode = λ _ c. some c }

validate_iff_example :
    (validate naturals (default naturals) ≡ ok (default naturals))
    ↔ IsValid naturals (default naturals)
validate_iff_example = validate_iff naturals (default naturals)

load-IsValid_example :
    Ensures (λ _. Unit {0}) (IsValid naturals) (load naturals nothing_set (codes "nett.json"))
load-IsValid_example = load-IsValid naturals nothing_set (codes "nett.json")

load-default_example : load naturals nothing_set [] ≡ ok (default naturals)
load-default_example = load-default naturals nothing_set refl refl λ key. refl
