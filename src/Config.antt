-- ===== src/Config.antt =====
-- internal/config/config.go: the configuration and its defaults. A `float64` is a value of a type
-- `F` that comes with the operations the code uses of it, the record `Floats`.
pub mod Env
pub mod Validate
pub mod Valid
pub mod Load
pub mod Examples
use nett.Prelude.{ℕ, Bool, true, Option, List, [], ◌∷◌}
use nett.Text.{Bytes, codes}
use nett.Text.Decimal.{ℤ}
use nett.Scope.{ScopeConfig}

-- What the code uses of `float64`: a constant of the source, `f < 0`, and strconv.ParseFloat.
pub record Floats (F : Type 0) : Type 0 where
  pub of_nat : ℕ → F
  pub is_negative : F → Bool
  pub parse : Bytes → Option F

pub record LoggingConfig : Type 0 where
  pub level : Bytes
  pub format : Bytes
  pub file : Bytes

pub record ConcurrencyConfig : Type 0 where
  pub global : ℤ
  pub dns : ℤ
  pub http : ℤ
  pub port : ℤ

pub record HttpConfig (F : Type 0) : Type 0 where
  pub timeout_seconds : ℤ
  pub retries : ℤ
  pub rate_limit_per_sec : F
  pub user_agent : Bytes
  pub follow_redirects : Bool
  pub max_redirects : ℤ

pub record DnsConfig (F : Type 0) : Type 0 where
  pub resolvers : List Bytes
  pub timeout_seconds : ℤ
  pub retries : ℤ
  pub protocol : Bytes
  pub rate_limit_per_sec : F

-- `modules` is a map from names, as the list of its entries
pub record Config (F : Type 0) : Type 0 where
  pub project : Bytes
  pub data_dir : Bytes
  pub output_dir : Bytes
  pub logging : LoggingConfig
  pub concurrency : ConcurrencyConfig
  pub http : HttpConfig F
  pub dns : DnsConfig F
  pub scope : ScopeConfig
  pub modules : List (Bytes × Bool)

-- What can go wrong with a configuration. Each problem that `Validate` reports names its field.
pub data Problem : Type 0 where
  empty_project empty_data_dir bad_level bad_format : Problem
  global_not_positive dns_not_positive http_not_positive port_not_positive : Problem
  http_timeout_not_positive dns_timeout_not_positive : Problem
  http_retries_negative dns_retries_negative : Problem
  http_rate_negative dns_rate_negative : Problem
  bad_protocol no_resolvers : Problem

pub data Error : Type 0 where
  no_file bad_file : Bytes → Error
  not_an_integer not_a_number not_a_boolean : Bytes → Bytes → Error
  invalid : List Problem → Error

-- Default
unfoldable pub default : {F : Type 0} → Floats F → Config F
default fl = record {
  project = codes "default";
  data_dir = codes "./data";
  output_dir = codes "./output";
  logging = record { level = codes "info"; format = codes "text"; file = [] };
  concurrency = record { global = ℤ.pos 50; dns = ℤ.pos 25; http = ℤ.pos 25; port = ℤ.pos 100 };
  http = record {
    timeout_seconds = ℤ.pos 10;
    retries = ℤ.pos 2;
    rate_limit_per_sec = fl.of_nat 20;
    user_agent = codes "nett/0.1 (+https://github.com/offsecfergali/nett)";
    follow_redirects = true;
    max_redirects = ℤ.pos 10;
  };
  dns = record {
    resolvers = codes "1.1.1.1:53" ∷ codes "8.8.8.8:53" ∷ [];
    timeout_seconds = ℤ.pos 5;
    retries = ℤ.pos 2;
    protocol = codes "udp";
    rate_limit_per_sec = fl.of_nat 50;
  };
  scope = record { include = []; exclude = []; wildcards = [] };
  modules = [];
}
