-- ===== src/Config/Env.antt =====
-- internal/config/config.go: `ApplyEnv` and `splitCSV`. An environment is a function, with the empty
-- text for a variable that is not set. The setters that write through a pointer return the value.
use nett.Prelude.{
  Bool, true, false, ◌||◌, Option, none, some, List, [], ◌∷◌, if◌then◌else◌, Result, ok, ◌>>=◌,
  require,
}
use nett.Text.{Bytes, codes, eq, split, trim_space}
use nett.Text.Decimal.{ℤ, atoi}
use nett.Config.{Floats, Config, Error}

-- the parts that are not empty once trimmed
unfoldable pub keep_parts : List Bytes → List Bytes
unfolding trim_space
keep_parts [] = []
keep_parts (p ∷ ps) = elim (trim_space p) [ [] ↦ keep_parts ps | c ∷ s ↦ (c ∷ s) ∷ keep_parts ps ]

-- splitCSV
unfoldable pub split_csv : Bytes → List Bytes
unfolding split keep_parts
split_csv s = keep_parts (split s b',')

abbrev Environment : Type 0
Environment = Bytes → Bytes

-- a variable that is set replaces the value, if `read` accepts it
unfoldable pub set_value :
    {A : Type 0}
    → Environment
    → (Bytes → Option A)
    → (Bytes → Bytes → Error)
    → Bytes
    → A
    → Result Error A
set_value env read e key old = elim (env key) [
  | [] ↦ ok old
  | c ∷ s ↦ require (read (c ∷ s)) (e key (c ∷ s))
]

-- setStr
unfoldable pub set_str : Environment → Bytes → Bytes → Bytes
set_str env key old = elim (env key) [ [] ↦ old | c ∷ s ↦ c ∷ s ]

-- setCSV
unfoldable pub set_csv : Environment → Bytes → List Bytes → List Bytes
unfolding split_csv
set_csv env key old = elim (env key) [ [] ↦ old | c ∷ s ↦ split_csv (c ∷ s) ]

-- setInt
unfoldable pub set_int : Environment → Bytes → ℤ → Result Error ℤ
unfolding set_value atoi
set_int env = set_value env atoi Error.not_an_integer

-- setFloat
unfoldable pub set_float : {F : Type 0} → Floats F → Environment → Bytes → F → Result Error F
unfolding set_value
set_float fl env = set_value env fl.parse Error.not_a_number

-- strconv.ParseBool
unfoldable pub parse_bool : Bytes → Option Bool
unfolding eq
parse_bool s =
    if eq s (codes "1")
      || (eq s (codes "t")
          || (eq s (codes "T")
              || (eq s (codes "true") || (eq s (codes "TRUE") || eq s (codes "True")))))
    then some true
    else if eq s (codes "0")
        || (eq s (codes "f")
            || (eq s (codes "F")
                || (eq s (codes "false") || (eq s (codes "FALSE") || eq s (codes "False")))))
    then some false
    else none

-- setBool
unfoldable pub set_bool : Environment → Bytes → Bool → Result Error Bool
unfolding set_value parse_bool
set_bool env = set_value env parse_bool Error.not_a_boolean

-- ApplyEnv, its calls in their order
unfoldable pub apply_env :
    {F : Type 0} → Floats F → Environment → Config F → Result Error (Config F)
unfolding set_str set_csv
apply_env fl env c = do
  global ← set_int env (codes "NETT_CONCURRENCY") c.concurrency.global
  http_timeout ← set_int env (codes "NETT_HTTP_TIMEOUT") c.http.timeout_seconds
  http_retries ← set_int env (codes "NETT_HTTP_RETRIES") c.http.retries
  http_rate ← set_float fl env (codes "NETT_HTTP_RATELIMIT") c.http.rate_limit_per_sec
  follow ← set_bool env (codes "NETT_HTTP_FOLLOW_REDIRECTS") c.http.follow_redirects
  dns_timeout ← set_int env (codes "NETT_DNS_TIMEOUT") c.dns.timeout_seconds
  ok (record {
    project = set_str env (codes "NETT_PROJECT") c.project;
    data_dir = set_str env (codes "NETT_DATA_DIR") c.data_dir;
    output_dir = set_str env (codes "NETT_OUTPUT_DIR") c.output_dir;
    logging = record {
      level = set_str env (codes "NETT_LOG_LEVEL") c.logging.level;
      format = set_str env (codes "NETT_LOG_FORMAT") c.logging.format;
      file = set_str env (codes "NETT_LOG_FILE") c.logging.file;
    };
    concurrency = record c.concurrency { global = global };
    http = record c.http {
      timeout_seconds = http_timeout;
      retries = http_retries;
      rate_limit_per_sec = http_rate;
      user_agent = set_str env (codes "NETT_HTTP_USERAGENT") c.http.user_agent;
      follow_redirects = follow;
    };
    dns = record c.dns {
      resolvers = set_csv env (codes "NETT_DNS_RESOLVERS") c.dns.resolvers;
      timeout_seconds = dns_timeout;
      protocol = set_str env (codes "NETT_DNS_PROTOCOL") c.dns.protocol;
    };
    scope = record {
      include = set_csv env (codes "NETT_SCOPE_INCLUDE") c.scope.include;
      exclude = set_csv env (codes "NETT_SCOPE_EXCLUDE") c.scope.exclude;
      wildcards = set_csv env (codes "NETT_SCOPE_WILDCARDS") c.scope.wildcards;
    };
    modules = c.modules;
  })
