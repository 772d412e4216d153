-- ===== src/Config/Validate.antt =====
-- internal/config/config.go: `Validate`.
use nett.Prelude.{zero, suc, Bool, true, false, not, ◌||◌, List, [], ◌∷◌, Result, ok, err}
use nett.Text.{Bytes, codes, eq, trim_space}
use nett.Text.Decimal.{ℤ}
use nett.Config.{Floats, Config, Problem, Error}

abbrev pub is_positive : ℤ → Bool
is_positive (ℤ.pos zero) = false
is_positive (ℤ.pos (suc n)) = true
is_positive (ℤ.negsuc n) = false

abbrev pub is_not_negative : ℤ → Bool
is_not_negative (ℤ.pos n) = true
is_not_negative (ℤ.negsuc n) = false

-- len(list) != 0
abbrev pub is_not_empty : {A : Type 0} → List A → Bool
is_not_empty [] = false
is_not_empty (x ∷ xs) = true

-- strings.TrimSpace(s) != ""
unfoldable pub is_not_blank : Bytes → Bool
unfolding trim_space
is_not_blank s = is_not_empty (trim_space s)

-- validLogLevels
unfoldable pub valid_log_level : Bytes → Bool
unfolding eq
valid_log_level s =
    eq s (codes "debug") || (eq s (codes "info") || (eq s (codes "warn") || eq s (codes "error")))

-- validLogFormats
unfoldable pub valid_log_format : Bytes → Bool
unfolding eq
valid_log_format s = eq s (codes "text") || eq s (codes "json")

-- validProtocols
unfoldable pub valid_protocol : Bytes → Bool
unfolding eq
valid_protocol s =
    eq s (codes "udp") || (eq s (codes "tcp") || (eq s (codes "doh") || eq s (codes "dot")))

-- the checks, in their order: each with the problem that it reports when it fails
abbrev pub checks : {F : Type 0} → Floats F → Config F → List (Bool × Problem)
checks fl c =
    (is_not_blank c.project, Problem.empty_project)
    ∷ (is_not_blank c.data_dir, Problem.empty_data_dir)
    ∷ (valid_log_level c.logging.level, Problem.bad_level)
    ∷ (valid_log_format c.logging.format, Problem.bad_format)
    ∷ (is_positive c.concurrency.global, Problem.global_not_positive)
    ∷ (is_positive c.concurrency.dns, Problem.dns_not_positive)
    ∷ (is_positive c.concurrency.http, Problem.http_not_positive)
    ∷ (is_positive c.concurrency.port, Problem.port_not_positive)
    ∷ (is_positive c.http.timeout_seconds, Problem.http_timeout_not_positive)
    ∷ (is_positive c.dns.timeout_seconds, Problem.dns_timeout_not_positive)
    ∷ (is_not_negative c.http.retries, Problem.http_retries_negative)
    ∷ (is_not_negative c.dns.retries, Problem.dns_retries_negative)
    ∷ (not (fl.is_negative c.http.rate_limit_per_sec), Problem.http_rate_negative)
    ∷ (not (fl.is_negative c.dns.rate_limit_per_sec), Problem.dns_rate_negative)
    ∷ (valid_protocol c.dns.protocol, Problem.bad_protocol)
    ∷ (is_not_empty c.dns.resolvers, Problem.no_resolvers)
    ∷ []

-- `if !b { problems = append(problems, p) }` for each check
unfoldable pub problems : List (Bool × Problem) → List Problem
problems [] = []
problems ((true, p) ∷ rest) = problems rest
problems ((false, p) ∷ rest) = p ∷ problems rest

-- the error lists every problem
abbrev pub verdict : {F : Type 0} → Config F → List Problem → Result Error (Config F)
verdict c [] = ok c
verdict c (p ∷ ps) = err (Error.invalid (p ∷ ps))

-- Validate
unfoldable pub validate : {F : Type 0} → Floats F → Config F → Result Error (Config F)
validate fl c = verdict c (problems (checks fl c))
