-- ===== src/Config/Valid.antt =====
-- What `Validate` accepts.
use nett.Prelude.{
  ℕ, zero, suc, ◌<◌, ◌≡◌, ◌≢◌, ◌⊎◌, ◌↔◌, inl, inr, refl, Bool, true, false, not, ◌||◌, List, [],
  ◌∷◌, ok, arith, Ensures, Ensures-pure, Ensures-err, All,
}
use nett.Text.{Bytes, codes, eq, trim_space}
use nett.Text.Affixes.{eq_iff}
use nett.Text.Decimal.{ℤ}
use nett.Config.{Floats, Config, Problem}
use nett.Config.Validate.{
  is_positive, is_not_negative, is_not_blank, valid_log_level, valid_log_format, valid_protocol,
  is_not_empty, checks, problems, verdict, validate,
}

abbrev pub IsPositive : ℤ → Type 0
IsPositive i = (n : ℕ) × (0 < n) × (i ≡ ℤ.pos n)

abbrev pub IsNotNegative : ℤ → Type 0
IsNotNegative i = (n : ℕ) × (i ≡ ℤ.pos n)

-- A text that is one of a list.
abbrev pub OneOf : List Bytes → Bytes → Type 0
OneOf [] s = ⊥
OneOf (t ∷ ts) s = (s ≡ t) ⊎ OneOf ts s

abbrev pub levels : List Bytes
levels = codes "debug" ∷ codes "info" ∷ codes "warn" ∷ codes "error" ∷ []

abbrev pub formats : List Bytes
formats = codes "text" ∷ codes "json" ∷ []

abbrev pub protocols : List Bytes
protocols = codes "udp" ∷ codes "tcp" ∷ codes "doh" ∷ codes "dot" ∷ []

-- A configuration that the tool can run with.
pub record IsValid {F : Type 0} (fl : Floats F) (c : Config F) : Type 0 where
  pub project : trim_space c.project ≢ []
  pub data_dir : trim_space c.data_dir ≢ []
  pub level : OneOf levels c.logging.level
  pub format : OneOf formats c.logging.format
  pub global : IsPositive c.concurrency.global
  pub dns : IsPositive c.concurrency.dns
  pub http : IsPositive c.concurrency.http
  pub port : IsPositive c.concurrency.port
  pub http_timeout : IsPositive c.http.timeout_seconds
  pub dns_timeout : IsPositive c.dns.timeout_seconds
  pub http_retries : IsNotNegative c.http.retries
  pub dns_retries : IsNotNegative c.dns.retries
  pub http_rate : fl.is_negative c.http.rate_limit_per_sec ≡ false
  pub dns_rate : fl.is_negative c.dns.rate_limit_per_sec ≡ false
  pub protocol : OneOf protocols c.dns.protocol
  pub resolvers : c.dns.resolvers ≢ []

IsPositive-iff : (i : ℤ) → (is_positive i ≡ true) ↔ IsPositive i
IsPositive-iff (ℤ.pos zero) = (λ h. cc, λ h. ground (arith, h))
IsPositive-iff (ℤ.pos (suc n)) = (λ h. (suc n, ground arith, refl), λ h. refl)
IsPositive-iff (ℤ.negsuc n) = (λ h. cc, λ h. ground (arith, h))

IsNotNegative-iff : (i : ℤ) → (is_not_negative i ≡ true) ↔ IsNotNegative i
IsNotNegative-iff (ℤ.pos n) = (λ h. (n, refl), λ h. refl)
IsNotNegative-iff (ℤ.negsuc n) = (λ h. cc, λ h. ground (arith, h))

not_empty_iff : {A : Type 0} (xs : List A) → (is_not_empty xs ≡ true) ↔ (xs ≢ [])
not_empty_iff [] = (λ h. cc, λ h. absurd (h refl))
not_empty_iff (x ∷ xs) = (λ h e. cc, λ h. refl)

not_blank_iff : (s : Bytes) → (is_not_blank s ≡ true) ↔ (trim_space s ≢ [])
unfolding is_not_blank
not_blank_iff s = not_empty_iff (trim_space s)

not_iff : (b : Bool) → (not b ≡ true) ↔ (b ≡ false)
not_iff true = (λ h. cc, λ h. cc)
not_iff false = (λ h. refl, λ h. refl)

or_iff : {P Q : Type 0} (a b : Bool) → (a ≡ true) ↔ P → (b ≡ true) ↔ Q → ((a || b) ≡ true) ↔ (P ⊎ Q)
or_iff true b p q = (λ h. inl (p.0 refl), λ h. refl)
or_iff false b p q =
    (λ h. inr (q.0 h), λ h. elim h [ inl x ↦ absurd (clash (p.1 x)) | inr y ↦ q.1 y ])
  where
    clash : false ≡ true → ⊥
    clash e = cc

-- whether a text is one of a list, as a test
abbrev one_of : Bytes → List Bytes → Bytes → Bool
one_of t [] s = eq s t
one_of t (u ∷ us) s = eq s t || one_of u us s

one_of_iff : (t : Bytes) (ts : List Bytes) (s : Bytes) → (one_of t ts s ≡ true) ↔ OneOf (t ∷ ts) s
one_of_iff t [] s =
    (λ h. inl ((eq_iff s t).0 h), λ h. elim h [ inl e ↦ (eq_iff s t).1 e | inr f ↦ absurd f ])
one_of_iff t (u ∷ us) s = or_iff _ _ (eq_iff s t) (one_of_iff u us s)

level_iff : (s : Bytes) → (valid_log_level s ≡ true) ↔ OneOf levels s
unfolding valid_log_level
level_iff s = one_of_iff (codes "debug") (codes "info" ∷ codes "warn" ∷ codes "error" ∷ []) s

format_iff : (s : Bytes) → (valid_log_format s ≡ true) ↔ OneOf formats s
unfolding valid_log_format
format_iff s = one_of_iff (codes "text") (codes "json" ∷ []) s

protocol_iff : (s : Bytes) → (valid_protocol s ≡ true) ↔ OneOf protocols s
unfolding valid_protocol
protocol_iff s = one_of_iff (codes "udp") (codes "tcp" ∷ codes "doh" ∷ codes "dot" ∷ []) s

problems_iff : (cs : List (Bool × Problem)) → (problems cs ≡ []) ↔ All (λ x. x.0 ≡ true) cs
unfolding problems
problems_iff [] = (λ h. tt, λ h. refl)
problems_iff ((true, p) ∷ rest) =
    (λ h. (refl, (problems_iff rest).0 h), λ h. (problems_iff rest).1 h.1)
problems_iff ((false, p) ∷ rest) = (λ h. cc, λ h. cc h.0)

checks-IsValid :
    {F : Type 0} (fl : Floats F) (c : Config F) → All (λ x. x.0 ≡ true) (checks fl c) → IsValid fl c
checks-IsValid fl c
      (
        h0,
        (
          h1,
          (
            h2,
            (h3, (h4, (h5, (h6, (h7, (h8, (h9, (h10, (h11, (h12, (h13, (h14, (h15, _))))))))))))),
          ),
        ),
      ) =
    record {
      project = (not_blank_iff _).0 h0;
      data_dir = (not_blank_iff _).0 h1;
      level = (level_iff _).0 h2;
      format = (format_iff _).0 h3;
      global = (IsPositive-iff _).0 h4;
      dns = (IsPositive-iff _).0 h5;
      http = (IsPositive-iff _).0 h6;
      port = (IsPositive-iff _).0 h7;
      http_timeout = (IsPositive-iff _).0 h8;
      dns_timeout = (IsPositive-iff _).0 h9;
      http_retries = (IsNotNegative-iff _).0 h10;
      dns_retries = (IsNotNegative-iff _).0 h11;
      http_rate = (not_iff _).0 h12;
      dns_rate = (not_iff _).0 h13;
      protocol = (protocol_iff _).0 h14;
      resolvers = (not_empty_iff _).0 h15;
    }

IsValid-checks :
    {F : Type 0} (fl : Floats F) (c : Config F) → IsValid fl c → All (λ x. x.0 ≡ true) (checks fl c)
IsValid-checks fl c v = (
  (not_blank_iff _).1 v.project,
  (
    (not_blank_iff _).1 v.data_dir,
    (
      (level_iff _).1 v.level,
      (
        (format_iff _).1 v.format,
        (
          (IsPositive-iff _).1 v.global,
          (
            (IsPositive-iff _).1 v.dns,
            (
              (IsPositive-iff _).1 v.http,
              (
                (IsPositive-iff _).1 v.port,
                (
                  (IsPositive-iff _).1 v.http_timeout,
                  (
                    (IsPositive-iff _).1 v.dns_timeout,
                    (
                      (IsNotNegative-iff _).1 v.http_retries,
                      (
                        (IsNotNegative-iff _).1 v.dns_retries,
                        (
                          (not_iff _).1 v.http_rate,
                          (
                            (not_iff _).1 v.dns_rate,
                            ((protocol_iff _).1 v.protocol, ((not_empty_iff _).1 v.resolvers, tt)),
                          ),
                        ),
                      ),
                    ),
                  ),
                ),
              ),
            ),
          ),
        ),
      ),
    ),
  ),
)

verdict-empty :
    {F : Type 0} (c : Config F) (ps : List Problem) {d : Config F}
    → verdict c ps ≡ ok d
    → (ps ≡ []) × (ok c ≡ verdict d [])
verdict-empty c [] h = (refl, h)
verdict-empty c (p ∷ ps) h = cc

-- `Validate` accepts exactly the configurations that satisfy all of its requirements, and returns
-- the configuration as it is.
pub validate_iff :
    {F : Type 0} (fl : Floats F) (c : Config F) → (validate fl c ≡ ok c) ↔ IsValid fl c
unfolding validate
validate_iff fl c = (
  λ h. checks-IsValid fl c ((problems_iff _).0 (verdict-empty c _ h).0),
  λ v. rw ((problems_iff _).1 (IsValid-checks fl c v)),
)

-- What `Validate` accepts is valid.
pub validate-Ensures :
    {F : Type 0} (fl : Floats F) (c : Config F)
    → Ensures (λ _. Unit {0}) (IsValid fl) (validate fl c)
unfolding validate
validate-Ensures fl c = go _ refl
  where
    go :
        (ps : List Problem)
        → problems (checks fl c) ≡ ps
        → Ensures (λ _. Unit {0}) (IsValid fl) (verdict c ps)
    go [] e = Ensures-pure (checks-IsValid fl c ((problems_iff _).0 e))
    go (p ∷ ps) e = Ensures-err tt
