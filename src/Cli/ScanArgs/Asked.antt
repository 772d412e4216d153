-- ===== src/Cli/ScanArgs/Asked.antt =====
-- What `parseScanArgs` (internal/cli/scan.go) takes from its arguments, whatever they are.
use nett.Prelude.{
  Bool, true, false, ◌||◌, or-false, List, [], ◌∷◌, ◌≡◌, refl, sym, ◌∙◌, ap, if◌then◌else◌, Ensures,
  Ensures-bind, Ensures-pure, Ensures-err, Ensures-map, Bool-cases, inl, inr,
}
use nett.Text.{Bytes, eq}
use nett.Cli.ScanArgs.{
  ScanFlags, no_flags, looks_like_flag, Parsed, Arg, arg_of, Waiting, take_arg, take_next, at_end,
  parse_loop, the_target, check_flags, parse_scan_args,
}
use nett.Cli.ScanArgs.Accepts.{AnyError, IsRunnable, anything, check_flags-IsRunnable, arg_of-value}
use nett.Cli.ScanArgs.Switches.{
  Switch, text, is_set, takes_value, asked, is_given, is_arg, by_switch, arg_of-IsKind,
}

-- the flags behind an argument
abbrev Sets : Arg → ScanFlags → ScanFlags → Type 0
Sets y s s' = (x : Switch) → is_set x s' ≡ (is_arg x y || is_set x s)

sets :
    (y : Arg) (s s' : ScanFlags)
    → (s'.discover ≡ (is_arg Switch.switch_d y || s.discover))
    → (s'.all_ports ≡ (is_arg Switch.switch_p y || s.all_ports))
    → (s'.fingerprint ≡ (is_arg Switch.switch_f y || s.fingerprint))
    → (s'.enumerate ≡ (is_arg Switch.switch_en y || s.enumerate))
    → (s'.tcp_requested ≡ (is_arg Switch.switch_tcp y || s.tcp_requested))
    → (s'.udp_requested ≡ (is_arg Switch.switch_udp y || s.udp_requested))
    → (s'.brute_requested ≡ (is_arg Switch.switch_brute y || s.brute_requested))
    → (s'.dir_requested ≡ (is_arg Switch.switch_dir y || s.dir_requested))
    → Sets y s s'
sets y s s' = by_switch (λ x. is_set x s' ≡ (is_arg x y || is_set x s))

abbrev is_waiting : Waiting → Bool
is_waiting Waiting.brute_value = true
is_waiting Waiting.dir_value = true
is_waiting _ = false

abbrev is_valued : Arg → Bool
is_valued y = is_arg Switch.switch_brute y || is_arg Switch.switch_dir y

take_arg-Sets :
    (y : Arg) (a : Bytes) (p : Parsed)
    → Ensures AnyError
        (λ r. Sets y p.flags r.1.flags × (is_waiting r.0 ≡ is_valued y))
        (take_arg y a p)
unfolding take_arg
take_arg-Sets Arg.flag_d a p =
    Ensures-pure (sets Arg.flag_d p.flags _ refl refl refl refl refl refl refl refl, refl)
take_arg-Sets Arg.flag_p a p =
    Ensures-pure (sets Arg.flag_p p.flags _ refl refl refl refl refl refl refl refl, refl)
take_arg-Sets Arg.flag_f a p =
    Ensures-pure (sets Arg.flag_f p.flags _ refl refl refl refl refl refl refl refl, refl)
take_arg-Sets Arg.flag_en a p =
    Ensures-pure (sets Arg.flag_en p.flags _ refl refl refl refl refl refl refl refl, refl)
take_arg-Sets Arg.flag_tcp a p =
    Ensures-pure (sets Arg.flag_tcp p.flags _ refl refl refl refl refl refl refl refl, refl)
take_arg-Sets Arg.flag_udp a p =
    Ensures-pure (sets Arg.flag_udp p.flags _ refl refl refl refl refl refl refl refl, refl)
take_arg-Sets Arg.flag_brute a p =
    Ensures-pure (sets Arg.flag_brute p.flags _ refl refl refl refl refl refl refl refl, refl)
take_arg-Sets Arg.flag_dir a p =
    Ensures-pure (sets Arg.flag_dir p.flags _ refl refl refl refl refl refl refl refl, refl)
take_arg-Sets Arg.value a p =
    Ensures-pure (sets Arg.value p.flags _ refl refl refl refl refl refl refl refl, refl)
take_arg-Sets Arg.other_flag a p = Ensures-err tt

-- the flags behind an argument that may be a value
abbrev Takes : Waiting → Bytes → Parsed → Waiting × Parsed → Type 0
Takes w a p r =
    ((x : Switch)
      → is_set x r.1.flags ≡ ((if is_waiting w then false else eq a (text x)) || is_set x p.flags))
    × (is_waiting r.0 ≡ (if is_waiting w then false else takes_value a))

take_here :
    (a : Bytes) (p : Parsed)
    → Ensures AnyError (Takes Waiting.nothing a p) (take_arg (arg_of a) a p)
take_here a p =
    let kind = arg_of-IsKind a in
    Ensures-map (take_arg (arg_of a) a p)
      (λ r h. (
        λ x. h.0 x ∙ ap (λ b. b || is_set x p.flags) (sym (kind x)),
        rw (kind Switch.switch_brute, kind Switch.switch_dir) h.1,
      ))
      (take_arg-Sets (arg_of a) a p)

-- what does not look like a flag is no switch
no_switch : (a : Bytes) → looks_like_flag a ≡ false → (x : Switch) → eq a (text x) ≡ false
no_switch a h x =
    rw (arg_of-value a h) at (arg_of-IsKind a x)
    ∙ by_switch (λ y. is_arg y Arg.value ≡ false) refl refl refl refl refl refl refl refl x

take_next-Takes :
    (w : Waiting) (a : Bytes) (p : Parsed) → Ensures AnyError (Takes w a p) (take_next w a p)
unfolding take_next
take_next-Takes Waiting.nothing a p = take_here a p
take_next-Takes Waiting.tcp_value a p = elim (Bool-cases (looks_like_flag a)) [
  | inl e ↦ rw e (take_here a p)
  | inr e ↦ rw e (
      Ensures-pure (
        λ x.
            by_switch (λ y. is_set y (record p.flags { tcp_spec = a }) ≡ is_set y p.flags) refl refl
              refl refl refl refl refl refl x
            ∙ ap (λ b. b || is_set x p.flags) (sym (no_switch a e x)),
        rw (no_switch a e Switch.switch_brute, no_switch a e Switch.switch_dir) refl,
      ))
]
take_next-Takes Waiting.udp_value a p = elim (Bool-cases (looks_like_flag a)) [
  | inl e ↦ rw e (take_here a p)
  | inr e ↦ rw e (
      Ensures-pure (
        λ x. ap (λ b. b || is_set x p.flags) (sym (no_switch a e x)),
        rw (no_switch a e Switch.switch_brute, no_switch a e Switch.switch_dir) refl,
      ))
]
take_next-Takes Waiting.brute_value a p = Ensures-pure (
  by_switch (λ x. is_set x (record p.flags { brute_wordlist = a }) ≡ is_set x p.flags) refl refl
      refl refl refl refl refl refl,
  refl,
)
take_next-Takes Waiting.dir_value a p = Ensures-pure (
  by_switch (λ x. is_set x (record p.flags { dir_wordlist = a }) ≡ is_set x p.flags) refl refl refl
      refl refl refl refl refl,
  refl,
)

at_end-same : (w : Waiting) (p : Parsed) → Ensures AnyError (λ q. q ≡ p) (at_end w p)
unfolding at_end
at_end-same Waiting.nothing p = Ensures-pure refl
at_end-same Waiting.tcp_value p = Ensures-pure refl
at_end-same Waiting.udp_value p = Ensures-pure refl
at_end-same Waiting.brute_value p = Ensures-err tt
at_end-same Waiting.dir_value p = Ensures-err tt

turn : (a b c : Bool) → (a || (b || c)) ≡ ((b || a) || c)
turn true true c = refl
turn true false c = refl
turn false true c = refl
turn false false c = refl

-- one argument and those behind it
after_one :
    (x : Switch) (a : Bytes) (args : List Bytes) (v v' old now last : Bool)
    → now ≡ ((if v then false else eq a (text x)) || old)
    → v' ≡ (if v then false else takes_value a)
    → last ≡ (is_given x (asked v' args) || now)
    → last ≡ (is_given x (asked v (a ∷ args)) || old)
after_one x a args true v' old now last h e k = rw (h, e) at k
after_one x a args false v' old now last h e k =
    (rw (h, e) at k) ∙ turn (is_given x (asked (takes_value a) args)) (eq a (text x)) old

parse_loop-is_given :
    (w : Waiting) (args : List Bytes) (p : Parsed)
    → Ensures AnyError
        (λ q.
          (x : Switch)
          → is_set x q.flags ≡ (is_given x (asked (is_waiting w) args) || is_set x p.flags))
        (parse_loop w args p)
unfolding parse_loop
parse_loop-is_given w [] p =
    Ensures-map (at_end w p) (λ q e x. ap (λ r. is_set x r.flags) e) (at_end-same w p)
parse_loop-is_given w (a ∷ args) p = Ensures-bind (take_next w a p) _ (take_next-Takes w a p) λ r h.
    Ensures-map (parse_loop r.0 args r.1)
      (λ q rest x. after_one x a args (is_waiting w) (is_waiting r.0) _ _ _ (h.0 x) h.1 (rest x))
      (parse_loop-is_given r.0 args r.1)

-- What arguments that are accepted ask for, the values of -brute and -dir aside: the flags are set that
-- are given, some action is given, and nothing that is not implemented.
pub record IsAsked (args : List Bytes) (s : ScanFlags) : Type 0 where
  pub switches : (x : Switch) → is_set x s ≡ is_given x (asked false args)
  pub action :
      (is_given Switch.switch_d (asked false args)
        || (is_given Switch.switch_brute (asked false args)
            || (is_given Switch.switch_tcp (asked false args)
                || is_given Switch.switch_p (asked false args))))
      ≡ true
  pub no_udp : is_given Switch.switch_udp (asked false args) ≡ false
  pub no_fingerprint : is_given Switch.switch_f (asked false args) ≡ false
  pub no_enumerate : is_given Switch.switch_en (asked false args) ≡ false
  pub no_dir : is_given Switch.switch_dir (asked false args) ≡ false

runnable-IsAsked :
    (args : List Bytes) (s : ScanFlags)
    → ((x : Switch) → is_set x s ≡ is_given x (asked false args))
    → IsRunnable s
    → IsAsked args s
runnable-IsAsked args s h r = record {
  switches = h;
  action =
      rw
        (
          sym (h Switch.switch_d),
          sym (h Switch.switch_brute),
          sym (h Switch.switch_tcp),
          sym (h Switch.switch_p),
        )
        r.action;
  no_udp = sym (h Switch.switch_udp) ∙ r.no_udp;
  no_fingerprint = sym (h Switch.switch_f) ∙ r.no_fingerprint;
  no_enumerate = sym (h Switch.switch_en) ∙ r.no_enumerate;
  no_dir = sym (h Switch.switch_dir) ∙ r.no_dir;
}

none_set : (x : Switch) → is_set x no_flags ≡ false
none_set = by_switch (λ x. is_set x no_flags ≡ false) refl refl refl refl refl refl refl refl

same_switches :
    (s : ScanFlags) (t : Bytes) (x : Switch) → is_set x (record s { target = t }) ≡ is_set x s
same_switches s t =
    by_switch (λ x. is_set x (record s { target = t }) ≡ is_set x s) refl refl refl refl refl refl
      refl refl

-- Of any arguments that `parseScanArgs` accepts, the values of -brute and -dir aside, exactly the
-- switches that are among them are set in the flags; at least one of -d, -brute, -tcp and -p is among
-- them, and none of -udp, -f, -en and -dir.
pub parse_scan_args-IsAsked :
    (args : List Bytes) → Ensures AnyError (IsAsked args) (parse_scan_args args)
unfolding parse_scan_args
parse_scan_args-IsAsked args =
    let start : Parsed = record { flags = no_flags; positional = [] } in
    Ensures-bind (parse_loop Waiting.nothing args start) _
      (parse_loop-is_given Waiting.nothing args start)
      λ p h. Ensures-bind {Q = λ _. Unit {0}} (the_target p.positional) _ (anything _) λ t _.
        Ensures-map (check_flags (record p.flags { target = t }))
          (λ s k.
            runnable-IsAsked args s
              (λ x.
                ap (is_set x) k.0
                ∙ same_switches p.flags t x
                ∙ h x
                ∙ ap (λ b. is_given x (asked false args) || b) (none_set x)
                ∙ or-false (is_given x (asked false args)))
              k.1)
          (check_flags-IsRunnable _)
