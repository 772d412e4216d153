-- ===== src/Cli/ScanArgs/Switches.antt =====
-- Which switches of its arguments `parseScanArgs` (internal/cli/scan.go) sets.
use nett.Prelude.{
  ℕ, Bool, false, ◌||◌, ◌==◌, List, [], ◌∷◌, ◌≡◌, refl, if◌then◌else◌, any, Bool-cases, inl, inr,
}
use nett.Text.{Bytes, codes, eq}
use nett.Text.Affixes.{eq_iff}
use nett.Cli.ScanArgs.{ScanFlags, looks_like_flag, Arg, arg_of}

-- the switches of a scan, their texts, and the fields that hold them
pub data Switch : Type 0 where
  switch_d switch_p switch_f switch_en switch_tcp switch_udp switch_brute switch_dir : Switch

abbrev pub text : Switch → Bytes
text Switch.switch_d = codes "-d"
text Switch.switch_p = codes "-p"
text Switch.switch_f = codes "-f"
text Switch.switch_en = codes "-en"
text Switch.switch_tcp = codes "-tcp"
text Switch.switch_udp = codes "-udp"
text Switch.switch_brute = codes "-brute"
text Switch.switch_dir = codes "-dir"

abbrev pub is_set : Switch → ScanFlags → Bool
is_set Switch.switch_d s = s.discover
is_set Switch.switch_p s = s.all_ports
is_set Switch.switch_f s = s.fingerprint
is_set Switch.switch_en s = s.enumerate
is_set Switch.switch_tcp s = s.tcp_requested
is_set Switch.switch_udp s = s.udp_requested
is_set Switch.switch_brute s = s.brute_requested
is_set Switch.switch_dir s = s.dir_requested

-- the switches whose next argument is their value, whatever it is
abbrev pub takes_value : Bytes → Bool
takes_value a = eq a (codes "-brute") || eq a (codes "-dir")

-- the arguments that are not such a value, where the first one is if `value`
abbrev pub asked : Bool → List Bytes → List Bytes
asked value [] = []
asked value (a ∷ args) =
    let here = a ∷ asked (takes_value a) args in
    let skipped = asked false args in if value then skipped else here

-- whether arguments have a switch
abbrev pub is_given : Switch → List Bytes → Bool
is_given x args = any (λ a. eq a (text x)) args

-- the argument that a switch is
abbrev pub arg_for : Switch → Arg
arg_for Switch.switch_d = Arg.flag_d
arg_for Switch.switch_p = Arg.flag_p
arg_for Switch.switch_f = Arg.flag_f
arg_for Switch.switch_en = Arg.flag_en
arg_for Switch.switch_tcp = Arg.flag_tcp
arg_for Switch.switch_udp = Arg.flag_udp
arg_for Switch.switch_brute = Arg.flag_brute
arg_for Switch.switch_dir = Arg.flag_dir

abbrev pub rank : Arg → ℕ
rank Arg.flag_d = 0
rank Arg.flag_p = 1
rank Arg.flag_f = 2
rank Arg.flag_en = 3
rank Arg.flag_tcp = 4
rank Arg.flag_udp = 5
rank Arg.flag_brute = 6
rank Arg.flag_dir = 7
rank Arg.other_flag = 8
rank Arg.value = 9

abbrev pub is_arg : Switch → Arg → Bool
is_arg x y = rank (arg_for x) == rank y

pub by_switch :
    (P : Switch → Type 0)
    → P Switch.switch_d
    → P Switch.switch_p
    → P Switch.switch_f
    → P Switch.switch_en
    → P Switch.switch_tcp
    → P Switch.switch_udp
    → P Switch.switch_brute
    → P Switch.switch_dir
    → (x : Switch) → P x
by_switch P a b c e g h i j Switch.switch_d = a
by_switch P a b c e g h i j Switch.switch_p = b
by_switch P a b c e g h i j Switch.switch_f = c
by_switch P a b c e g h i j Switch.switch_en = e
by_switch P a b c e g h i j Switch.switch_tcp = g
by_switch P a b c e g h i j Switch.switch_udp = h
by_switch P a b c e g h i j Switch.switch_brute = i
by_switch P a b c e g h i j Switch.switch_dir = j

-- an argument of one kind has the text of the switch of that kind, and of no other
abbrev pub IsKind : Bytes → Arg → Type 0
IsKind a y = (x : Switch) → eq a (text x) ≡ is_arg x y

-- the text of a switch has its kind
text-IsKind : (x : Switch) → IsKind (text x) (arg_for x)
unfolding eq
text-IsKind Switch.switch_d =
    by_switch (λ x. eq (codes "-d") (text x) ≡ is_arg x Arg.flag_d) refl refl refl refl refl refl
      refl refl
text-IsKind Switch.switch_p =
    by_switch (λ x. eq (codes "-p") (text x) ≡ is_arg x Arg.flag_p) refl refl refl refl refl refl
      refl refl
text-IsKind Switch.switch_f =
    by_switch (λ x. eq (codes "-f") (text x) ≡ is_arg x Arg.flag_f) refl refl refl refl refl refl
      refl refl
text-IsKind Switch.switch_en =
    by_switch (λ x. eq (codes "-en") (text x) ≡ is_arg x Arg.flag_en) refl refl refl refl refl refl
      refl refl
text-IsKind Switch.switch_tcp =
    by_switch (λ x. eq (codes "-tcp") (text x) ≡ is_arg x Arg.flag_tcp) refl refl refl refl refl
      refl refl refl
text-IsKind Switch.switch_udp =
    by_switch (λ x. eq (codes "-udp") (text x) ≡ is_arg x Arg.flag_udp) refl refl refl refl refl
      refl refl refl
text-IsKind Switch.switch_brute =
    by_switch (λ x. eq (codes "-brute") (text x) ≡ is_arg x Arg.flag_brute) refl refl refl refl refl
      refl refl refl
text-IsKind Switch.switch_dir =
    by_switch (λ x. eq (codes "-dir") (text x) ≡ is_arg x Arg.flag_dir) refl refl refl refl refl
      refl refl refl

choose :
    (a : Bytes) (x : Switch) (rest : Arg)
    → (eq a (text x) ≡ false → IsKind a rest)
    → IsKind a (if eq a (text x) then arg_for x else rest)
choose a x rest h = elim (Bool-cases (eq a (text x))) [
  | inl e ↦ let same = (eq_iff a (text x)).0 e in rw (e, same) (text-IsKind x)
  | inr e ↦ rw e (h e)
]

pub arg_of-IsKind : (a : Bytes) → IsKind a (arg_of a)
unfolding arg_of
arg_of-IsKind a = choose a Switch.switch_d _ λ h0. choose a Switch.switch_p _ λ h1.
    choose a Switch.switch_f _ λ h2. choose a Switch.switch_en _ λ h3.
      choose a Switch.switch_tcp _ λ h4. choose a Switch.switch_udp _ λ h5.
        choose a Switch.switch_brute _ λ h6. choose a Switch.switch_dir _ λ h7.
          elim (Bool-cases (looks_like_flag a)) [
            | inl e ↦ rw e (by_switch _ h0 h1 h2 h3 h4 h5 h6 h7)
            | inr e ↦ rw e (by_switch _ h0 h1 h2 h3 h4 h5 h6 h7)
          ]
