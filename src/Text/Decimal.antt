-- ===== src/Text/Decimal.antt =====
-- Decimal numbers: `%d` of fmt, and strconv.Atoi.
use Prim.Native.Nat.{zero, suc, ◌*◌, ◌/◌, ◌%◌, ◌^◌}
use nett.Prelude.{
  ℕ, ◌+◌, ◌-◌, Bool, ◌&&◌, Option, none, some, [], ◌∷◌, leb, ltb, ◌==◌, if◌then◌else◌,
}
use nett.Text.{Bytes}

-- the digits of `n` in front of `out`; the fuel `n + 1` is enough, since `n / 10 < n` for 0 < n
unfoldable pub digits : ℕ → ℕ → Bytes → Bytes
digits zero n out = out
digits (suc fuel) n out =
    let rest = digits fuel (n / 10) ((b'0' + n % 10) ∷ out) in
    if ltb n 10 then (b'0' + n) ∷ out else rest

-- the decimal print of a number that is not negative
unfoldable pub format : ℕ → Bytes
unfolding digits
format n = digits (n + 1) n []

unfoldable pub is_digit : ℕ → Bool
is_digit c = leb b'0' c && leb c b'9'

-- the value of a text of digits behind `n`; `none` at any other byte
unfoldable pub scan : Bytes → ℕ → Option ℕ
unfolding is_digit
scan [] n = some n
scan (c ∷ s) n = let rest = scan s (n * 10 + (c - b'0')) in if is_digit c then rest else none

-- a text of at least one digit
unfoldable pub unsigned : Bytes → Option ℕ
unfolding scan
unsigned [] = none
unsigned (c ∷ s) = scan (c ∷ s) 0

-- A value of Go's `int`: `negsuc n` is -(n + 1).
pub data ℤ : Type 0 where
  pos : ℕ → ℤ
  negsuc : ℕ → ℤ

abbrev pub max_int : ℕ
max_int = 2 ^ 63 - 1

abbrev positive : Option ℕ → Option ℤ
positive none = none
positive (some n) = if leb n max_int then some (ℤ.pos n) else none

-- -n
abbrev minus : ℕ → ℤ
minus zero = ℤ.pos 0
minus (suc n) = ℤ.negsuc n

abbrev negative : Option ℕ → Option ℤ
negative none = none
negative (some n) = if leb n (max_int + 1) then some (minus n) else none

-- strconv.Atoi: an optional sign, then digits whose value fits in an `int` of 64 bits
unfoldable pub atoi : Bytes → Option ℤ
unfolding unsigned
atoi [] = none
atoi (c ∷ s) =
    if c == b'-'
    then negative (unsigned s)
    else if c == b'+'
    then positive (unsigned s)
    else positive (unsigned (c ∷ s))
