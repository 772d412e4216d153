-- ===== src/Dns/Buffer.antt =====
-- Reads from a message buffer. A Go index or slice expression out of range panics, and
-- encoding/binary indexes its argument: both are the error `panic`.
use nett.Prelude.{
  ℕ, suc, ◌+◌, ◌-◌, ◌*◌, ◌/◌, ◌%◌, ◌^◌, ◌<◌, ◌≤◌, [], ◌∷◌, ◌++◌, ◌&&◌, ◌≡◌, arith, leb, Result, ok,
  err, ◌>>=◌, require, length, take, drop, get_elem?, length-drop, length-append, get_elem?-drop,
  get_elem?_total, drop-suc, take-append, if◌then◌else◌, Ensures, ap, ◌∙◌, length-take,
}
use nett.Text.{Bytes}

-- What the codec can report; `out_of_fuel` is the model's own, of a loop that does not end.
pub data Error : Type 0 where
  invalid_label name_past_end truncated_pointer too_many_jumps label_past_end : Error
  message_too_short truncated_question truncated_record truncated_rdata : Error
  invalid_a invalid_aaaa missing_mx missing_srv missing_caa missing_soa txt_too_long : Error
  cannot_encode_type invalid_mx invalid_txt invalid_srv invalid_caa invalid_caa_tag : Error
  truncated_soa : Error
  panic out_of_fuel : Error

-- an error that the source reports by an `error` value
abbrev pub IsReported : Error → Type 0
IsReported Error.panic = ⊥
IsReported Error.out_of_fuel = ⊥
IsReported _ = Unit

-- buf[i]
unfoldable pub byte_at : Bytes → ℕ → Result Error ℕ
byte_at buf i = require (get_elem? buf i) Error.panic

-- buf[lo:hi]
unfoldable pub slice : Bytes → ℕ → ℕ → Result Error Bytes
slice buf lo hi =
    if leb lo hi && leb hi (length buf) then ok (take (hi - lo) (drop lo buf)) else err Error.panic

-- binary.BigEndian.Uint16(buf[i : i+2])
unfoldable pub uint16_at : Bytes → ℕ → Result Error ℕ
unfolding byte_at
uint16_at buf i = do b0 ← byte_at buf i; b1 ← byte_at buf (i + 1); ok (b0 * 256 + b1)

-- binary.BigEndian.Uint32(buf[i : i+4])
unfoldable pub uint32_at : Bytes → ℕ → Result Error ℕ
uint32_at buf i = do hi ← uint16_at buf i; lo ← uint16_at buf (i + 2); ok (hi * 65536 + lo)

-- byte(v)
abbrev pub to_byte : ℕ → ℕ
to_byte v = v % 256

-- what `appendUint16` appends
unfoldable pub put_uint16 : ℕ → Bytes
put_uint16 v = to_byte (v / 256) ∷ to_byte v ∷ []

-- what `appendUint32` appends
unfoldable pub put_uint32 : ℕ → Bytes
unfolding put_uint16
put_uint32 v = put_uint16 (v / 65536) ++ put_uint16 v

-- appendUint16
unfoldable pub append_uint16 : Bytes → ℕ → Bytes
unfolding put_uint16
append_uint16 buf v = buf ++ put_uint16 v

-- appendUint32
unfoldable pub append_uint32 : Bytes → ℕ → Bytes
unfolding put_uint32
append_uint32 buf v = buf ++ put_uint32 v

-- The bytes of `buf` from `off` on are `rest`.
pub record At (buf : Bytes) (off : ℕ) (rest : Bytes) : Type 0 where
  pub tail : drop off buf ≡ rest
  pub total : off + length rest ≡ length buf

At-next : {buf : Bytes} {off b : ℕ} {rest : Bytes} → At buf off (b ∷ rest) → At buf (suc off) rest
At-next {buf} {off} h = record { tail = drop-suc off buf h.tail; total = omega (arith, h.total) }

pub At-add_one :
    {buf : Bytes} {off b : ℕ} {rest : Bytes} → At buf off (b ∷ rest) → At buf (off + 1) rest
At-add_one {buf} {off} h = let e : suc off ≡ off + 1 = omega arith in rw e at (At-next h)

pub At-skip :
    {buf : Bytes} {off : ℕ} (xs : Bytes) {rest : Bytes}
    → At buf off (xs ++ rest)
    → At buf (off + length xs) rest
At-skip {buf} {off} [] h = let e : off + 0 ≡ off = omega arith in rw e h
At-skip {buf} {off} (x ∷ xs) {rest} h =
    let e : suc off + length xs ≡ off + length (x ∷ xs) = omega arith in
    rw e at (At-skip xs (At-next h))

pub byte_at-At :
    {buf : Bytes} {off b : ℕ} {rest : Bytes} → At buf off (b ∷ rest) → byte_at buf off ≡ ok b
unfolding byte_at
byte_at-At {buf} {off} h = ground (arith, get_elem?-drop off buf h.tail)

pub slice-At :
    {buf : Bytes} {off : ℕ} (xs rest : Bytes) {end : ℕ}
    → At buf off (xs ++ rest)
    → end ≡ off + length xs
    → slice buf off end ≡ ok xs
unfolding slice
slice-At {buf} {off} xs rest {end} h e =
    let n : end - off ≡ length xs = omega arith in
    ground (arith, n, h.total, h.tail, length-append xs rest, take-append xs rest)

uint16_at-At_mod :
    {buf : Bytes} {off : ℕ} (v : ℕ) (rest : Bytes)
    → At buf off (put_uint16 v ++ rest)
    → uint16_at buf off ≡ ok (v % 65536)
unfolding uint16_at put_uint16
uint16_at-At_mod {buf} {off} v rest h =
    let e : off + 1 ≡ suc off = omega arith in
    ground (arith, e, get_elem?-drop off buf h.tail, get_elem?-drop (suc off) buf (At-next h).tail)

pub uint16_at-At :
    {buf : Bytes} {off : ℕ} (v : ℕ) (rest : Bytes)
    → v < 65536
    → At buf off (put_uint16 v ++ rest)
    → uint16_at buf off ≡ ok v
uint16_at-At v rest lt h =
    let e : v % 65536 ≡ v = omega arith in uint16_at-At_mod v rest h ∙ ap ok e

pub uint32_at-At :
    {buf : Bytes} {off : ℕ} (v : ℕ) (rest : Bytes)
    → v < 2 ^ 32
    → At buf off (put_uint32 v ++ rest)
    → uint32_at buf off ≡ ok v
unfolding uint32_at put_uint32
uint32_at-At {buf} {off} v rest lt h =
    let hi = uint16_at-At (v / 65536) (put_uint16 v ++ rest) (omega arith) h in
    let at2 = At-skip (put_uint16 (v / 65536)) {rest = put_uint16 v ++ rest} h in
    let lo = uint16_at-At_mod v rest at2 in ground (arith, hi, lo)

-- A read inside the buffer does not panic.
pub byte_at_total : (buf : Bytes) (i : ℕ) → i < length buf → (b : ℕ) × (byte_at buf i ≡ ok b)
unfolding byte_at
byte_at_total buf i h = let (b, e) = get_elem?_total buf i h in (b, rw e)

pub slice_total :
    (buf : Bytes) (lo hi : ℕ)
    → lo ≤ hi
    → hi ≤ length buf
    → (s : Bytes) × (slice buf lo hi ≡ ok s) × (length s ≡ hi - lo)
unfolding slice
slice_total buf lo hi h k = (
  take (hi - lo) (drop lo buf),
  ground arith,
  length-take (hi - lo) (drop lo buf) (omega (arith, length-drop lo buf)),
)

pub uint16_at_total :
    (buf : Bytes) (i : ℕ) → i + 2 ≤ length buf → (v : ℕ) × (uint16_at buf i ≡ ok v)
unfolding uint16_at
uint16_at_total buf i h =
    let (b0, e0) = byte_at_total buf i (omega arith) in
    let (b1, e1) = byte_at_total buf (i + 1) (omega arith) in
    (b0 * 256 + b1, ground (arith, e0, e1))

pub uint32_at_total :
    (buf : Bytes) (i : ℕ) → i + 4 ≤ length buf → (v : ℕ) × (uint32_at buf i ≡ ok v)
unfolding uint32_at
uint32_at_total buf i h =
    let (a, e0) = uint16_at_total buf i (omega arith) in
    let (b, e1) = uint16_at_total buf (i + 2) (omega arith) in
    (a * 65536 + b, ground (arith, e0, e1))

-- The same as conditions of `do` blocks.
module _ (buf : Bytes) where
  pub byte_at-Ensures :
      (i : ℕ) → i < length buf → Ensures IsReported (λ _. Unit {0}) (byte_at buf i)
  byte_at-Ensures i h = let (b, e) = byte_at_total buf i h in rw e (record { holds = tt })

  pub slice-Ensures :
      (lo hi : ℕ)
      → lo ≤ hi
      → hi ≤ length buf
      → Ensures IsReported (λ s. length s ≡ hi - lo) (slice buf lo hi)
  slice-Ensures lo hi h k = let (s, e, n) = slice_total buf lo hi h k in rw e (record { holds = n })

  pub uint16_at-Ensures :
      (i : ℕ) → i + 2 ≤ length buf → Ensures IsReported (λ _. Unit {0}) (uint16_at buf i)
  uint16_at-Ensures i h = let (v, e) = uint16_at_total buf i h in rw e (record { holds = tt })

  pub uint32_at-Ensures :
      (i : ℕ) → i + 4 ≤ length buf → Ensures IsReported (λ _. Unit {0}) (uint32_at buf i)
  uint32_at-Ensures i h = let (v, e) = uint32_at_total buf i h in rw e (record { holds = tt })
