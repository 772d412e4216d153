-- ===== src/Dns/Name.antt =====
-- internal/dns/wire.go: `encodeName` and `readName`. Each round of the loop of `readName` is
-- `read_step`; the loop has fuel, of which Dns/Name/Safe shows that it is enough.
pub mod Safe
pub mod RoundTrip
use nett.Prelude.{
  ℕ, zero, suc, ◌+◌, ◌*◌, ◌%◌, ◌||◌, Option, none, some, List, [], ◌∷◌, ◌++◌, leb, ltb, ◌==◌,
  if◌then◌else◌, Result, ok, err, ◌>>=◌, ◌>>◌, check, length, not,
}
use nett.Text.{Bytes, codes, trim_suffix, split, join}
use nett.Dns.Buffer.{Error, byte_at, slice, to_byte}

-- the loop over the labels: one length byte and the label for each, then a zero byte
unfoldable pub encode_labels : List Bytes → Result Error Bytes
encode_labels [] = ok (0 ∷ [])
encode_labels (label ∷ labels) = do
  check (not (length label == 0 || ltb 63 (length label))) Error.invalid_label
  rest ← encode_labels labels
  ok (to_byte (length label) ∷ (label ++ rest))

-- what `encodeName` does with the name whose last dot is gone
unfoldable pub encode_trimmed : Bytes → Result Error Bytes
encode_trimmed [] = ok (0 ∷ [])
encode_trimmed (c ∷ name) = encode_labels (split (c ∷ name) b'.')

-- encodeName
unfoldable pub encode_name : Bytes → Result Error Bytes
encode_name name = encode_trimmed (trim_suffix name (codes "."))

-- the variables of the loop of `readName`; `orig_off` is `none` for -1
pub record State : Type 0 where
  pub labels : List Bytes
  pub orig_off : Option ℕ
  pub cur : ℕ
  pub jumps : ℕ

pub data Outcome : Type 0 where
  done : Bytes → ℕ → Outcome
  more : State → Outcome

-- if origOff == -1 { origOff = v }
abbrev pub or_end : Option ℕ → ℕ → ℕ
or_end none v = v
or_end (some o) v = o

-- the case of a compression pointer
unfoldable pub read_pointer : Bytes → State → ℕ → Result Error Outcome
read_pointer buf s len = do
  check (ltb (s.cur + 1) (length buf)) Error.truncated_pointer
  low ← byte_at buf (s.cur + 1)
  check (leb (s.jumps + 1) 128) Error.too_many_jumps
  ok (
      Outcome.more (record s {
        orig_off = some (or_end s.orig_off (s.cur + 2));
        cur = len % 64 * 256 + low;
        jumps = s.jumps + 1;
      }))

-- the case of a label
unfoldable pub read_label : Bytes → State → ℕ → Result Error Outcome
read_label buf s len = do
  check (leb (s.cur + 1 + len) (length buf)) Error.label_past_end
  label ← slice buf (s.cur + 1) (s.cur + 1 + len)
  ok (Outcome.more (record s { labels = s.labels ++ label ∷ []; cur = s.cur + 1 + len }))

-- one round of the loop; of a byte, `length & 0xC0 == 0xC0` is `192 <= length`
unfoldable pub read_step : Bytes → State → Result Error Outcome
read_step buf s = do
  check (ltb s.cur (length buf)) Error.name_past_end
  len ← byte_at buf s.cur
  if len == 0
      then ok (Outcome.done (join s.labels b'.') (or_end s.orig_off (s.cur + 1)))
      else if leb 192 len
      then read_pointer buf s len
      else read_label buf s len

unfoldable pub read_loop : ℕ → Bytes → State → Result Error (Bytes × ℕ)
read_loop zero buf s = err Error.out_of_fuel
read_loop (suc fuel) buf s = do
  o ← read_step buf s
  elim o [ Outcome.done name end ↦ ok (name, end) | Outcome.more s' ↦ read_loop fuel buf s' ]

abbrev pub fuel_for : Bytes → ℕ
fuel_for buf = 129 * (length buf + 1)

-- readName
unfoldable pub read_name : Bytes → ℕ → Result Error (Bytes × ℕ)
read_name buf off =
    read_loop (fuel_for buf) buf (record { labels = []; orig_off = none; cur = off; jumps = 0 })
