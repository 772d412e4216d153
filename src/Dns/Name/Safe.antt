-- ===== src/Dns/Name/Safe.antt =====
-- `readName` ends and does not panic on any buffer, and the offset that it returns lies after the
-- one that it was given and inside the buffer.
use nett.Prelude.{
  ℕ, zero, suc, ◌+◌, ◌-◌, ◌*◌, ◌≤◌, ◌<◌, ◌≡◌, refl, Option, none, some, arith, ◌==◌, ◌%◌, false,
  length, Ensures, Ensures-bind, Ensures-check, Ensures-if, Ensures-pure, leb→le, ltb→lt,
}
use nett.Text.{Bytes}
use nett.Dns.Buffer.{IsReported, byte_at-Ensures, slice-Ensures}
use nett.Dns.Name.{
  State, Outcome, or_end, read_pointer, read_label, read_step, read_loop, read_name, fuel_for,
}

-- the rounds that are left: every jump is counted, and between jumps the cursor moves on
measure : Bytes → State → ℕ
measure buf s = (128 - s.jumps) * (length buf + 1) + (length buf - s.cur)

-- `off` is where the name begins: until the first jump the cursor does not fall behind it
record IsLive (buf : Bytes) (off : ℕ) (s : State) : Type 0 where
  few_jumps : s.jumps ≤ 128
  cursor : s.orig_off ≡ none → off ≤ s.cur
  ending : (o : ℕ) → s.orig_off ≡ some o → (off < o) × (o ≤ length buf)

-- what a round leaves
abbrev Advances : Bytes → ℕ → ℕ → Outcome → Type 0
Advances buf off m (Outcome.done name end) = (off < end) × (end ≤ length buf)
Advances buf off m (Outcome.more s) = (measure buf s < m) × IsLive buf off s

-- what a jump costs is worth a walk through the whole buffer
spend :
    (j : ℕ) {a n : ℕ} (b : ℕ)
    → j + 1 ≤ 128
    → a ≤ n
    → (128 - (j + 1)) * (n + 1) + a < (128 - j) * (n + 1) + b
spend j {a} {n} b h k = let e : 128 - j ≡ (128 - (j + 1)) + 1 = omega arith in rw e (omega arith)

nonzero : (len : ℕ) → (len == 0) ≡ false → 0 < len
nonzero len h = ground arith

module _ (buf : Bytes) (off : ℕ) (s : State) (live : IsLive buf off s) where
  end_bounds :
      (v : ℕ)
      → s.cur < v
      → v ≤ length buf
      → (off < or_end s.orig_off v) × (or_end s.orig_off v ≤ length buf)
  end_bounds v lt le = go s.orig_off live.cursor live.ending
    where
      go :
          (o : Option ℕ)
          → (o ≡ none → off ≤ s.cur)
          → ((e : ℕ) → o ≡ some e → (off < e) × (e ≤ length buf))
          → (off < or_end o v) × (or_end o v ≤ length buf)
      go none c e = let k = c refl in omega arith
      go (some w) c e = e w refl

  jump-IsLive :
      (len low : ℕ) (bytes : s.cur + 1 < length buf) (few : s.jumps + 1 ≤ 128)
      → IsLive buf off (record s {
        orig_off = some (or_end s.orig_off (s.cur + 2));
        cur = len % 64 * 256 + low;
        jumps = s.jumps + 1;
      })
  jump-IsLive len low bytes few = record {
    few_jumps = few;
    cursor = λ e. cc;
    ending = λ o e.
        let b = end_bounds (s.cur + 2) (omega arith) (omega arith) in ground (arith, b.0, b.1);
  }

  read_pointer-Advances :
      (len : ℕ)
      → s.cur < length buf
      → Ensures IsReported (Advances buf off (measure buf s)) (read_pointer buf s len)
  unfolding read_pointer measure
  read_pointer-Advances len inside = Ensures-check _ _ _ tt λ fits.
      let bytes = ltb→lt (s.cur + 1) (length buf) fits in
      Ensures-bind _ _ (byte_at-Ensures buf (s.cur + 1) bytes) λ low _.
        Ensures-check _ _ _ tt λ few.
          let enough = leb→le (s.jumps + 1) 128 few in
          Ensures-pure
            (spend s.jumps _ (omega arith) (omega arith), jump-IsLive len low bytes enough)

  read_label-Advances :
      (len : ℕ)
      → s.cur < length buf
      → 0 < len
      → Ensures IsReported (Advances buf off (measure buf s)) (read_label buf s len)
  unfolding read_label measure
  read_label-Advances len inside pos = Ensures-check _ _ _ tt λ fits.
      let bound = leb→le (s.cur + 1 + len) (length buf) fits in
      Ensures-bind _ _ (slice-Ensures buf (s.cur + 1) (s.cur + 1 + len) (omega arith) bound)
        λ label _. Ensures-pure (
          omega arith,
          record {
            few_jumps = live.few_jumps;
            cursor = λ e. omega (arith, live.cursor e);
            ending = live.ending;
          },
        )

  read_step-Advances : Ensures IsReported (Advances buf off (measure buf s)) (read_step buf s)
  unfolding read_step
  read_step-Advances = Ensures-check _ _ _ tt λ fits.
      let inside = ltb→lt s.cur (length buf) fits in
      Ensures-bind _ _ (byte_at-Ensures buf s.cur inside) λ len _.
        Ensures-if _ _ _ (λ z. Ensures-pure (end_bounds (s.cur + 1) (omega arith) (omega arith)))
          λ nz.
            Ensures-if _ _ _ (λ p. read_pointer-Advances len inside)
              λ l. read_label-Advances len inside (nonzero len nz)

module _ (buf : Bytes) (off : ℕ) where
  read_loop-Ensures :
      (fuel : ℕ) (s : State)
      → IsLive buf off s
      → measure buf s < fuel
      → Ensures IsReported (λ r. (off < r.1) × (r.1 ≤ length buf)) (read_loop fuel buf s)
  unfolding read_loop
  read_loop-Ensures zero s live h = absurd (omega arith)
  read_loop-Ensures (suc fuel) s live h =
      Ensures-bind _ _ (read_step-Advances buf off s live) elim [
        | Outcome.done name end ↦ λ b. Ensures-pure b
        | Outcome.more s' ↦ λ b. read_loop-Ensures fuel s' b.1 (omega arith)
      ]

  -- `readName` on any buffer, from any offset, with no hypothesis: it ends, it does not panic, its
  -- error is one that the source reports, and the offset that it returns lies behind the given one
  -- and not behind the end of the buffer.
  pub read_name-Ensures :
      Ensures IsReported (λ r. (off < r.1) × (r.1 ≤ length buf)) (read_name buf off)
  unfolding read_name measure
  read_name-Ensures =
      read_loop-Ensures (fuel_for buf) _
        (record { few_jumps = omega arith; cursor = λ e. omega arith; ending = λ o e. cc })
        (omega arith)
