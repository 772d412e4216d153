-- ===== src/Dns/Name/RoundTrip.antt =====
-- What `encodeName` writes, `readName` reads.
use nett.Prelude.{
  ℕ, zero, suc, ◌+◌, ◌<◌, ◌≡◌, refl, ◌∙◌, none, List, [], ◌∷◌, arith, ltb, ◌==◌, ◌++◌, ◌||◌, not,
  ok, length, >>=-eq-ok, check-eq-ok, append_assoc, append-nil, length-append,
}
use nett.Text.{Bytes, join, split, codes, trim_suffix}
use nett.Text.Split.{join-split}
use nett.Dns.Buffer.{Error, At, At-skip, At-add_one, byte_at-At, slice-At, to_byte}
use nett.Dns.Name.{
  State, Outcome, read_label, read_step, read_loop, read_name, fuel_for, encode_labels,
  encode_trimmed, encode_name,
}

abbrev at_label : List Bytes → ℕ → State
at_label labels cur = record { labels = labels; orig_off = none; cur = cur; jumps = 0 }

encode_labels-nil : {enc : Bytes} → encode_labels [] ≡ ok enc → 0 ∷ [] ≡ enc
unfolding encode_labels
encode_labels-nil e = cc

encode_labels-cons :
    (l : Bytes) (ls : List Bytes) {enc : Bytes}
    → encode_labels (l ∷ ls) ≡ ok enc
    → (r : Bytes) × (0 < length l)
      × (length l < 64)
      × (encode_labels ls ≡ ok r)
      × (to_byte (length l) ∷ (l ++ r) ≡ enc)
unfolding encode_labels
encode_labels-cons l ls e =
    let (valid, e1) =
      check-eq-ok (not (length l == 0 || ltb 63 (length l))) Error.invalid_label _ e in
    let (r, er, e2) = >>=-eq-ok (encode_labels ls) (λ x. ok (to_byte (length l) ∷ (l ++ x))) e1 in
    (r, ground arith, ground arith, er, cc)

module _ (buf : Bytes) where
  step-end :
      (labels : List Bytes) (cur : ℕ) (rest : Bytes)
      → At buf cur (0 ∷ rest)
      → read_step buf (at_label labels cur) ≡ ok (Outcome.done (join labels b'.') (cur + 1))
  unfolding read_step
  step-end labels cur rest h = ground (arith, byte_at-At h, h.total)

  label_lem :
      (labels : List Bytes) (cur : ℕ) (label rest : Bytes)
      → At buf (cur + 1) (label ++ rest)
      → read_label buf (at_label labels cur) (length label)
        ≡ ok (Outcome.more (at_label (labels ++ label ∷ []) (cur + 1 + length label)))
  unfolding read_label
  label_lem labels cur label rest h = ground (
    arith,
    h.total,
    length-append label rest,
    slice-At {off = cur + 1} label rest {end = cur + 1 + length label} h refl,
  )

  step-label :
      (labels : List Bytes) (cur : ℕ) (label rest : Bytes)
      → 0 < length label
      → length label < 64
      → At buf cur (to_byte (length label) ∷ (label ++ rest))
      → read_step buf (at_label labels cur)
        ≡ ok (Outcome.more (at_label (labels ++ label ∷ []) (cur + 1 + length label)))
  unfolding read_step
  step-label labels cur label rest pos short h =
      ground (arith, byte_at-At h, h.total, label_lem labels cur label rest (At-add_one h))

  loop-done :
      (fuel : ℕ) (s : State) {name : Bytes} {end : ℕ}
      → read_step buf s ≡ ok (Outcome.done name end)
      → read_loop (suc fuel) buf s ≡ ok (name, end)
  unfolding read_loop
  loop-done fuel s e = rw e

  loop-more :
      (fuel : ℕ) (s : State) {s' : State}
      → read_step buf s ≡ ok (Outcome.more s')
      → read_loop (suc fuel) buf s ≡ read_loop fuel buf s'
  unfolding read_loop
  loop-more fuel s e = rw e

  read_loop-labels :
      (ls : List Bytes) (labels : List Bytes) (fuel cur : ℕ) (enc rest : Bytes)
      → encode_labels ls ≡ ok enc
      → At buf cur (enc ++ rest)
      → length ls < fuel
      → read_loop fuel buf (at_label labels cur) ≡ ok (join (labels ++ ls) b'.', cur + length enc)
  read_loop-labels ls labels zero cur enc rest e h f = absurd (omega arith)
  read_loop-labels [] labels (suc fuel) cur enc rest e h f =
      let p : 0 ∷ [] ≡ enc = encode_labels-nil e in
      let at0 : At buf cur (0 ∷ rest) = rw (← p) at h in
      rw (append-nil, ← p) (loop-done fuel _ (step-end labels cur rest at0))
  read_loop-labels (l ∷ ls) labels (suc fuel) cur enc rest e h f =
      let (r, pos, short, er, p) = encode_labels-cons l ls e in
      let b = to_byte (length l) in
      let at0 : At buf cur (b ∷ (l ++ (r ++ rest))) =
        rw (append_assoc l r rest) at (rw (← p) at h) in
      let at1 = At-skip l (At-add_one at0) in
      let ih =
        read_loop-labels ls (labels ++ l ∷ []) fuel (cur + 1 + length l) r rest er at1
          (omega arith) in
      let len : cur + 1 + length l + length r ≡ cur + length enc =
        rw (← p) (omega (arith, length-append l r)) in
      loop-more fuel _ (step-label labels cur l (r ++ rest) pos short at0)
      ∙ ih
      ∙ rw (append_assoc, len)

length-encode_labels :
    (ls : List Bytes) {enc : Bytes} → encode_labels ls ≡ ok enc → length ls < length enc
length-encode_labels [] e = rw (← encode_labels-nil e) (omega arith)
length-encode_labels (l ∷ ls) e =
    let (r, pos, short, er, p) = encode_labels-cons l ls e in
    rw (← p) (omega (arith, length-append l r, length-encode_labels ls er))

module _ (buf : Bytes) (off : ℕ) (rest : Bytes) where
  read_name-trimmed :
      (name : Bytes) {enc : Bytes}
      → encode_trimmed name ≡ ok enc
      → At buf off (enc ++ rest)
      → read_name buf off ≡ ok (name, off + length enc)
  unfolding read_name
  read_name-trimmed [] {enc} e h =
      let e' : encode_labels [] ≡ ok enc = unfold encode_trimmed encode_labels in e in
      unfold join in read_loop-labels buf [] [] (fuel_for buf) off enc rest e' h (omega arith)
  read_name-trimmed (c ∷ name) {enc} e h =
      let e' : encode_labels (split (c ∷ name) b'.') ≡ ok enc = unfold encode_trimmed in e in
      let enough = length-encode_labels (split (c ∷ name) b'.') e' in
      let r =
        read_loop-labels buf (split (c ∷ name) b'.') [] (fuel_for buf) off enc rest e' h
          (omega (arith, h.total, length-append enc rest)) in
      rw join-split at r

  -- Where a buffer holds what `encodeName` wrote for a name, at any place and whatever follows,
  -- `readName` returns the name without its last dot, and the offset just behind it.
  pub read_name-encode_name :
      (name : Bytes) {enc : Bytes}
      → encode_name name ≡ ok enc
      → At buf off (enc ++ rest)
      → read_name buf off ≡ ok (trim_suffix name (codes "."), off + length enc)
  unfolding encode_name
  read_name-encode_name name = read_name-trimmed (trim_suffix name (codes "."))
