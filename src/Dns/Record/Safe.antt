-- ===== src/Dns/Record/Safe.antt =====
-- `readRecord` ends and does not panic on any buffer.
use nett.Prelude.{
  ℕ, zero, suc, ◌+◌, ◌-◌, ◌≤◌, ◌<◌, ◌≡◌, refl, List, [], ◌∷◌, ◌++◌, arith, leb, ◌==◌, Bool, some,
  check, ◌>>◌, Result, ok, ◌>>=◌, length, leb→le, Ensures, Ensures-bind, Ensures-check, Ensures-if,
  Ensures-cases, Ensures-map, Ensures-pure,
}
use nett.Text.{Bytes}
use nett.Net.{Net}
use nett.Dns.RrType
use nett.Dns.Message.{Record}
use nett.Dns.Buffer.{
  Error, IsReported, byte_at-Ensures, slice-Ensures, uint16_at-Ensures, uint32_at-Ensures,
}
use nett.Dns.Name.Safe.{read_name-Ensures}
use nett.Dns.Record.{
  decode_txt_loop, decode_txt, read_mx, read_srv, read_caa, read_soa, read_soa_numbers,
  read_structured, read_rdata, read_fixed, read_record, read_records,
}

abbrev Any : {A : Type 0} → A → Type 0
Any _ = Unit {0}

decode_txt_loop-Ensures :
    (fuel : ℕ) (rdata : Bytes) (i : ℕ) (out : List Bytes)
    → length rdata - i < fuel
    → Ensures IsReported Any (decode_txt_loop fuel rdata i out)
unfolding decode_txt_loop
decode_txt_loop-Ensures zero rdata i out h = absurd (omega arith)
decode_txt_loop-Ensures (suc fuel) rdata i out h =
    Ensures-if (leb (length rdata) i) _ _ (λ _. Ensures-pure tt)
      λ more.
        let inside : i < length rdata = ground arith in
        Ensures-bind _ _ (byte_at-Ensures rdata i inside) λ n _. Ensures-check _ _ _ tt λ fits.
          let bound = leb→le (i + 1 + n) (length rdata) fits in
          Ensures-bind _ _ (slice-Ensures rdata (i + 1) (i + 1 + n) (omega arith) bound)
            λ s _. decode_txt_loop-Ensures fuel rdata (i + 1 + n) (out ++ s ∷ []) (omega arith)

-- The loop of `decodeTXT` ends on every rdata.
decode_txt-Ensures : (rdata : Bytes) → Ensures IsReported Any (decode_txt rdata)
unfolding decode_txt
decode_txt-Ensures rdata = decode_txt_loop-Ensures (length rdata + 1) rdata 0 [] (omega arith)

module _ (buf : Bytes) (off : ℕ) where
  read_mx-Ensures : (rdata : Bytes) → Ensures IsReported Any (read_mx buf off rdata)
  unfolding read_mx
  read_mx-Ensures rdata = Ensures-check _ _ _ tt λ long.
      Ensures-bind _ _ (uint16_at-Ensures rdata 0 (leb→le 2 (length rdata) long))
        λ p _. Ensures-bind _ _ (read_name-Ensures buf (off + 2)) λ r _. Ensures-pure tt

  read_srv-Ensures : (rdata : Bytes) → Ensures IsReported Any (read_srv buf off rdata)
  unfolding read_srv
  read_srv-Ensures rdata = Ensures-check _ _ _ tt λ long.
      let bound = leb→le 6 (length rdata) long in
      Ensures-bind _ _ (uint16_at-Ensures rdata 0 (omega arith)) λ p _.
        Ensures-bind _ _ (uint16_at-Ensures rdata 2 (omega arith)) λ w _.
          Ensures-bind _ _ (uint16_at-Ensures rdata 4 (omega arith))
            λ t _. Ensures-bind _ _ (read_name-Ensures buf (off + 6)) λ r _. Ensures-pure tt

  read_soa-Ensures : Ensures IsReported Any (read_soa buf off)
  unfolding read_soa read_soa_numbers
  read_soa-Ensures = Ensures-bind _ _ (read_name-Ensures buf off) λ m _.
      Ensures-bind _ _ (read_name-Ensures buf m.1) λ r _. Ensures-check _ _ _ tt λ fits.
        let bound = leb→le (r.1 + 20) (length buf) fits in
        Ensures-bind _ _ (uint32_at-Ensures buf r.1 (omega arith)) λ _ _.
          Ensures-bind _ _ (uint32_at-Ensures buf (r.1 + 4) (omega arith)) λ _ _.
            Ensures-bind _ _ (uint32_at-Ensures buf (r.1 + 8) (omega arith)) λ _ _.
              Ensures-bind _ _ (uint32_at-Ensures buf (r.1 + 12) (omega arith)) λ _ _.
                Ensures-bind _ _ (uint32_at-Ensures buf (r.1 + 16) (omega arith))
                  λ _ _. Ensures-pure tt

read_caa-Ensures : (rdata : Bytes) → Ensures IsReported Any (read_caa rdata)
unfolding read_caa
read_caa-Ensures rdata = Ensures-check _ _ _ tt λ long.
    let two = leb→le 2 (length rdata) long in
    Ensures-bind _ _ (byte_at-Ensures rdata 1 (omega arith)) λ taglen _.
      Ensures-check _ _ _ tt λ fits.
        let bound = leb→le (2 + taglen) (length rdata) fits in
        Ensures-bind _ _ (byte_at-Ensures rdata 0 (omega arith)) λ flag _.
          Ensures-bind _ _ (slice-Ensures rdata 2 (2 + taglen) (omega arith) bound) λ tag _.
            Ensures-bind _ _ (slice-Ensures rdata (2 + taglen) (length rdata) bound (omega arith))
              λ value _. Ensures-pure tt

-- reading a part and storing it in a field
set_field :
    {A B : Type 0} {Q : A → Type 0} {m : Result Error A} (f : A → B)
    → Ensures IsReported Q m
    → Ensures IsReported Any (m >>= λ a. ok (f a))
set_field {m = m} f h = Ensures-bind m (λ a. ok (f a)) h λ _ _. Ensures-pure tt

set_checked :
    {A : Type 0} (b : Bool) (e : Error) (a : A)
    → IsReported e
    → Ensures IsReported Any (check b e >> ok a)
set_checked b e a h = Ensures-check b e (ok a) h λ _. Ensures-pure tt

module _ (net : Net) (buf : Bytes) where
  read_structured-Ensures :
      (off : ℕ) (rdata : Bytes) (rr : Record)
      → Ensures IsReported Any (read_structured buf off rdata rr)
  unfolding read_structured
  read_structured-Ensures off rdata rr =
      Ensures-cases (rr.rtype == RrType.mx)
        (set_field (λ x. record rr { mx = some x }) (read_mx-Ensures buf off rdata))
        (Ensures-cases (rr.rtype == RrType.txt)
          (set_field (λ x. record rr { txt = x }) (decode_txt-Ensures rdata))
          (Ensures-cases (rr.rtype == RrType.srv)
            (set_field (λ x. record rr { srv = some x }) (read_srv-Ensures buf off rdata))
            (Ensures-cases (rr.rtype == RrType.caa)
              (set_field (λ x. record rr { caa = some x }) (read_caa-Ensures rdata))
              (Ensures-cases (rr.rtype == RrType.soa)
                (set_field (λ x. record rr { soa = some x }) (read_soa-Ensures buf off))
                (Ensures-pure tt)))))

  read_rdata-Ensures :
      (off : ℕ) (rdata : Bytes) (rr : Record)
      → Ensures IsReported Any (read_rdata net buf off rdata rr)
  unfolding read_rdata
  read_rdata-Ensures off rdata rr =
      let name = read_name-Ensures buf off in
      Ensures-cases (rr.rtype == RrType.a)
        (set_checked (length rdata == 4) Error.invalid_a (record rr { a = net.ip_string rdata }) tt)
        (Ensures-cases (rr.rtype == RrType.aaaa)
          (set_checked (length rdata == 16) Error.invalid_aaaa
            (record rr { aaaa = net.ip_string rdata }) tt)
          (Ensures-cases (rr.rtype == RrType.cname)
            (set_field (λ x. record rr { cname = x.0 }) name)
            (Ensures-cases (rr.rtype == RrType.ns) (set_field (λ x. record rr { ns = x.0 }) name) (
              Ensures-cases (rr.rtype == RrType.ptr) (set_field (λ x. record rr { ptr = x.0 }) name)
                (read_structured-Ensures off rdata rr)))))

  read_fixed-Ensures :
      (name : Bytes) (off : ℕ)
      → Ensures IsReported (λ r. (off < r.1) × (r.1 ≤ length buf)) (read_fixed net buf name off)
  unfolding read_fixed
  read_fixed-Ensures name off = Ensures-check _ _ _ tt λ fits.
      let head = leb→le (off + 10) (length buf) fits in
      Ensures-bind _ _ (uint16_at-Ensures buf off (omega arith)) λ rtype _.
        Ensures-bind _ _ (uint32_at-Ensures buf (off + 4) (omega arith)) λ ttl _.
          Ensures-bind _ _ (uint16_at-Ensures buf (off + 8) (omega arith)) λ n _.
            Ensures-check _ _ _ tt λ whole.
              let bound = leb→le (off + 10 + n) (length buf) whole in
              Ensures-bind _ _ (slice-Ensures buf (off + 10) (off + 10 + n) (omega arith) bound)
                λ rdata _.
                  Ensures-bind _ _ (read_rdata-Ensures (off + 10) rdata _)
                    λ rr _. Ensures-pure (omega arith, bound)

  -- `readRecord` on any buffer, from any offset: it ends, does not panic, reports its errors,
  -- and the offset that it returns lies behind the given one and not behind the end of the
  -- buffer.
  pub read_record-Ensures :
      (off : ℕ)
      → Ensures IsReported (λ r. (off < r.1) × (r.1 ≤ length buf)) (read_record net buf off)
  unfolding read_record
  read_record-Ensures off =
      Ensures-bind _ _ (read_name-Ensures buf off)
        λ r b. Ensures-map _ (λ q c. (omega arith, c.1)) (read_fixed-Ensures r.0 r.1)

  -- `readRecords` of `n` records, from an offset that is not behind the end of the buffer: it
  -- ends, does not panic, and reports its errors; its result has `n` records, and an offset that
  -- is at least `n` bytes on and not behind the end.
  pub read_records-Ensures :
      (off n : ℕ)
      → off ≤ length buf
      → Ensures IsReported
          (λ r. (length r.0 ≡ n) × (off + n ≤ r.1) × (r.1 ≤ length buf))
          (read_records net buf off n)
  unfolding read_records
  read_records-Ensures off zero h = Ensures-pure (refl, omega arith, h)
  read_records-Ensures off (suc n) h = Ensures-bind _ _ (read_record-Ensures off) λ r b.
      Ensures-bind _ _ (read_records-Ensures r.1 n b.1)
        λ q c. Ensures-pure (omega arith, omega arith, c.2)
