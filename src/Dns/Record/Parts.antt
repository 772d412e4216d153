-- ===== src/Dns/Record/Parts.antt =====
-- The parts of the data: what each case of the encoder writes, its case of the decoder reads.
use nett.Prelude.{
  ℕ, zero, suc, ◌+◌, ◌<◌, ◌≡◌, refl, ap, ◌∙◌, some, List, [], ◌∷◌, ◌++◌, arith, leb, ok, ◌>>=◌,
  length, leb→le, >>=-eq-ok, check-eq-ok, append_assoc, append-nil, length-append,
}
use nett.Text.{Bytes}
use nett.Dns.Message.{Mx, Srv, Caa, Soa}
use nett.Dns.Buffer.{
  Error, At, At-skip, At-add_one, slice-At, byte_at-At, uint16_at-At, uint32_at-At, put_uint16,
  put_uint32, to_byte,
}
use nett.Dns.Name.{encode_name, read_name}
use nett.Dns.Name.RoundTrip.{read_name-encode_name}
use nett.Dns.Record.{
  encode_mx, encode_txt, encode_srv, encode_caa, encode_soa, soa_numbers, decode_txt_loop,
  decode_txt, read_mx, read_srv, read_caa, read_soa, read_soa_numbers,
}
use nett.Dns.Record.Rdata.{Rdata, InRange, IsTrimmed, IsUint16}

pub At-self : (xs : Bytes) → At xs 0 xs
At-self xs = record { tail = refl; total = omega arith }

module _ (buf : Bytes) (off : ℕ) (rest : Bytes) where
  -- a name that was written is read back whole
  pub name_back :
      (n : Bytes) {enc : Bytes}
      → IsTrimmed n
      → encode_name n ≡ ok enc
      → At buf off (enc ++ rest)
      → read_name buf off ≡ ok (n, off + length enc)
  name_back n {enc} t e h =
      read_name-encode_name buf off rest n e h ∙ ap (λ m. ok (m, off + length enc)) t

module _ (buf : Bytes) (off : ℕ) (rest : Bytes) where
  pub mx_back :
      (m : Mx) {r : Bytes}
      → IsUint16 m.preference
      → IsTrimmed m.exchange
      → encode_mx (some m) ≡ ok r
      → At buf off (r ++ rest)
      → read_mx buf off r ≡ ok m
  unfolding encode_mx read_mx put_uint16
  mx_back m {r} p t e h =
      let (exch, ex, er) =
        >>=-eq-ok (encode_name m.exchange) (λ x. ok (put_uint16 m.preference ++ x)) e in
      let q : put_uint16 m.preference ++ exch ≡ r = cc in
      let h' : At buf off ((put_uint16 m.preference ++ exch) ++ rest) = rw (← q) at h in
      let at2 = At-skip (put_uint16 m.preference) h' in
      ground (
        arith,
        q,
        uint16_at-At m.preference exch p (At-self (put_uint16 m.preference ++ exch)),
        name_back buf (off + 2) rest m.exchange t ex at2,
      )

  pub srv_back :
      (s : Srv) {r : Bytes}
      → InRange (Rdata.srv s)
      → encode_srv (some s) ≡ ok r
      → At buf off (r ++ rest)
      → read_srv buf off r ≡ ok s
  unfolding encode_srv read_srv put_uint16
  srv_back s {r} (p, w, o, t) e h =
      let whole =
        λ (x : Bytes). put_uint16 s.priority ++ (put_uint16 s.weight ++ (put_uint16 s.port ++ x)) in
      let (target, et, er) = >>=-eq-ok (encode_name s.target) (λ x. ok (whole x)) e in
      let q : whole target ≡ r = cc in
      let h' : At buf off (whole target ++ rest) = rw (← q) at h in
      let numbers = put_uint16 s.priority ++ (put_uint16 s.weight ++ put_uint16 s.port) in
      let at0 = At-self (whole target) in
      let at2 = At-skip (put_uint16 s.priority) at0 in
      let at4 = At-skip (put_uint16 s.priority ++ put_uint16 s.weight) at0 in
      ground (
        arith,
        q,
        uint16_at-At s.priority _ p at0,
        uint16_at-At s.weight (put_uint16 s.port ++ target) w at2,
        uint16_at-At s.port target o at4,
        name_back buf (off + 6) rest s.target t et (At-skip numbers h'),
      )

  soa_numbers_back :
      (s : Soa)
      → InRange (Rdata.soa s)
      → At buf off (soa_numbers s ++ rest)
      → read_soa_numbers buf s.mname s.rname off ≡ ok s
  unfolding soa_numbers read_soa_numbers put_uint32 put_uint16
  soa_numbers_back s (_, _, serial, refresh, retry, expire, minimum) h =
      let at4 = At-skip (put_uint32 s.serial) h in
      let at8 = At-skip (put_uint32 s.serial ++ put_uint32 s.refresh) h in
      let at12 = At-skip (put_uint32 s.serial ++ (put_uint32 s.refresh ++ put_uint32 s.retry)) h in
      let at16 =
        At-skip
          (put_uint32 s.serial
            ++ (put_uint32 s.refresh ++ (put_uint32 s.retry ++ put_uint32 s.expire)))
          h in
      ground (
        arith,
        h.total,
        uint32_at-At s.serial _ serial h,
        uint32_at-At s.refresh _ refresh at4,
        uint32_at-At s.retry _ retry at8,
        uint32_at-At s.expire _ expire at12,
        uint32_at-At s.minimum rest minimum at16,
      )

module _ (buf : Bytes) (off : ℕ) (rest : Bytes) where
  pub soa_back :
      (s : Soa) {r : Bytes}
      → InRange (Rdata.soa s)
      → encode_soa (some s) ≡ ok r
      → At buf off (r ++ rest)
      → read_soa buf off ≡ ok s
  unfolding encode_soa read_soa
  soa_back s {r} range e h =
      let rest_of =
        λ (x : Bytes). (do rname ← encode_name s.rname; ok (x ++ (rname ++ soa_numbers s))) in
      let (mname, em, e1) = >>=-eq-ok (encode_name s.mname) rest_of e in
      let (rname, en, e2) =
        >>=-eq-ok (encode_name s.rname) (λ y. ok (mname ++ (y ++ soa_numbers s))) e1 in
      let q : mname ++ (rname ++ soa_numbers s) ≡ r = cc in
      let h0 : At buf off (mname ++ (rname ++ (soa_numbers s ++ rest))) =
        rw (append_assoc, append_assoc) at (rw (← q) at h) in
      let at1 = At-skip mname h0 in
      ground (
        arith,
        name_back buf off (rname ++ (soa_numbers s ++ rest)) s.mname range.0 em h0,
        name_back buf (off + length mname) (soa_numbers s ++ rest) s.rname range.1 en at1,
        soa_numbers_back buf (off + length mname + length rname) rest s range (At-skip rname at1),
      )

module _ (c : Caa) where
  pub caa_back : {r : Bytes} → length c.tag < 256 → encode_caa (some c) ≡ ok r → read_caa r ≡ ok c
  unfolding encode_caa read_caa
  caa_back {r} short e =
      let b = to_byte (length c.tag) in
      let q : c.flag ∷ b ∷ (c.tag ++ c.value) ≡ r = cc in
      let at0 = At-self (c.flag ∷ b ∷ (c.tag ++ c.value)) in
      let at1 = At-add_one at0 in
      let at2 = At-skip (c.flag ∷ b ∷ []) at0 in
      let at3 : At (c.flag ∷ b ∷ (c.tag ++ c.value)) (2 + length c.tag) (c.value ++ []) =
        rw append-nil (At-skip c.tag at2) in
      ground (
        arith,
        q,
        byte_at-At at0,
        byte_at-At at1,
        length-append c.tag c.value,
        slice-At c.tag c.value {end = 2 + length c.tag} at2 refl,
        slice-At c.value [] {end = 2 + length c.tag + length c.value} at3 refl,
      )

decode_txt_loop-encode :
    (ss : List Bytes) (rdata : Bytes) (fuel i : ℕ) (out : List Bytes) {r : Bytes}
    → encode_txt ss ≡ ok r
    → At rdata i r
    → length r < fuel
    → decode_txt_loop fuel rdata i out ≡ ok (out ++ ss)
unfolding encode_txt decode_txt_loop
decode_txt_loop-encode ss rdata zero i out e h f = absurd (omega arith)
decode_txt_loop-encode [] rdata (suc fuel) i out {r} e h f =
    let q : [] ≡ r = cc in
    let n : length r ≡ 0 = rw (← q) in ground (arith, n, h.total, append-nil out)
decode_txt_loop-encode (s ∷ ss) rdata (suc fuel) i out {r} e h f =
    let (short, e1) =
      check-eq-ok (leb (length s) 255) Error.txt_too_long
        (do rest ← encode_txt ss; ok (to_byte (length s) ∷ (s ++ rest))) e in
    let (rest, er, e2) = >>=-eq-ok (encode_txt ss) (λ x. ok (to_byte (length s) ∷ (s ++ x))) e1 in
    let q : to_byte (length s) ∷ (s ++ rest) ≡ r = cc in
    let at0 : At rdata i (to_byte (length s) ∷ (s ++ rest)) = rw (← q) at h in
    let at1 = At-add_one at0 in
    let small = leb→le (length s) 255 short in
    let n : length r ≡ suc (length s + length rest) =
      rw (← q) (omega (arith, length-append s rest)) in
    ground (
      arith,
      h.total,
      n,
      byte_at-At at0,
      slice-At s rest {end = i + 1 + length s} at1 refl,
      decode_txt_loop-encode ss rdata fuel (i + 1 + length s) (out ++ s ∷ []) er (At-skip s at1)
          (omega arith),
      append_assoc out (s ∷ []) ss,
    )

pub txt_back : (ss : List Bytes) {r : Bytes} → encode_txt ss ≡ ok r → decode_txt r ≡ ok ss
unfolding decode_txt
txt_back ss {r} e = decode_txt_loop-encode ss r (length r + 1) 0 [] e (At-self r) (omega arith)
