-- ===== src/Dns/Record/RoundTrip.antt =====
-- What `encodeRecord` writes, `readRecord` reads: for each record that the decoder can return.
use nett.Prelude.{
  ℕ, ◌+◌, ◌<◌, ◌≡◌, refl, subst, ap, ◌∙◌, ◌++◌, arith, ok, ◌>>=◌, length, >>=-eq-ok, append_assoc,
  length-append,
}
use nett.Text.{Bytes}
use nett.Net.{Net, IsNet}
use nett.Dns.Message.{Record, blank, class_in}
use nett.Dns.Buffer.{At, At-skip, slice-At, uint16_at-At, uint32_at-At, put_uint16, put_uint32}
use nett.Dns.Name.{encode_name}
use nett.Dns.Record.{
  encode_rdata, fixed_part, encode_record, read_rdata, read_structured, read_fixed, read_record,
}
use nett.Dns.Record.Rdata.{Rdata, to_record, InRange, IsTrimmed, IsUint16, IsUint32}
use nett.Dns.Record.Parts.{name_back, mx_back, srv_back, soa_back, caa_back, txt_back}

module _ (net : Net) (laws : IsNet net) (buf : Bytes) (off : ℕ) (rest : Bytes) (owner : Bytes)
    (ttl : ℕ) where
  rdata_back :
      (d : Rdata) {r : Bytes}
      → InRange d
      → encode_rdata net (to_record net owner ttl d) ≡ ok r
      → At buf off (r ++ rest)
      → read_rdata net buf off r (blank owner (to_record net owner ttl d).rtype ttl)
        ≡ ok (to_record net owner ttl d)
  unfolding encode_rdata read_rdata read_structured
  rdata_back (Rdata.a ip) (n, b) e h = ground (arith, laws.reads_v4 ip n b)
  rdata_back (Rdata.aaaa ip) (n, b) e h = ground (arith, laws.reads_v6 ip n b)
  rdata_back (Rdata.cname n) t e h = rw (name_back buf off rest n t e h)
  rdata_back (Rdata.ns n) t e h = rw (name_back buf off rest n t e h)
  rdata_back (Rdata.ptr n) t e h = rw (name_back buf off rest n t e h)
  rdata_back (Rdata.mx m) (p, t) e h = rw (mx_back buf off rest m p t e h)
  rdata_back (Rdata.txt ss) t e h = rw (txt_back ss e)
  rdata_back (Rdata.srv s) range e h = rw (srv_back buf off rest s range e h)
  rdata_back (Rdata.caa c) short e h = rw (caa_back c short e)
  rdata_back (Rdata.soa s) range e h = rw (soa_back buf off rest s range e h)

-- the data written for a record fit in the length field
abbrev pub RdataFits : Net → Record → Type 0
RdataFits net rr = (r : Bytes) → encode_rdata net rr ≡ ok r → length r < 65536

-- A record as the decoder returns it, whose data can be written again.
pub record IsRecord (net : Net) (rr : Record) : Type 0 where
  pub rdata : Rdata
  pub filled : to_record net rr.name rr.ttl rdata ≡ rr
  pub owner : IsTrimmed rr.name
  pub ttl_range : IsUint32 rr.ttl
  pub range : InRange rdata
  pub fits : RdataFits net rr

IsUint16-rtype :
    (net : Net) (name : Bytes) (ttl : ℕ) (d : Rdata) → IsUint16 (to_record net name ttl d).rtype
IsUint16-rtype net name ttl (Rdata.a ip) = omega arith
IsUint16-rtype net name ttl _ = omega arith

length-fixed_part : (rr : Record) (r : Bytes) → length (fixed_part rr r) ≡ 10 + length r
unfolding fixed_part put_uint32 put_uint16
length-fixed_part rr r = omega arith

data-At :
    {buf : Bytes} {off : ℕ} (rest : Bytes) (rr : Record) (r : Bytes)
    → At buf off (fixed_part rr r ++ rest)
    → At buf (off + 10) (r ++ rest)
unfolding fixed_part put_uint32 put_uint16
data-At rest rr r h =
    At-skip
      (put_uint16 rr.rtype ++ (put_uint16 class_in ++ (put_uint32 rr.ttl ++ put_uint16 (length r))))
      h

module _ (net : Net) (buf : Bytes) (off : ℕ) (rest : Bytes) (rr : Record) where
  -- what follows the owner name is read back, if the data are
  fixed_back :
      (r : Bytes)
      → IsUint16 rr.rtype
      → IsUint32 rr.ttl
      → IsUint16 (length r)
      → At buf off (fixed_part rr r ++ rest)
      → read_rdata net buf (off + 10) r (blank rr.name rr.rtype rr.ttl) ≡ ok rr
      → read_fixed net buf rr.name off ≡ ok (rr, off + 10 + length r)
  unfolding fixed_part read_fixed put_uint32 put_uint16
  fixed_back r t l n h back =
      let at4 = At-skip (put_uint16 rr.rtype ++ put_uint16 class_in) h in
      let at8 = At-skip (put_uint16 rr.rtype ++ (put_uint16 class_in ++ put_uint32 rr.ttl)) h in
      ground (
        arith,
        h.total,
        length-append r rest,
        uint16_at-At rr.rtype _ t h,
        uint32_at-At rr.ttl _ l at4,
        uint16_at-At (length r) (r ++ rest) n at8,
        slice-At r rest {end = off + 10 + length r} (data-At rest rr r h) refl,
        back,
      )

module _ (net : Net) (laws : IsNet net) (buf : Bytes) (off : ℕ) (rest : Bytes) where
  rdata_back_of :
      (rr : Record) {r : Bytes}
      → IsRecord net rr
      → encode_rdata net rr ≡ ok r
      → At buf off (r ++ rest)
      → read_rdata net buf off r (blank rr.name rr.rtype rr.ttl) ≡ ok rr
  rdata_back_of rr {r} v e h =
      subst
        (λ x.
          encode_rdata net x ≡ ok r
          → read_rdata net buf off r (blank rr.name x.rtype rr.ttl) ≡ ok x)
        v.filled (λ e'. rdata_back net laws buf off rest rr.name rr.ttl v.rdata v.range e' h) e

module _ (net : Net) (laws : IsNet net) (buf : Bytes) (off : ℕ) (rest : Bytes) where
  -- Where a buffer holds what `encodeRecord` wrote for a record, at any place and whatever follows,
  -- `readRecord` returns the record and the offset just behind it. The record is one that the
  -- decoder can return: the field of its type is filled and the others are zero, its numbers are in
  -- the range of their Go types, its names end in no dot, its CAA tag is shorter than 256 bytes, and
  -- its data are shorter than 65536 bytes.
  pub read_record-encode_record :
      (rr : Record) {enc : Bytes}
      → IsRecord net rr
      → encode_record net rr ≡ ok enc
      → At buf off (enc ++ rest)
      → read_record net buf off ≡ ok (rr, off + length enc)
  unfolding encode_record read_record
  read_record-encode_record rr {enc} v e h =
      let (name, en, e1) =
        >>=-eq-ok (encode_name rr.name)
          (λ x. (do rdata ← encode_rdata net rr; ok (x ++ fixed_part rr rdata))) e in
      let (r, er, e2) = >>=-eq-ok (encode_rdata net rr) (λ x. ok (name ++ fixed_part rr x)) e1 in
      let q : name ++ fixed_part rr r ≡ enc = cc in
      let h0 : At buf off (name ++ (fixed_part rr r ++ rest)) =
        rw append_assoc at (rw (← q) at h) in
      let at1 = At-skip name h0 in
      let len : off + length name + 10 + length r ≡ off + length enc =
        rw (← q) (omega (arith, length-append name (fixed_part rr r), length-fixed_part rr r)) in
      let t = subst (λ x. IsUint16 x.rtype) v.filled (IsUint16-rtype net rr.name rr.ttl v.rdata) in
      rw (name_back buf off (fixed_part rr r ++ rest) rr.name v.owner en h0) (
        fixed_back net buf (off + length name) rest rr r t v.ttl_range (v.fits r er) at1
          (rdata_back_of net laws buf (off + length name + 10) rest rr v er (data-At rest rr r at1))
        ∙ ap (λ o. ok (rr, o)) len)
