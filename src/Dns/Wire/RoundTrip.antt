-- ===== src/Dns/Wire/RoundTrip.antt =====
-- What `Marshal` writes, `Unmarshal` reads.
use nett.Prelude.{
  ℕ, suc, ◌+◌, ◌<◌, ◌≡◌, ap, ◌∙◌, true, List, [], ◌∷◌, ◌++◌, arith, leb, ok, ◌>>=◌, length, All,
  >>=-eq-ok, append_assoc, append-nil, length-append,
}
use nett.Text.{Bytes}
use nett.Net.{Net, IsNet}
use nett.Dns.Message.{Question, Record, Message, class_in}
use nett.Dns.Buffer.{At, At-skip, uint16_at-At, put_uint16}
use nett.Dns.Name.{encode_name, read_name}
use nett.Dns.Record.{encode_record, read_record, read_records}
use nett.Dns.Record.Rdata.{IsTrimmed, IsUint16}
use nett.Dns.Record.Parts.{At-self, name_back}
use nett.Dns.Record.RoundTrip.{IsRecord, read_record-encode_record}
use nett.Dns.Wire.{
  flag_word, header, encode_questions, encode_records, marshal, read_question, read_questions,
  read_sections, unmarshal, Counts,
}
use nett.Dns.Wire.Flags.{
  flag_word-IsUint16, response_back, opcode_back, authoritative_back, truncated_back,
  recursion_desired_back, recursion_available_back, rcode_back,
}

pub record IsQuestion (q : Question) : Type 0 where
  pub name : IsTrimmed q.name
  pub qtype : IsUint16 q.qtype

-- A message that can be written and read back: its numbers are in the range of their fields, and
-- its questions and records are as the decoder returns them.
pub record IsMessage (net : Net) (m : Message) : Type 0 where
  pub id : IsUint16 m.id
  pub opcode : m.opcode < 16
  pub rcode : m.rcode < 16
  pub qdcount : IsUint16 (length m.questions)
  pub ancount : IsUint16 (length m.answers)
  pub nscount : IsUint16 (length m.authority)
  pub arcount : IsUint16 (length m.additional)
  pub questions : All IsQuestion m.questions
  pub answers : All (IsRecord net) m.answers
  pub authority : All (IsRecord net) m.authority
  pub additional : All (IsRecord net) m.additional

module _ (buf : Bytes) where
  question_back :
      (off : ℕ) (rest : Bytes) (q : Question)
      → IsUint16 q.qtype
      → At buf off (put_uint16 q.qtype ++ (put_uint16 class_in ++ rest))
      → read_question buf q.name off ≡ ok (q, off + 4)
  unfolding read_question put_uint16
  question_back off rest q t h = ground (arith, h.total, uint16_at-At q.qtype _ t h)

  read_questions-cons :
      (off n : ℕ) {next next' end : ℕ} {name : Bytes} {q : Question} {qs : List Question}
      → read_name buf off ≡ ok (name, next)
      → read_question buf name next ≡ ok (q, next')
      → read_questions buf next' n ≡ ok (qs, end)
      → read_questions buf off (suc n) ≡ ok (q ∷ qs, end)
  unfolding read_questions
  read_questions-cons off n a b c = rw (a, b, c)

  read_records-cons :
      (net : Net) (off n : ℕ) {next end : ℕ} {rr : Record} {rrs : List Record}
      → read_record net buf off ≡ ok (rr, next)
      → read_records net buf next n ≡ ok (rrs, end)
      → read_records net buf off (suc n) ≡ ok (rr ∷ rrs, end)
  unfolding read_records
  read_records-cons net off n a b = rw (a, b)

  questions_back :
      (qs : List Question) (off : ℕ) (rest : Bytes) {enc : Bytes}
      → All IsQuestion qs
      → encode_questions qs ≡ ok enc
      → At buf off (enc ++ rest)
      → read_questions buf off (length qs) ≡ ok (qs, off + length enc)
  questions_back [] off rest {enc} v e h =
      let q : [] ≡ enc = unfold encode_questions in cc in
      let len : off ≡ off + length enc = rw (← q) (omega arith) in
      unfold read_questions in ap (λ o. ok ([], o)) len
  questions_back (q ∷ qs) off rest {enc} v e h =
      let e0 : (do
        name ← encode_name q.name
        r ← encode_questions qs
        ok (name ++ (put_uint16 q.qtype ++ (put_uint16 class_in ++ r))))
          ≡ ok enc =
        unfold encode_questions in e in
      let (name, en, e1) =
        >>=-eq-ok (encode_name q.name)
          (λ x. (do
            r ← encode_questions qs
            ok (x ++ (put_uint16 q.qtype ++ (put_uint16 class_in ++ r)))))
          e0 in
      let (r, er, e2) =
        >>=-eq-ok (encode_questions qs)
          (λ x. ok (name ++ (put_uint16 q.qtype ++ (put_uint16 class_in ++ x)))) e1 in
      let fixed = put_uint16 q.qtype ++ put_uint16 class_in in
      let p : name ++ (put_uint16 q.qtype ++ (put_uint16 class_in ++ r)) ≡ enc = cc in
      let h0 : At buf off (name ++ (put_uint16 q.qtype ++ (put_uint16 class_in ++ (r ++ rest)))) =
        unfold put_uint16 in rw append_assoc at (rw (← p) at h) in
      let at1 = At-skip name h0 in
      let at2 : At buf (off + length name + 4) (r ++ rest) =
        unfold put_uint16 in At-skip fixed at1 in
      let len : off + length name + 4 + length r ≡ off + length enc =
        unfold put_uint16 in rw (← p) (omega (arith, length-append name (fixed ++ r))) in
      read_questions-cons off (length qs) (name_back buf off _ q.name v.0.name en h0)
        (question_back (off + length name) (r ++ rest) q v.0.qtype at1)
        (questions_back qs (off + length name + 4) rest v.1 er at2)
      ∙ ap (λ o. ok (q ∷ qs, o)) len

  records_back :
      (net : Net)
      → IsNet net
      → (rrs : List Record) (off : ℕ) (rest : Bytes) {enc : Bytes} → All (IsRecord net) rrs
      → encode_records net rrs ≡ ok enc
      → At buf off (enc ++ rest)
      → read_records net buf off (length rrs) ≡ ok (rrs, off + length enc)
  records_back net laws [] off rest {enc} v e h =
      let q : [] ≡ enc = unfold encode_records in cc in
      let len : off ≡ off + length enc = rw (← q) (omega arith) in
      unfold read_records in ap (λ o. ok ([], o)) len
  records_back net laws (rr ∷ rrs) off rest {enc} v e h =
      let e0 : (do b ← encode_record net rr; r ← encode_records net rrs; ok (b ++ r)) ≡ ok enc =
        unfold encode_records in e in
      let (b, eb, e1) =
        >>=-eq-ok (encode_record net rr) (λ x. (do r ← encode_records net rrs; ok (x ++ r))) e0 in
      let (r, er, e2) = >>=-eq-ok (encode_records net rrs) (λ x. ok (b ++ x)) e1 in
      let p : b ++ r ≡ enc = cc in
      let h0 : At buf off (b ++ (r ++ rest)) = rw append_assoc at (rw (← p) at h) in
      let len : off + length b + length r ≡ off + length enc =
        rw (← p) (omega (arith, length-append b r)) in
      read_records-cons net off (length rrs)
        (read_record-encode_record net laws buf off (r ++ rest) rr v.0 eb h0)
        (records_back net laws rrs (off + length b) rest v.1 er (At-skip b h0))
      ∙ ap (λ o. ok (rr ∷ rrs, o)) len

module _ (net : Net) (laws : IsNet net) (m : Message) (v : IsMessage net m) where
  counts : Counts
  counts = record {
    qdcount = length m.questions;
    ancount = length m.answers;
    nscount = length m.authority;
    arcount = length m.additional;
  }

  sections_back :
      (buf rest q a u d : Bytes)
      → encode_questions m.questions ≡ ok q
      → encode_records net m.answers ≡ ok a
      → encode_records net m.authority ≡ ok u
      → encode_records net m.additional ≡ ok d
      → At buf 12 (q ++ (a ++ (u ++ (d ++ rest))))
      → read_sections net buf m.id (flag_word m) counts ≡ ok m
  unfolding read_sections counts
  sections_back buf rest q a u d eq ea eu ed h =
      let at1 = At-skip q h in
      let at2 = At-skip a at1 in
      rw (
        questions_back buf m.questions 12 _ v.questions eq h,
        records_back buf net laws m.answers (12 + length q) _ v.answers ea at1,
        records_back buf net laws m.authority (12 + length q + length a) _ v.authority eu at2,
        records_back buf net laws m.additional _ rest v.additional ed (At-skip u at2),
        response_back m v.opcode v.rcode,
        opcode_back m v.opcode v.rcode,
        authoritative_back m v.opcode v.rcode,
        truncated_back m v.opcode v.rcode,
        recursion_desired_back m v.opcode v.rcode,
        recursion_available_back m v.opcode v.rcode,
        rcode_back m v.opcode v.rcode,
      )

  header_back :
      (buf rest : Bytes)
      → At buf 0 (header m ++ rest)
      → unmarshal net buf ≡ read_sections net buf m.id (flag_word m) counts
  unfolding header unmarshal put_uint16 counts
  header_back buf rest h =
      let long : leb 12 (length buf) ≡ true = ground (arith, h.total) in
      let w = flag_word m in
      let nq = length m.questions in
      let na = length m.answers in
      let nu = length m.authority in
      let nd = length m.additional in
      let at2 = At-skip (put_uint16 m.id) h in
      let at4 = At-skip (put_uint16 w) at2 in
      let at6 = At-skip (put_uint16 nq) at4 in
      let at8 = At-skip (put_uint16 na) at6 in
      let at10 = At-skip (put_uint16 nu) at8 in
      rw (
        long,
        uint16_at-At m.id _ v.id h,
        uint16_at-At w _ (flag_word-IsUint16 m v.opcode v.rcode) at2,
        uint16_at-At nq _ v.qdcount at4,
        uint16_at-At na _ v.ancount at6,
        uint16_at-At nu _ v.nscount at8,
        uint16_at-At nd rest v.arcount at10,
      )

  whole_back :
      (q a u d : Bytes)
      → encode_questions m.questions ≡ ok q
      → encode_records net m.answers ≡ ok a
      → encode_records net m.authority ≡ ok u
      → encode_records net m.additional ≡ ok d
      → unmarshal net (header m ++ (q ++ (a ++ (u ++ d)))) ≡ ok m
  whole_back q a u d eq ea eu ed =
      let buf = header m ++ (q ++ (a ++ (u ++ d))) in
      let h = At-self buf in
      let at12 : At buf 12 (q ++ (a ++ (u ++ (d ++ [])))) =
        unfold header put_uint16 in rw append-nil (At-skip (header m) h) in
      header_back buf (q ++ (a ++ (u ++ d))) h ∙ sections_back buf [] q a u d eq ea eu ed at12

  -- A message that `Marshal` writes is read back by `Unmarshal`, equal in every field: any message
  -- whose numbers fit their fields, with fewer than 65536 entries in each section, whose names end
  -- in no dot, and whose records are as the decoder returns them.
  pub unmarshal-marshal : {buf : Bytes} → marshal net m ≡ ok buf → unmarshal net buf ≡ ok m
  unfolding marshal
  unmarshal-marshal {buf} e =
      let tail = λ (x y z w : Bytes). header m ++ (x ++ (y ++ (z ++ w))) in
      let (q, eq, e1) =
        >>=-eq-ok (encode_questions m.questions)
          (λ x. (do
            y ← encode_records net m.answers
            z ← encode_records net m.authority
            w ← encode_records net m.additional
            ok (tail x y z w)))
          e in
      let (a, ea, e2) =
        >>=-eq-ok (encode_records net m.answers)
          (λ y. (do
            z ← encode_records net m.authority
            w ← encode_records net m.additional
            ok (tail q y z w)))
          e1 in
      let (u, eu, e3) =
        >>=-eq-ok (encode_records net m.authority)
          (λ z. (do w ← encode_records net m.additional; ok (tail q a z w))) e2 in
      let (d, ed, e4) = >>=-eq-ok (encode_records net m.additional) (λ w. ok (tail q a u w)) e3 in
      let p : header m ++ (q ++ (a ++ (u ++ d))) ≡ buf = cc in
      rw (← p) (whole_back q a u d eq ea eu ed)
