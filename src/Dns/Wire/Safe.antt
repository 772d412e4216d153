-- ===== src/Dns/Wire/Safe.antt =====
-- `Unmarshal` ends and does not panic on any bytes, and what it accepts holds as many records as
-- the header says, each of a byte at least.
use nett.Prelude.{
  ℕ, zero, suc, ◌+◌, ◌≤◌, ◌<◌, ◌≡◌, refl, arith, length, leb→le, Ensures, Ensures-bind,
  Ensures-check, Ensures-map, Ensures-pure,
}
use nett.Text.{Bytes}
use nett.Net.{Net}
use nett.Dns.Message.{Message}
use nett.Dns.Buffer.{IsReported, uint16_at-Ensures}
use nett.Dns.Name.Safe.{read_name-Ensures}
use nett.Dns.Record.Safe.{read_records-Ensures}
use nett.Dns.Wire.{read_question, read_questions, read_sections, unmarshal, Counts}

-- the number of entries in the four sections
abbrev pub entries : Message → ℕ
entries m = length m.questions + length m.answers + length m.authority + length m.additional

module _ (buf : Bytes) where
  read_question-Ensures :
      (name : Bytes) (off : ℕ)
      → Ensures IsReported (λ r. (off < r.1) × (r.1 ≤ length buf)) (read_question buf name off)
  unfolding read_question
  read_question-Ensures name off = Ensures-check _ _ _ tt λ fits.
      let bound = leb→le (off + 4) (length buf) fits in
      Ensures-bind _ _ (uint16_at-Ensures buf off (omega arith))
        λ t _. Ensures-pure (omega arith, bound)

  read_questions-Ensures :
      (off n : ℕ)
      → off ≤ length buf
      → Ensures IsReported
          (λ r. (length r.0 ≡ n) × (off + n ≤ r.1) × (r.1 ≤ length buf))
          (read_questions buf off n)
  unfolding read_questions
  read_questions-Ensures off zero h = Ensures-pure (refl, omega arith, h)
  read_questions-Ensures off (suc n) h = Ensures-bind _ _ (read_name-Ensures buf off) λ r b.
      Ensures-bind _ _ (read_question-Ensures r.0 r.1) λ q c.
        Ensures-bind _ _ (read_questions-Ensures q.1 n c.1)
          λ t d. Ensures-pure (omega arith, omega arith, d.2)

module _ (net : Net) (buf : Bytes) (long : 12 ≤ length buf) where
  read_sections-Ensures :
      (id flags : ℕ) (c : Counts)
      → Ensures IsReported
          (λ m.
            (length m.questions ≡ c.qdcount)
            × (length m.answers ≡ c.ancount)
            × (length m.authority ≡ c.nscount)
            × (length m.additional ≡ c.arcount)
            × (12 + entries m ≤ length buf))
          (read_sections net buf id flags c)
  unfolding read_sections
  read_sections-Ensures id flags c =
      Ensures-bind _ _ (read_questions-Ensures buf 12 c.qdcount long) λ q a.
        Ensures-bind _ _ (read_records-Ensures net buf q.1 c.ancount a.2) λ r b.
          Ensures-bind _ _ (read_records-Ensures net buf r.1 c.nscount b.2) λ s d.
            Ensures-bind _ _ (read_records-Ensures net buf s.1 c.arcount d.2)
              λ t e. Ensures-pure (a.0, b.0, d.0, e.0, omega arith)

-- `Unmarshal` on any bytes whatever: it ends, it indexes no slice out of range, an error that it
-- returns is one that it reports, and a message that it returns has at most one entry for each byte
-- behind the header.
pub unmarshal-Ensures :
    (net : Net) (buf : Bytes)
    → Ensures IsReported (λ m. 12 + entries m ≤ length buf) (unmarshal net buf)
unfolding unmarshal
unmarshal-Ensures net buf = Ensures-check _ _ _ tt λ fits.
    let long = leb→le 12 (length buf) fits in
    Ensures-bind _ _ (uint16_at-Ensures buf 0 (omega arith)) λ id _.
      Ensures-bind _ _ (uint16_at-Ensures buf 2 (omega arith)) λ flags _.
        Ensures-bind _ _ (uint16_at-Ensures buf 4 (omega arith)) λ qd _.
          Ensures-bind _ _ (uint16_at-Ensures buf 6 (omega arith)) λ an _.
            Ensures-bind _ _ (uint16_at-Ensures buf 8 (omega arith)) λ ns _.
              Ensures-bind _ _ (uint16_at-Ensures buf 10 (omega arith))
                λ ar _. Ensures-map _ (λ m h. h.4) (read_sections-Ensures net buf long id flags _)
