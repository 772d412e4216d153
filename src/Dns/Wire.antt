-- ===== src/Dns/Wire.antt =====
-- internal/dns/wire.go: `Marshal` and `Unmarshal`.
pub mod Safe
pub mod Flags
pub mod RoundTrip
use nett.Prelude.{
  ℕ, zero, suc, ◌+◌, ◌*◌, ◌/◌, ◌%◌, ◌^◌, Bool, not, List, [], ◌∷◌, ◌++◌, leb, ◌==◌, if◌then◌else◌,
  Result, ok, ◌>>=◌, ◌>>◌, check, length,
}
use nett.Text.{Bytes}
use nett.Net.{Net}
use nett.Dns.Message.{Question, Record, Message, class_in}
use nett.Dns.Buffer.{Error, uint16_at, put_uint16}
use nett.Dns.Name.{encode_name, read_name}
use nett.Dns.Record.{encode_record, read_records}

-- a bit of the flag word
abbrev pub flag : Bool → ℕ → ℕ
flag b k = if b then 2 ^ k else 0

-- the flag word; its fields do not overlap, so that each `|=` is a sum
unfoldable pub flag_word : Message → ℕ
flag_word m =
    flag m.response 15
    + m.opcode % 16 * 2 ^ 11
    + flag m.authoritative 10
    + flag m.truncated 9
    + flag m.recursion_desired 8
    + flag m.recursion_available 7
    + m.rcode % 16

-- the 12 bytes of the header; `PutUint16` of a length is that of its last 16 bits
unfoldable pub header : Message → Bytes
header m =
    put_uint16 m.id
    ++ (put_uint16 (flag_word m)
        ++ (put_uint16 (length m.questions)
            ++ (put_uint16 (length m.answers)
                ++ (put_uint16 (length m.authority) ++ put_uint16 (length m.additional)))))

-- the loop over the questions
unfoldable pub encode_questions : List Question → Result Error Bytes
encode_questions [] = ok []
encode_questions (q ∷ qs) = do
  name ← encode_name q.name
  rest ← encode_questions qs
  ok (name ++ (put_uint16 q.qtype ++ (put_uint16 class_in ++ rest)))

-- the loop over the records of a section
unfoldable pub encode_records : Net → List Record → Result Error Bytes
encode_records net [] = ok []
encode_records net (rr ∷ rrs) = do
  b ← encode_record net rr
  rest ← encode_records net rrs
  ok (b ++ rest)

-- Message.Marshal
unfoldable pub marshal : Net → Message → Result Error Bytes
marshal net m = do
  questions ← encode_questions m.questions
  answers ← encode_records net m.answers
  authority ← encode_records net m.authority
  additional ← encode_records net m.additional
  ok (header m ++ (questions ++ (answers ++ (authority ++ additional))))

-- flags & (1 << k) != 0
abbrev pub has_flag : ℕ → ℕ → Bool
has_flag flags k = not (flags / 2 ^ k % 2 == 0)

-- one question behind its name
unfoldable pub read_question : Bytes → Bytes → ℕ → Result Error (Question × ℕ)
read_question buf name off = do
  check (leb (off + 4) (length buf)) Error.truncated_question
  qtype ← uint16_at buf off
  ok (record { name = name; qtype = qtype }, off + 4)

-- the loop over the questions
unfoldable pub read_questions : Bytes → ℕ → ℕ → Result Error (List Question × ℕ)
read_questions buf off zero = ok ([], off)
read_questions buf off (suc n) = do
  (name, next) ← read_name buf off
  (q, next') ← read_question buf name next
  (rest, end) ← read_questions buf next' n
  ok (q ∷ rest, end)

-- the four counts of the header
pub record Counts : Type 0 where
  pub qdcount : ℕ
  pub ancount : ℕ
  pub nscount : ℕ
  pub arcount : ℕ

-- `Unmarshal` behind the header
unfoldable pub read_sections : Net → Bytes → ℕ → ℕ → Counts → Result Error Message
read_sections net buf id flags c = do
  (questions, off) ← read_questions buf 12 c.qdcount
  (answers, off1) ← read_records net buf off c.ancount
  (authority, off2) ← read_records net buf off1 c.nscount
  (additional, _) ← read_records net buf off2 c.arcount
  ok (record {
    id = id;
    response = has_flag flags 15;
    opcode = flags / 2 ^ 11 % 16;
    authoritative = has_flag flags 10;
    truncated = has_flag flags 9;
    recursion_desired = has_flag flags 8;
    recursion_available = has_flag flags 7;
    rcode = flags % 16;
    questions = questions;
    answers = answers;
    authority = authority;
    additional = additional;
  })

-- Unmarshal
unfoldable pub unmarshal : Net → Bytes → Result Error Message
unmarshal net buf = do
  check (leb 12 (length buf)) Error.message_too_short
  id ← uint16_at buf 0
  flags ← uint16_at buf 2
  qdcount ← uint16_at buf 4
  ancount ← uint16_at buf 6
  nscount ← uint16_at buf 8
  arcount ← uint16_at buf 10
  read_sections net buf id flags
      (record { qdcount = qdcount; ancount = ancount; nscount = nscount; arcount = arcount })
