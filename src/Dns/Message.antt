-- ===== src/Dns/Message.antt =====
-- internal/dns/message.go: record types, response codes and the message.
-- A `uint16` or `uint32` field is a number with its range in the predicates that need it.
use nett.Prelude.{ℕ, Bool, true, false, Option, none, List, [], ◌∷◌, ◌++◌, ◌==◌, if◌then◌else◌}
use nett.Dns.RrType
use nett.Dns.Rcode
use nett.Text.{Bytes, codes, trim_suffix}
use nett.Text.Decimal.{format}

-- RRType.String
unfoldable pub rr_type_string : ℕ → Bytes
rr_type_string t =
    if t == RrType.a
    then codes "A"
    else if t == RrType.ns
    then codes "NS"
    else if t == RrType.cname
    then codes "CNAME"
    else if t == RrType.soa
    then codes "SOA"
    else if t == RrType.ptr
    then codes "PTR"
    else if t == RrType.mx
    then codes "MX"
    else if t == RrType.txt
    then codes "TXT"
    else if t == RrType.aaaa
    then codes "AAAA"
    else if t == RrType.srv
    then codes "SRV"
    else if t == RrType.caa
    then codes "CAA"
    else codes "TYPE" ++ format t

-- classIN
abbrev pub class_in : ℕ
class_in = 1

-- Rcode.String
unfoldable pub rcode_string : ℕ → Bytes
rcode_string r =
    if r == Rcode.success
    then codes "NOERROR"
    else if r == Rcode.format_error
    then codes "FORMERR"
    else if r == Rcode.server_failure
    then codes "SERVFAIL"
    else if r == Rcode.name_error
    then codes "NXDOMAIN"
    else if r == Rcode.not_implemented
    then codes "NOTIMP"
    else if r == Rcode.refused
    then codes "REFUSED"
    else codes "RCODE" ++ format r

pub record Question : Type 0 where
  pub name : Bytes
  pub qtype : ℕ

pub record Mx : Type 0 where
  pub preference : ℕ
  pub exchange : Bytes

pub record Srv : Type 0 where
  pub priority : ℕ
  pub weight : ℕ
  pub port : ℕ
  pub target : Bytes

pub record Caa : Type 0 where
  pub flag : ℕ
  pub tag : Bytes
  pub value : Bytes

pub record Soa : Type 0 where
  pub mname : Bytes
  pub rname : Bytes
  pub serial : ℕ
  pub refresh : ℕ
  pub retry : ℕ
  pub expire : ℕ
  pub minimum : ℕ

-- One resource record. A nil pointer is `none`, and an empty string or slice is `[]`.
pub record Record : Type 0 where
  pub name : Bytes
  pub rtype : ℕ
  pub ttl : ℕ
  pub a : Bytes
  pub aaaa : Bytes
  pub cname : Bytes
  pub ns : Bytes
  pub ptr : Bytes
  pub mx : Option Mx
  pub txt : List Bytes
  pub srv : Option Srv
  pub caa : Option Caa
  pub soa : Option Soa

-- the zero value `var rr Record` with the three fields that `readRecord` sets first
abbrev pub blank : Bytes → ℕ → ℕ → Record
blank name rtype ttl = record {
  name = name;
  rtype = rtype;
  ttl = ttl;
  a = [];
  aaaa = [];
  cname = [];
  ns = [];
  ptr = [];
  mx = none;
  txt = [];
  srv = none;
  caa = none;
  soa = none;
}

pub record Message : Type 0 where
  pub id : ℕ
  pub response : Bool
  pub opcode : ℕ
  pub authoritative : Bool
  pub truncated : Bool
  pub recursion_desired : Bool
  pub recursion_available : Bool
  pub rcode : ℕ
  pub questions : List Question
  pub answers : List Record
  pub authority : List Record
  pub additional : List Record

-- NewQuery
unfoldable pub new_query : ℕ → Bytes → ℕ → Message
unfolding trim_suffix
new_query id name qtype = record {
  id = id;
  response = false;
  opcode = 0;
  authoritative = false;
  truncated = false;
  recursion_desired = true;
  recursion_available = false;
  rcode = 0;
  questions = record { name = trim_suffix name (codes "."); qtype = qtype } ∷ [];
  answers = [];
  authority = [];
  additional = [];
}
