-- ===== src/Dns/Examples.antt =====
-- Runs of the codec and the resolver on concrete inputs.
use nett.Prelude.{
  ◌+◌, ◌≡◌, ◌<◌, ◌≤◌, refl, subst, arith, true, false, none, some, [], ◌∷◌, Result, ok, err, length,
  Ensures, if◌then◌else◌, ◌==◌, ◌*◌,
}
use nett.Text.{Bytes, codes, trim_suffix, has_suffix, eq, split}
use nett.Text.Decimal.{ℤ, digits}
use nett.Dns.Resolver.Lookups.{reverse_addr, nibbles, hex_digit}
use nett.Net.{Net, IsNet, to4, to16}
use nett.Dns.RrType
use nett.Dns.Message.{Record, Message, blank, new_query}
use nett.Dns.Buffer.{Error, IsReported, put_uint16, put_uint32}
use nett.Dns.Name.{encode_labels, encode_trimmed, encode_name, read_name}
use nett.Dns.Name.Safe.{read_name-Ensures}
use nett.Dns.Name.RoundTrip.{read_name-encode_name}
use nett.Dns.Record.{encode_mx, encode_rdata, fixed_part, encode_record, read_record}
use nett.Dns.Record.Rdata.{Rdata}
use nett.Dns.Record.Parts.{At-self}
use nett.Dns.Record.RoundTrip.{RdataFits, IsRecord, read_record-encode_record}
use nett.Dns.Wire.{flag_word, header, encode_questions, encode_records, marshal, unmarshal}
use nett.Dns.Wire.Safe.{entries, unmarshal-Ensures}
use nett.Dns.Wire.RoundTrip.{IsMessage, unmarshal-marshal}
use nett.Config.{DnsConfig}
use nett.Dns.Resolver
use nett.Dns.Resolver.{
  World, Resolver, cache_key, find, cache_get, cache_put, pick_resolver, attempt,
  exchange_with_retry, query, tick, moved, second, filter_answers, answer_ttl, min_from,
}
use nett.Config.Validate.{valid_protocol}
use nett.Dns.Resolver.Cache.{query_again, deadline}
use nett.Dns.Resolver.Exchange.{Fails, exchange_with_retry-response, exchange_with_retry-failed}

-- addresses whose text is their bytes
abbrev raw_net : Net
raw_net = record {
  parse_ip = some;
  ip_string = λ ip. ip;
  parse_cidr = λ _. none;
  parse_url = λ s. some (record { hostname = s; path = [] });
}

v4_back : (ip : Bytes) → length ip ≡ 4 → to4 ip ≡ some ip
unfolding to4
v4_back ip n = rw n

v6_back : (ip : Bytes) → length ip ≡ 16 → to16 ip ≡ some ip
unfolding to16
v6_back ip n = rw n

raw_net-IsNet : IsNet raw_net
raw_net-IsNet = record { reads_v4 = λ ip n b. v4_back ip n; reads_v6 = λ ip n b. v6_back ip n }

abbrev mail : Record
mail = record (blank (codes "a.b") RrType.mx 60) {
  mx = some (record { preference = 5; exchange = codes "m.b" });
}

abbrev mail_bytes : Bytes
mail_bytes =
    1 ∷ 97 ∷ 1 ∷ 98 ∷ 0 ∷ 0 ∷ 15 ∷ 0 ∷ 1 ∷ 0 ∷ 0 ∷ 0 ∷ 60 ∷ 0 ∷ 7 ∷ 0 ∷ 5 ∷ 1 ∷ 109 ∷ 1 ∷ 98 ∷ 0
    ∷ []

mail_encoded : encode_record raw_net mail ≡ ok mail_bytes
unfolding encode_record encode_rdata encode_mx encode_name encode_trimmed encode_labels fixed_part
    trim_suffix has_suffix eq split put_uint16 put_uint32
mail_encoded = refl

abbrev ok_bytes : Bytes → Result Error Bytes
ok_bytes x = ok x

mail_fits : RdataFits raw_net mail
unfolding encode_rdata encode_mx encode_name encode_trimmed encode_labels trim_suffix has_suffix eq
    split put_uint16
mail_fits r e = subst (λ x. length x < 65536) (same e) (omega arith)
  where
    same : {x y : Bytes} → ok_bytes x ≡ ok_bytes y → x ≡ y
    same h = cc

trimmed_example :
    (trim_suffix (codes "a.b") (codes ".") ≡ codes "a.b")
    × (trim_suffix (codes "m.b") (codes ".") ≡ codes "m.b")
unfolding trim_suffix has_suffix eq
trimmed_example = (refl, refl)

mail-IsRecord : IsRecord raw_net mail
mail-IsRecord = record {
  rdata = Rdata.mx (record { preference = 5; exchange = codes "m.b" });
  filled = refl;
  owner = trimmed_example.0;
  ttl_range = omega arith;
  range = (omega arith, trimmed_example.1);
  fits = mail_fits;
}

abbrev response : Message
response = record {
  id = 7;
  response = true;
  opcode = 2;
  authoritative = false;
  truncated = true;
  recursion_desired = true;
  recursion_available = true;
  rcode = 3;
  questions = record { name = codes "a.b"; qtype = RrType.mx } ∷ [];
  answers = mail ∷ [];
  authority = [];
  additional = [];
}

abbrev response_bytes : Bytes
response_bytes =
    0 ∷ 7 ∷ 147 ∷ 131 ∷ 0 ∷ 1 ∷ 0 ∷ 1 ∷ 0 ∷ 0 ∷ 0 ∷ 0 ∷ 1 ∷ 97 ∷ 1 ∷ 98 ∷ 0 ∷ 0 ∷ 15 ∷ 0 ∷ 1
    ∷ mail_bytes

response_encoded : marshal raw_net response ≡ ok response_bytes
unfolding marshal header flag_word encode_questions encode_records encode_record encode_rdata
    encode_mx encode_name encode_trimmed encode_labels fixed_part trim_suffix has_suffix eq split
    put_uint16 put_uint32
response_encoded = refl

response-IsMessage : IsMessage raw_net response
response-IsMessage = record {
  id = omega arith;
  opcode = omega arith;
  rcode = omega arith;
  qdcount = omega arith;
  ancount = omega arith;
  nscount = omega arith;
  arcount = omega arith;
  questions = (record { name = trimmed_example.0; qtype = omega arith }, tt);
  answers = (mail-IsRecord, tt);
  authority = tt;
  additional = tt;
}

unmarshal-marshal_example : unmarshal raw_net response_bytes ≡ ok response
unmarshal-marshal_example =
    unmarshal-marshal raw_net raw_net-IsNet response response-IsMessage response_encoded

unmarshal-Ensures_example :
    Ensures IsReported
      (λ m. 12 + entries m ≤ length response_bytes)
      (unmarshal raw_net response_bytes)
unmarshal-Ensures_example = unmarshal-Ensures raw_net response_bytes

-- a name that points to itself
read_name-Ensures_example :
    Ensures IsReported (λ r. (0 < r.1) × (r.1 ≤ 2)) (read_name (192 ∷ 0 ∷ []) 0)
read_name-Ensures_example = read_name-Ensures (192 ∷ 0 ∷ []) 0

name_encoded : encode_name (codes "a.b.") ≡ ok (1 ∷ 97 ∷ 1 ∷ 98 ∷ 0 ∷ [])
unfolding encode_name encode_trimmed encode_labels trim_suffix has_suffix eq split
name_encoded = refl

read_name-encode_name_example :
    read_name (1 ∷ 97 ∷ 1 ∷ 98 ∷ 0 ∷ []) 0 ≡ ok (trim_suffix (codes "a.b.") (codes "."), 5)
read_name-encode_name_example =
    read_name-encode_name (1 ∷ 97 ∷ 1 ∷ 98 ∷ 0 ∷ []) 0 [] (codes "a.b.") name_encoded (At-self _)

read_record-encode_record_example : read_record raw_net mail_bytes 0 ≡ ok (mail, 22)
read_record-encode_record_example =
    read_record-encode_record raw_net raw_net-IsNet mail_bytes 0 [] mail mail-IsRecord mail_encoded
      (At-self _)

-- two resolvers, of which only the one called "y" responds
abbrev two_resolvers : DnsConfig Unit
two_resolvers = record {
  resolvers = codes "x" ∷ codes "y" ∷ [];
  timeout_seconds = ℤ.pos 5;
  retries = ℤ.pos 1;
  protocol = codes "udp";
  rate_limit_per_sec = tt;
}

abbrev fresh : Resolver Unit
fresh = record { cfg = two_resolvers; next = 0; cache = []; calls = 0 }

abbrev respond : Bytes → Result Bytes Message
respond [] = err (codes "none")
respond (c ∷ addr) = if c == 121 then ok response else err (codes "timeout")

-- the clock moves a second with each call
abbrev world : World
world = record {
  now = λ n. n * second;
  wait = λ _. none;
  random = λ n. n;
  exchange = λ _ _ addr _. respond addr;
  context_error = λ _. none;
}

abbrev world_down : World
world_down = record world { exchange = λ _ _ _ _. err (codes "down") }

one_fails : Fails world (codes "a.b") RrType.mx 1 fresh [] (moved fresh) (codes "timeout")
unfolding pick_resolver valid_protocol eq new_query trim_suffix has_suffix
one_fails = Fails.more 0 _ _ (codes "x") _ (codes "timeout") _ refl refl refl refl (Fails.start _ _)

next_turn : pick_resolver (moved fresh) ≡ some (codes "y")
unfolding pick_resolver
next_turn = refl

udp_known : valid_protocol (codes "udp") ≡ true
unfolding valid_protocol eq
udp_known = refl

exchange_with_retry-response_example :
    exchange_with_retry world (codes "a.b") RrType.mx fresh ≡ (ok response, moved (moved fresh))
exchange_with_retry-response_example =
    exchange_with_retry-response world (codes "a.b") RrType.mx 1 fresh (moved fresh)
      (codes "timeout") (codes "y") response (omega arith) one_fails next_turn udp_known refl

both_fail : Fails world_down (codes "a.b") RrType.mx 2 fresh [] (moved (moved fresh)) (codes "down")
unfolding pick_resolver valid_protocol eq new_query trim_suffix has_suffix
both_fail =
    Fails.more 1 _ _ (codes "x") _ (codes "down") _ refl refl refl refl
      (Fails.more 0 _ _ (codes "y") _ (codes "down") _ refl refl refl refl (Fails.start _ _))

exchange_with_retry-failed_example :
    exchange_with_retry world_down (codes "a.b") RrType.mx fresh
    ≡ (err (Resolver.Error.failed (codes "down")), moved (moved fresh))
exchange_with_retry-failed_example =
    exchange_with_retry-failed world_down (codes "a.b") RrType.mx fresh (moved (moved fresh))
      (codes "down") both_fail

no_entry : cache_get fresh (cache_key (codes "a.b") RrType.mx) 0 ≡ none
unfolding cache_get find
no_entry = refl

second_responds :
    exchange_with_retry world (codes "a.b") RrType.mx (tick fresh)
    ≡ (ok response, moved (moved (tick fresh)))
unfolding exchange_with_retry attempt
second_responds = refl

still_fresh : world.now 4 ≤ deadline world response RrType.mx (moved (moved (tick fresh)))
unfolding filter_answers answer_ttl min_from
still_fresh = omega arith

query_again_example :
    query world (codes "a.b") RrType.mx (query world (codes "a.b") RrType.mx fresh).1 ≡ (
      (query world (codes "a.b") RrType.mx fresh).0,
      tick (query world (codes "a.b") RrType.mx fresh).1,
    )
query_again_example =
    query_again world (codes "a.b") RrType.mx fresh (moved (moved (tick fresh))) response no_entry
      refl second_responds still_fresh

loopback : reverse_addr (127 ∷ 0 ∷ 0 ∷ 1 ∷ []) ≡ some (codes "1.0.0.127.in-addr.arpa")
unfolding reverse_addr digits
loopback = refl

loopback_v6 :
    reverse_addr (0 ∷ 0 ∷ 0 ∷ 0 ∷ 0 ∷ 0 ∷ 0 ∷ 0 ∷ 0 ∷ 0 ∷ 0 ∷ 0 ∷ 0 ∷ 0 ∷ 0 ∷ 26 ∷ [])
    ≡ some (codes "a.1.0.0.0.0.0.0.0.0.0.0.0.0.0.0.0.0.0.0.0.0.0.0.0.0.0.0.0.0.0.0.ip6.arpa")
unfolding reverse_addr to4 to16 nibbles hex_digit eq
loopback_v6 = refl
