-- ===== src/Dns/Resolver/Lookups.antt =====
-- internal/dns/resolver.go: the typed lookups, each a query and a field of the records it answers, and
-- `reverseAddr`.
use nett.Prelude.{
  ℕ, ◌/◌, ◌%◌, ◌+◌, ◌-◌, Option, none, some, List, [], ◌∷◌, ◌++◌, ltb, if◌then◌else◌, Result, ok,
  err, map,
}
use nett.Text.{Bytes, codes}
use nett.Text.Decimal.{format}
use nett.Net.{Net, Ip, to4, to16}
use nett.Dns.RrType
use nett.Dns.Message.{Mx, Srv, Caa, Soa, Record}
use nett.Dns.Resolver.{Error, World, Resolver, query, lookup_ip}

-- what a lookup makes of the result of its query
unfoldable pub of_answer :
    {F A : Type 0}
    → (List Record → A)
    → Result Error (List Record × ℕ) × Resolver F
    → Result Error A × Resolver F
of_answer f (err e, r) = (err e, r)
of_answer f (ok found, r) = (ok (f found.0), r)

abbrev pub first : {A : Type 0} → A → (Record → A) → List Record → A
first none_there f [] = none_there
first none_there f (rr ∷ rest) = f rr

unfoldable pub concat : List Bytes → Bytes
concat [] = []
concat (s ∷ ss) = s ++ concat ss

module _ {F : Type 0} (w : World) (name : Bytes) (r : Resolver F) where
  -- LookupA
  unfoldable pub lookup_a : Net → Result Error (List (Option Ip)) × Resolver F
  lookup_a net = lookup_ip net w name RrType.a r

  -- LookupAAAA
  unfoldable pub lookup_aaaa : Net → Result Error (List (Option Ip)) × Resolver F
  lookup_aaaa net = lookup_ip net w name RrType.aaaa r

  -- LookupCNAME
  unfoldable pub lookup_cname : Result Error Bytes × Resolver F
  lookup_cname = of_answer (first [] λ rr. rr.cname) (query w name RrType.cname r)

  -- LookupNS
  unfoldable pub lookup_ns : Result Error (List Bytes) × Resolver F
  lookup_ns = of_answer (map λ rr. rr.ns) (query w name RrType.ns r)

  -- LookupTXT
  unfoldable pub lookup_txt : Result Error (List Bytes) × Resolver F
  lookup_txt = of_answer (map λ rr. concat rr.txt) (query w name RrType.txt r)

  -- LookupMX
  unfoldable pub lookup_mx : Result Error (List (Option Mx)) × Resolver F
  lookup_mx = of_answer (map λ rr. rr.mx) (query w name RrType.mx r)

  -- LookupSRV
  unfoldable pub lookup_srv : Result Error (List (Option Srv)) × Resolver F
  lookup_srv = of_answer (map λ rr. rr.srv) (query w name RrType.srv r)

  -- LookupCAA
  unfoldable pub lookup_caa : Result Error (List (Option Caa)) × Resolver F
  lookup_caa = of_answer (map λ rr. rr.caa) (query w name RrType.caa r)

  -- LookupSOA
  unfoldable pub lookup_soa : Result Error (Option Soa) × Resolver F
  lookup_soa = of_answer (first none λ rr. rr.soa) (query w name RrType.soa r)

-- hexDigit[n]
unfoldable pub hex_digit : ℕ → ℕ
hex_digit n = if ltb n 10 then b'0' + n else b'a' + n - 10

-- the labels of the bytes of an IPv6 address, the last byte first and its low half first
unfoldable pub nibbles : Ip → Bytes → Bytes
unfolding hex_digit
nibbles [] out = out
nibbles (b ∷ bs) out = nibbles bs (hex_digit (b % 16) ∷ b'.' ∷ hex_digit (b / 16) ∷ b'.' ∷ out)

-- the name of an IPv4 address
abbrev pub reverse_v4 : Ip → Option Bytes
reverse_v4 (a ∷ b ∷ c ∷ d ∷ []) = some (
    format d
    ++ (codes "."
        ++ (format c
            ++ (codes "." ++ (format b ++ (codes "." ++ (format a ++ codes ".in-addr.arpa")))))))
reverse_v4 _ = none

-- reverseAddr; `none` is its error, and an index out of range, which To4 excludes
unfoldable pub reverse_addr : Ip → Option Bytes
unfolding to4 to16 nibbles format
reverse_addr ip = elim (to4 ip) [
  | some v4 ↦ reverse_v4 v4
  | none ↦ elim (to16 ip) [ none ↦ none | some v6 ↦ some (nibbles v6 (codes "ip6.arpa")) ]
]

-- LookupPTR
unfoldable pub lookup_ptr :
    {F : Type 0} → World → Ip → Resolver F → Option (Result Error (List Bytes) × Resolver F)
unfolding of_answer
lookup_ptr w ip r = elim (reverse_addr ip) [
  | none ↦ none
  | some arpa ↦ some (of_answer (map λ rr. rr.ptr) (query w arpa RrType.ptr r))
]
