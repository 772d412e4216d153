-- ===== src/Dns/Record/Rdata.antt =====
-- The records that `readRecord` can return, told by their data.
use nett.Prelude.{ℕ, ◌^◌, ◌<◌, ◌≡◌, some, List, length, All}
use nett.Text.{Bytes, trim_suffix, codes}
use nett.Net.{Net, Ip, IsByte}
use nett.Dns.RrType
use nett.Dns.Message.{Record, Mx, Srv, Caa, Soa, blank}

-- the data of a record, one constructor for each type that the codec knows
pub data Rdata : Type 0 where
  a aaaa : Ip → Rdata
  cname ns ptr : Bytes → Rdata
  mx : Mx → Rdata
  txt : List Bytes → Rdata
  srv : Srv → Rdata
  caa : Caa → Rdata
  soa : Soa → Rdata

-- The record of a name, a TTL and data: the field of its type is filled, the others are zero.
abbrev pub to_record : Net → Bytes → ℕ → Rdata → Record
to_record net name ttl (Rdata.a ip) = record (blank name RrType.a ttl) { a = net.ip_string ip }
to_record net name ttl (Rdata.aaaa ip) = record (blank name RrType.aaaa ttl) {
  aaaa = net.ip_string ip;
}
to_record net name ttl (Rdata.cname n) = record (blank name RrType.cname ttl) { cname = n }
to_record net name ttl (Rdata.ns n) = record (blank name RrType.ns ttl) { ns = n }
to_record net name ttl (Rdata.ptr n) = record (blank name RrType.ptr ttl) { ptr = n }
to_record net name ttl (Rdata.mx m) = record (blank name RrType.mx ttl) { mx = some m }
to_record net name ttl (Rdata.txt t) = record (blank name RrType.txt ttl) { txt = t }
to_record net name ttl (Rdata.srv s) = record (blank name RrType.srv ttl) { srv = some s }
to_record net name ttl (Rdata.caa c) = record (blank name RrType.caa ttl) { caa = some c }
to_record net name ttl (Rdata.soa s) = record (blank name RrType.soa ttl) { soa = some s }

-- a name with no dot at its end, as the decoder returns it
abbrev pub IsTrimmed : Bytes → Type 0
IsTrimmed name = trim_suffix name (codes ".") ≡ name

abbrev pub IsUint16 : ℕ → Type 0
IsUint16 v = v < 65536

abbrev pub IsUint32 : ℕ → Type 0
IsUint32 v = v < 2 ^ 32

-- the ranges of the fields
abbrev pub InRange : Rdata → Type 0
InRange (Rdata.a ip) = (length ip ≡ 4) × All IsByte ip
InRange (Rdata.aaaa ip) = (length ip ≡ 16) × All IsByte ip
InRange (Rdata.cname n) = IsTrimmed n
InRange (Rdata.ns n) = IsTrimmed n
InRange (Rdata.ptr n) = IsTrimmed n
InRange (Rdata.mx m) = IsUint16 m.preference × IsTrimmed m.exchange
InRange (Rdata.txt t) = Unit
InRange (Rdata.srv s) =
    IsUint16 s.priority × IsUint16 s.weight × IsUint16 s.port × IsTrimmed s.target
InRange (Rdata.caa c) = length c.tag < 256
InRange (Rdata.soa s) =
    IsTrimmed s.mname
    × IsTrimmed s.rname
    × IsUint32 s.serial
    × IsUint32 s.refresh
    × IsUint32 s.retry
    × IsUint32 s.expire
    × IsUint32 s.minimum
