-- ===== src/Dns/Record.antt =====
-- internal/dns/wire.go: `encodeRecord`, `readRecord`, `decodeTXT`, `readRecords`. The cases of the
-- two switches on the record type are functions of their own.
pub mod Rdata
pub mod Parts
pub mod Safe
pub mod RoundTrip
use nett.Prelude.{
  ℕ, zero, suc, ◌+◌, Option, none, some, List, [], ◌∷◌, ◌++◌, leb, ◌==◌, if◌then◌else◌, Result, ok,
  err, ◌>>=◌, ◌>>◌, check, require, length,
}
use nett.Text.{Bytes}
use nett.Net.{Net, to4, to16, of_nil}
use nett.Dns.RrType
use nett.Dns.Message.{Record, Mx, Srv, Caa, Soa, blank, class_in}
use nett.Dns.Buffer.{Error, byte_at, slice, uint16_at, uint32_at, put_uint16, put_uint32, to_byte}
use nett.Dns.Name.{encode_name, read_name}

unfoldable pub encode_mx : Option Mx → Result Error Bytes
encode_mx none = err Error.missing_mx
encode_mx (some mx) = do exch ← encode_name mx.exchange; ok (put_uint16 mx.preference ++ exch)

unfoldable pub encode_txt : List Bytes → Result Error Bytes
encode_txt [] = ok []
encode_txt (s ∷ txt) = do
  check (leb (length s) 255) Error.txt_too_long
  rest ← encode_txt txt
  ok (to_byte (length s) ∷ (s ++ rest))

unfoldable pub encode_srv : Option Srv → Result Error Bytes
encode_srv none = err Error.missing_srv
encode_srv (some srv) = do
  target ← encode_name srv.target
  ok (put_uint16 srv.priority ++ (put_uint16 srv.weight ++ (put_uint16 srv.port ++ target)))

unfoldable pub encode_caa : Option Caa → Result Error Bytes
encode_caa none = err Error.missing_caa
encode_caa (some caa) = ok (caa.flag ∷ to_byte (length caa.tag) ∷ (caa.tag ++ caa.value))

-- the five numbers behind the two names
unfoldable pub soa_numbers : Soa → Bytes
soa_numbers soa =
    put_uint32 soa.serial
    ++ (put_uint32 soa.refresh
        ++ (put_uint32 soa.retry ++ (put_uint32 soa.expire ++ put_uint32 soa.minimum)))

unfoldable pub encode_soa : Option Soa → Result Error Bytes
encode_soa none = err Error.missing_soa
encode_soa (some soa) = do
  mname ← encode_name soa.mname
  rname ← encode_name soa.rname
  ok (mname ++ (rname ++ soa_numbers soa))

-- the switch of `encodeRecord`
unfoldable pub encode_rdata : Net → Record → Result Error Bytes
encode_rdata net rr =
    if rr.rtype == RrType.a
    then require (of_nil (net.parse_ip rr.a) to4) Error.invalid_a
    else if rr.rtype == RrType.aaaa
    then require (of_nil (net.parse_ip rr.aaaa) to16) Error.invalid_aaaa
    else if rr.rtype == RrType.cname
    then encode_name rr.cname
    else if rr.rtype == RrType.ns
    then encode_name rr.ns
    else if rr.rtype == RrType.ptr
    then encode_name rr.ptr
    else if rr.rtype == RrType.mx
    then encode_mx rr.mx
    else if rr.rtype == RrType.txt
    then encode_txt rr.txt
    else if rr.rtype == RrType.srv
    then encode_srv rr.srv
    else if rr.rtype == RrType.caa
    then encode_caa rr.caa
    else if rr.rtype == RrType.soa
    then encode_soa rr.soa
    else err Error.cannot_encode_type

-- what stands between the owner name and the rdata
unfoldable pub fixed_part : Record → Bytes → Bytes
fixed_part rr rdata =
    put_uint16 rr.rtype
    ++ (put_uint16 class_in ++ (put_uint32 rr.ttl ++ (put_uint16 (length rdata) ++ rdata)))

-- encodeRecord
unfoldable pub encode_record : Net → Record → Result Error Bytes
encode_record net rr = do
  name ← encode_name rr.name
  rdata ← encode_rdata net rr
  ok (name ++ fixed_part rr rdata)

-- the loop of decodeTXT, with fuel
unfoldable pub decode_txt_loop : ℕ → Bytes → ℕ → List Bytes → Result Error (List Bytes)
decode_txt_loop zero rdata i out = err Error.out_of_fuel
decode_txt_loop (suc fuel) rdata i out = if leb (length rdata) i then ok out else do
  n ← byte_at rdata i
  check (leb (i + 1 + n) (length rdata)) Error.invalid_txt
  s ← slice rdata (i + 1) (i + 1 + n)
  decode_txt_loop fuel rdata (i + 1 + n) (out ++ s ∷ [])

-- decodeTXT
unfoldable pub decode_txt : Bytes → Result Error (List Bytes)
decode_txt rdata = decode_txt_loop (length rdata + 1) rdata 0 []

unfoldable pub read_mx : Bytes → ℕ → Bytes → Result Error Mx
read_mx buf off rdata = do
  check (leb 2 (length rdata)) Error.invalid_mx
  preference ← uint16_at rdata 0
  (exchange, _) ← read_name buf (off + 2)
  ok (record { preference = preference; exchange = exchange })

unfoldable pub read_srv : Bytes → ℕ → Bytes → Result Error Srv
read_srv buf off rdata = do
  check (leb 6 (length rdata)) Error.invalid_srv
  priority ← uint16_at rdata 0
  weight ← uint16_at rdata 2
  port ← uint16_at rdata 4
  (target, _) ← read_name buf (off + 6)
  ok (record { priority = priority; weight = weight; port = port; target = target })

unfoldable pub read_caa : Bytes → Result Error Caa
read_caa rdata = do
  check (leb 2 (length rdata)) Error.invalid_caa
  taglen ← byte_at rdata 1
  check (leb (2 + taglen) (length rdata)) Error.invalid_caa_tag
  flag ← byte_at rdata 0
  tag ← slice rdata 2 (2 + taglen)
  value ← slice rdata (2 + taglen) (length rdata)
  ok (record { flag = flag; tag = tag; value = value })

-- `soa` behind its two names
unfoldable pub read_soa_numbers : Bytes → Bytes → Bytes → ℕ → Result Error Soa
read_soa_numbers buf mname rname next = do
  check (leb (next + 20) (length buf)) Error.truncated_soa
  serial ← uint32_at buf next
  refresh ← uint32_at buf (next + 4)
  retry ← uint32_at buf (next + 8)
  expire ← uint32_at buf (next + 12)
  minimum ← uint32_at buf (next + 16)
  ok (record {
    mname = mname;
    rname = rname;
    serial = serial;
    refresh = refresh;
    retry = retry;
    expire = expire;
    minimum = minimum;
  })

-- The end of the rdata is not looked at: the names and the numbers are read from the message.
unfoldable pub read_soa : Bytes → ℕ → Result Error Soa
read_soa buf off = do
  (mname, next) ← read_name buf off
  (rname, next') ← read_name buf next
  read_soa_numbers buf mname rname next'

-- The switch of `readRecord`, its cases of several fields. Of an unknown type the rdata is skipped.
unfoldable pub read_structured : Bytes → ℕ → Bytes → Record → Result Error Record
read_structured buf off rdata rr =
    if rr.rtype == RrType.mx
    then (do mx ← read_mx buf off rdata; ok (record rr { mx = some mx }))
    else if rr.rtype == RrType.txt
    then (do txt ← decode_txt rdata; ok (record rr { txt = txt }))
    else if rr.rtype == RrType.srv
    then (do srv ← read_srv buf off rdata; ok (record rr { srv = some srv }))
    else if rr.rtype == RrType.caa
    then (do caa ← read_caa rdata; ok (record rr { caa = some caa }))
    else if rr.rtype == RrType.soa
    then (do soa ← read_soa buf off; ok (record rr { soa = some soa }))
    else ok rr

-- the switch of `readRecord`
unfoldable pub read_rdata : Net → Bytes → ℕ → Bytes → Record → Result Error Record
read_rdata net buf off rdata rr =
    if rr.rtype == RrType.a
    then check (length rdata == 4) Error.invalid_a >> ok (record rr { a = net.ip_string rdata })
    else if rr.rtype == RrType.aaaa
    then check (length rdata == 16) Error.invalid_aaaa
      >> ok (record rr { aaaa = net.ip_string rdata })
    else if rr.rtype == RrType.cname
    then (do (n, _) ← read_name buf off; ok (record rr { cname = n }))
    else if rr.rtype == RrType.ns
    then (do (n, _) ← read_name buf off; ok (record rr { ns = n }))
    else if rr.rtype == RrType.ptr
    then (do (n, _) ← read_name buf off; ok (record rr { ptr = n }))
    else read_structured buf off rdata rr

-- `readRecord` behind the owner name
unfoldable pub read_fixed : Net → Bytes → Bytes → ℕ → Result Error (Record × ℕ)
read_fixed net buf name off = do
  check (leb (off + 10) (length buf)) Error.truncated_record
  rtype ← uint16_at buf off
  ttl ← uint32_at buf (off + 4)
  rdlength ← uint16_at buf (off + 8)
  check (leb (off + 10 + rdlength) (length buf)) Error.truncated_rdata
  rdata ← slice buf (off + 10) (off + 10 + rdlength)
  rr ← read_rdata net buf (off + 10) rdata (blank name rtype ttl)
  ok (rr, off + 10 + rdlength)

-- readRecord
unfoldable pub read_record : Net → Bytes → ℕ → Result Error (Record × ℕ)
read_record net buf off = do (name, next) ← read_name buf off; read_fixed net buf name next

-- readRecords
unfoldable pub read_records : Net → Bytes → ℕ → ℕ → Result Error (List Record × ℕ)
read_records net buf off zero = ok ([], off)
read_records net buf off (suc n) = do
  (rr, next) ← read_record net buf off
  (rest, end) ← read_records net buf next n
  ok (rr ∷ rest, end)
