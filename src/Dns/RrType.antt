-- ===== src/Dns/RrType.antt =====
-- internal/dns/message.go: the numbers of the record types.
use nett.Prelude.{ℕ}

abbrev pub a : ℕ
a = 1

abbrev pub ns : ℕ
ns = 2

abbrev pub cname : ℕ
cname = 5

abbrev pub soa : ℕ
soa = 6

abbrev pub ptr : ℕ
ptr = 12

abbrev pub mx : ℕ
mx = 15

abbrev pub txt : ℕ
txt = 16

abbrev pub aaaa : ℕ
aaaa = 28

abbrev pub srv : ℕ
srv = 33

abbrev pub caa : ℕ
caa = 257
