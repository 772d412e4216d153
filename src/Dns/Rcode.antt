-- ===== src/Dns/Rcode.antt =====
-- internal/dns/message.go: the response codes.
use nett.Prelude.{ℕ}

abbrev pub success : ℕ
success = 0

abbrev pub format_error : ℕ
format_error = 1

abbrev pub server_failure : ℕ
server_failure = 2

abbrev pub name_error : ℕ
name_error = 3

abbrev pub not_implemented : ℕ
not_implemented = 4

abbrev pub refused : ℕ
refused = 5
