-- ===== src/Model/RelType.antt =====
-- internal/model/model.go: the kinds of edges.
use nett.Text.{Bytes, codes}

abbrev pub has_subdomain : Bytes
has_subdomain = codes "HAS_SUBDOMAIN"

abbrev pub resolves_to : Bytes
resolves_to = codes "RESOLVES_TO"

abbrev pub announced_by : Bytes
announced_by = codes "ANNOUNCED_BY"

abbrev pub contains : Bytes
contains = codes "CONTAINS"

abbrev pub ptr : Bytes
ptr = codes "PTR"

abbrev pub presented : Bytes
presented = codes "PRESENTED"

abbrev pub san : Bytes
san = codes "SAN"

abbrev pub serves : Bytes
serves = codes "SERVES"

abbrev pub exposes : Bytes
exposes = codes "EXPOSES"

abbrev pub accepts : Bytes
accepts = codes "ACCEPTS"

abbrev pub references : Bytes
references = codes "REFERENCES"

abbrev pub reveals : Bytes
reveals = codes "REVEALS"

abbrev pub mentions : Bytes
mentions = codes "MENTIONS"

abbrev pub linked_repo : Bytes
linked_repo = codes "LINKED_REPO"

abbrev pub hosted_on : Bytes
hosted_on = codes "HOSTED_ON"

abbrev pub on_port : Bytes
on_port = codes "ON_PORT"
