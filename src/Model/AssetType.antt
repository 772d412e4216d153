-- ===== src/Model/AssetType.antt =====
-- internal/model/model.go: the kinds of assets.
use nett.Text.{Bytes, codes}

abbrev pub domain : Bytes
domain = codes "domain"

abbrev pub hostname : Bytes
hostname = codes "hostname"

abbrev pub ip : Bytes
ip = codes "ip"

abbrev pub cidr : Bytes
cidr = codes "cidr"

abbrev pub asn : Bytes
asn = codes "asn"

abbrev pub url : Bytes
url = codes "url"

abbrev pub endpoint : Bytes
endpoint = codes "endpoint"

abbrev pub parameter : Bytes
parameter = codes "parameter"

abbrev pub certificate : Bytes
certificate = codes "certificate"

abbrev pub js_file : Bytes
js_file = codes "jsfile"

abbrev pub repository : Bytes
repository = codes "repository"

abbrev pub cloud_provider : Bytes
cloud_provider = codes "cloud_provider"

abbrev pub service : Bytes
service = codes "service"

abbrev pub port : Bytes
port = codes "port"
