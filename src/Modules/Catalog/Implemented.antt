-- ===== src/Modules/Catalog/Implemented.antt =====
-- internal/module/catalog.go: the modules of the catalog that are implemented.
use nett.Prelude.{[], ◌∷◌, true, false}
use nett.Text.{codes}
use nett.Modules.{Descriptor, status_implemented}

abbrev pub core_module : Descriptor
core_module = record {
  name = codes "core";
  short = codes "CLI, layered configuration, and structured logging";
  milestone = codes "M1";
  status = status_implemented;
  active = false;
  capabilities =
      record {
        group = codes "CLI";
        items =
            codes "help"
            ∷ codes "version"
            ∷ codes "capabilities"
            ∷ codes "modules"
            ∷ codes "config"
            ∷ [];
      }
      ∷ record {
        group = codes "Config";
        items =
            codes "defaults"
            ∷ codes "json-file"
            ∷ codes "env-overrides"
            ∷ codes "flag-overrides"
            ∷ codes "validation"
            ∷ [];
      }
      ∷ record {
        group = codes "Logging";
        items =
            codes "levels"
            ∷ codes "text"
            ∷ codes "json"
            ∷ codes "file-output"
            ∷ codes "component-scoping"
            ∷ [];
      }
      ∷ [];
}

abbrev pub store_module : Descriptor
store_module = record {
  name = codes "store";
  short = codes "SQLite asset-graph store: assets, edges, provenance, events, module runs";
  milestone = codes "M2";
  status = status_implemented;
  active = false;
  capabilities =
      record {
        group = codes "Store";
        items =
            codes "projects"
            ∷ codes "assets"
            ∷ codes "edges"
            ∷ codes "provenance"
            ∷ codes "events"
            ∷ codes "module-runs"
            ∷ codes "additive-merge"
            ∷ codes "event-dedup"
            ∷ [];
      }
      ∷ [];
}

abbrev pub scope_module : Descriptor
scope_module = record {
  name = codes "scope";
  short = codes "Scope engine (domain/host/IP/CIDR/URL/path, allow/deny, fail-closed)";
  milestone = codes "M3";
  status = status_implemented;
  active = false;
  capabilities =
      record {
        group = codes "Scope";
        items =
            codes "domain"
            ∷ codes "wildcard"
            ∷ codes "hostname"
            ∷ codes "ip"
            ∷ codes "cidr"
            ∷ codes "url"
            ∷ codes "path"
            ∷ codes "allowlist"
            ∷ codes "denylist"
            ∷ codes "dynamic-ip-learning"
            ∷ [];
      }
      ∷ [];
}

abbrev pub dns_module : Descriptor
dns_module = record {
  name = codes "dns";
  short = codes "Native DNS resolver with caching and wildcard detection";
  milestone = codes "M4";
  status = status_implemented;
  active = true;
  capabilities =
      record {
        group = codes "DNS";
        items =
            codes "A"
            ∷ codes "AAAA"
            ∷ codes "CNAME"
            ∷ codes "MX"
            ∷ codes "NS"
            ∷ codes "TXT"
            ∷ codes "SRV"
            ∷ codes "CAA"
            ∷ codes "PTR"
            ∷ codes "SOA"
            ∷ [];
      }
      ∷ record {
        group = codes "DNS-Transport";
        items = codes "UDP" ∷ codes "TCP" ∷ codes "DoH" ∷ codes "DoT" ∷ [];
      }
      ∷ record {
        group = codes "DNS-Features";
        items =
            codes "positive-cache"
            ∷ codes "negative-cache"
            ∷ codes "ttl"
            ∷ codes "retries"
            ∷ codes "resolver-rotation"
            ∷ codes "wildcard-detection"
            ∷ [];
      }
      ∷ [];
}

abbrev pub ct_module : Descriptor
ct_module = record {
  name = codes "ct";
  short = codes "Certificate Transparency discovery via crt.sh";
  milestone = codes "M5";
  status = status_implemented;
  active = true;
  capabilities = record { group = codes "CT"; items = codes "crt.sh" ∷ [] } ∷ [];
}

abbrev pub subdomain_module : Descriptor
subdomain_module = record {
  name = codes "subdomain";
  short = codes "Passive subdomain discovery: CT + DNS validation + wildcard filtering";
  milestone = codes "M5";
  status = status_implemented;
  active = true;
  capabilities =
      record {
        group = codes "Subdomain";
        items =
            codes "ct-merge"
            ∷ codes "scope-filter"
            ∷ codes "dns-validation"
            ∷ codes "wildcard-flagging"
            ∷ [];
      }
      ∷ [];
}

abbrev pub permute_module : Descriptor
permute_module = record {
  name = codes "permute";
  short = codes "DNS brute force / permutation engine for candidate hostnames";
  milestone = codes "M7";
  status = status_implemented;
  active = true;
  capabilities =
      record {
        group = codes "Permute";
        items =
            codes "wordlist" ∷ codes "common-affix-permutations" ∷ codes "wildcard-filtering" ∷ [];
      }
      ∷ [];
}

abbrev pub portscan_module : Descriptor
portscan_module = record {
  name = codes "portscan";
  short = codes "Native TCP connect scanner (explicit activation only)";
  milestone = codes "M9";
  status = status_implemented;
  active = true;
  capabilities =
      record {
        group = codes "Portscan";
        items =
            codes "single-port"
            ∷ codes "port-range"
            ∷ codes "port-list"
            ∷ codes "common-ports"
            ∷ codes "all-ports"
            ∷ codes "rate-limited"
            ∷ codes "bounded-concurrency"
            ∷ [];
      }
      ∷ [];
}
