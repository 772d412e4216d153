-- ===== src/Modules/Catalog/Planned.antt =====
-- internal/module/catalog.go: the planned modules of the milestones M6 to M14.
use nett.Prelude.{[], ◌∷◌, true, false}
use nett.Text.{codes}
use nett.Modules.{Descriptor, status_planned}

abbrev pub asn_module : Descriptor
asn_module = record {
  name = codes "asn";
  short = codes "ASN/IP intelligence and netblock relationships";
  milestone = codes "M6";
  status = status_planned;
  active = true;
  capabilities = [];
}

abbrev pub http_module : Descriptor
http_module = record {
  name = codes "http";
  short = codes "Native HTTP probing engine and reusable client";
  milestone = codes "M7";
  status = status_planned;
  active = true;
  capabilities =
      record {
        group = codes "HTTP";
        items =
            codes "probing"
            ∷ codes "redirects"
            ∷ codes "headers"
            ∷ codes "cookies"
            ∷ codes "tls"
            ∷ codes "timing"
            ∷ codes "http-version"
            ∷ [];
      }
      ∷ [];
}

abbrev pub tls_module : Descriptor
tls_module = record {
  name = codes "tls";
  short = codes "Native TLS inspection (cert/SAN/cipher/ALPN)";
  milestone = codes "M8";
  status = status_planned;
  active = true;
  capabilities = [];
}

abbrev pub servicefp_module : Descriptor
servicefp_module = record {
  name = codes "servicefp";
  short = codes "Service/banner fingerprinting via safe probes";
  milestone = codes "M10";
  status = status_planned;
  active = true;
  capabilities = [];
}

abbrev pub fingerprint_module : Descriptor
fingerprint_module = record {
  name = codes "fingerprint";
  short = codes "HTTP technology fingerprinting (external definitions)";
  milestone = codes "M10";
  status = status_planned;
  active = false;
  capabilities = [];
}

abbrev pub crawler_module : Descriptor
crawler_module = record {
  name = codes "crawler";
  short = codes "Native concurrent web crawler";
  milestone = codes "M11";
  status = status_planned;
  active = true;
  capabilities =
      record {
        group = codes "Web";
        items = codes "crawler" ∷ codes "forms" ∷ codes "robots" ∷ codes "sitemap" ∷ [];
      }
      ∷ [];
}

abbrev pub jsintel_module : Descriptor
jsintel_module = record {
  name = codes "jsintel";
  short = codes "JavaScript intelligence engine";
  milestone = codes "M12";
  status = status_planned;
  active = true;
  capabilities = [];
}

abbrev pub urldisc_module : Descriptor
urldisc_module = record {
  name = codes "urldisc";
  short = codes "Historical URL providers, robots and sitemap intelligence";
  milestone = codes "M13";
  status = status_planned;
  active = true;
  capabilities = [];
}

abbrev pub content_module : Descriptor
content_module = record {
  name = codes "content";
  short = codes "Optional content discovery (bring-your-own wordlist)";
  milestone = codes "M13";
  status = status_planned;
  active = true;
  capabilities = [];
}

abbrev pub apidisc_module : Descriptor
apidisc_module = record {
  name = codes "apidisc";
  short = codes "REST/OpenAPI/Swagger discovery and parsing";
  milestone = codes "M14";
  status = status_planned;
  active = true;
  capabilities = [];
}
