-- ===== src/Modules/Catalog.antt =====
-- internal/module/catalog.go: the catalog of the modules, and the registry that holds it.
mod Implemented
mod Planned
mod Later
use nett.Prelude.{List, [], ◌∷◌, Result}
use nett.Modules.{Descriptor, Registry, Error, new_registry, register_all}
use nett.Modules.Catalog.Implemented.{
  core_module, store_module, scope_module, dns_module, ct_module, subdomain_module, permute_module,
  portscan_module,
}
use nett.Modules.Catalog.Planned.{
  asn_module, http_module, tls_module, servicefp_module, fingerprint_module, crawler_module,
  jsintel_module, urldisc_module, content_module, apidisc_module,
}
use nett.Modules.Catalog.Later.{
  graphql_module, param_module, repo_module, cloud_module, classify_module, score_module,
  graph_module, event_module, diff_module, resume_module,
}

-- catalog
abbrev pub catalog : List Descriptor
catalog =
    core_module ∷ store_module ∷ scope_module ∷ dns_module ∷ ct_module ∷ subdomain_module
    ∷ permute_module ∷ portscan_module ∷ asn_module ∷ http_module ∷ tls_module ∷ servicefp_module
    ∷ fingerprint_module ∷ crawler_module ∷ jsintel_module ∷ urldisc_module ∷ content_module
    ∷ apidisc_module ∷ graphql_module ∷ param_module ∷ repo_module ∷ cloud_module ∷ classify_module
    ∷ score_module ∷ graph_module ∷ event_module ∷ diff_module ∷ resume_module ∷ []

-- DefaultRegistry, whose panic in MustRegister is an error
unfoldable pub default_registry : Result Error Registry
unfolding register_all
default_registry = register_all catalog new_registry
