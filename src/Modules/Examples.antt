-- ===== src/Modules/Examples.antt =====
-- The catalog in its registry.
use nett.Prelude.{◌≡◌, ◌&&◌, Bool, true, false, some, any, Result, ok, err, refl, Ensures}
use nett.Text.{codes, eq}
use nett.Modules.{Registry, Error, find_module}
use nett.Modules.Catalog.{catalog, default_registry}
use nett.Modules.Listing.{AnyError}
use nett.Modules.Shown.{has_item}
use nett.Modules.Reported.{is_shown, capabilities-is_shown}
use nett.Modules.Views.{is_implemented, capabilities}

abbrev is_registry : Result Error Registry → Bool
is_registry (err e) = false
is_registry (ok r) = true

-- the panic of MustRegister does not occur
default_registry-ok : is_registry default_registry ≡ true
unfolding default_registry eq find_module
default_registry-ok = refl

capabilities-is_shown_example :
    Ensures AnyError
      (λ r.
        is_shown (codes "DNS") (codes "SOA") (capabilities r)
        ≡ some (
            any
              (λ d. is_implemented d && has_item (codes "DNS") (codes "SOA") d.capabilities)
              catalog))
      default_registry
unfolding default_registry
capabilities-is_shown_example = capabilities-is_shown (codes "DNS") (codes "SOA") catalog
