-- ===== src/Subdomain/Examples.antt =====
-- A discovery with a provider that answers and one that fails.
use mathlib.Core.List.Perm
use nett.Prelude.{Ensures, false, ◌≡◌, refl, List, [], ◌∷◌, ok, err}
use nett.Text.{codes}
use nett.Scope.{Scope, empty, allow_host}
use nett.Subdomain.{Error, Provider, ask, discover}
use nett.Subdomain.Found.{IsReport, discover-expected}
use nett.Dns.Wildcard.Examples.{own_text, catch_all}

abbrev two_providers : List Provider
two_providers =
    record {
      name = codes "crt.sh";
      query = λ d. ok (codes "api.a.example" ∷ codes "b.example" ∷ []);
    }
    ∷ record { name = codes "other"; query = λ d. err (codes "timeout") }
    ∷ []

abbrev a_scope : Scope
a_scope = record empty { domains = codes "a.example" ∷ [] }

asked_both :
    ask (codes "a.example") two_providers (record { sources = []; provider_errs = [] }) ≡ record {
      sources =
          (codes "api.a.example", codes "crt.sh" ∷ [])
          ∷ (codes "b.example", codes "crt.sh" ∷ [])
          ∷ [];
      provider_errs = (codes "other", codes "timeout") ∷ [];
    }
unfolding ask
asked_both = refl

discover-expected_example :
    Ensures
      (λ e. (e ≡ Error.out_of_scope) × (allow_host a_scope (codes "a.example") ≡ false))
      (λ r. IsReport own_text catch_all a_scope two_providers (codes "a.example") r.0)
      (discover own_text catch_all (λ names. names) a_scope two_providers (codes "a.example"))
discover-expected_example =
    discover-expected own_text catch_all (λ names. names) a_scope two_providers (codes "a.example")
      (λ names. Perm.rfl)
