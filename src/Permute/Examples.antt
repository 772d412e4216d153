-- ===== src/Permute/Examples.antt =====
-- A brute force on concrete inputs.
use mathlib.Core.List.Perm
use nett.Prelude.{◌≡◌, refl, true, false, ◌&&◌, any, none, [], ◌∷◌, ok, err, Ensures}
use nett.Text.{
  codes, eq, has_prefix, has_suffix, trim_suffix, trim_prefix, trim_space, trim_left, trim_right,
  is_space, to_lower, to_lower_byte,
}
use nett.Text.Order.{before, insert_text, sort_strings}
use nett.Scope.{
  Scope, empty, allow_host, allow_normalized, normalize_host, host_rule, host_matches_domain,
  has_key,
}
use nett.Dns.Wildcard.{detect_wildcard}
use nett.Dns.Wildcard.Examples.{own_text, catch_all}
use nett.Permute.{
  Error, add_line, add_lines, load_wordlist, labels_of, candidates_of, without_error, brute_force,
  add_words, add_labels, add_candidate,
}
use nett.Permute.Candidates.{is_made_of, candidates_of-has_key}
use nett.Permute.Found.{expected, brute_force-expected}

abbrev shop_scope : Scope
shop_scope = record empty {
  domains = codes "a.example" ∷ [];
  exclude_domains = codes "www.a.example" ∷ [];
}

words_read :
    load_wordlist (ok (codes " API " ∷ codes "# no" ∷ [] ∷ codes "api" ∷ codes "www" ∷ [], none))
    ≡ ok (codes "api" ∷ codes "www" ∷ [])
unfolding load_wordlist add_lines add_line trim_space trim_left trim_right is_space to_lower
    to_lower_byte eq has_prefix has_key
words_read = refl

no_words : load_wordlist (ok (codes "# no" ∷ [], none)) ≡ err Error.no_entries
unfolding load_wordlist add_lines add_line trim_space trim_left trim_right is_space to_lower
    to_lower_byte eq has_prefix has_key
no_words = refl

-- the excluded name is no candidate
two_words :
    candidates_of shop_scope (codes "a.example") false (codes "www" ∷ codes "ns" ∷ codes "api" ∷ [])
    ≡ codes "api.a.example" ∷ codes "ns.a.example" ∷ []
unfolding candidates_of add_words add_labels add_candidate labels_of sort_strings insert_text before
    has_key eq allow_host allow_normalized normalize_host host_rule host_matches_domain trim_space
    trim_left trim_right is_space to_lower to_lower_byte trim_suffix trim_prefix has_prefix
    has_suffix
two_words = refl

candidates_of-has_key_example :
    has_key
      (codes "api-dev.a.example")
      (candidates_of shop_scope (codes "a.example") true (codes "api" ∷ []))
    ≡ (any (is_made_of (codes "a.example") true (codes "api-dev.a.example")) (codes "api" ∷ [])
        && allow_host shop_scope (codes "api-dev.a.example"))
candidates_of-has_key_example =
    candidates_of-has_key shop_scope (codes "a.example") true (codes "api" ∷ [])
      (codes "api-dev.a.example")

brute_force-expected_example :
    Ensures
      (λ e. (e ≡ Error.out_of_scope) × (allow_host shop_scope (codes "a.example") ≡ false))
      (λ r.
        r.0
        ≡ expected own_text
            (without_error (detect_wildcard own_text catch_all (codes "a.example")))
            catch_all
            (candidates_of shop_scope (codes "a.example") false (codes "www" ∷ codes "api" ∷ [])))
      (brute_force own_text catch_all
        (λ hosts. hosts)
        shop_scope
        (codes "a.example")
        (codes "www" ∷ codes "api" ∷ [])
        false)
brute_force-expected_example =
    brute_force-expected own_text catch_all (λ hosts. hosts) shop_scope (codes "a.example")
      (codes "www" ∷ codes "api" ∷ []) false Perm.rfl
