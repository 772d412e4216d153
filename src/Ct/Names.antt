-- ===== src/Ct/Names.antt =====
-- The names that a query of the certificate logs gives (internal/ct/crtsh.go).
use nett.Prelude.{
  Bool, true, false, List, [], ◌∷◌, ◌≡◌, ◌≢◌, if◌then◌else◌, All, Bool-cases, inl, inr, Option,
  none, some, ok, Ensures, Ensures-self, Ensures-pure, Ensures-bind, Ensures-check, Ensures-err,
  Ensures-if, length, ◌==◌,
}
use nett.Scope.{has_key}
use nett.Text.Order.{sort_strings-All}
use nett.Text.{
  codes, trim_space, to_lower, trim_suffix, trim_prefix, split, Bytes, contains_any, eq,
}
use nett.Ct.{
  Entry, plausible, normalize_hostname, see_name, see_names, see_entries, names_of, not_in_names,
  Http, Error, query, query_url, named,
}

-- A name is not empty, and has none of the characters that no host name has.
abbrev pub IsPlausible : Bytes → Type 0
IsPlausible h = (h ≢ []) × (contains_any h not_in_names ≡ false)

see_plausible :
    (h : Bytes) (seen : List Bytes)
    → All IsPlausible seen
    → All IsPlausible (see_name (plausible h) seen)
unfolding see_name
see_plausible [] seen all = unfold eq in all
see_plausible (c ∷ h) seen all = elim (Bool-cases (contains_any (c ∷ h) not_in_names)) [
  | inl bad ↦ unfold eq in rw bad all
  | inr fine ↦ unfold eq in rw fine (added fine (has_key (c ∷ h) seen))
]
  where
    added :
        contains_any (c ∷ h) not_in_names ≡ false
        → (known : Bool) → All IsPlausible (if known then seen else (c ∷ h) ∷ seen)
    added fine true = all
    added fine false = ((λ e. cc e, fine), all)

see_names-IsPlausible :
    (raws seen : List Bytes) → All IsPlausible seen → All IsPlausible (see_names raws seen)
unfolding see_names normalize_hostname
see_names-IsPlausible [] seen all = all
see_names-IsPlausible (raw ∷ raws) seen all = see_names-IsPlausible raws _ (
    see_plausible (trim_prefix (trim_suffix (to_lower (trim_space raw)) (codes ".")) (codes "*."))
      seen all)

see_entries-IsPlausible :
    (entries : List Entry) (seen : List Bytes)
    → All IsPlausible seen
    → All IsPlausible (see_entries entries seen)
unfolding see_entries normalize_hostname
see_entries-IsPlausible [] seen all = all
see_entries-IsPlausible (e ∷ entries) seen all = see_entries-IsPlausible entries _ (
    see_plausible
      (trim_prefix (trim_suffix (to_lower (trim_space e.common_name)) (codes ".")) (codes "*.")) _
      (see_names-IsPlausible (split e.name_value 10) seen all))

names_of-IsPlausible :
    (entries : Option (List Entry))
    → Ensures (λ _. Unit {0}) (λ out. All IsPlausible out) (names_of entries)
unfolding names_of
names_of-IsPlausible none = Ensures-err tt
names_of-IsPlausible (some entries) =
    Ensures-pure (
      sort_strings-All IsPlausible (see_entries entries []) (see_entries-IsPlausible entries [] tt))

-- Whatever the log answers, a query gives host names only, none of them empty.
pub query-IsPlausible :
    (http : Http) (base_url domain : Bytes)
    → Ensures (λ _. Unit {0}) (λ out. All IsPlausible out) (query http base_url domain)
unfolding query
query-IsPlausible http base_url domain =
    Ensures-bind (named Error.build_failed (http.new_request (query_url http base_url domain))) _
      (Ensures-self _)
      λ req _. Ensures-bind (named Error.request_failed (http.send req)) _ (Ensures-self _) λ r _.
        Ensures-check (r.0 == 200) (Error.bad_status r.0) _ tt λ _.
          Ensures-bind (named Error.read_failed r.1) _ (Ensures-self _) λ body _.
            Ensures-if (length (trim_space body) == 0) (ok []) (names_of (http.unmarshal body))
              (λ _. Ensures-pure tt) (λ _. names_of-IsPlausible (http.unmarshal body))
