-- ===== src/Ct.antt =====
-- internal/ct/crtsh.go: host names from certificate logs. The HTTP client, the escaping of a query and
-- the JSON parser are a parameter, the record `Http`.
pub mod Names
use nett.Prelude.{
  ℕ, Bool, true, false, not, ◌||◌, Option, none, some, List, [], ◌∷◌, ◌++◌, ◌==◌, length,
  if◌then◌else◌, Result, ok, err, ◌>>=◌, ◌>>◌, check, require,
}
use nett.Text.{
  Bytes, codes, eq, trim_space, to_lower, trim_suffix, trim_prefix, contains_any, split,
}
use nett.Text.Order.{sort_strings}
use nett.Scope.{has_key}

-- crtShEntry
pub record Entry : Type 0 where
  pub common_name : Bytes
  pub name_value : Bytes

pub data Error : Type 0 where
  build_failed request_failed read_failed : Bytes → Error
  bad_status : ℕ → Error
  unparsable : Error

pub record Http : Type 0 where
  -- url.QueryEscape
  pub query_escape : Bytes → Bytes
  -- http.NewRequestWithContext
  pub new_request : Bytes → Result Bytes Bytes
  -- client.Do: the status, and what reading the body gives, up to its bound
  pub send : Bytes → Result Bytes (ℕ × Result Bytes Bytes)
  -- json.Unmarshal
  pub unmarshal : Bytes → Option (List Entry)

-- the characters " \t\"'@/\\"
abbrev pub not_in_names : Bytes
not_in_names = b' ' ∷ 9 ∷ 34 ∷ 39 ∷ b'@' ∷ b'/' ∷ 92 ∷ []

-- normalizeHostname behind its three cuts
abbrev pub plausible : Bytes → Bytes
plausible h = if eq h [] || contains_any h not_in_names then [] else h

-- normalizeHostname
unfoldable pub normalize_hostname : Bytes → Bytes
unfolding eq contains_any trim_space to_lower trim_suffix trim_prefix
normalize_hostname raw =
    plausible (trim_prefix (trim_suffix (to_lower (trim_space raw)) (codes ".")) (codes "*."))

-- if h != "" { seen[h] = struct{}{} }
abbrev pub see_name : Bytes → List Bytes → List Bytes
unfolding has_key
see_name [] seen = seen
see_name (c ∷ h) seen = if has_key (c ∷ h) seen then seen else (c ∷ h) ∷ seen

unfoldable pub see_names : List Bytes → List Bytes → List Bytes
unfolding see_name normalize_hostname
see_names [] seen = seen
see_names (raw ∷ raws) seen = see_names raws (see_name (normalize_hostname raw) seen)

unfoldable pub see_entries : List Entry → List Bytes → List Bytes
unfolding see_names split
see_entries [] seen = seen
see_entries (e ∷ entries) seen =
    see_entries entries
      (see_name (normalize_hostname e.common_name) (see_names (split e.name_value 10) seen))

-- the names of a body that is not blank
abbrev pub names_of : Option (List Entry) → Result Error (List Bytes)
unfolding see_entries sort_strings
names_of none = err Error.unparsable
names_of (some entries) = ok (sort_strings (see_entries entries []))

-- an error of the client, under the name of the call
abbrev pub named {ℓ} : {A : Type ℓ} → (Bytes → Error) → Result Bytes A → Result Error A
named f (err e) = err (f e)
named f (ok a) = ok a

-- fmt.Sprintf("%s/?q=%s&output=json", ...)
unfoldable pub query_url : Http → Bytes → Bytes → Bytes
query_url http base_url domain =
    base_url ++ (codes "/?q=" ++ (http.query_escape (codes "%." ++ domain) ++ codes "&output=json"))

-- Query
unfoldable pub query : Http → Bytes → Bytes → Result Error (List Bytes)
unfolding query_url names_of trim_space
query http base_url domain = do
  req ← named Error.build_failed (http.new_request (query_url http base_url domain))
  (status, content) ← named Error.request_failed (http.send req)
  check (status == 200) (Error.bad_status status)
  body ← named Error.read_failed content
  if length (trim_space body) == 0 then ok [] else names_of (http.unmarshal body)
