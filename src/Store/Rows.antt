-- ===== src/Store/Rows.antt =====
-- internal/store: the rows of the tables (schema.go), the texts of their columns (store.go), and the
-- parameters of the store.
use nett.Prelude.{
  ℕ, Bool, true, false, not, Option, none, some, [], ◌∷◌, ◌^◌, ◌*◌, ◌<◌, ◌≡◌, ◌≢◌, refl, ◌==◌,
  if◌then◌else◌, Result, ok, err, require, Bool-cases, inl, inr, ==_iff, ◌∙◌, sym,
}
use nett.Text.{Bytes}
use nett.Text.Decimal.{ℤ}
use nett.Model.Values.{Object, IsObject, lookup}
use nett.Store.Merge.{Keys}
use nett.Store.Tables.{Table, Log}

pub record ProjectRow : Type 0 where
  pub id : Bytes
  pub name : Bytes
  pub created_at : Bytes
  pub updated_at : Bytes
  pub config_json : Bytes
  pub status : Bytes

pub record AssetRow (F : Type 0) : Type 0 where
  pub id : Bytes
  pub project_id : Bytes
  pub asset_type : Bytes
  pub key : Bytes
  pub value_json : Bytes
  pub in_scope : ℕ
  pub historical : ℕ
  pub confidence : F
  pub first_seen : Bytes
  pub last_seen : Bytes

pub record EdgeRow (F : Type 0) : Type 0 where
  pub id : Bytes
  pub project_id : Bytes
  pub src_id : Bytes
  pub dst_id : Bytes
  pub rel : Bytes
  pub confidence : F
  pub first_seen : Bytes
  pub last_seen : Bytes

pub record ProvenanceRow (F : Type 0) : Type 0 where
  pub project_id : Bytes
  pub subject_id : Bytes
  pub subject_kind : Bytes
  pub source_module : Bytes
  pub source : Bytes
  pub evidence : Bytes
  pub confidence : F
  pub parent_id : Bytes
  pub observed_at : Bytes

pub record EventRow : Type 0 where
  pub id : Bytes
  pub project_id : Bytes
  pub event_type : Bytes
  pub asset_id : Bytes
  pub source : Bytes
  pub data_json : Bytes
  pub depth : ℤ
  pub status : Bytes
  pub created_at : Bytes
  pub processed_at : Bytes

pub record RunRow : Type 0 where
  pub project_id : Bytes
  pub run_module : Bytes
  pub target : Bytes
  pub input_fp : Bytes
  pub cursor_json : Bytes
  pub status : Bytes
  pub error : Bytes
  pub started_at : Bytes
  pub finished_at : Bytes

-- the content of each table
pub record Stored (T : Type 0) : Type 0 where
  pub projects : T
  pub assets : T
  pub edges : T
  pub provenance : T
  pub events : T
  pub runs : T

-- What the code uses of Go's time and encoding/json: RFC3339Nano in UTC, and the texts of objects.
pub record Texts (X : Type 0) : Type 0 where
  pub print_time : ℕ → Bytes
  pub read_time : Bytes → Option ℕ
  pub marshal : Object X → Option Bytes
  pub unmarshal : Bytes → Option (Object X)

-- the year 10000, which RFC 3339 cannot write
abbrev pub end_of_time : ℕ
end_of_time = 315537897600 * 10 ^ 9

-- What is documented of them: times read back to the nanosecond, and objects key by key.
pub record IsTexts {X : Type 0} (tx : Texts X) : Type 0 where
  pub time_back : (t : ℕ) → t < end_of_time → tx.read_time (tx.print_time t) ≡ some t
  pub time_text : (t : ℕ) → t < end_of_time → tx.print_time t ≢ []
  pub object_text : (o : Object X) {s : Bytes} → tx.marshal o ≡ some s → s ≢ []
  pub object_back :
      (o : Object X) {s : Bytes}
      → tx.marshal o ≡ some s
      → (p : Object X) × (tx.unmarshal s ≡ some p)
        × IsObject p
        × ((k : Bytes) → lookup k p ≡ lookup k o)

pub record Database (F X T : Type 0) : Type 0 where
  -- the hex text of SHA-256
  pub hash : Bytes → Bytes
  -- f > g
  pub greater : F → F → Bool
  pub keys : Keys X
  pub texts : Texts X
  pub projects : Table T Bytes ProjectRow
  pub assets : Table T (Bytes × Bytes) (AssetRow F)
  pub edges : Table T (Bytes × Bytes) (EdgeRow F)
  pub provenance : Log T (ProvenanceRow F)
  pub events : Table T (Bytes × Bytes) EventRow
  pub runs : Table T (Bytes × Bytes × Bytes) RunRow

pub data Error : Type 0 where
  database : Bytes → Error
  bad_json : Error

-- the primary key (project_id, id)
abbrev pub row_key : Bytes → Bytes → Bytes × Bytes
row_key project id = (project, id)

-- an error of a statement
abbrev pub query_result : {A : Type 0} → Result Bytes A → Result Error A
query_result (err e) = err (Error.database e)
query_result (ok a) = ok a

pub query_result-eq_ok :
    {A : Type 0} (m : Result Bytes A) {a : A} → query_result m ≡ ok a → m ≡ ok a
query_result-eq_ok (err e) h = cc
query_result-eq_ok (ok b) h = cc

-- formatTime
unfoldable pub format_time : {X : Type 0} → Texts X → ℕ → Bytes
format_time tx t = if t == 0 then [] else tx.print_time t

abbrev time_of : Option ℕ → ℕ
time_of none = 0
time_of (some t) = t

-- parseTime
unfoldable pub parse_time : {X : Type 0} → Texts X → Bytes → ℕ
parse_time tx [] = 0
parse_time tx (c ∷ s) = time_of (tx.read_time (c ∷ s))

-- marshalJSON, where a nil map is the empty one
unfoldable pub marshal_json : {X : Type 0} → Texts X → Object X → Result Error Bytes
marshal_json tx v = require (tx.marshal v) Error.bad_json

-- unmarshalJSON
unfoldable pub unmarshal_json : {X : Type 0} → Texts X → Bytes → Result Error (Object X)
unmarshal_json tx [] = ok []
unmarshal_json tx (c ∷ s) = require (tx.unmarshal (c ∷ s)) Error.bad_json

-- boolToInt
unfoldable pub bool_to_int : Bool → ℕ
bool_to_int true = 1
bool_to_int false = 0

require-eq_ok : {A : Type 0} (o : Option A) (e : Error) {a : A} → require o e ≡ ok a → o ≡ some a
require-eq_ok none e h = cc
require-eq_ok (some b) e h = cc

module _ {X : Type 0} (tx : Texts X) (laws : IsTexts tx) where
  not_empty :
      (s : Bytes)
      → s ≢ []
      → (parse_time tx s ≡ time_of (tx.read_time s))
        × (unmarshal_json tx s ≡ require (tx.unmarshal s) Error.bad_json)
  unfolding parse_time unmarshal_json
  not_empty [] h = absurd (h refl)
  not_empty (c ∷ s) h = (refl, refl)

  -- a time reads back from its column
  pub parse_time-format_time : (t : ℕ) → t < end_of_time → parse_time tx (format_time tx t) ≡ t
  unfolding format_time parse_time
  parse_time-format_time t h = elim (Bool-cases (t == 0)) [
    | inl e ↦ rw e (sym ((==_iff t 0).0 e))
    | inr e ↦ rw e ((not_empty (tx.print_time t) (laws.time_text t h)).0 ∙ rw (laws.time_back t h))
  ]

  -- an object reads back from its column, key by key
  pub unmarshal_json-marshal_json :
      (o : Object X) {s : Bytes}
      → marshal_json tx o ≡ ok s
      → (p : Object X) × (unmarshal_json tx s ≡ ok p)
        × IsObject p
        × ((k : Bytes) → lookup k p ≡ lookup k o)
  unfolding marshal_json
  unmarshal_json-marshal_json o {s} e =
      let written = require-eq_ok (tx.marshal o) Error.bad_json e in
      let (p, read, valid, same) = laws.object_back o written in
      (p, (not_empty s (laws.object_text o written)).1 ∙ rw read, valid, same)

pub bool_back : (b : Bool) → not (bool_to_int b == 0) ≡ b
unfolding bool_to_int
bool_back true = refl
bool_back false = refl
