-- ===== src/Model.antt =====
-- internal/model/model.go: the asset graph. A `time.Time` is the number of nanoseconds since the zero
-- time; `map[string]any` is an `Object` over a type `X` of the values that a JSON decoder returns, and
-- a `float64` is of a type `F`. The hash is a parameter.
pub mod AssetType
pub mod RelType
pub mod Values
pub mod Identity
use nett.Prelude.{ℕ, Bool, List, [], ◌∷◌, ◌++◌}
use nett.Text.{Bytes}
use nett.Text.Decimal.{ℤ}
use nett.Model.Values.{Object}

pub record Asset (F X : Type 0) : Type 0 where
  pub id : Bytes
  pub project_id : Bytes
  pub asset_type : Bytes
  pub key : Bytes
  pub value : Object X
  pub in_scope : Bool
  pub historical : Bool
  pub confidence : F
  pub first_seen : ℕ
  pub last_seen : ℕ

pub record Edge (F : Type 0) : Type 0 where
  pub id : Bytes
  pub project_id : Bytes
  pub src_id : Bytes
  pub dst_id : Bytes
  pub rel : Bytes
  pub confidence : F
  pub first_seen : ℕ
  pub last_seen : ℕ

pub record Provenance (F : Type 0) : Type 0 where
  pub id : ℕ
  pub project_id : Bytes
  pub subject_id : Bytes
  pub subject_kind : Bytes
  pub source_module : Bytes
  pub source : Bytes
  pub evidence : Bytes
  pub confidence : F
  pub parent_id : Bytes
  pub observed_at : ℕ

pub record Event (X : Type 0) : Type 0 where
  pub id : Bytes
  pub project_id : Bytes
  pub event_type : Bytes
  pub asset_id : Bytes
  pub source : Bytes
  pub data_object : Object X
  pub depth : ℤ
  pub status : Bytes
  pub created_at : ℕ
  pub processed_at : ℕ

-- The id that the database gives to a run is left out.
pub record ModuleRun (X : Type 0) : Type 0 where
  pub project_id : Bytes
  pub run_module : Bytes
  pub target : Bytes
  pub input_fp : Bytes
  pub cursor : Object X
  pub status : Bytes
  pub error : Bytes
  pub started_at : ℕ
  pub finished_at : ℕ

pub record Project : Type 0 where
  pub id : Bytes
  pub name : Bytes
  pub created_at : ℕ
  pub updated_at : ℕ
  pub config_json : Bytes
  pub status : Bytes

-- the parts, with a zero byte between two
unfoldable pub hash_input : List Bytes → Bytes
hash_input [] = []
hash_input (p ∷ []) = p
hash_input (p ∷ (q ∷ ps)) = p ++ (0 ∷ hash_input (q ∷ ps))

-- hashHex; `hash` is the hex text of SHA-256
unfoldable pub hash_hex : (Bytes → Bytes) → List Bytes → Bytes
hash_hex hash parts = hash (hash_input parts)

-- AssetID
unfoldable pub asset_id : (Bytes → Bytes) → Bytes → Bytes → Bytes
asset_id hash t canonical_key = hash_hex hash (t ∷ canonical_key ∷ [])

-- EdgeID
unfoldable pub edge_id : (Bytes → Bytes) → Bytes → Bytes → Bytes → Bytes
edge_id hash src_id rel dst_id = hash_hex hash (src_id ∷ rel ∷ dst_id ∷ [])

-- EventID
unfoldable pub event_id : (Bytes → Bytes) → Bytes → Bytes → Bytes
event_id hash event_type asset = hash_hex hash (event_type ∷ asset ∷ [])
