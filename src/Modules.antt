-- ===== src/Modules.antt =====
-- internal/module: the registry of module descriptors. A nil pointer is `none`, and the map from names
-- is the list of its entries, the newest first; the mutex makes each method one step.
pub mod Listing
pub mod Views
pub mod Shown
pub mod Reported
pub mod Catalog
mod Examples
use nett.Prelude.{
  Bool, ◌||◌, Option, none, some, List, [], ◌∷◌, ◌++◌, if◌then◌else◌, Result, ok, err, ◌>>=◌, ◌>>◌,
  check, not,
}
use nett.Text.{Bytes, codes, eq}

pub record Capability : Type 0 where
  pub group : Bytes
  pub items : List Bytes

pub record Descriptor : Type 0 where
  pub name : Bytes
  pub short : Bytes
  pub milestone : Bytes
  pub status : Bytes
  pub active : Bool
  pub capabilities : List Capability

abbrev pub status_implemented : Bytes
status_implemented = codes "implemented"

abbrev pub status_planned : Bytes
status_planned = codes "planned"

pub record Registry : Type 0 where
  pub mods : List (Bytes × Descriptor)
  pub order : List Bytes

pub data Error : Type 0 where
  nil_descriptor empty_name : Error
  invalid_status already_registered : Bytes → Error

-- NewRegistry
abbrev pub new_registry : Registry
new_registry = record { mods = []; order = [] }

unfoldable pub find_module : Bytes → List (Bytes × Descriptor) → Option Descriptor
unfolding eq
find_module name [] = none
find_module name ((k, d) ∷ rest) =
    let below = find_module name rest in if eq name k then some d else below

-- Get
unfoldable pub get : Registry → Bytes → Option Descriptor
get r name = find_module name r.mods

abbrev pub is_set : {A : Type 0} → Option A → Bool
is_set none = Bool.false
is_set (some a) = Bool.true

-- Register of a descriptor that is not nil
unfoldable pub register_descriptor : Descriptor → Registry → Result Error Registry
register_descriptor d r = do
  check (not (eq d.name [])) Error.empty_name
  check (eq d.status status_implemented || eq d.status status_planned) (Error.invalid_status d.name)
  check (not (is_set (find_module d.name r.mods))) (Error.already_registered d.name)
  ok (record { mods = (d.name, d) ∷ r.mods; order = r.order ++ d.name ∷ [] })

-- Register
unfoldable pub register : Option Descriptor → Registry → Result Error Registry
unfolding register_descriptor
register none r = err Error.nil_descriptor
register (some d) r = register_descriptor d r

-- the descriptors of names, in their order
unfoldable pub list_names : List Bytes → List (Bytes × Descriptor) → List (Option Descriptor)
unfolding find_module
list_names [] mods = []
list_names (name ∷ names) mods = find_module name mods ∷ list_names names mods

-- List
unfoldable pub list : Registry → List (Option Descriptor)
unfolding list_names
list r = list_names r.order r.mods

-- a sequence of calls of Register that all succeed
unfoldable pub register_all : List Descriptor → Registry → Result Error Registry
unfolding register
register_all [] r = ok r
register_all (d ∷ ds) r = do r' ← register (some d) r; register_all ds r'
