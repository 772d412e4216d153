-- ===== src/Store/Merge.antt =====
-- internal/store/store.go: `mergeValue` and `unionAny`. The key of an item is the JSON text of
-- `json.Marshal`, or the print of the item where it has none: the record `Keys`.
use nett.Prelude.{Option, none, some, List, [], ◌∷◌, ◌++◌, if◌then◌else◌, any}
use nett.Text.{Bytes, eq}
use nett.Model.Values.{Value, Object, lookup, set}

pub record Keys (X : Type 0) : Type 0 where
  -- json.Marshal
  pub marshal_item : X → Option Bytes
  -- fmt.Sprintf("%v")
  pub print_item : X → Bytes

-- the variables of `unionAny`
pub record Union (X : Type 0) : Type 0 where
  pub seen : List Bytes
  pub out : List X

module _ {X : Type 0} (ks : Keys X) where
  unfoldable pub key_of : X → Bytes
  key_of it = elim (ks.marshal_item it) [ none ↦ ks.print_item it | some b ↦ b ]

  -- one round of the loop of `add`
  unfoldable pub add_item : X → Union X → Union X
  unfolding key_of eq
  add_item it u =
      if any (eq (key_of it)) u.seen
      then u
      else record { seen = key_of it ∷ u.seen; out = u.out ++ it ∷ [] }

  unfoldable pub add_items : List X → Union X → Union X
  add_items [] u = u
  add_items (it ∷ its) u = add_items its (add_item it u)

  -- unionAny
  unfoldable pub union_any : List X → List X → List X
  union_any a b = (add_items b (add_items a (record { seen = []; out = [] }))).out

  -- what becomes of a key that has a value, or none, when a new value comes
  unfoldable pub merged : Option (Value X) → Value X → Value X
  merged (some (Value.items old)) (Value.items new) = Value.items (union_any old new)
  merged _ v = v

  -- the second loop of mergeValue, over the entries of `next`
  unfoldable pub merge_entries : Object X → Object X → Object X
  unfolding lookup set
  merge_entries [] out = out
  merge_entries ((k, v) ∷ next) out = merge_entries next (set k (merged (lookup k out) v) out)

  -- mergeValue; its first loop copies `existing`
  unfoldable pub merge_value : Object X → Object X → Object X
  merge_value existing next = merge_entries next existing
