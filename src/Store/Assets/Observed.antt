-- ===== src/Store/Assets/Observed.antt =====
-- `UpsertAsset` against the asset graph that docs/DATA_MODEL.md promises: an observation of an asset adds
-- to what is known of it.
use nett.Prelude.{
  ℕ, ◌≡◌, ◌≢◌, Option, none, some, [], if◌then◌else◌, ok, Ensures, Ensures-self, Ensures-bind,
  Ensures-pure,
}
use nett.Text.{Bytes}
use nett.Model.{Asset}
use nett.Model.Values.{Object, lookup}
use nett.Store.Additive.{combined, IsMerged}
use nett.Store.Tables.{IsTable}
use nett.Store.Rows.{
  Stored, Database, IsTexts, row_key, query_result, query_result-eq_ok, marshal_json,
}
use nett.Store.Assets.{
  get_asset, filled_asset, with_existing, asset_row, asset_conflict, upsert_filled, upsert_asset,
}

-- the asset that was seen first
abbrev pub first_of {ℓ} : {A : Type ℓ} → Option A → A → A
first_of none a = a
first_of (some o) a = o

module _ {F X T : Type 0} (db : Database F X T) where
  abbrev pub known_value : Option (Asset F X) → Object X
  known_value none = []
  known_value (some o) = o.value

  -- the higher of the two confidences
  abbrev pub higher : Option (Asset F X) → F → F
  higher none c = c
  higher (some o) c = if db.greater o.confidence c then o.confidence else c

  -- What is known of an asset, `b`, after an observation `a` of it, where `old` was known before: the
  -- identity and the verdicts are those of the first observation, the values are joined key by key, the
  -- confidence is the higher one, and the last time is the new one.
  pub record Observed (old : Option (Asset F X)) (a b : Asset F X) : Type 0 where
    pub id : b.id ≡ (first_of old a).id
    pub project_id : b.project_id ≡ (first_of old a).project_id
    pub asset_type : b.asset_type ≡ (first_of old a).asset_type
    pub key : b.key ≡ (first_of old a).key
    pub in_scope : b.in_scope ≡ (first_of old a).in_scope
    pub historical : b.historical ≡ (first_of old a).historical
    pub first_seen : b.first_seen ≡ (first_of old a).first_seen
    pub last_seen : b.last_seen ≡ a.last_seen
    pub confidence : b.confidence ≡ higher old a.confidence
    pub value :
        (k : Bytes)
        → lookup k b.value ≡ combined db.keys (lookup k (known_value old)) (lookup k a.value)
    -- the same, told without the code: two lists give one with the items of both, each once
    pub joined :
        (k : Bytes)
        → IsMerged db.keys (lookup k (known_value old)) (lookup k a.value) (lookup k b.value)

  -- The outcome of an upsert: what was known before, what is known after, and that the second is the
  -- first with the observation added.
  pub record Refines (s : Stored T) (a : Asset F X) (t : Stored T) : Type 0 where
    pub old : Option (Asset F X)
    pub new : Asset F X
    pub before : get_asset db s a.project_id a.id ≡ ok old
    pub after : get_asset db t a.project_id a.id ≡ ok (some new)
    pub observed : Observed old a new

  module _ (laws : IsTable db.assets) (tx : IsTexts db.texts) where
    -- An upsert leaves every other asset as it was.
    pub upsert_asset-other :
        (now : ℕ) (a : Asset F X) (s : Stored T) (project id : Bytes)
        → row_key project id ≢ row_key a.project_id (filled_asset db now a).id
        → Ensures
            (λ _. Unit {0})
            (λ r. get_asset db r.1 project id ≡ get_asset db s project id)
            (upsert_asset db now a s)
    unfolding upsert_asset
    upsert_asset-other now a s project id apart =
        Ensures-bind _ _ (filled_other (filled_asset db now a) (unfold filled_asset in apart))
          λ t h. Ensures-pure h
      where
        filled_other :
            (b : Asset F X)
            → row_key project id ≢ row_key b.project_id b.id
            → Ensures
                (λ _. Unit {0})
                (λ t. get_asset db t project id ≡ get_asset db s project id)
                (upsert_filled db b s)
        filled_other b h =
            unfold upsert_filled get_asset in
            Ensures-bind (get_asset db s b.project_id b.id) _ (Ensures-self _) λ old _.
              Ensures-bind (marshal_json db.texts (with_existing db old b).value) _ (Ensures-self _)
                λ json _.
                  let row = asset_row db (with_existing db old b) json in
                  let upsert =
                    db.assets.upsert_row (asset_conflict db) (row_key b.project_id b.id) row
                      s.assets in
                  Ensures-bind (query_result upsert) _ (Ensures-self (query_result upsert))
                    λ assets done. Ensures-pure (
                      rw (
                        laws.upsert_other (asset_conflict db) (row_key b.project_id b.id)
                          (row_key project id) row s.assets assets (query_result-eq_ok _ done) h))
