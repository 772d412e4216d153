-- ===== src/Store/Assets.antt =====
-- internal/store/store.go: assets. `now` is the time of the call, and a method that fills in the fields
-- of the asset it is given returns it.
pub mod Observed
use nett.Prelude.{
  ℕ, Bool, not, ◌&&◌, ◌||◌, Option, none, some, List, [], ◌∷◌, ◌==◌, if◌then◌else◌, Result, ok, err,
  ◌>>=◌,
}
use nett.Text.{Bytes, eq}
use nett.Model.{Asset, asset_id}
use nett.Model.Values.{Object}
use nett.Store.Merge.{merge_value}
use nett.Store.Tables.{Table}
use nett.Store.Rows.{
  AssetRow, Stored, Database, Error, query_result, row_key, format_time, parse_time, marshal_json,
  unmarshal_json, bool_to_int,
}

-- `v`, or `w` if it is the zero value
abbrev pub or_text : Bytes → Bytes → Bytes
or_text [] w = w
or_text (c ∷ v) w = c ∷ v

abbrev pub or_time : ℕ → ℕ → ℕ
or_time v w = if v == 0 then w else v

module _ {F X T : Type 0} (db : Database F X T) where
  -- the asset of a row and its value
  abbrev pub asset_of_row : AssetRow F → Object X → Asset F X
  asset_of_row row value = record {
    id = row.id;
    project_id = row.project_id;
    asset_type = row.asset_type;
    key = row.key;
    value = value;
    in_scope = not (row.in_scope == 0);
    historical = not (row.historical == 0);
    confidence = row.confidence;
    first_seen = parse_time db.texts row.first_seen;
    last_seen = parse_time db.texts row.last_seen;
  }

  -- scanAsset of a row that is there
  unfoldable pub scan_asset : AssetRow F → Result Error (Asset F X)
  scan_asset row = do value ← unmarshal_json db.texts row.value_json; ok (asset_of_row row value)

  -- scanAsset
  unfoldable pub scan_found : Option (AssetRow F) → Result Error (Option (Asset F X))
  unfolding scan_asset
  scan_found none = ok none
  scan_found (some row) = do a ← scan_asset row; ok (some a)

  -- GetAsset
  unfoldable pub get_asset : Stored T → Bytes → Bytes → Result Error (Option (Asset F X))
  get_asset s project id = do
    found ← query_result (db.assets.select_row s.assets (row_key project id))
    scan_found found

  -- the fields that UpsertAsset fills in
  unfoldable pub filled_asset : ℕ → Asset F X → Asset F X
  filled_asset now a = record a {
    id = or_text a.id (asset_id db.hash a.asset_type a.key);
    first_seen = or_time a.first_seen now;
    last_seen = or_time a.last_seen now;
  }

  -- the asset with the values that UpsertAsset computes
  unfoldable pub with_existing : Option (Asset F X) → Asset F X → Asset F X
  unfolding merge_value
  with_existing none a = a
  with_existing (some existing) a = record a {
    value = merge_value db.keys existing.value a.value;
    confidence =
        if db.greater existing.confidence a.confidence then existing.confidence else a.confidence;
    first_seen = existing.first_seen;
    in_scope = existing.in_scope;
    historical = existing.historical;
  }

  -- the row of the INSERT
  unfoldable pub asset_row : Asset F X → Bytes → AssetRow F
  unfolding format_time bool_to_int
  asset_row a value_json = record {
    id = a.id;
    project_id = a.project_id;
    asset_type = a.asset_type;
    key = a.key;
    value_json = value_json;
    in_scope = bool_to_int a.in_scope;
    historical = bool_to_int a.historical;
    confidence = a.confidence;
    first_seen = format_time db.texts a.first_seen;
    last_seen = format_time db.texts a.last_seen;
  }

  -- ON CONFLICT(project_id, id) DO UPDATE SET
  abbrev pub asset_conflict : AssetRow F → AssetRow F → AssetRow F
  asset_conflict old excluded = record old {
    value_json = excluded.value_json;
    confidence = excluded.confidence;
    last_seen = excluded.last_seen;
  }

  -- UpsertAsset behind the fields that it fills in
  unfoldable pub upsert_filled : Asset F X → Stored T → Result Error (Stored T)
  unfolding with_existing asset_row
  upsert_filled a s = do
    existing ← get_asset s a.project_id a.id
    value_json ← marshal_json db.texts (with_existing existing a).value
    assets ← query_result (
        db.assets.upsert_row asset_conflict (row_key a.project_id a.id)
          (asset_row (with_existing existing a) value_json) s.assets)
    ok (record s { assets = assets })

  -- UpsertAsset
  unfoldable pub upsert_asset : ℕ → Asset F X → Stored T → Result Error (Asset F X × Stored T)
  unfolding filled_asset
  upsert_asset now a s = do s' ← upsert_filled (filled_asset now a) s; ok (filled_asset now a, s')

  unfoldable pub scan_assets : List (AssetRow F) → Result Error (List (Asset F X))
  scan_assets [] = ok []
  scan_assets (row ∷ rows) = do a ← scan_asset row; rest ← scan_assets rows; ok (a ∷ rest)

  -- the WHERE of ListAssets
  unfoldable pub listed_asset : Bytes → Bytes → AssetRow F → Bool
  unfolding eq
  listed_asset project asset_type row =
      eq row.project_id project && (eq asset_type [] || eq row.asset_type asset_type)

  -- ListAssets
  unfoldable pub list_assets : Stored T → Bytes → Bytes → Result Error (List (Asset F X))
  unfolding listed_asset
  list_assets s project asset_type = do
    rows ←
        query_result
          (db.assets.select_rows (listed_asset project asset_type) (λ row. row.first_seen) s.assets)
    scan_assets rows
