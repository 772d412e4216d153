-- ===== src/Store/Examples/Calls.antt =====
-- Calls of the store on concrete inputs.
use nett.Prelude.{ℕ, true, false, ◌≡◌, refl, some, ◌>>=◌, List, [], ◌∷◌, ok, Ensures, arith}
use nett.Text.{Bytes, codes, eq}
use nett.Model.{asset_id, hash_hex, hash_input, Asset, Edge}
use nett.Model.Values.{Value, lookup, set}
use nett.Store.Merge.{merge_value, merge_entries, merged, union_any, add_items, add_item}
use nett.Store.Rows.{
  marshal_json, unmarshal_json, parse_time, format_time, AssetRow, EdgeRow, Stored, Database,
  row_key,
}
use nett.Store.Assets.{
  filled_asset, upsert_asset, get_asset, upsert_filled, scan_found, scan_asset, asset_row,
  with_existing,
}
use nett.Store.Edges.{filled_edge, upsert_edge}
use nett.Store.Edges.Kept.{KeepsEdge, upsert_edge-KeepsEdge}
use nett.Store.Examples.Memory.{memory, memory-IsTable}
use nett.Store.Examples.Instance.{same_pair, same_pair_iff, texts-IsTexts, no_tables, all_of}

abbrev pub Assets : Type 0
Assets = List ((Bytes × Bytes) × AssetRow ℕ)

abbrev pub asset_db : Database ℕ ℕ Assets
asset_db = record no_tables { assets = memory same_pair }

abbrev host : Asset ℕ ℕ
host = record {
  id = [];
  project_id = codes "p";
  asset_type = codes "host";
  key = codes "a.example";
  value = (codes "n", Value.items (1 ∷ 2 ∷ [])) ∷ [];
  in_scope = true;
  historical = false;
  confidence = 40;
  first_seen = 0;
  last_seen = 0;
}

-- what a call at time 5 left behind
abbrev seen_before : Stored Assets
seen_before = all_of (
    (
      row_key (codes "p") (filled_asset asset_db 5 host).id,
      record {
        id = (filled_asset asset_db 5 host).id;
        project_id = codes "p";
        asset_type = codes "host";
        key = codes "a.example";
        value_json = 1 ∷ b'n' ∷ 7 ∷ [];
        in_scope = 1;
        historical = 0;
        confidence = 70;
        first_seen = 5 ∷ [];
        last_seen = 5 ∷ [];
      },
    )
    ∷ [])

-- the joined row: two lists are one, the confidence is the higher one, and the first time is kept
merged_host :
    (do r ← upsert_asset asset_db 9 host seen_before; get_asset asset_db r.1 (codes "p") r.0.id)
    ≡ ok (
        some (record (filled_asset asset_db 9 host) {
          value = (codes "n", Value.items (7 ∷ 1 ∷ 2 ∷ [])) ∷ [];
          confidence = 70;
          first_seen = 5;
        }))
unfolding upsert_asset get_asset filled_asset upsert_filled memory scan_found scan_asset asset_row
    same_pair with_existing merge_value merge_entries merged union_any add_items add_item set lookup
    eq marshal_json unmarshal_json parse_time format_time asset_id hash_hex hash_input
merged_host = refl

abbrev Edges : Type 0
Edges = List ((Bytes × Bytes) × EdgeRow ℕ)

abbrev edge_db : Database ℕ ℕ Edges
edge_db = record no_tables { edges = memory same_pair }

abbrev link : Edge ℕ
link = record {
  id = codes "e";
  project_id = codes "p";
  src_id = codes "a";
  dst_id = codes "b";
  rel = codes "resolves_to";
  confidence = 40;
  first_seen = 0;
  last_seen = 0;
}

abbrev linked : Stored Edges
linked = all_of (
    (
      row_key (codes "p") (codes "e"),
      record {
        id = codes "e";
        project_id = codes "p";
        src_id = codes "a";
        dst_id = codes "b";
        rel = codes "resolves_to";
        confidence = 70;
        first_seen = 5 ∷ [];
        last_seen = 5 ∷ [];
      },
    )
    ∷ [])

upsert_edge-KeepsEdge_example :
    Ensures
      (λ _. Unit {0})
      (λ r. KeepsEdge edge_db linked r.0 r.1)
      (upsert_edge edge_db 9 link linked)
upsert_edge-KeepsEdge_example =
    upsert_edge-KeepsEdge edge_db (memory-IsTable same_pair same_pair_iff) texts-IsTexts 9 link
      linked (unfold filled_edge in omega arith) (unfold filled_edge in omega arith)
