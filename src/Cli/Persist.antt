-- ===== src/Cli/Persist.antt =====
-- internal/cli/scan.go: `persistHostname` and `persistPort`, over the store. The Go values of the
-- `map[string]any` literals are a parameter, the record `Literals`.
use nett.Prelude.{ℕ, Bool, true, false, List, [], ◌∷◌, ◌++◌, Result, ok, ◌>>=◌}
use nett.Text.{Bytes, codes}
use nett.Text.Decimal.{format}
use nett.Net.{Net, Ip}
use nett.Model.{Asset, Edge}
use nett.Model.AssetType
use nett.Model.RelType
use nett.Model.Values.{Object, Value}
use nett.Store.Rows.{Stored, Database, Error}
use nett.Store.Assets.{upsert_asset}
use nett.Store.Edges.{upsert_edge}
use nett.Store.Trail.{add_provenance}

pub record Literals (F X : Type 0) : Type 0 where
  -- 1.0
  pub one : F
  pub of_text : Bytes → X
  pub of_bool : Bool → X
  -- float64(n)
  pub of_int : ℕ → X

abbrev is_not_nil : List Ip → Bool
is_not_nil [] = false
is_not_nil (ip ∷ ips) = true

module _ {F X T : Type 0} (db : Database F X T) (lit : Literals F X) where
  -- an asset that is in scope, as the commands make it
  abbrev pub seen_asset : Bytes → Bytes → Bytes → Object X → Asset F X
  seen_asset project asset_type key value = record {
    id = [];
    project_id = project;
    asset_type = asset_type;
    key = key;
    value = value;
    in_scope = true;
    historical = false;
    confidence = lit.one;
    first_seen = 0;
    last_seen = 0;
  }

  abbrev pub seen_edge : Bytes → Bytes → Bytes → Bytes → Edge F
  seen_edge project src dst rel = record {
    id = [];
    project_id = project;
    src_id = src;
    dst_id = dst;
    rel = rel;
    confidence = lit.one;
    first_seen = 0;
    last_seen = 0;
  }

  -- the round for one address
  unfoldable pub persist_ip : Net → ℕ → Bytes → Bytes → Ip → Stored T → Result Error (Stored T)
  unfolding upsert_asset upsert_edge
  persist_ip net now project host_id ip s = do
    (ip_asset, s1) ←
        upsert_asset db now
          (seen_asset project AssetType.ip (net.ip_string ip)
            ((codes "ip", Value.scalar (lit.of_text (net.ip_string ip))) ∷ []))
          s
    (edge, s2) ← upsert_edge db now (seen_edge project host_id ip_asset.id RelType.resolves_to) s1
    ok s2

  unfoldable pub persist_ips :
      Net → ℕ → Bytes → Bytes → List Ip → Stored T → Result Error (Stored T)
  unfolding persist_ip
  persist_ips net now project host_id [] s = ok s
  persist_ips net now project host_id (ip ∷ ips) s = do
    s' ← persist_ip net now project host_id ip s
    persist_ips net now project host_id ips s'

  -- persistHostname
  unfoldable pub persist_hostname :
      Net → ℕ → Bytes → Bytes → Bytes → List Ip → Bytes → Bytes → Stored T → Result Error (Stored T)
  unfolding upsert_asset upsert_edge add_provenance persist_ips
  persist_hostname net now project domain_id host ips source_module source s = do
    (host_asset, s1) ←
        upsert_asset db now
          (seen_asset project AssetType.hostname host (
            (codes "fqdn", Value.scalar (lit.of_text host))
            ∷ (codes "resolved", Value.scalar (lit.of_bool (is_not_nil ips)))
            ∷ []))
          s
    (p, s2) ←
        add_provenance db now
          (record {
            id = 0;
            project_id = project;
            subject_id = host_asset.id;
            subject_kind = codes "asset";
            source_module = source_module;
            source = source;
            evidence = [];
            confidence = lit.one;
            parent_id = [];
            observed_at = 0;
          })
          s1
    (edge, s3) ←
        upsert_edge db now (seen_edge project domain_id host_asset.id RelType.has_subdomain) s2
    persist_ips net now project host_asset.id ips s3

  -- persistPort
  unfoldable pub persist_port : Net → ℕ → Bytes → Ip → ℕ → Stored T → Result Error (Stored T)
  unfolding upsert_asset format
  persist_port net now project ip port s = do
    (port_asset, s') ←
        upsert_asset db now
          (seen_asset project AssetType.port
            (net.ip_string ip ++ (b':' ∷ (format port ++ codes "/tcp")))
            ((codes "ip", Value.scalar (lit.of_text (net.ip_string ip)))
              ∷ (codes "number", Value.scalar (lit.of_int port))
              ∷ (codes "transport", Value.scalar (lit.of_text (codes "tcp")))
              ∷ (codes "state", Value.scalar (lit.of_text (codes "open")))
              ∷ []))
          s
    ok s'
