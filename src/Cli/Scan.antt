-- ===== src/Cli/Scan.antt =====
-- internal/cli/scan.go: `runScan`, `runDiscover` and `runBrute`. What is printed and logged is left out,
-- and the database is opened by the caller. The outside of a run is the record `Outside`; the order in
-- which the worker pool ends its calls is a part of it, and `now` stands for the time of every call.
use nett.Prelude.{
  ℕ, Bool, true, ◌||◌, Option, none, some, List, [], ◌∷◌, if◌then◌else◌, Result, ok, err, ◌>>=◌,
  ◌>>◌, check,
}
use nett.Text.{Bytes, codes, join}
use nett.Net.{Net, Ip}
use nett.Config.{Config}
use nett.Scope.{Scope, new, add_ip, add_domain}
use nett.Scope as Scopes
use nett.Model.AssetType
use nett.Store.Rows.{Stored, Database}
use nett.Store.Rows as Rows
use nett.Store.Assets.{upsert_asset}
use nett.Store.Projects.{create_project}
use nett.Dns.Wildcard.{Probing}
use nett.Permute.{load_wordlist, brute_force}
use nett.Permute as Permute
use nett.Subdomain.{Provider, discover, normalize_domain}
use nett.Subdomain as Subdomain
use nett.Scanner.{Dialer}
use nett.Cli.ScanArgs.{ScanFlags, parse_scan_args}
use nett.Cli.ScanArgs as ScanArgs
use nett.Cli.Persist.{Literals, seen_asset, persist_hostname}
use nett.Cli.PortScan.{run_port_scan}
use nett.Cli.PortScan as PortScan

pub data Error : Type 0 where
  usage : ScanArgs.Error → Error
  bad_scope : Scopes.Error → Error
  no_resolver no_data_dir : Error
  store : Rows.Error → Error
  discovery : Subdomain.Error → Error
  brute : Permute.Error → Error
  port_scan : PortScan.Error → Error

-- an error under the name of the call
abbrev pub named {ℓ} : {E : Type 0} {A : Type ℓ} → (E → Error) → Result E A → Result Error A
named f (err e) = err (f e)
named f (ok a) = ok a

pub record Outside : Type 0 where
  pub net : Net
  pub probing : Probing
  pub providers : List Provider
  -- of the path of a wordlist: the error of os.Open, or its lines and the error that ends them
  pub wordlist : Bytes → Result Bytes (List Bytes × Option Bytes)
  pub dialer : Dialer
  pub pool_hosts : List Bytes → List Bytes
  pub pool_ports : List ℕ → List ℕ
  -- whether dns.New and os.MkdirAll succeed
  pub opens_resolver : Bool
  pub makes_dir : Bool
  pub now : ℕ

-- the scope with the target
abbrev pub scope_with : Net → Bytes → Option Ip → Scope → Scope
scope_with net target none sc = add_domain target sc
scope_with net target (some ip) sc = add_ip net ip sc

module _ {F X T : Type 0} (db : Database F X T) (lit : Literals F X) (out : Outside)
    (cfg : Config F) where
  -- the rounds of runDiscover over the findings
  unfoldable pub persist_found :
      Bytes → List Subdomain.Finding → Stored T → Result Rows.Error (Stored T)
  unfolding persist_hostname join
  persist_found domain_id [] s = ok s
  persist_found domain_id (f ∷ findings) s = do
    s' ←
        persist_hostname db lit out.net out.now cfg.project domain_id f.hostname f.ips
          (codes "subdomain") (join f.sources b',') s
    persist_found domain_id findings s'

  -- runDiscover
  unfoldable pub run_discover : Scope → Bytes → Stored T → Result Error (Scope × Stored T)
  unfolding persist_found discover upsert_asset
  run_discover sc target s = do
    (findings, errors, sc') ←
        named Error.discovery (discover out.net out.probing out.pool_hosts sc out.providers target)
    (domain_asset, s1) ←
        named Error.store
          (upsert_asset db out.now (seen_asset db lit cfg.project AssetType.domain target []) s)
    s2 ← named Error.store (persist_found domain_asset.id findings s1)
    ok (sc', s2)

  unfoldable pub persist_brute :
      Bytes → List Permute.Finding → Stored T → Result Rows.Error (Stored T)
  unfolding persist_hostname
  persist_brute domain_id [] s = ok s
  persist_brute domain_id (f ∷ findings) s = do
    s' ←
        persist_hostname db lit out.net out.now cfg.project domain_id f.hostname f.ips
          (codes "permute") (codes "brute-force") s
    persist_brute domain_id findings s'

  -- runBrute
  unfoldable pub run_brute : Scope → Bytes → Bytes → Stored T → Result Error (Scope × Stored T)
  unfolding persist_brute load_wordlist brute_force upsert_asset
  run_brute sc target wordlist_path s = do
    words ← named Error.brute (load_wordlist (out.wordlist wordlist_path))
    (findings, sc') ←
        named Error.brute (brute_force out.net out.probing out.pool_hosts sc target words true)
    (domain_asset, s1) ←
        named Error.store
          (upsert_asset db out.now (seen_asset db lit cfg.project AssetType.domain target []) s)
    s2 ← named Error.store (persist_brute domain_asset.id findings s1)
    ok (sc', s2)

  -- if f.discover
  abbrev pub step_discover : ScanFlags → Bytes → Scope × Stored T → Result Error (Scope × Stored T)
  unfolding run_discover
  step_discover f target (sc, s) = if f.discover then run_discover sc target s else ok (sc, s)

  abbrev pub step_brute : ScanFlags → Bytes → Scope × Stored T → Result Error (Scope × Stored T)
  unfolding run_brute
  step_brute f target (sc, s) =
      if f.brute_requested then run_brute sc target f.brute_wordlist s else ok (sc, s)

  -- what is left of the outcome of a port scan
  abbrev pub without_results : {R : Type 0} → R × Scope × Stored T → Scope × Stored T
  without_results (results, sc, s) = (sc, s)

  abbrev pub scan_ports :
      ScanFlags → Bytes → Option Ip → Scope × Stored T → Result Error (Scope × Stored T)
  unfolding run_port_scan
  scan_ports f target ip (sc, s) = do
    r ← named Error.port_scan (
        run_port_scan db lit out.net out.probing.lookup_a out.dialer out.pool_ports out.now cfg sc
          target ip f s)
    ok (without_results r)

  abbrev pub step_ports :
      ScanFlags → Bytes → Option Ip → Scope × Stored T → Result Error (Scope × Stored T)
  unfolding scan_ports
  step_ports f target ip state =
      if f.tcp_requested || f.all_ports then scan_ports f target ip state else ok state

  -- runScan; `cfg_json` is the text of the configuration
  unfoldable pub run_scan : Bytes → List Bytes → Stored T → Result Error (Scope × Stored T)
  unfolding parse_scan_args normalize_domain new add_ip add_domain create_project step_discover
      step_brute step_ports
  run_scan cfg_json args s = do
    f ← named Error.usage (parse_scan_args args)
    let target = normalize_domain f.target
    let ip = out.net.parse_ip target
    sc ← named Error.bad_scope (new out.net cfg.scope)
    check out.opens_resolver Error.no_resolver
    check out.makes_dir Error.no_data_dir
    s0 ← named Error.store (create_project db out.now cfg.project cfg.project cfg_json s)
    state1 ← step_discover f target (scope_with out.net target ip sc, s0)
    state2 ← step_brute f target state1
    step_ports f target ip state2
