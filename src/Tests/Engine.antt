-- ===== src/Tests/Engine.antt =====
-- The engine over the MemStore.
use certlight.Base.{
  map, lookup, ℕ, ◌≡◌, refl, String, true, not, none, some, List, [], ◌∷◌, ok, arith, contains,
  for_each,
}
use certlight.Core.Severity.{high, open_status, is_valid_severity}
use certlight.Core.Finding.{Finding, validate_for_ingest}
use certlight.Core.Collector.{ModuleInfo}
use certlight.Store.Records.{Record, by_fp}
use certlight.Store.Memory.{MemStore, new_mem_store, mem_ops, key, upsert, list_by_target}
use certlight.Store.Memory.Keys.{no_nul}
use certlight.Store.Memory.Laws.{mem_laws, IsKeyed}
use certlight.Store.Engine.{
  Engine, Scan, cap_evidence, open_record, refresh, save, draw_id, ingest_new, ingest_known, ingest,
  age_out, reconcile,
}
use certlight.Store.Engine.Rounds.{is_none}
use certlight.Store.Engine.Loops.{NoRepeat, fresh_at}
use certlight.Store.Engine.Refinement.{Reconciled, reconcile_refines}
use certlight.Store.Engine.Announced.{announced, refused}
use certlight.Store.Engine.Reports.{expired, reconcile_reports}
use certlight.Store.Engine.Totality.{IsReliable, reconcile_total}
use certlight.Store.Engine.Silence.{announced_once}

abbrev pub engine : Engine MemStore
engine = record { store = mem_ops; new_id = λ calls now. ok "id"; marshal = λ ev. some "{}" }

abbrev pub product : ModuleInfo
product = record {
  id = "certwatch";
  name = "CertLight";
  version = "0.1.5";
  target_kind = "host:port";
  default_interval = 12;
  resolve_after = 2;
}

abbrev pub weak_key : Finding
weak_key = record {
  fingerprint = "f1";
  target = "h:443";
  check = "tls.weak_key";
  title = "RSA key too small";
  severity = high;
  remediation = "Reissue";
  evidence = none;
  id = "";
  module_id = "";
  status = open_status;
  group_id = none;
  first_seen = 0;
  last_seen = 0;
  resolved_at = none;
}

abbrev known_weak_key : Record
known_weak_key = record {
  finding = record weak_key { id = "id"; module_id = "certwatch"; first_seen = 3; last_seen = 3 };
  absent_streak = 0;
}

abbrev pub known_store : MemStore
known_store = record { recs = (key "certwatch" "f1", known_weak_key) ∷ []; targets = none }

pub known_store-IsKeyed : IsKeyed known_store.recs
unfolding lookup no_nul
known_store-IsKeyed = (refl, refl, refl, tt)

engine_reliable : (now : ℕ) → IsReliable engine product now
unfolding list_by_target upsert
engine_reliable now = record {
  lists = λ s m t. (_, refl);
  writes = λ r s. refl;
  draws = λ calls. ("id", refl);
}

pub module_ok : no_nul product.id ≡ true
unfolding no_nul
module_ok = refl

-- The finding that the store knows is of the target.
known_home :
    (fp : String) (f : Finding) (r : Record)
    → fresh_at (weak_key ∷ []) fp ≡ some f
    → lookup (key product.id fp) known_store.recs ≡ some r
    → r.target ≡ "h:443"
unfolding lookup
known_home fp f r found known = ground arith

abbrev known_scan : (Scan MemStore)
known_scan = (reconcile engine product 5 "h:443" (weak_key ∷ []) known_store 0).0

reconcile_total_example :
    (t : Scan MemStore) × (reconcile engine product 5 "h:443" (weak_key ∷ []) known_store 0
      ≡ (t, none))
reconcile_total_example =
    reconcile_total engine product 5 (engine_reliable 5) "h:443" (weak_key ∷ []) known_store 0

known_scan_ok :
    reconcile engine product 5 "h:443" (weak_key ∷ []) known_store 0 ≡ (known_scan, none)
unfolding reconcile for_each ingest ingest_known save list_by_target validate_for_ingest
    is_valid_severity by_fp upsert age_out contains cap_evidence
known_scan_ok = refl

single : NoRepeat (weak_key ∷ [])
single = ((λ _. refl), tt)

reconcile_refines_example :
    Reconciled engine mem_laws product 5 "h:443" (weak_key ∷ []) known_store known_scan.store
reconcile_refines_example =
    reconcile_refines engine mem_laws product 5 "h:443" (weak_key ∷ []) known_store 0 known_scan
      module_ok known_store-IsKeyed single known_home known_scan_ok

-- A scan that the store does not know is announced.
new_finding_announced :
    map
      (λ (f : Finding). f.fingerprint)
      (reconcile engine product 5 "h:443" (weak_key ∷ []) new_mem_store 0).0.res.newly_open
    ≡ "f1" ∷ []
unfolding reconcile for_each ingest ingest_new draw_id save list_by_target validate_for_ingest
    is_valid_severity by_fp upsert open_record cap_evidence
new_finding_announced = refl

reconcile_reports_example :
    (existing : List Record) × (list_by_target known_store product.id "h:443" ≡ ok existing)
    × (known_scan.res.newly_open ≡ announced engine product 5 (by_fp existing) 0 (weak_key ∷ []))
    × (known_scan.res.rejected ≡ refused (weak_key ∷ []))
    × (known_scan.res.resolved_now
        ≡ expired engine product 5 (λ fp. not (is_none (fresh_at (weak_key ∷ []) fp))) existing)
reconcile_reports_example =
    reconcile_reports engine product 5 "h:443" (weak_key ∷ []) known_store 0 known_scan
      known_scan_ok

-- With a threshold of two, the second clear scan resolves the finding.
abbrev other_key : Finding
other_key = record weak_key { fingerprint = "f2" }

-- The scans at 7 and 9 return another finding, and the one at 8 none.
abbrev missing : List (ℕ × List Finding)
missing = (7, other_key ∷ []) ∷ (8, []) ∷ (9, other_key ∷ []) ∷ []

second_scan_ok :
    reconcile engine product 9 "h:443" (weak_key ∷ []) known_scan.store 1
    ≡ ((reconcile engine product 9 "h:443" (weak_key ∷ []) known_scan.store 1).0, none)
unfolding reconcile for_each ingest ingest_known save list_by_target validate_for_ingest
    is_valid_severity by_fp upsert age_out contains refresh cap_evidence
second_scan_ok = refl

announced_once_example :
    (reconcile engine product 9 "h:443" (weak_key ∷ []) known_scan.store 1).0.res.newly_open ≡ []
announced_once_example =
    announced_once engine mem_laws product "h:443" (weak_key ∷ []) 5 9 known_store 0 1 known_scan
      (reconcile engine product 9 "h:443" (weak_key ∷ []) known_scan.store 1).0 module_ok
      known_store-IsKeyed single (refl, tt) known_home known_scan_ok second_scan_ok
