-- ===== src/Web/Listing.antt =====
-- The handlers that only read (web/server.go): the summary, the findings, their export and the
-- targets. A handler gives what it writes, or a refusal. The export writes the lines that
-- `hfs.Marshal` gives.
pub mod Agreement
use certlight.Base.{
  ℕ, suc, ◌+◌, ◌-◌, ◌*◌, ◌≡◌, refl, sym, ◌∙◌, ap, GoMap, lookup, insert, lookup-insert, String,
  Bool, true, false, ◌&&◌, ◌||◌, not, Option, none, some, List, [], ◌∷◌, map, ◌==◌, ltb, length,
  if◌then◌else◌, Result, Result-cases, ok, err, Bool-cases, inl, inr, arith, eq_iff,
}
use certlight.Core.Severity.{severity_to_string, status_to_string, FindingStatus}
use certlight.Core.Finding.{Finding}
use certlight.Core.Collector.{ModuleInfo, Target}
use certlight.Core.Value.{Fields}
use certlight.License.Tier.{tier_to_string}
use certlight.License.Activation.{Activation}
use certlight.Notify.Hfs.{Meta, Source, source_of}
use certlight.Store.Records.{Record, StoreOps}
use certlight.Store.Engine.{is_resolved}
use certlight.Sched.Registry.{Scheduler, list_targets}
use certlight.Web.Status.{Reply}

pub data Answer (A : Type 0) : Type 0 where
  wrote : A → Answer A
  refused : Reply → Answer A

abbrev pub store_error : Reply
store_error = record { code = 500; message = "store error" }

pub record Summary : Type 0 where
  pub product : String
  pub tier : String
  pub notice : String
  pub counts : GoMap ℕ
  pub open_total : ℕ
  pub targets : ℕ
  pub max_targets : ℕ
  pub can_scan_now : Bool

abbrev pub or_zero : Option ℕ → ℕ
or_zero none = 0
or_zero (some n) = n

-- `counts[string(rec.Severity)]++`
unfoldable pub tally : List Record → GoMap ℕ → GoMap ℕ
unfolding lookup insert
tally [] counts = counts
tally (r ∷ rs) counts =
    let name = severity_to_string r.severity in
    tally rs (insert name (suc (or_zero (lookup name counts))) counts)

abbrev pub summary_of : ModuleInfo → Activation → Scheduler → List Record → Summary
summary_of mod_info act sched records = record {
  product = mod_info.name;
  tier = tier_to_string act.tier;
  notice = act.notice;
  counts = tally records [];
  open_total = length records;
  targets = length (list_targets mod_info.id sched);
  max_targets = act.limits.max_targets;
  can_scan_now = act.limits.scan_now;
}

abbrev pub with_records : {A : Type 0} → Result String (List Record) → (List Record → A) → Answer A
with_records (err x) f = refused store_error
with_records (ok rs) f = wrote (f rs)

unfoldable pub handle_summary :
    {S : Type 0} → StoreOps S → ModuleInfo → Activation → Scheduler → S → Answer Summary
unfolding tally
handle_summary store mod_info act sched s =
    with_records (store.list_open s mod_info.id) (summary_of mod_info act sched)

pub record FindingJson : Type 0 where
  pub fingerprint : String
  pub target : String
  pub check : String
  pub title : String
  pub severity : String
  pub status : String
  pub remediation : String
  pub evidence : Option Fields
  pub first_seen : ℕ
  pub last_seen : ℕ

unfoldable pub to_json : Record → FindingJson
to_json r = record {
  fingerprint = r.fingerprint;
  target = r.target;
  check = r.check;
  title = r.title;
  severity = severity_to_string r.severity;
  status = status_to_string r.status;
  remediation = r.remediation;
  evidence = r.evidence;
  first_seen = r.first_seen;
  last_seen = r.last_seen;
}

-- The condition of `handleFindings`.
unfoldable pub is_hidden : ℕ → Record → Bool
is_hidden now r =
    is_resolved r.status
    && elim r.resolved_at [ none ↦ true | some t ↦ ltb (24 * 3600 * 1000000000) (now - t) ]

-- The loop of `handleFindings`.
unfoldable pub shown : ℕ → List Record → List FindingJson
unfolding to_json is_hidden
shown now [] = []
shown now (r ∷ rs) = let rest = shown now rs in if is_hidden now r then rest else to_json r ∷ rest

unfoldable pub handle_findings :
    {S : Type 0} → StoreOps S → ModuleInfo → ℕ → S → Answer (List FindingJson)
unfolding shown
handle_findings store mod_info now s = with_records (store.list_all s mod_info.id) (shown now)

abbrev pub cons_line : Result String String → List String → List String
cons_line (ok line) rest = line ∷ rest
cons_line (err x) rest = rest

abbrev pub export_meta : Meta → ModuleInfo → Meta
export_meta meta mod_info =
    if meta.product == ""
    then record meta { product = mod_info.id; version = mod_info.version }
    else meta

-- The condition of `handleFindingsExport`.
unfoldable pub is_skipped : ℕ → Record → Bool
is_skipped now r =
    is_resolved r.status
    && elim r.resolved_at [ none ↦ true | some t ↦ ltb (24 * 3600 * 1000000000) (now - t) ]

-- The loop of `handleFindingsExport`; `line` is `hfs.Marshal` of the snapshot event.
unfoldable pub exported : (Source → Result String String) → ℕ → List Record → List String
unfolding source_of is_skipped
exported line now [] = []
exported line now (r ∷ rs) =
    let rest = exported line now rs in
    if is_skipped now r then rest else cons_line (line (source_of r.finding)) rest

unfoldable pub handle_findings_export :
    {S : Type 0}
    → StoreOps S
    → ModuleInfo
    → Meta
    → (Meta → ℕ → Source → Result String String)
    → ℕ
    → String
    → S
    → Answer (List String)
unfolding exported
handle_findings_export store mod_info meta line now format s =
    if not (format == "") && not (format == "hfs")
    then refused (record { code = 400; message = "format must be hfs" })
    else with_records (store.list_all s mod_info.id)
        (exported (line (export_meta meta mod_info) now) now)

unfoldable pub handle_list_targets : ModuleInfo → Scheduler → List (String × String)
handle_list_targets mod_info sched =
    map (λ (t : Target). (t.raw, t.canonical)) (list_targets mod_info.id sched)
