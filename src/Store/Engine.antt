-- ===== src/Store/Engine.antt =====
-- The reconcile engine (store/reconcile.go, and `Engine` of store/store.go). The clock's answer is
-- the argument `now`; the id generator is `new_id`, whose first argument counts its calls, since
-- two calls at one time give two ids. `marshal` is `json.Marshal`, `none` where it fails.
pub mod Rounds
pub mod Rules
pub mod Loops
pub mod Refinement
pub mod Announced
pub mod Reports
pub mod Totality
pub mod Lifecycle
pub mod Clear
pub mod Silence
use Prim.Native.String.{len}
use certlight.Base.{
  ℕ, suc, String, Bool, true, false, Option, none, some, List, [], ◌∷◌, ◌++◌, ltb, leb,
  if◌then◌else◌, Result, ok, err, contains, Stmt, next, for_each,
}
use certlight.Core.Severity.{
  FindingStatus, open_status, resolved, acknowledged, suppressed, unknown_status,
}
use certlight.Core.Value.{Value, text, bool, num, Fields, no_fields, field}
use certlight.Core.Finding.{Finding, IngestError, validate_for_ingest, max_evidence_bytes}
use certlight.Core.Collector.{ModuleInfo, resolve_after_or_default}
use certlight.Store.Records.{Record, StoreOps, by_fp}

pub record RejectedFinding : Type 0 where
  pub finding : Finding
  pub error : IngestError

pub record ReconcileResult : Type 0 where
  pub newly_open : List Finding
  pub resolved_now : List Finding
  pub rejected : List RejectedFinding

pub record Engine (S : Type 0) : Type 0 where
  pub store : StoreOps S
  pub new_id : ℕ → ℕ → Result String String
  pub marshal : Fields → Option String

-- The variables of `Reconcile` that its loops change, and the number of ids asked for.
pub record Scan (S : Type 0) : Type 0 where
  pub res : ReconcileResult
  pub seen : List String
  pub store : S
  pub calls : ℕ

abbrev pub truncation_marker : ℕ → Fields
truncation_marker n = field "_truncated" (bool true) (
    field "_original_bytes" (num n)
      (field "_note" (text "evidence exceeded MaxEvidenceBytes and was dropped") no_fields))

abbrev pub unserialisable_marker : Fields
unserialisable_marker = field "_error" (text "evidence not serialisable; dropped") no_fields

unfoldable pub cap_evidence : (Fields → Option String) → Finding → Finding
cap_evidence marshal f = elim f.evidence [
  | none ↦ f
  | some ev ↦ elim (marshal ev) [
    | none ↦ record f { evidence = some unserialisable_marker }
    | some b ↦
        if ltb max_evidence_bytes (len b)
        then record f { evidence = some (truncation_marker (len b)) }
        else f
  ]
]

abbrev pub is_resolved : FindingStatus → Bool
is_resolved resolved = true
is_resolved _ = false

-- The `switch` that leaves resolved and suppressed records alone.
abbrev pub is_settled : FindingStatus → Bool
is_settled resolved = true
is_settled suppressed = true
is_settled _ = false

module _ (mod_info : ModuleInfo) (now : ℕ) where
  -- The record of a fingerprint that the store does not know.
  unfoldable pub open_record : String → Finding → Record
  open_record id f = record {
    finding = record f {
      id = id;
      module_id = mod_info.id;
      status = open_status;
      first_seen = now;
      last_seen = now;
    };
    absent_streak = 0;
  }

  reopen : Bool → Finding → Finding
  reopen true f = record f { status = open_status; resolved_at = none }
  reopen false f = f

  -- `merged`: the known record with what the collector says now.
  unfoldable pub refresh : Record → Finding → Record
  unfolding reopen
  refresh prev f = record {
    finding = reopen (is_resolved prev.status) (record prev.finding {
      title = f.title;
      severity = f.severity;
      remediation = f.remediation;
      evidence = f.evidence;
      last_seen = now;
    });
    absent_streak = 0;
  }

  -- A record that the collector did not return: one more absent scan, and resolved at the
  -- threshold.
  unfoldable pub reaches_threshold : Record → Bool
  unfolding resolve_after_or_default
  reaches_threshold r = leb (resolve_after_or_default mod_info) (suc r.absent_streak)

  unfoldable pub age : Record → Record
  unfolding reaches_threshold
  age r =
      if reaches_threshold r
      then record {
        finding = record r.finding { status = resolved; resolved_at = some now };
        absent_streak = suc r.absent_streak;
      }
      else record r { absent_streak = suc r.absent_streak }

module _ {S : Type 0} where
  abbrev pub push_open : Finding → Scan S → Scan S
  push_open f sc = record sc { res = record sc.res { newly_open = sc.res.newly_open ++ f ∷ [] } }

  abbrev pub push_resolved : Finding → Scan S → Scan S
  push_resolved f sc = record sc {
    res = record sc.res { resolved_now = sc.res.resolved_now ++ f ∷ [] };
  }

  abbrev pub push_rejected : Finding → IngestError → Scan S → Scan S
  push_rejected f x sc = record sc {
    res = record sc.res { rejected = sc.res.rejected ++ record { finding = f; error = x } ∷ [] };
  }

  abbrev pub start : S → ℕ → Scan S
  start s calls = record {
    res = record { newly_open = []; resolved_now = []; rejected = [] };
    seen = [];
    store = s;
    calls = calls;
  }

module _ {S : Type 0} (e : Engine S) (mod_info : ModuleInfo) (now : ℕ) where
  -- `if err := e.store.Upsert(r); err != nil { return res, err }`
  unfoldable pub save : Record → Stmt (Scan S) String
  save r sc = let (s', x) = e.store.upsert r sc.store in (record sc { store = s' }, x)

  -- The id of a new finding, or the generator's error.
  unfoldable pub draw_id : Scan S → Scan S × Result String String
  draw_id sc = (record sc { calls = suc sc.calls }, e.new_id sc.calls now)

  abbrev pub insert_new : Finding → Scan S × Result String String → Scan S × Option String
  insert_new f (sc, err x) = (sc, some x)
  insert_new f (sc, ok id) =
      let r = open_record mod_info now id f in
      next (save r sc) (λ sc'. (push_open r.finding sc', none))

  unfoldable pub ingest_new : Finding → Stmt (Scan S) String
  ingest_new f sc = insert_new f (draw_id sc)

  unfoldable pub ingest_known : Record → Finding → Stmt (Scan S) String
  ingest_known prev f sc =
      let merged = refresh mod_info now prev f in
      next (save merged sc)
        (λ sc'. (if is_resolved prev.status then push_open merged.finding sc' else sc', none))

  abbrev pub ingest_valid : Option Record → Finding → Stmt (Scan S) String
  ingest_valid none f = ingest_new f
  ingest_valid (some prev) f = ingest_known prev f

  -- One round of the loop over `fresh`.
  unfoldable pub ingest : List Record → Finding → Stmt (Scan S) String
  ingest existing f sc = elim (validate_for_ingest f) [
    | some x ↦ (push_rejected f x sc, none)
    | none ↦
        let g = cap_evidence e.marshal f in
        ingest_valid (by_fp existing g.fingerprint) g (record sc { seen = g.fingerprint ∷ sc.seen })
  ]

  -- One round of the loop over `existing`.
  unfoldable pub age_out : Record → Stmt (Scan S) String
  age_out r sc =
      if contains r.fingerprint sc.seen
      then (sc, none)
      else if is_settled r.status
      then (sc, none)
      else let aged = age mod_info now r in
        save aged (if reaches_threshold mod_info now r then push_resolved aged.finding sc else sc)

  unfoldable pub reconcile : String → List Finding → S → ℕ → Scan S × Option String
  reconcile target fresh s calls = elim (e.store.list_by_target s mod_info.id target) [
    | err x ↦ (start s calls, some x)
    | ok existing ↦
        next (for_each (ingest existing) fresh (start s calls)) (for_each age_out existing)
  ]
