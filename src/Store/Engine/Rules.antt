-- ===== src/Store/Engine/Rules.antt =====
-- The lifecycle of a finding as the comments of store/reconcile.go and store/store.go describe it,
-- written out apart from the code of `Reconcile`.
use Prim.Native.String.{len}
use certlight.Base.{
  true, ℕ, suc, ◌≡◌, refl, String, Option, none, some, arith, leb, ltb, if◌then◌else◌,
}
use certlight.Core.Severity.{
  FindingStatus, open_status, resolved, acknowledged, suppressed, unknown_status,
}
use certlight.Core.Value.{Fields, text, bool, num, no_fields, field}
use certlight.Core.Finding.{Finding}
use certlight.Core.Collector.{ModuleInfo, resolve_after_or_default}
use certlight.Store.Records.{Record}
use certlight.Store.Engine.{cap_evidence, open_record, refresh, age, reaches_threshold}
use certlight.Store.Engine.Rounds.{settled, absent}

-- The scans in a row that must miss a finding: at least one.
abbrev pub threshold : ModuleInfo → ℕ
threshold m = if ltb 0 m.resolve_after then m.resolve_after else 1

pub threshold_lem : (m : ModuleInfo) → resolve_after_or_default m ≡ threshold m
unfolding resolve_after_or_default
threshold_lem m = ground arith

-- Evidence of up to the most bytes stays; else a marker stands in its place.
abbrev pub capped : (Fields → Option String) → Option Fields → Option Fields
capped marshal none = none
capped marshal (some ev) = elim (marshal ev) [
  | none ↦ some (field "_error" (text "evidence not serialisable; dropped") no_fields)
  | some b ↦
      if leb (len b) 65536
      then some ev
      else some (
          field "_truncated" (bool true) (
            field "_original_bytes" (num (len b)) (
              field "_note" (text "evidence exceeded MaxEvidenceBytes and was dropped") no_fields)))
]

-- A finding that comes back after it was resolved is open again.
abbrev pub status_of_reported : FindingStatus → FindingStatus
status_of_reported resolved = open_status
status_of_reported open_status = open_status
status_of_reported acknowledged = acknowledged
status_of_reported suppressed = suppressed
status_of_reported (unknown_status w p) = unknown_status w p

abbrev pub end_of_reported : FindingStatus → Option ℕ → Option ℕ
end_of_reported resolved t = none
end_of_reported open_status t = t
end_of_reported acknowledged t = t
end_of_reported suppressed t = t
end_of_reported (unknown_status w p) t = t

module _ (mod_info : ModuleInfo) (now : ℕ) where
  -- The record of a finding that a scan reports: a new one, open; or the known one, with what the
  -- collector says now, its status kept unless it was resolved, and no absence.
  abbrev pub by_rules : (Fields → Option String) → String → Option Record → Finding → Record
  by_rules marshal id none f = record {
    finding = record {
      fingerprint = f.fingerprint;
      target = f.target;
      check = f.check;
      title = f.title;
      severity = f.severity;
      remediation = f.remediation;
      evidence = capped marshal f.evidence;
      id = id;
      module_id = mod_info.id;
      status = open_status;
      group_id = f.group_id;
      first_seen = now;
      last_seen = now;
      resolved_at = f.resolved_at;
    };
    absent_streak = 0;
  }
  by_rules marshal id (some r) f = record {
    finding = record {
      fingerprint = r.fingerprint;
      target = r.target;
      check = r.check;
      title = f.title;
      severity = f.severity;
      remediation = f.remediation;
      evidence = capped marshal f.evidence;
      id = r.id;
      module_id = r.module_id;
      status = status_of_reported r.status;
      group_id = r.group_id;
      first_seen = r.first_seen;
      last_seen = now;
      resolved_at = end_of_reported r.status r.resolved_at;
    };
    absent_streak = 0;
  }

  -- One more absence, which resolves the finding unless the threshold is still ahead.
  abbrev pub counted : Record → Record
  counted r =
      if ltb (suc r.absent_streak) (threshold mod_info)
      then record { finding = r.finding; absent_streak = suc r.absent_streak }
      else record {
        finding = record r.finding { status = resolved; resolved_at = some now };
        absent_streak = suc r.absent_streak;
      }

  -- The record of a finding that a scan of its target misses: resolved and suppressed ones stay.
  abbrev pub missed_with : FindingStatus → Record → Record
  missed_with resolved r = r
  missed_with suppressed r = r
  missed_with open_status r = counted r
  missed_with acknowledged r = counted r
  missed_with (unknown_status w p) r = counted r

  abbrev pub missed : Record → Record
  missed r = missed_with r.status r

cap_evidence-capped :
    (marshal : Fields → Option String) (f : Finding)
    → cap_evidence marshal f ≡ record f { evidence = capped marshal f.evidence }
unfolding cap_evidence
cap_evidence-capped marshal f = ground arith

module _ (mod_info : ModuleInfo) (now : ℕ) where
  pub settled-by_rules :
      (marshal : Fields → Option String) (id : String) (o : Option Record) (f : Finding)
      → settled mod_info now id o (cap_evidence marshal f) ≡ by_rules mod_info now marshal id o f
  unfolding open_record refresh
  settled-by_rules marshal id none f = rw (cap_evidence-capped marshal f) refl
  settled-by_rules marshal id (some r) f = rw (cap_evidence-capped marshal f) (ground arith)

  age-counted : (r : Record) → age mod_info now r ≡ counted mod_info now r
  unfolding age reaches_threshold
  age-counted r = ground (arith, threshold_lem mod_info)

  pub absent-missed : (r : Record) → absent mod_info now r ≡ missed mod_info now r
  absent-missed r = rw (age-counted r) (ground arith)
