-- ===== src/Notify/Hfs.antt =====
-- The channel of Hexward Finding Schema events (notify/hfs.go) and the map of a finding onto the
-- schema's input (hfsbridge/hfsbridge.go). Package hexward-core is a parameter: what an event is made
-- of, and the sink's `Send`.
use certlight.Base.{ℕ, String, Option, none, some, List, map, ◌==◌, eqb, if◌then◌else◌}
use mathlib.Core.List
use certlight.Core.Severity.{severity_to_string, status_to_string}
use certlight.Core.Finding.{Finding}
use certlight.Core.Value.{Fields}
use certlight.Notify.Digest.{Digest, EventKind, opened, resolved, is_empty}

pub record Source : Type 0 where
  pub id : String
  pub fingerprint : String
  pub check : String
  pub title : String
  pub target : String
  pub severity : String
  pub status : String
  pub remediation : String
  pub first_seen : ℕ
  pub last_seen : ℕ
  pub resolved_at : Option ℕ
  pub group_id : Option String
  pub evidence : Option Fields

unfoldable pub source_of : Finding → Source
source_of f = record {
  id = f.id;
  fingerprint = f.fingerprint;
  check = f.check;
  title = f.title;
  target = f.target;
  severity = severity_to_string f.severity;
  status = status_to_string f.status;
  remediation = f.remediation;
  first_seen = f.first_seen;
  last_seen = f.last_seen;
  resolved_at = f.resolved_at;
  group_id = f.group_id;
  evidence = f.evidence;
}

pub record Meta : Type 0 where
  pub product : String
  pub version : String
  pub host : String

-- `hfs.New` with its options given.
abbrev pub NewEvent : Type 0 → Type 0
NewEvent E = EventKind → Meta → Source → ℕ → E

abbrev pub with_product : Meta → String → Meta
with_product meta m = if meta.product == "" then record meta { product = m } else meta

abbrev pub time_of : ℕ → Digest → ℕ
time_of now d = if eqb d.at 0 then now else d.at

module _ {E : Type 0} (new_event : NewEvent E) (now : ℕ) where
  abbrev pub event_of : EventKind → Meta → Digest → Finding → E
  event_of kind meta d f =
      new_event kind (with_product meta d.module_id) (source_of f) (time_of now d)

  unfoldable pub events : Meta → Digest → List E
  unfolding source_of
  events meta d =
      List.◌++◌ (map (event_of opened meta d) d.opened) (map (event_of resolved meta d) d.resolved)

  -- `sent` is what the sink is given, if it is called at all.
  unfoldable pub hfs_send :
      (List E → Option String) → Meta → Digest → Option (List E) × Option String
  unfolding events is_empty
  hfs_send sink meta d =
      if is_empty d then (none, none) else (some (events meta d), sink (events meta d))
