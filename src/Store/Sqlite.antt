-- ===== src/Store/Sqlite.antt =====
-- SQLiteStore (store/sqlite.go). The database below it, with its driver, is a record of the
-- statements that the code sends: a statement gives the database that it leaves and an error. JSON is
-- a parameter too. A time is its instant, so `UTC` changes nothing.
pub mod Tables
pub mod Scanning
pub mod Evidence
pub mod Laws
pub mod Retention
pub mod Saved
pub mod Survival
use Prim.Native.String.{◌++◌}
use certlight.Base.{
  ℕ, String, Bool, false, ◌&&◌, ltb, Option, none, some, List, [], ◌∷◌, ◌==◌, if◌then◌else◌, Result,
  ok, err,
}
use certlight.Core.Severity.{
  severity_of_string, severity_to_string, status_of_string, status_to_string,
}
use certlight.Core.Value.{Fields, no_fields, field, text}
use certlight.Store.Records.{Record, StoreOps}

-- A row of `findings`; NULL is `none`.
pub record Row : Type 0 where
  pub id : String
  pub fingerprint : String
  pub module_id : String
  pub target : String
  pub check_id : String
  pub title : String
  pub severity : String
  pub status : String
  pub remediation : String
  pub evidence : Option String
  pub group_id : Option String
  pub first_seen : ℕ
  pub last_seen : ℕ
  pub resolved_at : Option ℕ
  pub absent_streak : ℕ

-- `sql.Rows`: what `Scan` gives for each row, and `Err` after the last.
pub record Rows (A : Type 0) : Type 0 where
  pub scans : List (Result String A)
  pub at_end : Option String

-- The statements. `find` is the `QueryRow`, where no row is `none`; `delete_where` is DELETE with its
-- WHERE clause as a test, and the number of the rows affected.
pub record Database (D : Type 0) : Type 0 where
  pub create : D → D × Option String
  pub of_target : D → String → String → Result String (Rows Row)
  pub of_status : D → String → String → Result String (Rows Row)
  pub of_module : D → String → Result String (Rows Row)
  pub find : D → String → String → Result String (Option Row)
  pub put : Row → D → D × Option String
  pub vacuum : D → D × Option String
  pub delete_where : (Row → Bool) → D → D × Result String ℕ
  pub add_target : String → String → String → D → D × Option String
  pub drop_target : String → String → D → D × Option String
  pub raws : D → String → Result String (Rows String)

-- `json.Marshal` and `json.Unmarshal` of an evidence map, the text `null` being no map.
pub record Json : Type 0 where
  pub marshal : Fields → Result String String
  pub unmarshal : String → Result String (Option Fields)

-- `status = ? AND resolved_at IS NOT NULL AND resolved_at < ?`
abbrev pub is_stale : String → ℕ → Row → Bool
is_stale status cutoff r =
    r.status == status && elim r.resolved_at [ none ↦ false | some t ↦ ltb t cutoff ]

abbrev pub unreadable : Fields
unreadable = field "_error" (text "stored evidence unreadable") no_fields

-- The loop over `rows.Next`, with what it makes of each row.
unfoldable pub scan_rows :
    {A B : Type 0} → (A → B) → List (Result String A) → Option String → Result String (List B)
scan_rows f [] none = ok []
scan_rows f [] (some x) = err x
scan_rows f (err x ∷ more) end = err x
scan_rows f (ok a ∷ more) end = elim (scan_rows f more end) [
  | err x ↦ err x
  | ok bs ↦ ok (f a ∷ bs)
]

-- A query, and the loop over its rows.
abbrev pub fetch : {A B : Type 0} → (A → B) → Result String (Rows A) → Result String (List B)
fetch f (err x) = err x
fetch f (ok rows) = scan_rows f rows.scans rows.at_end

module _ (json : Json) where
  -- The evidence that a row's text gives.
  abbrev pub read_text : Result String (Option Fields) → Option Fields
  read_text (ok evidence) = evidence
  read_text (err x) = some unreadable

  abbrev pub read_evidence : Option String → Option Fields
  read_evidence none = none
  read_evidence (some b) = if b == "" then none else read_text (json.unmarshal b)

  unfoldable pub scan_record : Row → Record
  scan_record row = record {
    finding = record {
      fingerprint = row.fingerprint;
      target = row.target;
      check = row.check_id;
      title = row.title;
      severity = severity_of_string row.severity;
      remediation = row.remediation;
      evidence = read_evidence row.evidence;
      id = row.id;
      module_id = row.module_id;
      status = status_of_string row.status;
      group_id = row.group_id;
      first_seen = row.first_seen;
      last_seen = row.last_seen;
      resolved_at = row.resolved_at;
    };
    absent_streak = row.absent_streak;
  }

  abbrev pub scan_found : Result String (Option Row) → Result String (Option Record)
  scan_found (err x) = err x
  scan_found (ok none) = ok none
  scan_found (ok (some row)) = ok (some (scan_record row))

  abbrev pub marshal_fields : Result String String → Result String (Option String)
  marshal_fields (ok b) = ok (some b)
  marshal_fields (err x) = err ("marshal evidence: " ++ x)

  abbrev pub marshal_evidence : Option Fields → Result String (Option String)
  marshal_evidence none = ok none
  marshal_evidence (some ev) = marshal_fields (json.marshal ev)

  -- The row that `Upsert` sends.
  unfoldable pub to_row : Record → Option String → Row
  to_row r evidence = record {
    id = r.id;
    fingerprint = r.fingerprint;
    module_id = r.module_id;
    target = r.target;
    check_id = r.check;
    title = r.title;
    severity = severity_to_string r.severity;
    status = status_to_string r.status;
    remediation = r.remediation;
    evidence = evidence;
    group_id = r.group_id;
    first_seen = r.first_seen;
    last_seen = r.last_seen;
    resolved_at = r.resolved_at;
    absent_streak = r.absent_streak;
  }

  module _ {D : Type 0} (db : Database D) where
    abbrev pub migrated : D × Option String → D × Option String
    migrated (d, none) = (d, none)
    migrated (d, some x) = (d, some ("sqlite migrate: " ++ x))

    unfoldable pub new_sqlite_store : D → D × Option String
    new_sqlite_store d = migrated (db.create d)

    unfoldable pub list_by_target : D → String → String → Result String (List Record)
    list_by_target d module_id target = fetch scan_record (db.of_target d module_id target)

    unfoldable pub list_open : D → String → Result String (List Record)
    list_open d module_id = fetch scan_record (db.of_status d module_id "open")

    unfoldable pub list_all : D → String → Result String (List Record)
    list_all d module_id = fetch scan_record (db.of_module d module_id)

    unfoldable pub get : D → String → String → Result String (Option Record)
    get d module_id fingerprint = scan_found (db.find d module_id fingerprint)

    abbrev pub put_marshalled : Record → Result String (Option String) → D → D × Option String
    put_marshalled r (err x) d = (d, some x)
    put_marshalled r (ok evidence) d = db.put (to_row r evidence) d

    unfoldable pub upsert : Record → D → D × Option String
    upsert r d = put_marshalled r (marshal_evidence r.evidence) d

    unfoldable pub reclaim : D → D × Option String
    reclaim = db.vacuum

    unfoldable pub prune_resolved_before : ℕ → D → D × Result String ℕ
    prune_resolved_before cutoff = db.delete_where (is_stale "resolved" cutoff)

    unfoldable pub save_target : String → String → String → D → D × Option String
    save_target = db.add_target

    unfoldable pub delete_target : String → String → D → D × Option String
    delete_target = db.drop_target

    unfoldable pub list_saved_targets : D → String → Result String (List String)
    list_saved_targets d module_id = fetch (λ raw. raw) (db.raws d module_id)

    abbrev pub sqlite_ops : StoreOps D
    sqlite_ops = record {
      list_by_target = list_by_target;
      upsert = upsert;
      get = get;
      list_open = list_open;
      list_all = list_all;
    }
