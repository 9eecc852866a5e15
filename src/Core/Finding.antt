-- ===== src/Core/Finding.antt =====
-- core.Finding, its check at the door, and its identity (core/finding.go). A time is a number of
-- nanoseconds since Go's zero time; a nil pointer or map is `none`.
use Prim.Native.String.{◌++◌}
use certlight.Base.{ℕ, String, Option, none, some, ◌==◌, if◌then◌else◌, ◌*◌, not}
use certlight.Core.Severity.{Severity, FindingStatus, is_valid_severity, severity_to_string}
use certlight.Core.Value.{Fields}

abbrev pub max_evidence_bytes : ℕ
max_evidence_bytes = 64 * 1024

pub record Finding : Type 0 where
  pub fingerprint : String
  pub target : String
  pub check : String
  pub title : String
  pub severity : Severity
  pub remediation : String
  pub evidence : Option Fields
  pub id : String
  pub module_id : String
  pub status : FindingStatus
  pub group_id : Option String
  pub first_seen : ℕ
  pub last_seen : ℕ
  pub resolved_at : Option ℕ

pub record IngestError : Type 0 where
  pub field : String
  pub reason : String

unfoldable pub ingest_error_text : IngestError → String
ingest_error_text e = "invalid finding: " ++ e.field ++ ": " ++ e.reason

unfoldable pub validate_for_ingest : Finding → Option IngestError
validate_for_ingest f =
    if f.fingerprint == ""
    then some (record { field = "fingerprint"; reason = "empty" })
    else if f.target == ""
    then some (record { field = "target"; reason = "empty" })
    else if f.check == ""
    then some (record { field = "check"; reason = "empty" })
    else if f.title == ""
    then some (record { field = "title"; reason = "empty" })
    else if f.remediation == ""
    then some (record {
      field = "remediation";
      reason = "empty (every finding must tell the user what to do)";
    })
    else if not (is_valid_severity f.severity)
    then some
        (record { field = "severity"; reason = "unknown value: " ++ severity_to_string f.severity })
    else none

-- `sha256.Sum256` and the hexadecimal print of its first 16 bytes are the parameter `digest`.
unfoldable pub fingerprint_of : (String → String) → String → String → String → String → String
fingerprint_of digest module_id target check discriminator =
    digest (module_id ++ "|" ++ target ++ "|" ++ check ++ "|" ++ discriminator)
