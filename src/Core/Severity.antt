-- ===== src/Core/Severity.antt =====
-- Severities and finding states of core/finding.go. Both are strings there: the constructor
-- `unknown` stands for a string that no constant names, and carries that it does.
use mathlib.Core.Bool.{Bool-set}
use certlight.Base.{
  arith, eq_iff, ℤ, pos, negsuc, leb_ℤ, String, ◌≡◌, refl, ap, Bool, true, false, ◌||◌, ◌==◌,
  if◌then◌else◌,
}

-- The names of the constants.
abbrev pub is_severity : String → Bool
is_severity s = s == "critical" || s == "high" || s == "medium" || s == "low" || s == "info"

pub data Severity : Type 0 where
  critical high medium low info : Severity
  unknown : (s : String) → is_severity s ≡ false → Severity

abbrev pub severity_by_name : (s : String) (b : Bool) → is_severity s ≡ b → Severity
severity_by_name s false p = unknown s p
severity_by_name s true p =
    if s == "critical"
    then critical
    else if s == "high"
    then high
    else if s == "medium"
    then medium
    else if s == "low"
    then low
    else info

-- `Severity(s)`
abbrev pub severity_of_string : String → Severity
severity_of_string s = severity_by_name s (is_severity s) refl

abbrev pub severity_to_string : Severity → String
severity_to_string critical = "critical"
severity_to_string high = "high"
severity_to_string medium = "medium"
severity_to_string low = "low"
severity_to_string info = "info"
severity_to_string (unknown s p) = s

unfoldable pub rank : Severity → ℤ
rank critical = pos 4
rank high = pos 3
rank medium = pos 2
rank low = pos 1
rank info = pos 0
rank (unknown _ _) = negsuc 0

-- `Valid`
unfoldable pub is_valid_severity : Severity → Bool
unfolding rank
is_valid_severity s = leb_ℤ (pos 0) (rank s)

abbrev pub is_status : String → Bool
is_status s = s == "open" || s == "resolved" || s == "acknowledged" || s == "suppressed"

pub data FindingStatus : Type 0 where
  open_status resolved acknowledged suppressed : FindingStatus
  unknown_status : (s : String) → is_status s ≡ false → FindingStatus

abbrev pub status_by_name : (s : String) (b : Bool) → is_status s ≡ b → FindingStatus
status_by_name s false p = unknown_status s p
status_by_name s true p =
    if s == "open"
    then open_status
    else if s == "resolved"
    then resolved
    else if s == "acknowledged"
    then acknowledged
    else suppressed

-- `FindingStatus(s)`
abbrev pub status_of_string : String → FindingStatus
status_of_string s = status_by_name s (is_status s) refl

abbrev pub status_to_string : FindingStatus → String
status_to_string open_status = "open"
status_to_string resolved = "resolved"
status_to_string acknowledged = "acknowledged"
status_to_string suppressed = "suppressed"
status_to_string (unknown_status s p) = s

severity_by_name-unknown :
    (s : String) (b : Bool) (q : is_severity s ≡ b) (p : is_severity s ≡ false)
    → severity_by_name s b q ≡ unknown s p
severity_by_name-unknown s true q p = cc
severity_by_name-unknown s false q p = ap (unknown s) (Bool-set _ _ q p)

status_by_name-unknown :
    (s : String) (b : Bool) (q : is_status s ≡ b) (p : is_status s ≡ false)
    → status_by_name s b q ≡ unknown_status s p
status_by_name-unknown s true q p = cc
status_by_name-unknown s false q p = ap (unknown_status s) (Bool-set _ _ q p)

-- A severity is its string, and so is a status.
pub severity_of_string-severity_to_string :
    (x : Severity) → severity_of_string (severity_to_string x) ≡ x
severity_of_string-severity_to_string critical = refl
severity_of_string-severity_to_string high = refl
severity_of_string-severity_to_string medium = refl
severity_of_string-severity_to_string low = refl
severity_of_string-severity_to_string info = refl
severity_of_string-severity_to_string (unknown s p) =
    severity_by_name-unknown s (is_severity s) refl p

pub status_of_string-status_to_string :
    (x : FindingStatus) → status_of_string (status_to_string x) ≡ x
status_of_string-status_to_string open_status = refl
status_of_string-status_to_string resolved = refl
status_of_string-status_to_string acknowledged = refl
status_of_string-status_to_string suppressed = refl
status_of_string-status_to_string (unknown_status s p) =
    status_by_name-unknown s (is_status s) refl p

status_to_string-status_by_name :
    (s : String) (b : Bool) (p : is_status s ≡ b) → status_to_string (status_by_name s b p) ≡ s
status_to_string-status_by_name s false p = refl
status_to_string-status_by_name s true p =
    ground (
      arith,
      p,
      eq_iff s "open",
      eq_iff s "resolved",
      eq_iff s "acknowledged",
      eq_iff s "suppressed",
    )

pub status_to_string-status_of_string : (s : String) → status_to_string (status_of_string s) ≡ s
status_to_string-status_of_string s = status_to_string-status_by_name s (is_status s) refl
