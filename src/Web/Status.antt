-- ===== src/Web/Status.antt =====
-- Setting a finding's status (web/server.go), over any store. A reply is its HTTP status, 200 for
-- success, and its message.
use certlight.Base.{
  ◌||◌, ℕ, String, Bool, true, false, Option, none, some, if◌then◌else◌, Result, ok, err, ◌==◌,
}
use certlight.Core.Severity.{FindingStatus, open_status, acknowledged, suppressed, status_of_string}
use certlight.Store.Records.{Record, StoreOps}

pub record Reply : Type 0 where
  pub code : ℕ
  pub message : String

-- The statuses that a user may set.
abbrev pub is_settable : FindingStatus → Bool
is_settable open_status = true
is_settable acknowledged = true
is_settable suppressed = true
is_settable _ = false

abbrev pub with_status : FindingStatus → Record → Record
with_status next r = record r { finding = record r.finding { status = next } }

module _ {S : Type 0} (store : StoreOps S) (m : String) where
  abbrev pub saved : S × Option String → S × Reply
  saved (s, none) = (s, record { code = 200; message = "true" })
  saved (s, some x) = (s, record { code = 500; message = "store error" })

  -- What follows `Get`.
  abbrev pub set_found : FindingStatus → Result String (Option Record) → S → S × Reply
  set_found next (err x) s = (s, record { code = 404; message = "finding not found" })
  set_found next (ok none) s = (s, record { code = 404; message = "finding not found" })
  set_found next (ok (some r)) s = saved (store.upsert (with_status next r) s)

  -- `body` is the fingerprint and the status of the request, `none` where it is no JSON.
  unfoldable pub handle_finding_status : Option (String × String) → S → S × Reply
  handle_finding_status none s = (s, record { code = 400; message = "invalid JSON" })
  handle_finding_status (some (fp, status)) s =
      if is_settable (status_of_string status)
      then set_found (status_of_string status) (store.get s m fp) s
      else (s, record { code = 400; message = "status must be acknowledged, suppressed, or open" })

abbrev pub map_status : FindingStatus → Option Record → Option Record
map_status next none = none
map_status next (some r) =
    some (record { finding = record r.finding { status = next }; absent_streak = r.absent_streak })

-- The words that a request may use.
abbrev pub is_word : String → Bool
is_word status = status == "open" || status == "acknowledged" || status == "suppressed"
