-- ===== src/Tests/Notify.antt =====
-- The dispatcher with two channels, named by numbers.
use certlight.Base.{
  true, ℕ, zero, suc, contains, ◌≡◌, refl, ◌&&◌, not, String, false, Option, none, some, List, [],
  ◌∷◌, pos,
}
use certlight.Core.Finding.{Finding}
use certlight.Core.Severity.{high, low, critical, open_status}
use certlight.Notify.Digest.{Event, opened}
use certlight.Notify.Dispatcher.{
  Config, with_defaults, new_dispatcher, is_opened, passes_severity, enqueue, flush, close,
}
use certlight.Notify.Batching.{Call, enqueue_at, flush_at, run}
use certlight.Notify.Delivery.{SentSince}
use certlight.Notify.Loss.{StandsFor, no_event_lost}
use certlight.Notify.Retry.{Outcome, rounds, send_with_retry, send_with_retry-Outcome}

abbrev weak_key : Finding
weak_key = record {
  fingerprint = "f1";
  target = "h:443";
  check = "tls.weak_key";
  title = "RSA key too small";
  severity = high;
  remediation = "Reissue";
  evidence = none;
  id = "1";
  module_id = "certwatch";
  status = open_status;
  group_id = none;
  first_seen = 0;
  last_seen = 0;
  resolved_at = none;
}

abbrev expired : Finding
expired = record weak_key { fingerprint = "f2"; check = "tls.expired"; severity = critical }

abbrev pub config : Config
config = record {
  flush_interval = pos 0;
  max_batch = pos 2;
  min_severity = low;
  retries = pos 0;
  retry_delay = pos 0;
}

abbrev announce : Finding → Event
announce f = record { kind = opened; module_id = "certwatch"; finding = f }

abbrev calls : List Call
calls = enqueue_at 1 (announce weak_key) ∷ flush_at 2 ∷ []

abbrev pub numbers : List ℕ
numbers = 1 ∷ 2 ∷ []

abbrev fails_twice : ℕ → Option String
fails_twice zero = some "timeout"
fails_twice (suc zero) = some "refused"
fails_twice _ = none

send_with_retry-Outcome_example :
    Outcome true fails_twice
      (rounds (with_defaults config).retries)
      (send_with_retry true fails_twice (with_defaults config))
send_with_retry-Outcome_example = send_with_retry-Outcome true fails_twice config

passes :
    (is_opened (announce expired).kind
      && not (passes_severity (run calls (new_dispatcher config numbers)).cfg critical))
    ≡ false
unfolding passes_severity flush enqueue with_defaults contains
passes = refl

still_open : (run calls (new_dispatcher config numbers)).closed ≡ false
unfolding enqueue flush with_defaults contains
still_open = refl

no_event_lost_example :
    let d = run calls (new_dispatcher config numbers) in
    (x : Event) × StandsFor x (announce expired) d
    × SentSince d.sent numbers x
        (close 9 (run (flush_at 7 ∷ []) (enqueue 5 (announce expired) d))).sent
no_event_lost_example =
    no_event_lost config numbers calls (flush_at 7 ∷ []) 5 9 (announce expired) passes still_open
