-- ===== src/Tests/Sched.antt =====
-- The scheduler with the engine over the MemStore and two channels.
use certlight.Base.{
  ℕ, ◌+◌, ◌*◌, ◌^◌, ◌≡◌, refl, inl, String, true, none, some, List, [], ◌∷◌, ◌++◌, length, pos, leb,
  ok, arith, In, for_each,
}
use certlight.Core.Finding.{Finding, validate_for_ingest}
use certlight.Core.Severity.{is_valid_severity}
use certlight.Core.Collector.{Target}
use certlight.Store.Records.{by_fp}
use certlight.Store.Memory.{MemStore, new_mem_store, list_by_target, upsert}
use certlight.Store.Engine.{reconcile, ingest, ingest_new, draw_id, save, open_record, cap_evidence}
use certlight.Notify.Dispatcher.{new_dispatcher, passes_severity, with_defaults}
use certlight.Sched.Config.{Config, backoff_for}
use certlight.Sched.Backoff.{min, backoff_for-min}
use certlight.Sched.Sweep.{
  Failures, Ended, failed, canceled, failures_of, gate_of, is_due, add_duration, after_scans,
  all_alone, outage, after_scans-alone, outage-is_due,
}
use certlight.Sched.Registry.{Collector, Scheduler, new_scheduler, register, add_target}
use certlight.Sched.Scan.{World}
use certlight.Tests.Engine.{engine, product, weak_key}
use certlight.Tests.Notify.{config, numbers}

-- A jitter is a number of hundredths.
abbrev pub sched_config : Config ℕ
sched_config = record {
  workers = pos 8;
  scan_timeout = pos 30000000000;
  jitter_fraction = 10;
  retry_base = pos 30000000000;
  retry_max = pos 900000000000;
  interval_override = pos 0;
}

backoff_for-min_example : backoff_for sched_config 4 ≡ pos (min (30000000000 * 2 ^ 3) 900000000000)
backoff_for-min_example =
    backoff_for-min sched_config 30000000000 900000000000 3 refl refl (omega arith) (omega arith)

-- The sixth failure in a row waits the most, a quarter of an hour.
capped_delay : backoff_for sched_config 6 ≡ pos 900000000000
unfolding backoff_for
capped_delay = refl

abbrev calm : Failures
calm = record { failures = []; next_ok = [] }

abbrev mixed : List (Ended sched_config)
mixed =
    (5, "a:443", some (failed "timeout")) ∷ (6, "b:443", none) ∷ (7, "a:443", some canceled) ∷ []

after_scans-alone_example :
    (
      failures_of "b:443" (after_scans sched_config mixed calm),
      gate_of "b:443" (after_scans sched_config mixed calm),
    )
    ≡ all_alone sched_config "b:443" mixed (failures_of "b:443" calm, gate_of "b:443" calm)
after_scans-alone_example = after_scans-alone sched_config "b:443" mixed calm

abbrev down : List (ℕ × String)
down = (5, "timeout") ∷ []

outage-is_due_example :
    (failures_of "a:443"
        (after_scans sched_config (outage sched_config "a:443" (down ++ (9, "refused") ∷ [])) calm)
      ≡ failures_of "a:443" calm + length down + 1)
    × (is_due 70 "a:443" (
          after_scans sched_config (outage sched_config "a:443" (down ++ (9, "refused") ∷ [])) calm)
        ≡ leb
            (add_duration 9 (backoff_for sched_config (failures_of "a:443" calm + length down + 1)))
            70)
outage-is_due_example = outage-is_due sched_config "a:443" down 9 70 "refused" calm

abbrev pub collector : Collector
collector = record {
  describe = product;
  validate_target = λ raw. ok (record { raw = raw; canonical = "h:443"; meta = [] });
}

abbrev pub ready : Scheduler
ready = (register collector new_scheduler).0

abbrev pub target : Target
target = record { raw = "h"; canonical = "h:443"; meta = [] }

abbrev pub watched : Scheduler
watched = (add_target "certwatch" "h" ready).0

abbrev pub world : World MemStore ℕ
world = record { store = new_mem_store; calls = 0; dispatcher = new_dispatcher config numbers }

abbrev pub opened_key : Finding
opened_key = (open_record product 5 "id" weak_key).finding

pub is_new :
    In opened_key
      (reconcile engine product 5 "h:443" (weak_key ∷ []) new_mem_store 0).0.res.newly_open
unfolding reconcile list_by_target for_each ingest validate_for_ingest is_valid_severity by_fp
    ingest_new draw_id save upsert cap_evidence
is_new = inl refl

pub passes : passes_severity world.dispatcher.cfg opened_key.severity ≡ true
unfolding passes_severity with_defaults open_record
passes = refl
