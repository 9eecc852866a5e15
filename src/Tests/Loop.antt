-- ===== src/Tests/Loop.antt =====
-- The loop over the MemStore and two channels: a scan that fails, one after it that succeeds.
use certlight.Base.{
  ℕ, ◌+◌, ◌≡◌, refl, inl, String, false, none, [], ◌∷◌, ok, err, arith, lookup, insert, for_each,
}
use certlight.Notify.Digest.{Event}
use certlight.Notify.Dispatcher.{event_key, close}
use certlight.Notify.Delivery.{SentSince}
use certlight.Core.Finding.{validate_for_ingest}
use certlight.Core.Severity.{is_valid_severity}
use certlight.Store.Records.{by_fp}
use certlight.Store.Engine.{reconcile, ingest, ingest_new, draw_id, save}
use certlight.Store.Memory.{MemStore, list_by_target, upsert}
use certlight.Sched.Registry.{stop, Scheduler, start, list_targets, register, add_target}
use certlight.Sched.Sweep.{canceled, failed, is_due, gate_of, after_scan}
use certlight.Sched.Scan.{scan_one}
use certlight.Sched.Loop.{
  Loop, Job, swept, job_of, begin, wake, look, finish, tick, wakes, looks, acquires, ends, Run,
  here, next, looked, settle,
}
use certlight.Sched.Loop.Told.{Run-SentTo}
use certlight.Sched.Announcement.{announcement}
use certlight.Sched.Loop.Drain.{IsStopped, scans_over, Run-Drained}
use certlight.Sched.Loop.Waits.{in_wait, in_flight}
use certlight.Sched.Loop.Steps.{Idle}
use certlight.Sched.Loop.Bounded.{IsBounded, Run-Bounded}
use certlight.Sched.Loop.Again.{Launched, wake-Launched}
use certlight.Tests.Engine.{engine, product, weak_key}
use certlight.Tests.Notify.{config, numbers}
use certlight.Tests.Sched.{sched_config, watched, target, world, opened_key, is_new, passes}

abbrev job : Job
job = job_of swept target

abbrev started : Scheduler
started = (start false watched).0

abbrev at_start : Loop MemStore ℕ
at_start = begin started world 5

abbrev woken : Loop MemStore ℕ
woken = wake sched_config engine product at_start

abbrev launched : Loop MemStore ℕ
launched = look sched_config engine product target [] woken

abbrev scanning : Loop MemStore ℕ
scanning = record launched { waiting = []; scanning = job ∷ [] }

abbrev after_failure : Loop MemStore ℕ
after_failure =
    finish sched_config engine product job none (err (failed "timeout"))
      (record scanning { scanning = [] })

swept_once : Run sched_config engine product at_start launched
unfolding list_targets lookup register add_target insert start
swept_once = next (next here (wakes refl refl)) (looks target [] refl refl)

failed_once : Run sched_config engine product at_start after_failure
unfolding look is_due gate_of lookup
failed_once =
    next (next swept_once (acquires [] job [] refl refl))
      (ends [] job [] (err (failed "timeout")) refl)

Run-Bounded_example :
    IsBounded sched_config 900000000000 after_failure.kept after_failure.ended_at after_failure.now
      0
unfolding finish settle
Run-Bounded_example =
    Run-Bounded sched_config engine product 900000000000 started world 5 refl refl failed_once

abbrev rested : Loop MemStore ℕ
rested = record after_failure { now = after_failure.now + 900000000000 }

abbrev rewoken : Loop MemStore ℕ
rewoken = wake sched_config engine product rested

abbrev relaunched : Loop MemStore ℕ
relaunched = look sched_config engine product target [] rewoken

swept_again : Run sched_config engine product rewoken relaunched
unfolding finish settle look list_targets lookup register add_target insert start is_due gate_of
swept_again = next here (looks target [] refl refl)

no_jobs : (c : String) → Idle c []
no_jobs c j h o t = h.lower

wake-Launched_example : Launched "h:443" after_failure.launched relaunched
unfolding finish settle look list_targets lookup register add_target insert start is_due gate_of
    looked after_scan scan_one swept_again
wake-Launched_example =
    wake-Launched sched_config engine product started world 5 900000000000 rested target refl refl
      (next failed_once (tick 900000000000)) (inl refl) (omega arith) (no_jobs "h:443")
      (no_jobs "h:443") swept_again (omega arith)

under_way : Run sched_config engine product at_start scanning
unfolding look is_due gate_of lookup
under_way = next swept_once (acquires [] job [] refl refl)

abbrev after_success : Loop MemStore ℕ
after_success =
    finish sched_config engine product job none (ok (weak_key ∷ []))
      (record scanning { scanning = [] })

without_error : (reconcile engine product 5 "h:443" (weak_key ∷ []) world.store 0).1 ≡ none
unfolding reconcile list_by_target for_each ingest validate_for_ingest is_valid_severity by_fp
    ingest_new draw_id save upsert
without_error = refl

Run-SentTo_example :
    (x : Event) × (event_key x ≡ event_key (announcement "certwatch" opened_key))
    × SentSince scanning.world.dispatcher.sent numbers x
        (close 9 after_success.world.dispatcher).sent
unfolding look is_due lookup
Run-SentTo_example =
    Run-SentTo sched_config engine product config numbers at_start scanning after_success job [] []
      (weak_key ∷ []) opened_key 9 refl under_way refl without_error is_new passes here

-- Stop is called while the scan runs, and the loop has left.
abbrev stopping : Loop MemStore ℕ
stopping = record scanning { scheduler = stop scanning.scheduler; is_running = false }

abbrev stopped : Loop MemStore ℕ
stopped =
    finish sched_config engine product job none (err canceled) (record stopping { scanning = [] })

last_scan : Run sched_config engine product stopping stopped
last_scan = next here (ends [] job [] (err canceled) refl)

Run-Drained_example :
    IsStopped stopped
    × (in_flight stopped + scans_over sched_config engine product last_scan ≡ in_flight stopping)
    × (stopped.launched ≡ stopping.launched)
unfolding stop look is_due lookup start add_target register insert
Run-Drained_example = Run-Drained sched_config engine product stopping last_scan (refl, refl)

-- One scan was in flight, and it is over.
drained : (in_flight stopping ≡ 1) × (in_flight stopped ≡ 0)
unfolding in_wait finish settle stop look is_due lookup start add_target register insert
drained = (refl, refl)
