-- ===== src/Sched/Loop.antt =====
-- `moduleLoop` of one module among all that runs beside it: the scans, with their worker slots, the
-- add-time scans of `AddTarget`, `ScanNow`, the calls that change the registry, and the timer of the
-- dispatcher (sched/scheduler.go). Each step is one stretch of one goroutine under its mutex; the end
-- of a scan, from `Reconcile` to the failures of its target, is one step. The wait between two sweeps
-- may take any time, so the float64 of its jitter does not matter.
pub mod Steps
pub mod Bounded
pub mod Going
pub mod Again
pub mod Told
pub mod Drain
pub mod Waits
use Prim.Native.String
use certlight.Base.{
  GoMap, ℕ, suc, ◌+◌, pos, ltb_ℤ, ◌≡◌, insert, lookup, String, Bool, true, false, ◌&&◌, Option,
  none, some, List, [], ◌∷◌, ◌++◌, map, length, if◌then◌else◌, Result, ok, err,
}
use certlight.Core.Finding.{Finding}
use certlight.Core.Collector.{ModuleInfo, Target}
use certlight.Store.Engine.{Engine}
use certlight.Notify.Dispatcher.{flush, close}
use certlight.Sched.Config.{Config}
use certlight.Sched.Registry.{
  Registration, Scheduler, Context, values_of, nil, live, ended, is_live, add_target, remove_target,
  list_targets, stop,
}
use certlight.Sched.Sweep.{
  Failures, ScanError, Trouble, canceled, failed, is_due, after_scan, or_zero,
}
use certlight.Sched.Scan.{World, scan_one}

-- What starts a scan: a sweep of the loop, `AddTarget`, or `ScanNow`.
pub data Origin : Type 0 where
  swept added asked : Origin

-- A goroutine that runs `scanOne`.
pub record Job : Type 0 where
  pub target : Target
  pub origin : Origin

-- `pending` is what a sweep has yet to look at, `waiting` are the scans that wait for a slot, and
-- `scanning` those that have one. `launched` and `ended_at` record the sweeps' scans: those that
-- were started, the last one first, and when the last one of each target ended.
pub record Loop (S C : Type 0) : Type 0 where
  pub scheduler : Scheduler
  pub kept : Failures
  pub now : ℕ
  pub is_running : Bool
  pub pending : List Target
  pub waiting : List Job
  pub scanning : List Job
  pub world : World S C
  pub errors : List ScanError
  pub launched : List Target
  pub ended_at : GoMap ℕ

abbrev pub begin : {S C : Type 0} → Scheduler → World S C → ℕ → Loop S C
begin scheduler world now = record {
  scheduler = scheduler;
  kept = record { failures = []; next_ok = [] };
  now = now;
  is_running = true;
  pending = [];
  waiting = [];
  scanning = [];
  world = world;
  errors = [];
  launched = [];
  ended_at = [];
}

abbrev pub noted : Option ScanError → List ScanError → List ScanError
noted none errors = errors
noted (some x) errors = x ∷ errors

abbrev pub job_of : Origin → Target → Job
job_of origin t = record { target = t; origin = origin }

-- The add-time scan of a running scheduler.
abbrev pub at_once : Bool → Result String Target → List Job → List Job
at_once true (ok t) jobs = job_of added t ∷ jobs
at_once true (err x) jobs = jobs
at_once false r jobs = jobs

-- The scans that `ScanNow` starts and waits for.
abbrev pub asked_for : String → Option Registration → Result String (List Job)
asked_for m none = err (String.◌++◌ "unknown module: " m)
asked_for m (some reg) = ok (map (job_of asked) (values_of reg.targets))

unfoldable pub scan_now : String → Scheduler → Result String (List Job)
unfolding lookup
scan_now m s = asked_for m (lookup m s.modules)

-- A call that changes the registry.
pub data Command : Type 0 where
  add : String → Command
  remove : String → Command
  halt : Command

-- When the last scan of a target that a sweep started ended, 0 where none did.
abbrev pub last_end : String → GoMap ℕ → ℕ
last_end canonical ended_at = or_zero (lookup canonical ended_at)

-- `case <-ctx.Done()`: a scan of `ScanNow` has the context of its request.
abbrev pub MayGiveUp : Origin → Context → Type 0
MayGiveUp asked c = Unit
MayGiveUp _ c = c ≡ ended

module _ {F S C : Type 0} (cfg : Config F) (e : Engine S) (mod_info : ModuleInfo) where
  -- The snapshot of the targets that a sweep takes.
  abbrev pub wake : Loop S C → Loop S C
  wake s = record s { pending = list_targets mod_info.id s.scheduler }

  -- The sweep's look at one target.
  unfoldable pub look : Target → List Target → Loop S C → Loop S C
  unfolding is_due
  look t rest s =
      if is_due s.now t.canonical s.kept
      then record s {
        pending = rest;
        waiting = job_of swept t ∷ s.waiting;
        launched = t ∷ s.launched;
      }
      else record s { pending = rest }

  -- What a scan's goroutine does after `scanOne`.
  unfoldable pub settle : Origin → Target → Option Trouble → Loop S C → Loop S C
  unfolding after_scan
  settle swept t x s =
      let after = after_scan cfg s.now t.canonical x s.kept in
      record s {
        kept = after.0;
        errors = noted after.1 s.errors;
        ended_at = insert t.canonical s.now s.ended_at;
      }
  settle added t x s = s
  settle asked t x s = s

  -- `scanOne`, from the wait for a slot on, and what follows.
  unfoldable pub finish : Job → Option Trouble → Result Trouble (List Finding) → Loop S C → Loop S C
  unfolding scan_one settle
  finish j slot answer s =
      let scanned = scan_one e mod_info s.now j.target.canonical slot answer s.world in
      settle j.origin j.target scanned.1 (record s { world = scanned.0 })

  unfoldable pub execute : Command → Loop S C → Loop S C
  unfolding add_target remove_target stop
  execute (add raw) s =
      let answer = add_target mod_info.id raw s.scheduler in
      record s {
        scheduler = answer.0;
        waiting = at_once (s.scheduler.started && is_live s.scheduler.context) answer.1 s.waiting;
      }
  execute (remove canonical) s = record s {
    scheduler = remove_target mod_info.id canonical s.scheduler;
  }
  execute halt s = record s { scheduler = stop s.scheduler }

  abbrev pub flush_world : ℕ → World S C → World S C
  flush_world now w = record w { dispatcher = flush now w.dispatcher }

  abbrev pub close_world : ℕ → World S C → World S C
  close_world now w = record w { dispatcher = close now w.dispatcher }

  -- One step of the clock, the loop, a scan, a caller of the scheduler, the dispatcher's timer, or the
  -- deferred `Close` of the dispatcher, which does not wait for the scans.
  pub data Step (s : Loop S C) : Loop S C → Type 0 where
    tick : (d : ℕ) → Step s (record s { now = s.now + d })
    wakes : s.is_running ≡ true → s.pending ≡ [] → Step s (wake s)
    looks :
        (t : Target) (rest : List Target)
        → s.is_running ≡ true
        → s.pending ≡ t ∷ rest
        → Step s (look t rest s)
    leaves : s.scheduler.context ≡ ended → s.pending ≡ [] → Step s (record s { is_running = false })
    acquires :
        (before : List Job) (j : Job) (after : List Job)
        → s.waiting ≡ before ++ j ∷ after
        → ltb_ℤ (pos (length s.scanning)) cfg.workers ≡ true
        → Step s (record s { waiting = before ++ after; scanning = j ∷ s.scanning })
    gives_up :
        (before : List Job) (j : Job) (after : List Job)
        → s.waiting ≡ before ++ j ∷ after
        → MayGiveUp j.origin s.scheduler.context
        → Step s (finish j (some canceled) (err canceled) (record s { waiting = before ++ after }))
    ends :
        (before : List Job) (j : Job) (after : List Job) (answer : Result Trouble (List Finding))
        → s.scanning ≡ before ++ j ∷ after
        → Step s (finish j none answer (record s { scanning = before ++ after }))
    commands : (c : Command) → Step s (execute c s)
    asks :
        (jobs : List Job)
        → scan_now mod_info.id s.scheduler ≡ ok jobs
        → Step s (record s { waiting = jobs ++ s.waiting })
    flushes : Step s (record s { world = flush_world s.now s.world })
    closes : Step s (record s { world = close_world s.now s.world })

  -- Any number of steps.
  pub data Run (s : Loop S C) : Loop S C → Type 0 where
    here : Run s s
    next : {t u : Loop S C} → Run s t → Step t u → Run s u

  -- How many targets the sweeps of a run look at.
  abbrev pub count : {s t : Loop S C} → Step s t → ℕ → ℕ
  count (looks t rest h q) n = suc n
  count _ n = n

  unfoldable pub looked : {s t : Loop S C} → Run s t → ℕ
  looked here = 0
  looked (next r st) = count st (looked r)
