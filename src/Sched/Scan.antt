-- ===== src/Sched/Scan.antt =====
-- `scanOne`: a collector's answer through the engine to the dispatcher, which `BindScheduler` has
-- made the scheduler's OnResult (sched/scheduler.go, notify/bridge.go).
use certlight.Base.{ℕ, String, Option, none, some, List, Result, ok, err}
use certlight.Core.Finding.{Finding}
use certlight.Core.Collector.{ModuleInfo}
use certlight.Store.Engine.{Engine, Scan, reconcile}
use certlight.Notify.Dispatcher.{Dispatcher, on_result}
use certlight.Sched.Sweep.{Trouble, failed}

-- The store, the ids asked for, and the dispatcher.
pub record World (S C : Type 0) : Type 0 where
  pub store : S
  pub calls : ℕ
  pub dispatcher : Dispatcher C

module _ {S C : Type 0} (e : Engine S) (mod_info : ModuleInfo) where
  -- What follows `Reconcile`.
  abbrev pub report : ℕ → World S C → Scan S × Option String → World S C × Option Trouble
  report now w (sc, some x) = (record w { store = sc.store; calls = sc.calls }, some (failed x))
  report now w (sc, none) = (
    record {
      store = sc.store;
      calls = sc.calls;
      dispatcher = on_result now mod_info.id sc.res w.dispatcher;
    },
    none,
  )

  -- What follows the wait for a worker's slot: `slot` is the context's error, if it ended first,
  -- and `answer` is that of `Collect`.
  unfoldable pub scan_one :
      ℕ
      → String
      → Option Trouble
      → Result Trouble (List Finding)
      → World S C
      → World S C × Option Trouble
  unfolding reconcile on_result
  scan_one now target (some x) answer w = (w, some x)
  scan_one now target none (err x) w = (w, some x)
  scan_one now target none (ok findings) w =
      report now w (reconcile e mod_info now target findings w.store w.calls)
