-- ===== src/Sched/Loop/Told.antt =====
-- From any scan of the running scheduler to the channels (sched/scheduler.go, notify/bridge.go).
use certlight.Base.{
  ℕ, ◌≡◌, refl, sym, ◌∙◌, ap, subst, String, true, false, Option, none, some, List, [], ◌∷◌, ◌++◌,
  Result, ok, err, In, arith,
}
use certlight.Core.Finding.{Finding}
use certlight.Core.Collector.{ModuleInfo, Target}
use certlight.Store.Engine.{Engine, Scan, ReconcileResult, reconcile}
use certlight.Notify.Digest.{Event, opened, resolved}
use certlight.Notify.Dispatcher.{
  Config, Dispatcher, new_dispatcher, event_key, passes_severity, events_of, enqueue, enqueue_all,
  on_result, flush, close,
}
use certlight.Notify.Batching.{Call, enqueue_at, flush_at, close_at, run}
use certlight.Notify.Delivery.{SentSince}
use certlight.Sched.Config
use certlight.Sched.Sweep.{Trouble}
use certlight.Sched.Scan.{World, report, scan_one}
use certlight.Sched.Announcement.{announcement, enqueue_all-keeps, scan_one-SentSince}
use certlight.Sched.Loop.{
  Loop, Job, Origin, swept, added, asked, look, finish, settle, execute, Command, add, remove, halt,
  Step, tick, wakes, looks, leaves, acquires, gives_up, ends, commands, asks, flushes, closes, Run,
  here, next,
}

module _ {C : Type 0} where
  run-append : (a b : List Call) (d : Dispatcher C) → run (a ++ b) d ≡ run b (run a d)
  run-append [] b d = refl
  run-append (c ∷ a) b d = run-append a b _

  -- The calls that a run of the scheduler makes on the dispatcher.
  abbrev CalledFrom : Dispatcher C → Dispatcher C → Type 0
  CalledFrom d d' = (calls : List Call) × (d' ≡ run calls d)

  CalledFrom-call :
      (c : Call) (d d' : Dispatcher C) → CalledFrom d d' → CalledFrom d (run (c ∷ []) d')
  CalledFrom-call c d d' (calls, is) =
      (calls ++ c ∷ [], ap (run (c ∷ [])) is ∙ sym (run-append calls (c ∷ []) d))

  -- What `Enqueue`, the timer's flush and `Close` keep.
  abbrev Kept : (Dispatcher C → Type 0) → Type 0
  Kept P =
      ((now : ℕ) (x : Event) (d : Dispatcher C) → P d → P (enqueue now x d))
      × ((now : ℕ) (d : Dispatcher C) → P d → P (flush now d))
      × ((now : ℕ) (d : Dispatcher C) → P d → P (close now d))

module _ {F S C : Type 0} (cfg : Config.Config F) (e : Engine S) (mod_info : ModuleInfo) where
  settle-world :
      (o : Origin) (t : Target) (x : Option Trouble) (s : Loop S C)
      → (settle cfg e mod_info o t x s).world ≡ s.world
  unfolding settle
  settle-world swept t x s = refl
  settle-world added t x s = refl
  settle-world asked t x s = refl

  finish-world :
      (j : Job) (slot : Option Trouble) (answer : Result Trouble (List Finding)) (s : Loop S C)
      → (finish cfg e mod_info j slot answer s).world
        ≡ (scan_one e mod_info s.now j.target.canonical slot answer s.world).0
  unfolding finish
  finish-world j slot answer s = settle-world j.origin j.target _ _

  look-world :
      (t : Target) (rest : List Target) (s : Loop S C)
      → (look cfg e mod_info t rest s).world ≡ s.world
  unfolding look
  look-world t rest s = ground arith

  execute-world : (c : Command) (s : Loop S C) → (execute cfg e mod_info c s).world ≡ s.world
  unfolding execute
  execute-world (add raw) s = refl
  execute-world (remove c) s = refl
  execute-world halt s = refl

  scan_one-fine :
      (now : ℕ) (target : String) (findings : List Finding) (w : World S C)
      → (reconcile e mod_info now target findings w.store w.calls).1 ≡ none
      → scan_one e mod_info now target none (ok findings) w
        ≡ ((scan_one e mod_info now target none (ok findings) w).0, none)
  unfolding scan_one
  scan_one-fine now target findings w fine =
      go (reconcile e mod_info now target findings w.store w.calls) fine
    where
      go :
          (r : Scan S × Option String)
          → r.1 ≡ none
          → report e mod_info now w r ≡ ((report e mod_info now w r).0, none)
      go (sc, none) h = refl
      go (sc, some x) h = cc

module _ {F S C : Type 0} (cfg : Config.Config F) (e : Engine S) (mod_info : ModuleInfo)
    (P : Dispatcher C → Type 0) (kept : Kept P) where
  on_result-keeps :
      (now : ℕ) (m : String) (r : ReconcileResult) (d : Dispatcher C)
      → P d
      → P (on_result now m r d)
  unfolding on_result
  on_result-keeps now m r d h =
      enqueue_all-keeps P now (events_of resolved m r.resolved_now)
        (enqueue_all now (events_of opened m r.newly_open) d) (kept.0 now)
        (enqueue_all-keeps P now (events_of opened m r.newly_open) d (kept.0 now) h)

  report-keeps :
      (now : ℕ) (w : World S C) (r : Scan S × Option String)
      → P w.dispatcher
      → P (report e mod_info now w r).0.dispatcher
  report-keeps now w (sc, none) h = on_result-keeps now mod_info.id sc.res w.dispatcher h
  report-keeps now w (sc, some x) h = h

  scan_one-keeps :
      (now : ℕ) (target : String) (slot : Option Trouble) (answer : Result Trouble (List Finding))
      (w : World S C)
      → P w.dispatcher
      → P (scan_one e mod_info now target slot answer w).0.dispatcher
  unfolding scan_one
  scan_one-keeps now target (some x) answer w h = h
  scan_one-keeps now target none (err x) w h = h
  scan_one-keeps now target none (ok findings) w h =
      report-keeps now w (reconcile e mod_info now target findings w.store w.calls) h

  finish-keeps :
      (j : Job) (slot : Option Trouble) (answer : Result Trouble (List Finding)) (s : Loop S C)
      → P s.world.dispatcher
      → P (finish cfg e mod_info j slot answer s).world.dispatcher
  finish-keeps j slot answer s h =
      subst (λ w. P w.dispatcher) (sym (finish-world cfg e mod_info j slot answer s))
        (scan_one-keeps s.now j.target.canonical slot answer s.world h)

  Step-keeps :
      {s t : Loop S C} → Step cfg e mod_info s t → P s.world.dispatcher → P t.world.dispatcher
  Step-keeps (tick d) h = h
  Step-keeps (wakes r q) h = h
  Step-keeps {s} (looks t rest r q) h =
      subst (λ w. P w.dispatcher) (sym (look-world cfg e mod_info t rest s)) h
  Step-keeps (leaves d q) h = h
  Step-keeps (acquires before j after q room) h = h
  Step-keeps {s} (gives_up before j after q may) h =
      finish-keeps j _ _ (record s { waiting = before ++ after }) h
  Step-keeps {s} (ends before j after answer q) h =
      finish-keeps j none answer (record s { scanning = before ++ after }) h
  Step-keeps {s} (commands c) h =
      subst (λ w. P w.dispatcher) (sym (execute-world cfg e mod_info c s)) h
  Step-keeps (asks found q) h = h
  Step-keeps {s} flushes h = kept.1 s.now s.world.dispatcher h
  Step-keeps {s} closes h = kept.2 s.now s.world.dispatcher h

  Run-keeps :
      (s : Loop S C) {t : Loop S C}
      → Run cfg e mod_info s t
      → P s.world.dispatcher
      → P t.world.dispatcher
  Run-keeps s here h = h
  Run-keeps s (next r st) h = Step-keeps st (Run-keeps s r h)

module _ {F S C : Type 0} (cfg : Config.Config F) (e : Engine S) (mod_info : ModuleInfo) where
  Run-calls :
      (s : Loop S C) {t : Loop S C}
      → Run cfg e mod_info s t
      → CalledFrom s.world.dispatcher t.world.dispatcher
  Run-calls s r =
      Run-keeps cfg e mod_info (CalledFrom s.world.dispatcher)
        (
          λ now x d. CalledFrom-call (enqueue_at now x) s.world.dispatcher d,
          λ now d. CalledFrom-call (flush_at now) s.world.dispatcher d,
          λ now d. CalledFrom-call (close_at now) s.world.dispatcher d,
        )
        s r ([], refl)

  -- Whatever the scheduler has done since it began with a new dispatcher, and whatever it does later:
  -- where a scan that ends with findings has no error and the dispatcher is not closed then, each
  -- finding that Reconcile opens and the severity filter lets through reaches every channel by the
  -- time the dispatcher is closed, itself or an event of its key, in a digest sent after that.
  pub Run-SentTo :
      (config : Config) (channels : List C) (begun s t : Loop S C) (j : Job)
      (before after : List Job) (findings : List Finding) (f : Finding) (end : ℕ)
      → let scan =
          reconcile e mod_info s.now j.target.canonical findings s.world.store s.world.calls in
        begun.world.dispatcher ≡ new_dispatcher config channels
        → Run cfg e mod_info begun s
        → s.world.dispatcher.closed ≡ false
        → scan.1 ≡ none
        → In f scan.0.res.newly_open
        → passes_severity s.world.dispatcher.cfg f.severity ≡ true
        → Run cfg e mod_info
            (finish cfg e mod_info j none (ok findings) (record s { scanning = before ++ after }))
            t
        → (x : Event) × (event_key x ≡ event_key (announcement mod_info.id f))
          × SentSince s.world.dispatcher.sent channels x (close end t.world.dispatcher).sent
  Run-SentTo config channels begun s t j before after findings f end made earlier live fine new pass
        later =
      let w' : World S C =
        (scan_one e mod_info s.now j.target.canonical none (ok findings) s.world).0 in
      let (calls, is) = Run-calls begun earlier in
      let (more, then) =
        Run-calls
          (finish cfg e mod_info j none (ok findings) (record s { scanning = before ++ after }))
          later in
      let same : t.world.dispatcher ≡ run more w'.dispatcher =
        then
        ∙ ap (λ w. run more w.dispatcher)
            (finish-world cfg e mod_info j none (ok findings)
              (record s { scanning = before ++ after })) in
      let (x, key, reached) =
        scan_one-SentSince e mod_info config channels calls more s.now end j.target.canonical
          findings s.world w' f (is ∙ ap (run calls) made) live
          (scan_one-fine cfg e mod_info s.now j.target.canonical findings s.world fine) new pass in
      (
        x,
        key,
        subst (λ d. SentSince s.world.dispatcher.sent channels x (close end d).sent) (sym same)
            reached,
      )
