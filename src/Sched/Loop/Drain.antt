-- ===== src/Sched/Loop/Drain.antt =====
-- What `Stop` waits for once the loop has left (sched/scheduler.go).
use certlight.Base.{
  ℕ, ◌+◌, ◌≡◌, refl, ◌∙◌, ap, inl, inr, String, false, ◌&&◌, Option, none, some, Option-cases, List,
  ◌++◌, Result, ok, err, lookup, arith,
}
use certlight.Core.Collector.{ModuleInfo, Target}
use certlight.Core.Finding.{Finding}
use certlight.Store.Engine.{Engine}
use certlight.Sched.Config.{Config}
use certlight.Sched.Registry.{
  Registration, Scheduler, ended, is_live, place, place_valid, add_target, remove_target, stop,
}
use certlight.Sched.Sweep.{Trouble}
use certlight.Sched.Scan.{scan_one}
use certlight.Sched.Loop.{
  Loop, Job, Origin, swept, added, asked, finish, settle, execute, Command, add, remove, halt, Step,
  tick, wakes, looks, leaves, acquires, gives_up, ends, commands, asks, flushes, closes, Run, here,
  next,
}
use certlight.Sched.Loop.Steps.{scan_now-asked}
use certlight.Sched.Loop.Waits.{
  waited_for, in_wait, in_flight, waited_for-moved, waited_for-over, in_wait-middle, in_wait-asked,
}

add_target-context : (m raw : String) (s : Scheduler) → (add_target m raw s).0.context ≡ s.context
unfolding add_target
add_target-context m raw s = go (lookup m s.modules)
  where
    valid :
        (reg : Registration) (r : Result String Target)
        → (place_valid m reg r s).0.context ≡ s.context
    valid reg (err x) = refl
    valid reg (ok t) = refl

    go : (o : Option Registration) → (place m raw o s).0.context ≡ s.context
    go none = refl
    go (some reg) = valid reg (reg.collector.validate_target raw)

remove_target-context :
    (m canonical : String) (s : Scheduler) → (remove_target m canonical s).context ≡ s.context
unfolding remove_target
remove_target-context m canonical s = elim (Option-cases (lookup m s.modules)) [
  | inl unknown ↦ rw (unknown, remove_target) refl
  | inr (reg, known) ↦ rw (known, remove_target) refl
]

stop-context : (s : Scheduler) → s.context ≡ ended → (stop s).context ≡ ended
unfolding stop
stop-context s h = rw (h, stop) refl

-- The context has ended, and the goroutine of the loop has returned.
abbrev pub IsStopped : {S C : Type 0} → Loop S C → Type 0
IsStopped s = (s.scheduler.context ≡ ended) × (s.is_running ≡ false)

-- What a scan of the loop or of `AddTarget` that ends takes off the wait.
module _ {F S C : Type 0} (cfg : Config F) (e : Engine S) (mod_info : ModuleInfo) where
  abbrev pub over : {s t : Loop S C} → Step cfg e mod_info s t → ℕ → ℕ
  over (gives_up before j after q may) n = waited_for j.origin n
  over (ends before j after answer q) n = waited_for j.origin n
  over _ n = n

  unfoldable pub scans_over : {s t : Loop S C} → Run cfg e mod_info s t → ℕ
  scans_over here = 0
  scans_over (next r st) = over st (scans_over r)

  -- A step that leaves `k` fewer scans in flight.
  abbrev Drains : ℕ → List Target → Loop S C → Type 0
  Drains total launched t = IsStopped t × (in_flight t ≡ total) × (t.launched ≡ launched)

  settle-Drains :
      (o : Origin) (u : Target) (x : Option Trouble) (total : ℕ) (l : List Target) (s : Loop S C)
      → Drains total l s
      → Drains total l (settle cfg e mod_info o u x s)
  unfolding settle
  settle-Drains swept u x total l s h = h
  settle-Drains added u x total l s h = h
  settle-Drains asked u x total l s h = h

  finish-Drains :
      (j : Job) (slot : Option Trouble) (answer : Result Trouble (List Finding)) (total : ℕ)
      (l : List Target) (s : Loop S C)
      → Drains total l s
      → Drains total l (finish cfg e mod_info j slot answer s)
  unfolding finish
  finish-Drains j slot answer total l s h =
      let scanned = scan_one e mod_info s.now j.target.canonical slot answer s.world in
      settle-Drains j.origin j.target scanned.1 total l (record s { world = scanned.0 }) h

  execute-Drains :
      (c : Command) (total : ℕ) (l : List Target) (s : Loop S C)
      → Drains total l s
      → Drains total l (execute cfg e mod_info c s)
  unfolding execute
  execute-Drains (add raw) total l s ((gone, off), flying, same) =
      let idle : (s.scheduler.started && is_live s.scheduler.context) ≡ false =
        rw gone (ground arith) in
      ((add_target-context mod_info.id raw s.scheduler ∙ gone, off), rw idle flying, same)
  execute-Drains (remove c) total l s ((gone, off), flying, same) =
      ((remove_target-context mod_info.id c s.scheduler ∙ gone, off), flying, same)
  execute-Drains halt total l s ((gone, off), flying, same) =
      ((stop-context s.scheduler gone, off), flying, same)

  -- So many scans were in flight, of which `n` are over.
  abbrev Drained : ℕ → List Target → ℕ → Loop S C → Type 0
  Drained total l n s = IsStopped s × (in_flight s + n ≡ total) × (s.launched ≡ l)

  ended-Drained :
      (j : Job) (slot : Option Trouble) (answer : Result Trouble (List Finding)) (total n : ℕ)
      (l : List Target) (s : Loop S C)
      → IsStopped s
      → in_flight s + waited_for j.origin n ≡ total
      → s.launched ≡ l
      → Drained total l (waited_for j.origin n) (finish cfg e mod_info j slot answer s)
  ended-Drained j slot answer total n l s stopped flying same =
      let (still, is, none_new) =
        finish-Drains j slot answer (in_flight s) l s (stopped, refl, same) in
      (still, omega (arith, is, flying), none_new)

  Step-Drained :
      {s t : Loop S C} (total n : ℕ) (l : List Target) (st : Step cfg e mod_info s t)
      → Drained total l n s
      → Drained total l (over st n) t
  unfolding in_wait
  Step-Drained total n l (tick d) h = h
  Step-Drained total n l (wakes r q) ((gone, off), flying, same) = absurd (cc (r, off))
  Step-Drained total n l (looks t rest r q) ((gone, off), flying, same) = absurd (cc (r, off))
  Step-Drained total n l (leaves d q) ((gone, off), flying, same) = ((gone, refl), flying, same)
  Step-Drained {s} total n l (acquires before j after q room) (stopped, flying, same) = (
    stopped,
    omega (
      arith,
      flying,
      ap in_wait q,
      in_wait-middle j before after,
      waited_for-moved j.origin (in_wait (before ++ after)) (in_wait s.scanning),
    ),
    same,
  )
  Step-Drained {s} total n l (gives_up before j after q may) (stopped, flying, same) =
      ended-Drained j _ _ total n l (record s { waiting = before ++ after }) stopped
        (omega (
          arith,
          flying,
          ap in_wait q,
          in_wait-middle j before after,
          waited_for-over j.origin (in_wait (before ++ after)) (in_wait s.scanning) n,
        ))
        same
  Step-Drained {s} total n l (ends before j after answer q) (stopped, flying, same) =
      ended-Drained j none answer total n l (record s { scanning = before ++ after }) stopped
        (omega (
          arith,
          flying,
          ap in_wait q,
          in_wait-middle j before after,
          waited_for-over j.origin (in_wait (before ++ after)) (in_wait s.waiting) n,
        ))
        same
  Step-Drained {s} total n l (commands c) (stopped, flying, same) =
      let (still, is, none_new) = execute-Drains c (in_flight s) l s (stopped, refl, same) in
      (still, omega (arith, is, flying), none_new)
  Step-Drained {s} total n l (asks found q) (stopped, flying, same) =
      let (ts, is) = scan_now-asked mod_info.id s.scheduler found q in
      (
        stopped,
        omega (arith, flying, in_wait-asked ts s.waiting, ap (λ js. in_wait (js ++ s.waiting)) is),
        same,
      )
  Step-Drained total n l flushes h = h
  Step-Drained total n l closes h = h

  -- Once Stop has ended the context and the loop has left, whatever is called later, no sweep
  -- launches a scan any more, and the scans that Stop waits for are those that were in flight then,
  -- less those that are over since.
  pub Run-Drained :
      (s : Loop S C) {t : Loop S C} (r : Run cfg e mod_info s t)
      → IsStopped s
      → IsStopped t × (in_flight t + scans_over r ≡ in_flight s) × (t.launched ≡ s.launched)
  unfolding scans_over
  Run-Drained s here stopped = (stopped, omega arith, refl)
  Run-Drained s (next r st) stopped =
      Step-Drained (in_flight s) (scans_over r) s.launched st (Run-Drained s r stopped)
