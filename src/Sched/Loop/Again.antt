-- ===== src/Sched/Loop/Again.antt =====
-- No registered target is forgotten by the sweeps, whatever runs beside them (sched/scheduler.go).
use certlight.Base.{
  ℕ, ◌+◌, ◌≤◌, pos, leb_ℤ, ◌≡◌, refl, subst, inl, inr, String, true, none, some, List, [], ◌++◌,
  length, err, In, arith,
}
use certlight.Core.Collector.{ModuleInfo, Target}
use certlight.Store.Engine.{Engine}
use certlight.Sched.Config.{Config}
use certlight.Sched.Registry.{Scheduler, list_targets}
use certlight.Sched.Sweep.{canceled}
use certlight.Sched.Scan.{World}
use certlight.Sched.Loop.{
  Loop, begin, wake, last_end, Step, tick, wakes, looks, leaves, acquires, gives_up, ends, commands,
  asks, flushes, closes, Run, here, next, count, looked,
}
use certlight.Sched.Loop.Steps.{
  Has, Has-length, Idle, Idle-without, Idle-middle, Idle-cons, Idle-scan_now,
}
use certlight.Sched.Loop.Bounded.{Run-Bounded}
use certlight.Sched.Loop.Going.{Going, finish-Going, look-Going, execute-Going}

-- The sweeps have launched a scan of the target since `old`.
abbrev pub Launched : {S C : Type 0} → String → List Target → Loop S C → Type 0
Launched c old s = (new : List Target) × (s.launched ≡ new ++ old) × Has c new

module _ {F S C : Type 0} (cfg : Config F) (e : Engine S) (mod_info : ModuleInfo) where
  Step-Going :
      {s t : Loop S C} (c : String) (total k : ℕ) (old : List Target) (st : Step cfg e mod_info s t)
      → Going c total old k s
      → Going c total old (count cfg e mod_info st k) t
  Step-Going c total k old (tick d) (new, is, inl done) = (new, is, inl done)
  Step-Going c total k old (tick d) (new, is, inr h) = (
    new,
    is,
    inr (record {
      due = omega (arith, h.due);
      unqueued = h.unqueued;
      unscanned = h.unscanned;
      ahead = h.ahead;
      left = h.left;
    }),
  )
  Step-Going c total k old (wakes r q) (new, is, inl done) = (new, is, inl done)
  Step-Going c total k old (wakes r q) (new, is, inr h) =
      let (t, among, _) = subst (Has c) q h.ahead in absurd among.lower
  Step-Going {s} c total k old (looks t rest r q) going =
      look-Going cfg e mod_info t rest c total k old s q going
  Step-Going c total k old (leaves d q) going = going
  Step-Going c total k old (acquires before j after q room) (new, is, inl done) =
      (new, is, inl done)
  Step-Going {s} c total k old (acquires before j after q room) (new, is, inr h) = (
    new,
    is,
    inr (record {
      due = h.due;
      unqueued = Idle-without c j before after s.waiting q h.unqueued;
      unscanned =
          Idle-cons c j s.scanning (Idle-middle c j before after s.waiting q h.unqueued)
            h.unscanned;
      ahead = h.ahead;
      left = h.left;
    }),
  )
  Step-Going {s} c total k old (gives_up before j after q may) going =
      finish-Going cfg e mod_info j (some canceled) (err canceled) c total k old s
        (record s { waiting = before ++ after }) refl
        (λ h. (
          Idle-middle c j before after s.waiting q h.unqueued,
          record {
            due = h.due;
            unqueued = Idle-without c j before after s.waiting q h.unqueued;
            unscanned = h.unscanned;
            ahead = h.ahead;
            left = h.left;
          },
        ))
        going
  Step-Going {s} c total k old (ends before j after answer q) going =
      finish-Going cfg e mod_info j none answer c total k old s
        (record s { scanning = before ++ after }) refl
        (λ h. (
          Idle-middle c j before after s.scanning q h.unscanned,
          record {
            due = h.due;
            unqueued = h.unqueued;
            unscanned = Idle-without c j before after s.scanning q h.unscanned;
            ahead = h.ahead;
            left = h.left;
          },
        ))
        going
  Step-Going {s} c total k old (commands d) going =
      execute-Going cfg e mod_info d c total k old s going
  Step-Going {s} c total k old (asks found q) (new, is, inl done) = (new, is, inl done)
  Step-Going {s} c total k old (asks found q) (new, is, inr h) = (
    new,
    is,
    inr (record {
      due = h.due;
      unqueued = Idle-scan_now c mod_info.id s.scheduler found s.waiting q h.unqueued;
      unscanned = h.unscanned;
      ahead = h.ahead;
      left = h.left;
    }),
  )
  Step-Going c total k old flushes going = going
  Step-Going c total k old closes going = going

  Run-Going :
      (c : String) (total : ℕ) (old : List Target) (s : Loop S C) {t : Loop S C}
      (r : Run cfg e mod_info s t)
      → Going c total old 0 s
      → Going c total old (looked cfg e mod_info r) t
  unfolding looked
  Run-Going c total old s here going = going
  Run-Going c total old s (next r st) going =
      Step-Going c total (looked cfg e mod_info r) old st (Run-Going c total old s r going)

  -- A registered target, RetryMax or more after its last scan ended and with none in flight: the
  -- sweep that starts then launches a scan of it by the time it has looked at as many targets as
  -- there were, whatever happens beside it.
  pub wake-Launched :
      (scheduler : Scheduler) (world : World S C) (start most : ℕ) (s : Loop S C) {t : Loop S C}
      (u : Target)
      → cfg.retry_max ≡ pos most
      → leb_ℤ (pos 0) cfg.workers ≡ true
      → Run cfg e mod_info (begin scheduler world start) s
      → In u (list_targets mod_info.id s.scheduler)
      → last_end u.canonical s.ended_at + most ≤ s.now
      → Idle u.canonical s.waiting
      → Idle u.canonical s.scanning
      → (r : Run cfg e mod_info (wake cfg e mod_info s) t)
      → length (list_targets mod_info.id s.scheduler) ≤ looked cfg e mod_info r
      → Launched u.canonical s.launched t
  wake-Launched scheduler world start most s u limit workers before among later unqueued unscanned r
        enough =
      let c = u.canonical in
      let total = length (list_targets mod_info.id s.scheduler) in
      let (new, is, so_far) = Run-Going c total s.launched (wake cfg e mod_info s) r (
        [],
        refl,
        inr (record {
          due = omega (
            arith,
            later,
            (Run-Bounded cfg e mod_info most scheduler world start limit workers before).gates c,
          );
          unqueued = unqueued;
          unscanned = unscanned;
          ahead = (u, among, refl);
          left = omega arith;
        }),
      ) in
      (
        new,
        is,
        elim so_far [
          | inl done ↦ done
          | inr h ↦ absurd (omega (arith, Has-length c _ h.ahead, h.left, enough))
        ],
      )
