-- ===== src/Sched/Loop/Bounded.antt =====
-- The delays of the targets and the slots of the workers, whatever runs beside the loop
-- (sched/scheduler.go).
use certlight.Base.{
  GoMap, ℕ, suc, ◌+◌, ◌≤◌, Bool-cases, pos, leb_ℤ, ◌≡◌, refl, ap, inl, inr, insert, lookup,
  lookup-insert, String, true, text_refl, text_cases, Option, none, some, List, ◌++◌, length,
  Result, arith,
}
use certlight.Core.Collector.{ModuleInfo, Target}
use certlight.Core.Finding.{Finding}
use certlight.Store.Engine.{Engine}
use certlight.Sched.Config.{Config}
use certlight.Sched.Backoff.{backoff_for-most}
use certlight.Sched.Registry.{Scheduler}
use certlight.Sched.Sweep.{
  Failures, Trouble, is_due, canceled, failed, failures_of, gate_of, after_scan, alone, own_of,
  own_of-after_scan,
}
use certlight.Sched.Scan.{World, scan_one}
use certlight.Sched.Loop.{
  Loop, Job, Origin, swept, added, asked, begin, last_end, look, finish, settle, execute, Command,
  add, remove, halt, Step, tick, wakes, looks, leaves, acquires, gives_up, ends, commands, asks,
  flushes, closes, Run, here, next,
}
use certlight.Sched.Loop.Steps.{length-without}

module _ {F : Type 0} (cfg : Config F) (most : ℕ) where
  -- A target waits for `most` at longest after the end of its last scan, it waits only after a
  -- failure, and no more scans have slots than there are workers.
  pub record IsBounded (kept : Failures) (ended_at : GoMap ℕ) (now slots : ℕ) : Type 0 where
    pub gates : (c : String) → gate_of c kept ≤ last_end c ended_at + most
    pub past : (c : String) → last_end c ended_at ≤ now
    pub calm : (c : String) → failures_of c kept ≡ 0 → gate_of c kept ≡ 0
    pub few : leb_ℤ (pos slots) cfg.workers ≡ true

  module _ (limit : cfg.retry_max ≡ pos most) where
    alone-most :
        (now : ℕ) (x : Option Trouble) (own : ℕ × ℕ)
        → ((alone cfg now x own).1 ≤ now + most)
          × ((alone cfg now x own).0 ≡ 0 → (alone cfg now x own).1 ≡ 0)
    alone-most now none own = (omega arith, λ q. refl)
    alone-most now (some canceled) own = (omega arith, λ q. refl)
    alone-most now (some (failed x)) (n, gate) =
        (ground (arith, backoff_for-most cfg most (suc n) limit), λ q. absurd (omega (arith, q)))

    after_scan-IsBounded :
        (kept : Failures) (ended_at : GoMap ℕ) (now slots : ℕ) (t : String) (x : Option Trouble)
        → IsBounded kept ended_at now slots
        → IsBounded (after_scan cfg now t x kept).0 (insert t now ended_at) now slots
    after_scan-IsBounded kept ended_at now slots t x h = record {
      gates = λ c. (at c).0;
      past = λ c. (at c).1;
      calm = λ c. (at c).2;
      few = h.few;
    }
      where
        at :
            (c : String)
            → (gate_of c (after_scan cfg now t x kept).0
                ≤ last_end c (insert t now ended_at) + most)
              × (last_end c (insert t now ended_at) ≤ now)
              × (failures_of c (after_scan cfg now t x kept).0 ≡ 0
                  → gate_of c (after_scan cfg now t x kept).0 ≡ 0)
        at c =
            let own = own_of-after_scan cfg now c t x kept in
            rw (lookup-insert t c now ended_at, ap (λ p. p.0) own, ap (λ p. p.1) own)
              (elim (text_cases t c) [
                | inl is ↦
                    let (bound, idle) = alone-most now x (own_of cfg c kept) in
                    rw (is, text_refl c) (bound, omega arith, idle)
                | inr other ↦ rw other (h.gates c, h.past c, h.calm c)
              ])

module _ {F S C : Type 0} (cfg : Config F) (e : Engine S) (mod_info : ModuleInfo) (most : ℕ) where
  abbrev pub Bounded : Loop S C → Type 0
  Bounded s = IsBounded cfg most s.kept s.ended_at s.now (length s.scanning)

  settle-Bounded :
      (o : Origin) (t : Target) (x : Option Trouble) (s : Loop S C)
      → cfg.retry_max ≡ pos most
      → Bounded s
      → Bounded (settle cfg e mod_info o t x s)
  unfolding settle
  settle-Bounded swept t x s limit h =
      after_scan-IsBounded cfg most limit s.kept s.ended_at s.now (length s.scanning) t.canonical x
        h
  settle-Bounded added t x s limit h = h
  settle-Bounded asked t x s limit h = h

  finish-Bounded :
      (j : Job) (slot : Option Trouble) (answer : Result Trouble (List Finding)) (s : Loop S C)
      → cfg.retry_max ≡ pos most
      → Bounded s
      → Bounded (finish cfg e mod_info j slot answer s)
  unfolding finish
  finish-Bounded j slot answer s limit h =
      let scanned = scan_one e mod_info s.now j.target.canonical slot answer s.world in
      settle-Bounded j.origin j.target scanned.1 (record s { world = scanned.0 }) limit h

  look-Bounded :
      (t : Target) (rest : List Target) (s : Loop S C)
      → Bounded s
      → Bounded (look cfg e mod_info t rest s)
  unfolding look
  look-Bounded t rest s h = elim (Bool-cases (is_due s.now t.canonical s.kept)) [
    | inl due ↦ rw due h
    | inr early ↦ rw early h
  ]

  execute-Bounded : (c : Command) (s : Loop S C) → Bounded s → Bounded (execute cfg e mod_info c s)
  unfolding execute
  execute-Bounded (add raw) s h = h
  execute-Bounded (remove c) s h = h
  execute-Bounded halt s h = h

  Step-Bounded :
      {s t : Loop S C} → cfg.retry_max ≡ pos most → Step cfg e mod_info s t → Bounded s → Bounded t
  Step-Bounded {s} limit (tick d) h = record {
    gates = h.gates;
    past = λ c. omega (arith, h.past c);
    calm = h.calm;
    few = h.few;
  }
  Step-Bounded limit (wakes r q) h = h
  Step-Bounded {s} limit (looks t rest r q) h = look-Bounded t rest s h
  Step-Bounded limit (leaves d q) h = h
  Step-Bounded limit (acquires before j after q room) h = record {
    gates = h.gates;
    past = h.past;
    calm = h.calm;
    few = ground (arith, room);
  }
  Step-Bounded {s} limit (gives_up before j after q may) h = finish-Bounded j _ _ _ limit h
  Step-Bounded {s} limit (ends before j after answer q) h =
      finish-Bounded j none answer (record s { scanning = before ++ after }) limit
        (record {
          gates = h.gates;
          past = h.past;
          calm = h.calm;
          few = ground (arith, length-without j before after, ap length q, h.few);
        })
  Step-Bounded {s} limit (commands c) h = execute-Bounded c s h
  Step-Bounded limit (asks found q) h = h
  Step-Bounded limit flushes h = h
  Step-Bounded limit closes h = h

  -- After every run of the scheduler no target waits for longer than RetryMax after its last scan
  -- ended, none waits without a failure, and no more scans run at once than there are workers.
  pub Run-Bounded :
      (scheduler : Scheduler) (world : World S C) (now : ℕ) {t : Loop S C}
      → cfg.retry_max ≡ pos most
      → leb_ℤ (pos 0) cfg.workers ≡ true
      → Run cfg e mod_info (begin scheduler world now) t
      → Bounded t
  unfolding gate_of failures_of lookup
  Run-Bounded scheduler world now limit workers here = record {
    gates = λ c. omega arith;
    past = λ c. omega arith;
    calm = λ c q. refl;
    few = workers;
  }
  Run-Bounded scheduler world now limit workers (next r st) =
      Step-Bounded limit st (Run-Bounded scheduler world now limit workers r)
