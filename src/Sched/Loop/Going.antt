-- ===== src/Sched/Loop/Going.antt =====
-- A sweep that has yet to launch a scan of a target keeps on to it (sched/scheduler.go).
use certlight.Base.{
  ℕ, suc, ◌+◌, ◌≤◌, leb, ◌≡◌, ◌⊎◌, refl, sym, ◌∙◌, ap, subst, inl, inr, Bool-cases, String, true,
  false, ◌==◌, text_cases, text_ne, eq_iff, Option, List, ◌∷◌, ◌++◌, length, Result, le→leb, arith,
}
use certlight.Core.Collector.{ModuleInfo, Target}
use certlight.Core.Finding.{Finding}
use certlight.Store.Engine.{Engine}
use certlight.Sched.Config.{Config}
use certlight.Sched.Sweep.{Failures, Trouble, is_due, gate_of, own_of-after_scan}
use certlight.Sched.Scan.{scan_one}
use certlight.Sched.Loop.{
  Loop, Job, Origin, swept, added, asked, job_of, look, finish, settle, execute, Command, add,
  remove, halt,
}
use certlight.Sched.Loop.Steps.{Has, Idle, Idle-cons, Idle-at_once}

-- The target is due and not being scanned, and is ahead in a sweep of `total` targets, `k` of which
-- were looked at.
pub record IsAwaiting (c : String) (total k : ℕ) (kept : Failures) (now : ℕ)
    (waiting scanning : List Job) (pending : List Target) : Type 0 where
  pub due : gate_of c kept ≤ now
  pub unqueued : Idle c waiting
  pub unscanned : Idle c scanning
  pub ahead : Has c pending
  pub left : length pending + k ≡ total

abbrev pub Awaits : {S C : Type 0} → String → ℕ → ℕ → Loop S C → Type 0
Awaits c total k s = IsAwaiting c total k s.kept s.now s.waiting s.scanning s.pending

abbrev pub Going : {S C : Type 0} → String → ℕ → List Target → ℕ → Loop S C → Type 0
Going c total old k s =
    (new : List Target) × (s.launched ≡ new ++ old) × (Has c new ⊎ Awaits c total k s)

Has-cons : (c : String) (u : Target) (ts : List Target) → Has c ts → Has c (u ∷ ts)
Has-cons c u ts (t, h, is) = (t, inr h, is)

differ : (t : Target) (c : String) → (t.canonical == c) ≡ false → t.canonical ≡ c → ⊥
differ t c other same = absurd (cc (other, (eq_iff t.canonical c).1 same))

Has-tail :
    (c : String) (u : Target) (rest : List Target)
    → (u.canonical == c) ≡ false
    → Has c (u ∷ rest)
    → Has c rest
Has-tail c u rest other (t, inr h, is) = (t, h, is)
Has-tail c u rest other (t, inl same, is) =
    absurd (differ u c other (ap (λ v. v.canonical) (sym same) ∙ is))

module _ {F S C : Type 0} (cfg : Config F) (e : Engine S) (mod_info : ModuleInfo) where
  settle-Awaits :
      (o : Origin) (t : Target) (x : Option Trouble) (c : String) (total k : ℕ) (s : Loop S C)
      → (o ≡ swept → t.canonical ≡ c → ⊥)
      → Awaits c total k s
      → Awaits c total k (settle cfg e mod_info o t x s)
  unfolding settle
  settle-Awaits swept t x c total k s other h = record {
    due =
        let same =
          ap (λ p. p.1) (own_of-after_scan cfg s.now c t.canonical x s.kept)
          ∙ rw (text_ne t.canonical c (other refl)) refl in
        subst (λ g. g ≤ s.now) (sym same) h.due;
    unqueued = h.unqueued;
    unscanned = h.unscanned;
    ahead = h.ahead;
    left = h.left;
  }
  settle-Awaits added t x c total k s other h = h
  settle-Awaits asked t x c total k s other h = h

  settle-launched :
      (o : Origin) (t : Target) (x : Option Trouble) (s : Loop S C)
      → (settle cfg e mod_info o t x s).launched ≡ s.launched
  unfolding settle
  settle-launched swept t x s = refl
  settle-launched added t x s = refl
  settle-launched asked t x s = refl

  pub finish-Going :
      (j : Job) (slot : Option Trouble) (answer : Result Trouble (List Finding)) (c : String)
      (total k : ℕ) (old : List Target) (s s' : Loop S C)
      → s'.launched ≡ s.launched
      → (Awaits c total k s → (j.origin ≡ swept → j.target.canonical ≡ c → ⊥) × Awaits c total k s')
      → Going c total old k s
      → Going c total old k (finish cfg e mod_info j slot answer s')
  unfolding finish
  finish-Going j slot answer c total k old s s' same keep (new, is, so_far) =
      let scanned = scan_one e mod_info s'.now j.target.canonical slot answer s'.world in
      let mid : Loop S C = record s' { world = scanned.0 } in
      (
        new,
        settle-launched j.origin j.target scanned.1 mid ∙ same ∙ is,
        elim so_far [
          | inl done ↦ inl done
          | inr awaits ↦
              let (other, kept) = keep awaits in
              inr (settle-Awaits j.origin j.target scanned.1 c total k mid other kept)
        ],
      )

  pub look-Going :
      (t : Target) (rest : List Target) (c : String) (total k : ℕ) (old : List Target)
      (s : Loop S C)
      → s.pending ≡ t ∷ rest
      → Going c total old k s
      → Going c total old (suc k) (look cfg e mod_info t rest s)
  unfolding look is_due
  look-Going t rest c total k old s q (new, is, so_far) =
      elim (Bool-cases (is_due s.now t.canonical s.kept)) [
        | inl due ↦ rw due (
          t ∷ new,
          ap (λ l. t ∷ l) is,
          elim so_far [
            | inl done ↦ inl (Has-cons c t new done)
            | inr h ↦ elim (text_cases t.canonical c) [
              | inl same ↦ inl (t, inl refl, same)
              | inr other ↦ inr (record {
                due = h.due;
                unqueued =
                    Idle-cons c (job_of swept t) s.waiting
                      (λ o same. absurd (differ t c other same)) h.unqueued;
                unscanned = h.unscanned;
                ahead = Has-tail c t rest other (subst (Has c) q h.ahead);
                left = omega (arith, h.left, ap length q);
              })
            ]
          ],
        )
        | inr early ↦ rw early (
          new,
          is,
          elim so_far [
            | inl done ↦ inl done
            | inr h ↦ inr (record {
              due = h.due;
              unqueued = h.unqueued;
              unscanned = h.unscanned;
              ahead = Has-tail c t rest (early_other h.due early) (subst (Has c) q h.ahead);
              left = omega (arith, h.left, ap length q);
            })
          ],
        )
      ]
    where
      early_other :
          gate_of c s.kept ≤ s.now
          → leb (gate_of t.canonical s.kept) s.now ≡ false
          → (t.canonical == c) ≡ false
      early_other due early = elim (text_cases t.canonical c) [
        | inl same ↦
            let late : leb (gate_of t.canonical s.kept) s.now ≡ true =
              rw same (le→leb (gate_of c s.kept) s.now due) in
            absurd (cc (early, late))
        | inr other ↦ other
      ]

  pub execute-Going :
      (d : Command) (c : String) (total k : ℕ) (old : List Target) (s : Loop S C)
      → Going c total old k s
      → Going c total old k (execute cfg e mod_info d s)
  unfolding execute
  execute-Going (add raw) c total k old s (new, is, inl done) = (new, is, inl done)
  execute-Going (add raw) c total k old s (new, is, inr h) = (
    new,
    is,
    inr (record {
      due = h.due;
      unqueued = Idle-at_once c _ _ s.waiting h.unqueued;
      unscanned = h.unscanned;
      ahead = h.ahead;
      left = h.left;
    }),
  )
  execute-Going (remove gone) c total k old s going = going
  execute-Going halt c total k old s going = going
