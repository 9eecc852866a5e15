-- ===== src/Sched/Loop/Steps.antt =====
-- What a step of the loop and its surroundings leaves alone (sched/scheduler.go).
use certlight.Base.{
  suc, ◌≤◌, ◌≡◌, refl, sym, ◌∙◌, ap, inl, inr, lookup, String, Bool, subst, true, false, Option,
  none, some, List, [], ◌∷◌, ◌++◌, map, length, Result, ok, err, In, arith,
}
use certlight.Core.Collector.{Target}
use certlight.Sched.Registry.{Registration, Scheduler, values_of}
use certlight.Sched.Loop.{asked_for, scan_now, Job, swept, added, asked, job_of, at_once}

module _ {ℓ} {A : Type ℓ} where
  -- Taking an element out.
  pub In-without :
      (x y : A) (before after : List A) → In x (before ++ after) → In x (before ++ y ∷ after)
  In-without x y [] after h = inr h
  In-without x y (z ∷ before) after (inl is) = inl is
  In-without x y (z ∷ before) after (inr h) = inr (In-without x y before after h)

  pub In-middle : (x : A) (before after : List A) → In x (before ++ x ∷ after)
  In-middle x [] after = inl refl
  In-middle x (z ∷ before) after = inr (In-middle x before after)

  pub length-without :
      (x : A) (before after : List A)
      → length (before ++ x ∷ after) ≡ suc (length (before ++ after))
  length-without x [] after = refl
  length-without x (z ∷ before) after = ap suc (length-without x before after)

-- A target of a canonical form is among these.
abbrev pub Has : String → List Target → Type 0
Has c ts = (t : Target) × In t ts × (t.canonical ≡ c)

-- No scan of a target that a sweep started is among these.
abbrev pub Idle : String → List Job → Type 0
Idle c jobs = (j : Job) → In j jobs → j.origin ≡ swept → j.target.canonical ≡ c → ⊥

pub Has-length : (c : String) (ts : List Target) → Has c ts → 1 ≤ length ts
Has-length c [] (t, h, is) = absurd h.lower
Has-length c (u ∷ ts) has = omega arith

pub Idle-without :
    (c : String) (j : Job) (before after jobs : List Job)
    → jobs ≡ before ++ j ∷ after
    → Idle c jobs
    → Idle c (before ++ after)
Idle-without c j before after jobs q idle k h =
    idle k (subst (In k) (sym q) (In-without k j before after h))

pub Idle-middle :
    (c : String) (j : Job) (before after jobs : List Job)
    → jobs ≡ before ++ j ∷ after
    → Idle c jobs
    → j.origin ≡ swept
    → j.target.canonical ≡ c
    → ⊥
Idle-middle c j before after jobs q idle = idle j (subst (In j) (sym q) (In-middle j before after))

pub Idle-cons :
    (c : String) (j : Job) (jobs : List Job)
    → (j.origin ≡ swept → j.target.canonical ≡ c → ⊥)
    → Idle c jobs
    → Idle c (j ∷ jobs)
Idle-cons c j jobs other idle k (inl is) o t =
    other (sym (ap (λ y. y.origin) is) ∙ o) (sym (ap (λ y. y.target.canonical) is) ∙ t)
Idle-cons c j jobs other idle k (inr h) o t = idle k h o t

Idle-asked :
    (c : String) (ts : List Target) (jobs : List Job)
    → Idle c jobs
    → Idle c (map (job_of asked) ts ++ jobs)
Idle-asked c [] jobs idle = idle
Idle-asked c (t ∷ ts) jobs idle =
    Idle-cons c (job_of asked t) (map (job_of asked) ts ++ jobs) (λ o. absurd (cc o))
      (Idle-asked c ts jobs idle)

asked_for-asked :
    (m : String) (o : Option Registration) (jobs : List Job)
    → asked_for m o ≡ ok jobs
    → (ts : List Target) × (map (job_of asked) ts ≡ jobs)
asked_for-asked m none jobs h = cc
asked_for-asked m (some reg) jobs h = (values_of reg.targets, cc h)

pub scan_now-asked :
    (m : String) (s : Scheduler) (found : List Job)
    → scan_now m s ≡ ok found
    → (ts : List Target) × (map (job_of asked) ts ≡ found)
unfolding scan_now
scan_now-asked m s found h = asked_for-asked m (lookup m s.modules) found h

pub Idle-scan_now :
    (c m : String) (s : Scheduler) (found waiting : List Job)
    → scan_now m s ≡ ok found
    → Idle c waiting
    → Idle c (found ++ waiting)
Idle-scan_now c m s found waiting h idle =
    let (ts, is) = scan_now-asked m s found h in
    subst (λ l. Idle c (l ++ waiting)) is (Idle-asked c ts waiting idle)

pub Idle-at_once :
    (c : String) (is_on : Bool) (r : Result String Target) (jobs : List Job)
    → Idle c jobs
    → Idle c (at_once is_on r jobs)
Idle-at_once c true (ok t) jobs idle = Idle-cons c (job_of added t) jobs (λ o. absurd (cc o)) idle
Idle-at_once c true (err x) jobs idle = idle
Idle-at_once c false r jobs idle = idle
