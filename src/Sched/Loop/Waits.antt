-- ===== src/Sched/Loop/Waits.antt =====
-- The scans in flight that `Stop` waits for: a sum over jobs (sched/scheduler.go).
use certlight.Base.{ℕ, suc, ◌+◌, ◌≡◌, refl, sym, ◌∙◌, ap, List, [], ◌∷◌, ◌++◌, map, arith}
use certlight.Core.Collector.{Target}
use certlight.Sched.Loop.{Job, Origin, Loop, swept, added, asked, job_of}

-- `s.wg` counts the scans of the sweeps and of `AddTarget`, and not those of `ScanNow`.
abbrev pub waited_for : Origin → ℕ → ℕ
waited_for asked n = n
waited_for _ n = suc n

unfoldable pub in_wait : List Job → ℕ
in_wait [] = 0
in_wait (j ∷ jobs) = waited_for j.origin (in_wait jobs)

abbrev pub in_flight : {S C : Type 0} → Loop S C → ℕ
in_flight s = in_wait s.waiting + in_wait s.scanning

waited_for-suc : (o : Origin) (n : ℕ) → waited_for o (suc n) ≡ suc (waited_for o n)
waited_for-suc swept n = refl
waited_for-suc added n = refl
waited_for-suc asked n = refl

pub waited_for-moved : (o : Origin) (x y : ℕ) → waited_for o x + y ≡ x + waited_for o y
waited_for-moved swept x y = omega arith
waited_for-moved added x y = omega arith
waited_for-moved asked x y = refl

pub waited_for-over : (o : Origin) (x y n : ℕ) → waited_for o x + y + n ≡ x + y + waited_for o n
waited_for-over swept x y n = omega arith
waited_for-over added x y n = omega arith
waited_for-over asked x y n = refl

pub in_wait-middle :
    (j : Job) (before after : List Job)
    → in_wait (before ++ j ∷ after) ≡ waited_for j.origin (in_wait (before ++ after))
unfolding in_wait
in_wait-middle j [] after = refl
in_wait-middle j (k ∷ before) after =
    ap (waited_for k.origin) (in_wait-middle j before after) ∙ swap k.origin j.origin _
  where
    swap : (o p : Origin) (n : ℕ) → waited_for o (waited_for p n) ≡ waited_for p (waited_for o n)
    swap swept p n = sym (waited_for-suc p n)
    swap added p n = sym (waited_for-suc p n)
    swap asked p n = refl

pub in_wait-asked :
    (ts : List Target) (jobs : List Job) → in_wait (map (job_of asked) ts ++ jobs) ≡ in_wait jobs
unfolding in_wait
in_wait-asked [] jobs = refl
in_wait-asked (t ∷ ts) jobs = in_wait-asked ts jobs
