-- ===== src/Sched/Registry/Count.antt =====
-- How many targets a module has.
use certlight.Base.{
  suc, ◌≤◌, ◌≡◌, refl, ◌∙◌, GoMap, lookup, insert, without, lookup-insert, String, ◌==◌, text_refl,
  Option, none, some, List, [], ◌∷◌, length, Result, ok, err, Bool-cases, Option-cases, inl, inr,
  arith,
}
use certlight.Core.Collector.{Target}
use certlight.Sched.Registry.{
  Registration, Scheduler, values_of, place_target, place_valid, place, add_target, remove_target,
  list_targets,
}

values_of-without :
    (k : String) (ts : GoMap Target) → length (values_of (without k ts)) ≤ length (values_of ts)
unfolding without
values_of-without k [] = omega arith
values_of-without k ((j, t) ∷ ts) = elim (Bool-cases (j == k)) [
  | inl gone ↦ rw gone (omega (arith, values_of-without k ts))
  | inr stays ↦ rw stays (omega (arith, values_of-without k ts))
]

values_of-insert :
    (k : String) (t : Target) (ts : GoMap Target)
    → length (values_of (insert k t ts)) ≤ suc (length (values_of ts))
unfolding insert
values_of-insert k t ts = omega (arith, values_of-without k ts)

abbrev targets_in : Option Registration → List Target
targets_in none = []
targets_in (some reg) = values_of reg.targets

list_targets-lookup :
    (m : String) (s : Scheduler) (o : Option Registration)
    → lookup m s.modules ≡ o
    → list_targets m s ≡ targets_in o
unfolding list_targets
list_targets-lookup m s none h = rw (h, list_targets) refl
list_targets-lookup m s (some reg) h = rw (h, list_targets) refl

place_target-count :
    (m : String) (reg : Registration) (t : Target) (s : Scheduler)
    → length (list_targets m (place_target m reg t s)) ≤ suc (length (values_of reg.targets))
place_target-count m reg t s =
    let added : Registration = record reg { targets = insert t.canonical t reg.targets } in
    let is : lookup m (insert m added s.modules) ≡ some added =
      lookup-insert m m added s.modules ∙ rw (text_refl m) refl in
    rw (list_targets-lookup m (place_target m reg t s) (some added) is)
      (values_of-insert t.canonical t reg.targets)

place-count :
    (m raw : String) (o : Option Registration) (s : Scheduler)
    → lookup m s.modules ≡ o
    → length (list_targets m (place m raw o s).0) ≤ suc (length (list_targets m s))
place-count m raw none s h = omega arith
place-count m raw (some reg) s h = valid (reg.collector.validate_target raw)
  where
    valid :
        (r : Result String Target)
        → length (list_targets m (place_valid m reg r s).0) ≤ suc (length (list_targets m s))
    valid (err x) = omega arith
    valid (ok t) = rw (list_targets-lookup m s (some reg) h) (place_target-count m reg t s)

-- An added target makes one target more at most.
pub add_target-count :
    (m raw : String) (s : Scheduler)
    → length (list_targets m (add_target m raw s).0) ≤ suc (length (list_targets m s))
unfolding add_target
add_target-count m raw s = place-count m raw (lookup m s.modules) s refl

-- A removed target makes no more targets.
pub remove_target-count :
    (m canonical : String) (s : Scheduler)
    → length (list_targets m (remove_target m canonical s)) ≤ length (list_targets m s)
unfolding remove_target
remove_target-count m canonical s = elim (Option-cases (lookup m s.modules)) [
  | inl unknown ↦ rw (unknown, remove_target) (omega arith)
  | inr (reg, known) ↦
      let left : Registration = record reg { targets = without canonical reg.targets } in
      let is : lookup m (insert m left s.modules) ≡ some left =
        lookup-insert m m left s.modules ∙ rw (text_refl m) refl in
      let after : Scheduler = record s { modules = insert m left s.modules } in
      rw (known, remove_target)
        (rw (list_targets-lookup m after (some left) is, list_targets-lookup m s (some reg) known)
          (values_of-without canonical reg.targets))
]
