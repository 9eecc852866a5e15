-- ===== src/Sched/Registry/Known.antt =====
-- The answers of the registry for a module that is registered (sched/scheduler.go).
use certlight.Base.{
  GoMap, lookup, insert, lookup-insert, ◌≡◌, ◌⊎◌, refl, sym, ◌∙◌, ap, inl, inr, String, Bool, true,
  false, without, ◌==◌, [], text_refl, Option, none, some, ok, err, Result-cases, arith,
}
use certlight.Core.Collector.{Target}
use certlight.Sched.Registry.{
  Collector, Registration, Scheduler, add_target, place_target, remove_target, start, register,
  new_scheduler, target_of, target_in,
}

abbrev pub is_present {ℓ} : {A : Type ℓ} → Option A → Bool
is_present none = false
is_present (some x) = true

abbrev pub IsRegistered : String → Collector → Scheduler → Type 0
IsRegistered m coll s =
    (reg : Registration) × (lookup m s.modules ≡ some reg) × (reg.collector ≡ coll)

lookup-placed :
    {V : Type 0} (m : String) (x : V) (modules : GoMap V) → lookup m (insert m x modules) ≡ some x
lookup-placed m x modules = lookup-insert m m x modules ∙ rw (text_refl m) refl

-- An input that the collector accepts is placed, and one that it refuses changes nothing.
pub add_target-cases :
    (m raw : String) (coll : Collector) (s : Scheduler)
    → IsRegistered m coll s
    → ((t : Target) × (s' : Scheduler) × (coll.validate_target raw ≡ ok t)
        × (add_target m raw s ≡ (s', ok t))
        × IsRegistered m coll s')
      ⊎ ((x : String) × (coll.validate_target raw ≡ err x) × (add_target m raw s ≡ (s, err x)))
unfolding add_target
add_target-cases m raw coll s (reg, known, is) =
    let same : coll.validate_target raw ≡ reg.collector.validate_target raw =
      ap (λ c. c.validate_target raw) (sym is) in
    elim (Result-cases (reg.collector.validate_target raw)) [
      | inl (t, accepted) ↦ inl (
        t,
        place_target m reg t s,
        same ∙ accepted,
        rw (known, accepted) refl,
        (
          record reg { targets = insert t.canonical t reg.targets },
          lookup-placed m (record reg { targets = insert t.canonical t reg.targets }) s.modules,
          is,
        ),
      )
      | inr (x, refused) ↦ inr (x, same ∙ refused, rw (known, refused) refl)
    ]

pub remove_target-IsRegistered :
    (m canonical : String) (coll : Collector) (s : Scheduler)
    → IsRegistered m coll s
    → IsRegistered m coll (remove_target m canonical s)
unfolding remove_target
remove_target-IsRegistered m canonical coll s (reg, known, is) =
    rw (known, remove_target)
      (
        record reg { targets = without canonical reg.targets },
        lookup-placed m (record reg { targets = without canonical reg.targets }) s.modules,
        is,
      )

pub start-modules : (ended : Bool) (s : Scheduler) → (start ended s).0.modules ≡ s.modules
unfolding start
start-modules ended s = ground arith

-- A new registration has no target.
pub register-fresh :
    (coll : Collector)
    → (coll.describe.id == "") ≡ false
    → IsRegistered coll.describe.id coll (register coll new_scheduler).0
      × ((c : String) → target_of coll.describe.id c (register coll new_scheduler).0 ≡ none)
unfolding register target_of target_in lookup
register-fresh coll named =
    let m = coll.describe.id in
    let reg : Registration = record { collector = coll; info = coll.describe; targets = [] } in
    rw (named, register)
      ((reg, lookup-placed m reg [], refl), λ c. ap (target_in c) (lookup-placed m reg []))
