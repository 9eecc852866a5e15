-- ===== src/Cmd/Restart.antt =====
-- The saved targets, from the requests of the dashboard (web/server.go) over a store of targets
-- (store/targets.go) to the start of the next process (cmd/certlight/main.go).
pub mod Kept
pub mod Same
pub mod Stable
use certlight.Base.{
  ◌≡◌, ◌≢◌, refl, sym, ◌∙◌, ap, subst, ◌⊎◌, inl, inr, String, Bool, true, false, not, ◌&&◌, ◌||◌,
  ◌==◌, Option, none, some, Option-cases, List, [], ◌∷◌, map, length, Result, ok, err, All,
  Bool-cases, if◌then◌else◌, arith,
}
use certlight.Core.Collector.{Target}
use certlight.License.Tier.{Limits, can_add_target}
use certlight.Store.Memory.{MemTarget, has_canonical, drop_canonical, append}
use certlight.Store.Memory.Targets.{
  has_canonical-append, has_canonical-drop_canonical, All-append, All-drop_canonical,
}
use certlight.Store.Targets.{TargetOps, TargetLaws}
use certlight.Sched.Registry.{
  Collector, Scheduler, new_scheduler, register, add_target, remove_target, start, target_of,
  list_targets, add_target-target_of, remove_target-target_of,
}
use certlight.Sched.Registry.Known.{
  is_present, IsRegistered, add_target-cases, remove_target-IsRegistered, start-modules,
  register-fresh,
}
use certlight.Web.Status.{Reply}
use certlight.Web.Targets.{Server, handle_add_target, handle_remove_target}

-- The loop of `main` over the saved inputs: one that is not valid any more is skipped.
unfoldable pub restore : String → List String → Scheduler → Scheduler
unfolding add_target
restore m [] s = s
restore m (raw ∷ raws) s = restore m raws (add_target m raw s).0

-- A saved input that the collector still accepts, with the same canonical form.
abbrev Replays : Collector → MemTarget → Type 0
Replays coll x = (t : Target) × (coll.validate_target x.raw ≡ ok t) × (t.canonical ≡ x.canonical)

-- The collector accepts what it passes on as a target's input, as the same target.
abbrev pub IsStable : Collector → Type 0
IsStable coll =
    (raw : String) (t : Target)
    → coll.validate_target raw ≡ ok t
    → (u : Target) × (coll.validate_target t.raw ≡ ok u) × (u.canonical ≡ t.canonical)

-- The scheduler of a new process, before it restores targets.
abbrev pub fresh : Collector → Scheduler
fresh coll = (register coll new_scheduler).0

module _ {T : Type 0} (ops : TargetOps T) (laws : TargetLaws ops) (coll : Collector) where
  -- What happens to the server in one process after another, where every save that a request makes
  -- and every delete succeeds: a process starts its scheduler, serves requests, and ends for a new one
  -- to restore the targets, in a store that has kept them.
  pub data Session (begun : Server T) : Server T → Type 0 where
    opened : Session begun begun
    adds :
        {s s' : Server T} {reply : Reply}
        → Session begun s
        → (limits : Limits) (body : Option String)
        → handle_add_target ops limits coll.describe.id body s ≡ (s', reply)
        → reply.code ≢ 500
        → Session begun s'
    removes :
        {s s' : Server T} {reply : Reply}
        → Session begun s
        → (canonical : String) (d d' : T) → s.targets ≡ some d
        → ops.delete coll.describe.id canonical d ≡ some (d', none)
        → handle_remove_target ops coll.describe.id canonical s ≡ some (s', reply)
        → Session begun s'
    starts :
        {s : Server T}
        → Session begun s
        → (ended : Bool) → Session begun (record s { scheduler = (start ended s.scheduler).0 })
    restarts :
        {s : Server T}
        → Session begun s
        → (d d' : T) (raws : List String) → s.targets ≡ some d
        → laws.saved d' coll.describe.id ≡ laws.saved d coll.describe.id
        → ops.list d' coll.describe.id ≡ ok raws
        → Session begun
            (record { scheduler = restore coll.describe.id raws (fresh coll); targets = some d' })
