-- ===== src/Web/Limit.antt =====
-- The limit that a tier sets on the targets, kept by the dashboard.
use certlight.Base.{
  ℕ, suc, ◌≤◌, ◌≡◌, ◌≢◌, refl, String, true, Option, none, some, length, Result, ok, err,
  Bool-cases, Option-cases, inl, inr, arith,
}
use certlight.Core.Collector.{Target}
use certlight.License.Tier.{Limits, can_add_target}
use certlight.Store.Targets.{TargetOps}
use certlight.Sched.Registry.{Scheduler, add_target, list_targets}
use certlight.Sched.Registry.Count.{add_target-count}
use certlight.Web.Targets.{Server, persisted, added_reply, handle_add_target}

room_left :
    (limits : Limits) (n : ℕ)
    → limits.max_targets ≢ 0
    → can_add_target limits n ≡ true
    → suc n ≤ limits.max_targets
unfolding can_add_target
room_left limits n limited room = ground (arith, limited, room)

module _ {T : Type 0} (ops : TargetOps T) where
  persisted-scheduler :
      (c : String) (sched : Scheduler) (r : T × Option String)
      → (persisted ops c sched r).0.scheduler ≡ sched
  persisted-scheduler c sched (d, none) = refl
  persisted-scheduler c sched (d, some x) = refl

  added_reply-scheduler :
      (m : String) (s : Server T) (p : Scheduler × Result String Target)
      → (added_reply ops m s p).0.scheduler ≡ p.0
  added_reply-scheduler m s (sched, err x) = refl
  added_reply-scheduler m s (sched, ok t) = elim (Option-cases s.targets) [
    | inl nil ↦ rw nil refl
    | inr (d, is) ↦ rw is (persisted-scheduler t.canonical sched (ops.save m t.raw t.canonical d))
  ]

  -- Where a tier has a limit and a module's targets are within it, they are so after a request to add a
  -- target, whatever the request.
  pub handle_add_target_limit :
      (limits : Limits) (m : String) (body : Option String) (s : Server T)
      → limits.max_targets ≢ 0
      → length (list_targets m s.scheduler) ≤ limits.max_targets
      → length (list_targets m (handle_add_target ops limits m body s).0.scheduler)
        ≤ limits.max_targets
  unfolding handle_add_target
  handle_add_target_limit limits m none s limited below = below
  handle_add_target_limit limits m (some raw) s limited below =
      elim (Bool-cases (can_add_target limits (length (list_targets m s.scheduler)))) [
        | inl room ↦
            rw (room, added_reply-scheduler m s (add_target m raw s.scheduler))
              (omega (
                arith,
                add_target-count m raw s.scheduler,
                room_left limits (length (list_targets m s.scheduler)) limited room,
              ))
        | inr full ↦ rw full below
      ]
