-- ===== src/Cmd/Restart/Same.antt =====
-- A restart brings back the targets of the dashboard (web/server.go, cmd/certlight/main.go).
use certlight.Base.{
  ◌≡◌, ◌≢◌, refl, sym, ◌∙◌, ap, subst, inl, inr, String, false, ◌==◌, Option, none, some, [],
  length, ok, All, Bool-cases,
}
use certlight.Core.Collector.{Target}
use certlight.License.Tier.{Limits, can_add_target}
use certlight.Store.Memory.{has_canonical}
use certlight.Store.Targets.{TargetOps, TargetLaws}
use certlight.Sched.Registry.{Collector, Scheduler, add_target, remove_target, list_targets}
use certlight.Sched.Registry.Known.{IsRegistered, add_target-cases, register-fresh}
use certlight.Web.Status.{Reply}
use certlight.Web.Targets.{
  Server, persisted, persist_target, handle_add_target, handle_remove_target,
}
use certlight.Cmd.Restart.{
  Replays, IsStable, fresh, Session, opened, adds, removes, starts, restarts,
}
use certlight.Cmd.Restart.Kept.{
  IsSaved, save-IsSaved, delete-IsSaved, start-IsSaved, restore-IsSaved,
}

module _ {T : Type 0} (ops : TargetOps T) (laws : TargetLaws ops) (coll : Collector)
    (stable : IsStable coll) (named : (coll.describe.id == "") ≡ false) where
  abbrev Saved : Scheduler → T → Type 0
  Saved = IsSaved ops laws coll

  abbrev IsRestorable : Server T → Type 0
  IsRestorable s = (d : T) × (s.targets ≡ some d) × Saved s.scheduler d

  persisted-IsRestorable :
      (c : String) (sched : Scheduler) (r : T × Option String) (s : Server T) (reply : Reply)
      → persisted ops c sched r ≡ (s, reply)
      → reply.code ≢ 500
      → ((d : T) → r ≡ (d, none) → Saved sched d)
      → IsRestorable s
  persisted-IsRestorable c sched (d, none) s reply h fine is =
      subst IsRestorable (ap (λ p. p.0) h) (d, refl, is d refl)
  persisted-IsRestorable c sched (d, some x) s reply h fine is =
      absurd (fine (ap (λ p. p.1.code) (sym h)))

  persist_target-IsRestorable :
      (raw : String) (t : Target) (s : Server T) (sched : Scheduler) (s' : Server T) (reply : Reply)
      → coll.validate_target raw ≡ ok t
      → add_target coll.describe.id raw s.scheduler ≡ (sched, ok t)
      → IsRegistered coll.describe.id coll sched
      → persist_target ops coll.describe.id sched t s.targets ≡ (s', reply)
      → reply.code ≢ 500
      → IsRestorable s
      → IsRestorable s'
  persist_target-IsRestorable raw t s sched s' reply accepted placed known h fine (d, is, saved) =
      let m = coll.describe.id in
      persisted-IsRestorable t.canonical sched (ops.save m t.raw t.canonical d) s' reply
        (ap (persist_target ops m sched t) (sym is) ∙ h) fine
        (λ d' q.
          save-IsSaved ops laws coll stable named raw t s.scheduler sched d d' accepted placed known
            q saved)

  handle_add_target-IsRestorable :
      (limits : Limits) (body : Option String) (s s' : Server T) (reply : Reply)
      → handle_add_target ops limits coll.describe.id body s ≡ (s', reply)
      → reply.code ≢ 500
      → IsRestorable s
      → IsRestorable s'
  unfolding handle_add_target
  handle_add_target-IsRestorable limits none s s' reply h fine old =
      subst IsRestorable (ap (λ p. p.0) h) old
  handle_add_target-IsRestorable limits (some raw) s s' reply h fine old =
      let m = coll.describe.id in
      elim (Bool-cases (can_add_target limits (length (list_targets m s.scheduler)))) [
        | inl room ↦ elim (add_target-cases m raw coll s.scheduler old.2.known) [
          | inl (t, sched, accepted, placed, known) ↦
              persist_target-IsRestorable raw t s sched s' reply accepted placed known
                (rw (room, placed) at h) fine old
          | inr (x, refused, same) ↦ subst IsRestorable (ap (λ p. p.0) (rw (room, same) at h)) old
        ]
        | inr full ↦ subst IsRestorable (ap (λ p. p.0) (rw full at h)) old
      ]

  handle_remove_target-IsRestorable :
      (canonical : String) (d d' : T) (s s' : Server T) (reply : Reply)
      → s.targets ≡ some d
      → ops.delete coll.describe.id canonical d ≡ some (d', none)
      → handle_remove_target ops coll.describe.id canonical s ≡ some (s', reply)
      → IsRestorable s
      → IsRestorable s'
  unfolding handle_remove_target
  handle_remove_target-IsRestorable canonical d d' s s' reply has deleted h (old, is, saved) =
      elim (Bool-cases (canonical == "")) [
        | inl empty ↦ subst IsRestorable (cc (rw empty at h)) (old, is, saved)
        | inr given ↦
            let same : old ≡ d = cc (is, has) in
            let left : Server T = record {
              scheduler = remove_target coll.describe.id canonical s.scheduler;
              targets = some d';
            } in
            let done : left ≡ s' = cc (rw (given, has, deleted) at h) in
            subst IsRestorable done (
              d',
              refl,
              delete-IsSaved ops laws coll stable named canonical s.scheduler d d' deleted
                  (subst (Saved s.scheduler) same saved),
            )
      ]

  Session-IsRestorable :
      (begun : Server T) {s : Server T}
      → IsRestorable begun
      → Session ops laws coll begun s
      → IsRestorable s
  Session-IsRestorable begun h opened = h
  Session-IsRestorable begun h (adds {s} {s'} {reply} before limits body served fine) =
      handle_add_target-IsRestorable limits body s s' reply served fine
        (Session-IsRestorable begun h before)
  Session-IsRestorable begun h (removes {s} {s'} {reply} before canonical d d' is deleted served) =
      handle_remove_target-IsRestorable canonical d d' s s' reply is deleted served
        (Session-IsRestorable begun h before)
  Session-IsRestorable begun h (starts {s} before ended) =
      let (d, is, saved) = Session-IsRestorable begun h before in
      (d, is, start-IsSaved ops laws coll stable named ended s.scheduler d saved)
  Session-IsRestorable begun h (restarts {s} before d d' raws is kept listed) =
      let (old, was, saved) = Session-IsRestorable begun h before in
      let same : old ≡ d = cc (was, is) in
      (
        d',
        refl,
        restore-IsSaved ops laws coll stable named s.scheduler d d' raws kept listed
            (subst (Saved s.scheduler) same saved),
      )

  -- From a store without saved targets of the module, after any session, exactly the targets of
  -- the server are saved.
  pub Session-Saved :
      (begun s : Server T) (d₀ d : T)
      → begun ≡ record { scheduler = fresh coll; targets = some d₀ }
      → laws.saved d₀ coll.describe.id ≡ []
      → Session ops laws coll begun s
      → s.targets ≡ some d
      → Saved s.scheduler d
  unfolding has_canonical
  Session-Saved begun s d₀ d is empty session has =
      let (known, none_yet) = register-fresh coll named in
      let first : Saved (fresh coll) d₀ = record {
        known = known;
        same = λ c. rw (empty, none_yet c) refl;
        valid = subst (All (Replays coll)) (sym empty) tt;
      } in
      let (old, was, saved) =
        Session-IsRestorable begun (subst IsRestorable (sym is) (d₀, refl, first)) session in
      let same : old ≡ d = cc (was, has) in subst (Saved s.scheduler) same saved
