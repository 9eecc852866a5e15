-- ===== src/Cmd/Restart/Kept.antt =====
-- The targets of the scheduler and those of the store stay the same (cmd/certlight/main.go).
use certlight.Base.{
  ◌≡◌, refl, sym, ◌∙◌, ap, subst, inl, inr, String, Bool, true, false, ◌||◌, ◌==◌, text_refl,
  text_cases, none, some, List, [], ◌∷◌, map, ok, All, Bool-cases, arith,
}
use certlight.Core.Collector.{Target}
use certlight.Store.Memory.{MemTarget, has_canonical, drop_canonical, append}
use certlight.Store.Memory.Targets.{
  has_canonical-append, has_canonical-drop_canonical, All-append, All-drop_canonical,
}
use certlight.Store.Targets.{TargetOps, TargetLaws}
use certlight.Sched.Registry.{
  Collector, Scheduler, add_target, remove_target, start, target_of, add_target-target_of,
  remove_target-target_of,
}
use certlight.Sched.Registry.Known.{
  is_present, IsRegistered, add_target-cases, remove_target-IsRegistered, register-fresh,
}
use certlight.Cmd.Restart.{restore, Replays, IsStable, fresh}

abbrev raws_of : List MemTarget → List String
raws_of = map (λ (x : MemTarget). x.raw)

module _ (coll : Collector) where
  -- The scheduler has the targets of a list, and those that it had.
  abbrev HasAlso : List MemTarget → Scheduler → Scheduler → Type 0
  HasAlso xs s t =
      IsRegistered coll.describe.id coll t
      × ((c : String)
          → is_present (target_of coll.describe.id c t)
            ≡ (has_canonical c xs || is_present (target_of coll.describe.id c s)))

  HasAlso-cons :
      (x : MemTarget) (xs : List MemTarget) (u : Target) (s s' t : Scheduler)
      → add_target coll.describe.id x.raw s ≡ (s', ok u)
      → u.canonical ≡ x.canonical
      → HasAlso xs s' t
      → HasAlso (x ∷ xs) s t
  unfolding has_canonical
  HasAlso-cons x xs u s s' t placed is (registered, has) =
      let m = coll.describe.id in
      (
        registered,
        λ c.
            has c
            ∙ rw (add_target-target_of m x.raw s s' u placed m c, text_refl m, is)
                (elim (Bool-cases (x.canonical == c)) [
                  | inl same ↦ rw same (ground arith)
                  | inr other ↦ rw other refl
                ]),
      )

  restored :
      (xs : List MemTarget) (s : Scheduler)
      → IsRegistered coll.describe.id coll s
      → All (Replays coll) xs
      → HasAlso xs s (restore coll.describe.id (raws_of xs) s)
  unfolding restore has_canonical
  restored [] s known valid = (known, λ c. refl)
  restored (x ∷ xs) s known ((u, again, form), valid) =
      let m = coll.describe.id in
      elim (add_target-cases m x.raw coll s known) [
        | inl (t, s', accepted, placed, known') ↦
            subst (HasAlso (x ∷ xs) s) (sym (ap (λ p. restore m (raws_of xs) p.0) placed)) (
              HasAlso-cons x xs t s s' (restore m (raws_of xs) s') placed
                (cc (accepted, again, form)) (restored xs s' known' valid))
        | inr (e, refused, same) ↦ absurd (cc (again, refused))
      ]

module _ {T : Type 0} (ops : TargetOps T) (laws : TargetLaws ops) (coll : Collector) where
  -- Exactly the targets of the scheduler are saved, as inputs that the collector accepts again.
  pub record IsSaved (scheduler : Scheduler) (store : T) : Type 0 where
    pub known : IsRegistered coll.describe.id coll scheduler
    pub same :
        (c : String)
        → has_canonical c (laws.saved store coll.describe.id)
          ≡ is_present (target_of coll.describe.id c scheduler)
    pub valid : All (Replays coll) (laws.saved store coll.describe.id)

module _ {T : Type 0} (ops : TargetOps T) (laws : TargetLaws ops) (coll : Collector)
    (stable : IsStable coll) (named : (coll.describe.id == "") ≡ false) where
  abbrev Saved : Scheduler → T → Type 0
  Saved = IsSaved ops laws coll

  pub save-IsSaved :
      (raw : String) (t : Target) (s s' : Scheduler) (d d' : T)
      → coll.validate_target raw ≡ ok t
      → add_target coll.describe.id raw s ≡ (s', ok t)
      → IsRegistered coll.describe.id coll s'
      → ops.save coll.describe.id t.raw t.canonical d ≡ (d', none)
      → Saved s d
      → Saved s' d'
  save-IsSaved raw t s s' d d' accepted placed known saved h =
      let m = coll.describe.id in
      let row : MemTarget = record { raw = t.raw; canonical = t.canonical } in
      let is = laws.save-ok m t.raw t.canonical m d d' saved in
      elim (Bool-cases (has_canonical t.canonical (laws.saved d m))) [
        | inl old ↦
            let kept : laws.saved d' m ≡ laws.saved d m = is ∙ rw (text_refl m, old) refl in
            record {
              known = known;
              same = λ c.
                  rw (kept, h.same c, add_target-target_of m raw s s' t placed m c, text_refl m)
                    (elim (text_cases t.canonical c) [
                      | inl eq ↦
                          let there : is_present (target_of m c s) ≡ true =
                            sym (h.same c)
                            ∙ subst (λ k. has_canonical k (laws.saved d m) ≡ true) eq old in
                          rw (eq, text_refl c) there
                      | inr other ↦ rw other refl
                    ]);
              valid = subst (All (Replays coll)) (sym kept) h.valid;
            }
        | inr new ↦
            let more : laws.saved d' m ≡ append (laws.saved d m) row =
              is ∙ rw (text_refl m, new) refl in
            record {
              known = known;
              same = λ c.
                  rw
                    (
                      more,
                      has_canonical-append c (laws.saved d m) row,
                      h.same c,
                      add_target-target_of m raw s s' t placed m c,
                      text_refl m,
                    )
                    (elim (Bool-cases (t.canonical == c)) [
                      | inl eq ↦ rw eq (ground arith)
                      | inr other ↦ rw other (ground arith)
                    ]);
              valid =
                  subst (All (Replays coll)) (sym more) (
                    All-append (Replays coll) (laws.saved d m) row h.valid (stable raw t accepted));
            }
      ]

  pub delete-IsSaved :
      (canonical : String) (s : Scheduler) (d d' : T)
      → ops.delete coll.describe.id canonical d ≡ some (d', none)
      → Saved s d
      → Saved (remove_target coll.describe.id canonical s) d'
  delete-IsSaved canonical s d d' deleted h =
      let m = coll.describe.id in
      let is : laws.saved d' m ≡ drop_canonical canonical (laws.saved d m) =
        laws.delete-ok m canonical m d d' deleted ∙ rw (text_refl m) refl in
      record {
        known = remove_target-IsRegistered m canonical coll s h.known;
        same = λ c.
            rw
              (
                is,
                has_canonical-drop_canonical c canonical (laws.saved d m),
                h.same c,
                remove_target-target_of m canonical s m c,
                text_refl m,
              )
              (elim (Bool-cases (canonical == c)) [
                | inl eq ↦ rw eq refl
                | inr other ↦ rw other refl
              ]);
        valid =
            subst (All (Replays coll)) (sym is)
              (All-drop_canonical (Replays coll) canonical (laws.saved d m) h.valid);
      }

  pub start-IsSaved : (ended : Bool) (s : Scheduler) (d : T) → Saved s d → Saved (start ended s).0 d
  unfolding start target_of
  start-IsSaved ended s d h = elim (Bool-cases s.started) [
    | inl on ↦ rw (on, start) (record { known = h.known; same = h.same; valid = h.valid })
    | inr off ↦ rw (off, start) (record { known = h.known; same = h.same; valid = h.valid })
  ]

  -- What a new process restores from a store that kept the targets.
  pub restore-IsSaved :
      (s : Scheduler) (d d' : T) (raws : List String)
      → laws.saved d' coll.describe.id ≡ laws.saved d coll.describe.id
      → ops.list d' coll.describe.id ≡ ok raws
      → Saved s d
      → Saved (restore coll.describe.id raws (fresh coll)) d'
  restore-IsSaved s d d' raws kept listed h =
      let m = coll.describe.id in
      let (known, none_yet) = register-fresh coll named in
      let valid = subst (All (Replays coll)) (sym kept) h.valid in
      let (registered, has) = restored coll (laws.saved d' m) (fresh coll) known valid in
      subst (λ l. Saved (restore m l (fresh coll)) d') (sym (laws.list-ok d' m raws listed))
        (record {
          known = registered;
          same = λ c. sym (has c ∙ rw (none_yet c) (ground arith));
          valid = valid;
        })
