-- ===== src/Notify/Loss.antt =====
-- No event that `Enqueue` lets in is lost (notify/notify.go).
use certlight.Base.{
  ℕ, ◌≡◌, refl, sym, ◌∙◌, subst, inl, inr, true, false, Bool-cases, List, [], ◌∷◌, ◌⊎◌, arith,
  contains, leb_ℤ, pos, not, ◌&&◌,
}
use mathlib.Core.List.{append-nil}
use certlight.Notify.Digest.{Event, Digest}
use certlight.Notify.Dispatcher.{
  Config, Dispatcher, new_dispatcher, event_key, passes_severity, is_opened, add_pending,
  total_pending, accept, enqueue, flush, close, flush_locked,
}
use certlight.Notify.Batching.{Call, enqueue_at, flush_at, close_at, step, run, enqueue-cases}
use certlight.Notify.Delivery.{Waits, SentSince, Delivered}
use certlight.Notify.Windows.{
  Waits-add_pending, Remembers, Extends, added, flush_locked-Extends, flush_locked-SentSince,
  flush_locked-Delivered, flush_locked-Remembers, added-Remembers, added-Delivered,
}

module _ {C : Type 0} where
  -- What holds of a dispatcher between calls also holds after `Enqueue` if flushing and adding
  -- keep it, and a change of the timer.
  accept-keeps :
      (P : Dispatcher C → Type 0) (now : ℕ) (e : Event) (d : Dispatcher C)
      → P (flush_locked now (added e d))
      → P (record (added e d) { timer = true })
      → P (accept now e d)
  unfolding accept
  accept-keeps P now e d flushed kept =
      elim (Bool-cases (leb_ℤ d.cfg.max_batch (pos (total_pending (add_pending e d.pending))))) [
        | inl full ↦ rw (full, accept) flushed
        | inr fits ↦ rw (fits, accept) kept
      ]

  pub enqueue-keeps :
      (P : Dispatcher C → Type 0) (now : ℕ) (e : Event) (d : Dispatcher C)
      → P d
      → P (flush_locked now (added e d))
      → P (record (added e d) { timer = true })
      → P (enqueue now e d)
  enqueue-keeps P now e d same flushed kept = elim (enqueue-cases now e d) [
    | inl q ↦ subst P (sym q) same
    | inr (_, q) ↦ subst P (sym q) (accept-keeps P now e d flushed kept)
  ]

  pub step-Remembers : (c : Call) (d : Dispatcher C) → Remembers d → Remembers (step c d)
  unfolding flush close
  step-Remembers (enqueue_at now e) d h =
      enqueue-keeps Remembers now e d h
        (flush_locked-Remembers now (added e d) (added-Remembers e d h)) (added-Remembers e d h)
  step-Remembers (flush_at now) d h = flush_locked-Remembers now d h
  step-Remembers (close_at now) d h = flush_locked-Remembers now d h

  pub step-Delivered :
      (old : List (C × Digest)) (x : Event) (c : Call) (d : Dispatcher C)
      → Delivered old x d
      → Delivered old x (step c d)
  unfolding flush close
  step-Delivered old x (enqueue_at now e) d h =
      enqueue-keeps (Delivered old x) now e d h
        (flush_locked-Delivered now old x (added e d) (added-Delivered old x e d h))
        (added-Delivered old x e d h)
  step-Delivered old x (flush_at now) d h = flush_locked-Delivered now old x d h
  step-Delivered old x (close_at now) d h = flush_locked-Delivered now old x d h

  pub enqueue-Extends :
      (now : ℕ) (old : List (C × Digest)) (e : Event) (d : Dispatcher C)
      → Extends old d
      → Extends old (enqueue now e d)
  enqueue-Extends now old e d h =
      enqueue-keeps (Extends old) now e d h (flush_locked-Extends now old (added e d) h) h

  pub step-channels : (c : Call) (d : Dispatcher C) → (step c d).channels ≡ d.channels
  unfolding flush close flush_locked
  step-channels (enqueue_at now e) d =
      enqueue-keeps (λ x. x.channels ≡ d.channels) now e d refl refl refl
  step-channels (flush_at now) d = refl
  step-channels (close_at now) d = refl

  pub run-keeps :
      (P : Dispatcher C → Type 0) (cs : List Call) (d : Dispatcher C)
      → ((c : Call) (x : Dispatcher C) → P x → P (step c x))
      → P d
      → P (run cs d)
  run-keeps P [] d keep h = h
  run-keeps P (c ∷ cs) d keep h = run-keeps P cs (step c d) keep (keep c d h)

  enqueue-seen :
      (now : ℕ) (e : Event) (d : Dispatcher C)
      → contains (event_key e) d.seen ≡ true
      → enqueue now e d ≡ d
  unfolding enqueue
  enqueue-seen now e d seen = ground (arith, seen)

  enqueue-accept :
      (now : ℕ) (e : Event) (d : Dispatcher C)
      → (is_opened e.kind && not (passes_severity d.cfg e.finding.severity)) ≡ false
      → d.closed ≡ false
      → contains (event_key e) d.seen ≡ false
      → enqueue now e d ≡ accept now e d
  unfolding enqueue
  enqueue-accept now e d pass live fresh = ground (arith, pass, live, fresh)

  -- The event itself, or one with its key that waits at the dispatcher.
  abbrev pub StandsFor : Event → Event → Dispatcher C → Type 0
  StandsFor x e d = (event_key x ≡ event_key e) × ((x ≡ e) ⊎ Waits x d.pending)

  -- An event let in is delivered itself, or one with its key that waits is.
  pub enqueue-Delivered :
      (now : ℕ) (old : List (C × Digest)) (e : Event) (d : Dispatcher C)
      → Extends old d
      → Remembers d
      → (is_opened e.kind && not (passes_severity d.cfg e.finding.severity)) ≡ false
      → d.closed ≡ false
      → (x : Event) × StandsFor x e d × Delivered old x (enqueue now e d)
  enqueue-Delivered now old e d (news, is) h pass live =
      elim (Bool-cases (contains (event_key e) d.seen)) [
        | inl seen ↦
            let (x, key, waits) = h (event_key e) seen in
            (
              x,
              (key, inr waits),
              subst (Delivered old x) (sym (enqueue-seen now e d seen)) (news, is, inl waits),
            )
        | inr fresh ↦
            let there : Delivered old e (added e d) =
              (news, is, inl (Waits-add_pending e d.pending)) in
            (
              e,
              (refl, inl refl),
              subst (Delivered old e) (sym (enqueue-accept now e d pass live fresh)) (
                  accept-keeps (Delivered old e) now e d
                    (flush_locked-Delivered now old e (added e d) there) there),
            )
      ]

  pub close-SentSince :
      (now : ℕ) (old : List (C × Digest)) (x : Event) (d : Dispatcher C)
      → Delivered old x d
      → SentSince old d.channels x (close now d).sent
  unfolding close
  close-SentSince now old x d h = flush_locked-SentSince now old x d h

  pub run-channels : (cs : List Call) (d : Dispatcher C) → (run cs d).channels ≡ d.channels
  run-channels cs d =
      run-keeps (λ y. y.channels ≡ d.channels) cs d (λ c y q. step-channels c y ∙ q) refl

  pub run-Remembers :
      (cfg : Config) (channels : List C) (cs : List Call)
      → Remembers (run cs (new_dispatcher cfg channels))
  unfolding contains
  run-Remembers cfg channels cs =
      run-keeps Remembers cs (new_dispatcher cfg channels) step-Remembers (λ k q. absurd (cc q))

  -- An event that passes the severity filter of an open dispatcher is never lost: whatever calls
  -- come before and after, by the time the dispatcher is closed each channel has been sent, after
  -- the event came, a digest with it, or with an event of its key that was waiting when it came.
  pub no_event_lost :
      (cfg : Config) (channels : List C) (before after : List Call) (now end : ℕ) (e : Event)
      → let d = run before (new_dispatcher cfg channels) in
        (is_opened e.kind && not (passes_severity d.cfg e.finding.severity)) ≡ false
        → d.closed ≡ false
        → (x : Event) × StandsFor x e d
          × SentSince d.sent channels x (close end (run after (enqueue now e d))).sent
  no_event_lost cfg channels before after now end e pass live =
      let d : Dispatcher C = run before (new_dispatcher cfg channels) in
      let remembers : Remembers d = run-Remembers cfg channels before in
      let (x, stands, delivered) =
        enqueue-Delivered now d.sent e d ([], sym (append-nil d.sent)) remembers pass live in
      let same : (run after (enqueue now e d)).channels ≡ channels =
        run-channels after (enqueue now e d)
        ∙ step-channels (enqueue_at now e) d
        ∙ run-channels before (new_dispatcher cfg channels) in
      (
        x,
        stands,
        subst (λ cs. SentSince d.sent cs x (close end (run after (enqueue now e d))).sent) same
            (close-SentSince end d.sent x (run after (enqueue now e d)) (
              run-keeps (Delivered d.sent x) after (enqueue now e d) (step-Delivered d.sent x)
                delivered)),
      )
