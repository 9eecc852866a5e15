-- ===== src/Sched/Announcement.antt =====
-- From a scan to the channels: `scanOne` with the dispatcher bound to it (sched/scheduler.go,
-- notify/bridge.go, notify/notify.go).
use certlight.Base.{
  ℕ, ◌≡◌, refl, sym, ◌∙◌, ap, subst, inl, inr, String, true, false, ◌&&◌, not, Option, none, some,
  List, [], ◌∷◌, ok, In,
}
use mathlib.Core.List.{append-nil}
use certlight.Core.Finding.{Finding}
use certlight.Core.Collector.{ModuleInfo}
use certlight.Store.Engine.{Engine, Scan, ReconcileResult, reconcile}
use certlight.Notify.Digest.{Digest, Event, EventKind, opened, resolved}
use certlight.Notify.Dispatcher.{
  Config, Dispatcher, new_dispatcher, event_key, passes_severity, is_opened, events_of, enqueue,
  enqueue_all, on_result, flush_locked, close,
}
use certlight.Notify.Batching.{Call, enqueue_at, run}
use certlight.Notify.Delivery.{SentSince, Delivered}
use certlight.Notify.Windows.{Remembers, Extends}
use certlight.Notify.Loss.{
  enqueue-keeps, enqueue-Extends, step-Remembers, step-Delivered, step-channels, run-keeps,
  run-channels, run-Remembers, enqueue-Delivered, close-SentSince,
}
use certlight.Sched.Scan.{World, report, scan_one}

-- The event gets through the severity filter.
abbrev pub Passes : {C : Type 0} → Event → Dispatcher C → Type 0
Passes e d = (is_opened e.kind && not (passes_severity d.cfg e.finding.severity)) ≡ false

In-events_of :
    (k : EventKind) (m : String) (f : Finding) (fs : List Finding)
    → In f fs
    → In (record { kind = k; module_id = m; finding = f }) (events_of k m fs)
In-events_of k m f [] h = h
In-events_of k m f (g ∷ fs) (inl is) =
    inl (ap (λ x. record { kind = k; module_id = m; finding = x }) is)
In-events_of k m f (g ∷ fs) (inr later) = inr (In-events_of k m f fs later)

abbrev pub announcement : String → Finding → Event
announcement m f = record { kind = opened; module_id = m; finding = f }

module _ {C : Type 0} where
  pub enqueue-closed :
      (now : ℕ) (e : Event) (d : Dispatcher C) → (enqueue now e d).closed ≡ d.closed
  unfolding flush_locked
  enqueue-closed now e d = enqueue-keeps (λ x. x.closed ≡ d.closed) now e d refl refl refl

  enqueue-cfg : (now : ℕ) (e : Event) (d : Dispatcher C) → (enqueue now e d).cfg ≡ d.cfg
  unfolding flush_locked
  enqueue-cfg now e d = enqueue-keeps (λ x. x.cfg ≡ d.cfg) now e d refl refl refl

  pub enqueue_all-keeps :
      (P : Dispatcher C → Type 0) (now : ℕ) (es : List Event) (d : Dispatcher C)
      → ((e : Event) (x : Dispatcher C) → P x → P (enqueue now e x))
      → P d
      → P (enqueue_all now es d)
  unfolding enqueue_all
  enqueue_all-keeps P now [] d keep h = h
  enqueue_all-keeps P now (e ∷ es) d keep h =
      enqueue_all-keeps P now es (enqueue now e d) keep (keep e d h)

  enqueue_all-Delivered :
      (now : ℕ) (old : List (C × Digest)) (e : Event) (es : List Event) (d : Dispatcher C)
      → In e es
      → Extends old d
      → Remembers d
      → Passes e d
      → d.closed ≡ false
      → (x : Event) × (event_key x ≡ event_key e) × Delivered old x (enqueue_all now es d)
  unfolding enqueue_all
  enqueue_all-Delivered now old e [] d h more remembers pass live = absurd h.lower
  enqueue_all-Delivered now old e (y ∷ es) d (inl is) more remembers pass live =
      let (x, stands, delivered) = enqueue-Delivered now old e d more remembers pass live in
      (
        x,
        stands.0,
        enqueue_all-keeps (Delivered old x) now es (enqueue now y d)
            (λ z u. step-Delivered old x (enqueue_at now z) u)
            (subst (λ z. Delivered old x (enqueue now z d)) is delivered),
      )
  enqueue_all-Delivered now old e (y ∷ es) d (inr later) more remembers pass live =
      enqueue_all-Delivered now old e es (enqueue now y d) later (enqueue-Extends now old y d more)
        (step-Remembers (enqueue_at now y) d remembers)
        (subst (λ c. (is_opened e.kind && not (passes_severity c e.finding.severity)) ≡ false)
          (sym (enqueue-cfg now y d)) pass)
        (enqueue-closed now y d ∙ live)

  on_result-Delivered :
      (now : ℕ) (m : String) (r : ReconcileResult) (f : Finding) (d : Dispatcher C)
      → In f r.newly_open
      → Remembers d
      → passes_severity d.cfg f.severity ≡ true
      → d.closed ≡ false
      → (x : Event) × (event_key x ≡ event_key (announcement m f))
        × Delivered d.sent x (on_result now m r d)
  unfolding on_result
  on_result-Delivered now m r f d h remembers pass live =
      let (x, key, delivered) =
        enqueue_all-Delivered now d.sent (announcement m f) (events_of opened m r.newly_open) d
          (In-events_of opened m f r.newly_open h) ([], sym (append-nil d.sent)) remembers
          (rw pass refl) live in
      (
        x,
        key,
        enqueue_all-keeps (Delivered d.sent x) now (events_of resolved m r.resolved_now)
            (enqueue_all now (events_of opened m r.newly_open) d)
            (λ z u. step-Delivered d.sent x (enqueue_at now z) u) delivered,
      )

  on_result-channels :
      (now : ℕ) (m : String) (r : ReconcileResult) (d : Dispatcher C)
      → (on_result now m r d).channels ≡ d.channels
  unfolding on_result
  on_result-channels now m r d =
      enqueue_all-keeps (λ y. y.channels ≡ d.channels) now (events_of resolved m r.resolved_now)
        (enqueue_all now (events_of opened m r.newly_open) d)
        (λ z u q. step-channels (enqueue_at now z) u ∙ q)
        (enqueue_all-keeps (λ y. y.channels ≡ d.channels) now (events_of opened m r.newly_open) d
          (λ z u q. step-channels (enqueue_at now z) u ∙ q) refl)

module _ {S C : Type 0} (e : Engine S) (mod_info : ModuleInfo) where
  report-inv :
      (now : ℕ) (w w' : World S C) (r : Scan S × Option String)
      → report e mod_info now w r ≡ (w', none)
      → w'.dispatcher ≡ on_result now mod_info.id r.0.res w.dispatcher
  report-inv now w w' (sc, some x) h = cc
  report-inv now w w' (sc, none) h = sym (ap (λ p. p.0.dispatcher) h)

  -- A scan without error, with an open dispatcher: every finding that Reconcile opens and the
  -- severity filter lets through reaches each channel by the time the dispatcher is closed, itself
  -- or an event of its key, in a digest that is sent after the scan.
  pub scan_one-SentSince :
      (cfg : Config) (channels : List C) (before after : List Call) (now end : ℕ) (target : String)
      (findings : List Finding) (w w' : World S C) (f : Finding)
      → w.dispatcher ≡ run before (new_dispatcher cfg channels)
      → w.dispatcher.closed ≡ false
      → scan_one e mod_info now target none (ok findings) w ≡ (w', none)
      → In f (reconcile e mod_info now target findings w.store w.calls).0.res.newly_open
      → passes_severity w.dispatcher.cfg f.severity ≡ true
      → (x : Event) × (event_key x ≡ event_key (announcement mod_info.id f))
        × SentSince w.dispatcher.sent channels x (close end (run after w'.dispatcher)).sent
  unfolding scan_one
  scan_one-SentSince cfg channels before after now end target findings w w' f made live scanned new
        pass =
      let r : ReconcileResult = (reconcile e mod_info now target findings w.store w.calls).0.res in
      let told : w'.dispatcher ≡ on_result now mod_info.id r w.dispatcher =
        report-inv now w w' (reconcile e mod_info now target findings w.store w.calls) scanned in
      let remembers : Remembers w.dispatcher =
        subst Remembers (sym made) (run-Remembers cfg channels before) in
      let (x, key, delivered) =
        on_result-Delivered now mod_info.id r f w.dispatcher new remembers pass live in
      let old : List (C × Digest) = w.dispatcher.sent in
      let same : (run after w'.dispatcher).channels ≡ channels =
        run-channels after w'.dispatcher
        ∙ ap (λ d. d.channels) told
        ∙ on_result-channels now mod_info.id r w.dispatcher
        ∙ ap (λ d. d.channels) made
        ∙ run-channels before (new_dispatcher cfg channels) in
      (
        x,
        key,
        subst (λ cs. SentSince old cs x (close end (run after w'.dispatcher)).sent) same
            (close-SentSince end old x (run after w'.dispatcher) (
              run-keeps (Delivered old x) after w'.dispatcher (step-Delivered old x)
                (subst (Delivered old x) (sym told) delivered))),
      )
