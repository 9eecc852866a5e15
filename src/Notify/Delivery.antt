-- ===== src/Notify/Delivery.antt =====
-- Where the events go: from `Enqueue` to the sends of `flushLocked` (notify/notify.go).
use certlight.Base.{
  ℕ, ◌≡◌, refl, ◌∙◌, ap, ◌⊎◌, inl, inr, false, Bool-cases, List, [], ◌∷◌, ◌++◌, arith, In,
  In-append_left, In-append_right, In-reverse, String, ltb,
}
use certlight.Core.Finding.{Finding}
use certlight.Notify.Digest.{
  Event, EventKind, opened, resolved, Digest, is_nil, is_empty, sink, sort_from, sort_by_severity,
  severity_rank,
}
use certlight.Notify.Dispatcher.{Dispatcher, add_event, gather, digest_of, to_all, sends}

In-sink : (x f : Finding) (left : List Finding) → (x ≡ f) ⊎ In x left → In x (sink f left)
unfolding sink
In-sink x f [] h = h
In-sink x f (g ∷ left) h =
    elim (Bool-cases (ltb (severity_rank g.severity) (severity_rank f.severity))) [
      | inr high ↦ rw (high, sink) h
      | inl lower ↦
          rw (lower, sink)
            (elim h [
              | inl is ↦ inr (In-sink x f left (inl is))
              | inr (inl is) ↦ inl is
              | inr (inr there) ↦ inr (In-sink x f left (inr there))
            ])
    ]

In-sort_from :
    (x : Finding) (left fs : List Finding) → In x left ⊎ In x fs → In x (sort_from left fs)
unfolding sort_from
In-sort_from x left [] (inl h) = h
In-sort_from x left [] (inr h) = absurd h.lower
In-sort_from x left (f ∷ fs) (inl h) =
    In-sort_from x (sink f left) fs (inl (In-sink x f left (inr h)))
In-sort_from x left (f ∷ fs) (inr (inl is)) =
    In-sort_from x (sink f left) fs (inl (In-sink x f left (inl is)))
In-sort_from x left (f ∷ fs) (inr (inr h)) = In-sort_from x (sink f left) fs (inr h)

In-sort_by_severity : (x : Finding) (fs : List Finding) → In x fs → In x (sort_by_severity fs)
unfolding sort_by_severity
In-sort_by_severity x fs h = In-reverse x (sort_from [] fs) (In-sort_from x [] fs (inr h))

-- The part of a digest that an event of a kind is in.
abbrev pub part : EventKind → Digest → List Finding
part opened d = d.opened
part resolved d = d.resolved

abbrev pub Carries : Event → Digest → Type 0
Carries e d = (d.module_id ≡ e.module_id) × In e.finding (part e.kind d)

-- The event waits for the next flush.
abbrev pub Waits : Event → List (String × List Event) → Type 0
Waits e [] = ⊥
Waits e ((m, es) ∷ ps) = (m ≡ e.module_id) × In e es ⊎ Waits e ps

EventKind-cases : (k : EventKind) → (k ≡ opened) ⊎ (k ≡ resolved)
EventKind-cases opened = inl refl
EventKind-cases resolved = inr refl

-- A digest takes an event in and keeps what it has.
part-add_event : (e : Event) (d : Digest) → In e.finding (part e.kind (add_event e d))
part-add_event e d = elim (EventKind-cases e.kind) [
  | inl is ↦ rw is (inl refl)
  | inr is ↦ rw is (inl refl)
]

part-add_event_keep :
    (k j : EventKind) (f g : Finding) (m : String) (d : Digest)
    → In f (part k d)
    → In f (part k (add_event (record { kind = j; module_id = m; finding = g }) d))
part-add_event_keep opened opened f g m d h = inr h
part-add_event_keep opened resolved f g m d h = h
part-add_event_keep resolved opened f g m d h = h
part-add_event_keep resolved resolved f g m d h = inr h

gather-part :
    (m : String) (now : ℕ) (e : Event) (es : List Event)
    → In e es
    → In e.finding (part e.kind (gather m now es))
unfolding gather
gather-part m now e [] h = absurd h.lower
gather-part m now e (x ∷ es) (inl is) = rw is (part-add_event x (gather m now es))
gather-part m now e (x ∷ es) (inr h) =
    part-add_event_keep e.kind x.kind e.finding x.finding x.module_id (gather m now es)
      (gather-part m now e es h)

gather-module_id : (m : String) (now : ℕ) (es : List Event) → (gather m now es).module_id ≡ m
unfolding gather
gather-module_id m now [] = refl
gather-module_id m now (x ∷ es) = elim (EventKind-cases x.kind) [
  | inl is ↦ rw (is, gather) (gather-module_id m now es)
  | inr is ↦ rw (is, gather) (gather-module_id m now es)
]

part-sort :
    (k : EventKind) (f : Finding) (d : Digest)
    → In f (part k d)
    → In f (part k (record d { opened = sort_by_severity d.opened }))
part-sort opened f d h = In-sort_by_severity f d.opened h
part-sort resolved f d h = h

digest_of-Carries :
    (now : ℕ) (m : String) (e : Event) (es : List Event)
    → m ≡ e.module_id
    → In e es
    → Carries e (digest_of now (m, es))
unfolding digest_of
digest_of-Carries now m e es at h = (
  gather-module_id m now es ∙ at,
  part-sort e.kind e.finding (gather m now es) (gather-part m now e es h),
)

In-is_nil {ℓ} : {A : Type ℓ} (x : A) (xs : List A) → In x xs → is_nil xs ≡ false
In-is_nil x [] h = absurd h.lower
In-is_nil x (y ∷ ys) h = refl

part-is_empty : (k : EventKind) (f : Finding) (d : Digest) → In f (part k d) → is_empty d ≡ false
unfolding is_empty
part-is_empty opened f d h = rw (In-is_nil f d.opened h) refl
part-is_empty resolved f d h = ground (arith, In-is_nil f d.resolved h)

module _ {C : Type 0} where
  abbrev pub SentTo : C → Event → List (C × Digest) → Type 0
  SentTo c e sent = (d : Digest) × In (c, d) sent × Carries e d

  In-to_all : (c : C) (d : Digest) (cs : List C) → In c cs → In (c, d) (to_all d cs)
  In-to_all c d [] h = absurd h.lower
  In-to_all c d (x ∷ cs) (inl is) = inl (ap (λ y. (y, d)) is)
  In-to_all c d (x ∷ cs) (inr h) = inr (In-to_all c d cs h)

  pub sends-SentTo :
      (now : ℕ) (cs : List C) (c : C) (e : Event) (ps : List (String × List Event))
      → In c cs
      → Waits e ps
      → SentTo c e (sends now cs ps)
  unfolding sends
  sends-SentTo now cs c e [] h waits = absurd waits
  sends-SentTo now cs c e ((m, es) ∷ ps) h (inl (at, is)) =
      let carries = digest_of-Carries now m e es at is in
      rw (part-is_empty e.kind e.finding (digest_of now (m, es)) carries.1, sends)
        (
          digest_of now (m, es),
          In-append_left _ _ _ (In-to_all c (digest_of now (m, es)) cs h),
          carries,
        )
  sends-SentTo now cs c e ((m, es) ∷ ps) h (inr later) =
      let (d, sent, carries) = sends-SentTo now cs c e ps h later in
      elim (Bool-cases (is_empty (digest_of now (m, es)))) [
        | inl nothing ↦ rw (nothing, sends) (d, sent, carries)
        | inr some_event ↦ rw (some_event, sends) (d, In-append_right _ _ _ sent, carries)
      ]

  -- The sends after the old ones bring the event to each channel.
  abbrev pub SentSince : List (C × Digest) → List C → Event → List (C × Digest) → Type 0
  SentSince old channels e sent =
      (news : List (C × Digest)) × (sent ≡ old ++ news)
      × ((c : C) → In c channels → SentTo c e news)

  -- The event waits, or each channel has got it after the old sends.
  abbrev pub Delivered : List (C × Digest) → Event → Dispatcher C → Type 0
  Delivered old e d =
      (news : List (C × Digest)) × (d.sent ≡ old ++ news)
      × (Waits e d.pending ⊎ ((c : C) → In c d.channels → SentTo c e news))
