-- ===== src/Notify/Windows.antt =====
-- What a flush and a new event do to the events that wait (notify/notify.go).
use certlight.Base.{
  ℕ, ◌≡◌, refl, ◌∙◌, inl, inr, true, Bool-cases, List, [], ◌∷◌, ◌++◌, ap, arith, contains,
  In-append_left, In-append_right, String, ◌==◌, text_cases, text_refl,
}
use mathlib.Core.List.{append_assoc}
use certlight.Notify.Digest.{Event, Digest}
use certlight.Notify.Dispatcher.{Dispatcher, event_key, add_pending, flush_locked, sends}
use certlight.Notify.Delivery.{Waits, SentSince, Delivered, sends-SentTo}

pub Waits-add_pending : (e : Event) (ps : List (String × List Event)) → Waits e (add_pending e ps)
unfolding add_pending
Waits-add_pending e [] = inl (refl, inl refl)
Waits-add_pending e ((m, es) ∷ ps) = elim (text_cases m e.module_id) [
  | inl is ↦
      rw (is, text_refl e.module_id, add_pending)
        (inl (refl, In-append_right e es (e ∷ []) (inl refl)))
  | inr other ↦ rw (other, add_pending) (inr (Waits-add_pending e ps))
]

Waits-add_pending_keep :
    (x e : Event) (ps : List (String × List Event)) → Waits x ps → Waits x (add_pending e ps)
unfolding add_pending
Waits-add_pending_keep x e [] h = absurd h
Waits-add_pending_keep x e ((m, es) ∷ ps) h = elim (Bool-cases (m == e.module_id)) [
  | inl is ↦
      rw (is, add_pending)
        (elim h [
          | inl (at, there) ↦ inl (at, In-append_left x es (e ∷ []) there)
          | inr later ↦ inr later
        ])
  | inr other ↦
      rw (other, add_pending)
        (elim h [ inl here ↦ inl here | inr later ↦ inr (Waits-add_pending_keep x e ps later) ])
]

window-empty :
    (ps : List (String × List Event)) (s : List String) (k : String)
    → ((k : String) → contains k s ≡ true → (e : Event) × (event_key e ≡ k) × Waits e ps)
    → contains k (elim ps [ [] ↦ s | _ ∷ _ ↦ [] ]) ≡ true
    → ⊥
unfolding contains
window-empty [] s k h seen = (h k seen).2
window-empty (p ∷ ps) s k h seen = cc seen

module _ {C : Type 0} where
  -- Every key that counts as seen is that of an event that waits.
  abbrev pub Remembers : Dispatcher C → Type 0
  Remembers d =
      (k : String) → contains k d.seen ≡ true → (e : Event) × (event_key e ≡ k) × Waits e d.pending

  -- Sends are only added to the old ones.
  abbrev pub Extends : List (C × Digest) → Dispatcher C → Type 0
  Extends old d = (news : List (C × Digest)) × (d.sent ≡ old ++ news)

  pub flush_locked-Extends :
      (now : ℕ) (old : List (C × Digest)) (d : Dispatcher C)
      → Extends old d
      → Extends old (flush_locked now d)
  unfolding flush_locked
  flush_locked-Extends now old d (news, is) =
      let more = sends now d.channels d.pending in
      (news ++ more, ap (λ l. l ++ more) is ∙ append_assoc old news more)

  pub flush_locked-SentSince :
      (now : ℕ) (old : List (C × Digest)) (e : Event) (d : Dispatcher C)
      → Delivered old e d
      → SentSince old d.channels e (flush_locked now d).sent
  unfolding flush_locked
  flush_locked-SentSince now old e d (news, is, at) =
      let more = sends now d.channels d.pending in
      (
        news ++ more,
        ap (λ l. l ++ more) is ∙ append_assoc old news more,
        λ c h. elim at [
          | inl waits ↦
              let (dg, sent, carries) = sends-SentTo now d.channels c e d.pending h waits in
              (dg, In-append_right (c, dg) news more sent, carries)
          | inr reached ↦
              let (dg, sent, carries) = reached c h in
              (dg, In-append_left (c, dg) news more sent, carries)
        ],
      )

  pub flush_locked-Delivered :
      (now : ℕ) (old : List (C × Digest)) (e : Event) (d : Dispatcher C)
      → Delivered old e d
      → Delivered old e (flush_locked now d)
  unfolding flush_locked
  flush_locked-Delivered now old e d h =
      let (news, is, reached) = flush_locked-SentSince now old e d h in (news, is, inr reached)

  pub flush_locked-Remembers :
      (now : ℕ) (d : Dispatcher C) → Remembers d → Remembers (flush_locked now d)
  unfolding flush_locked contains
  flush_locked-Remembers now d h k seen = absurd (window-empty d.pending d.seen k h seen)

  -- The dispatcher with the event's key and the event.
  abbrev pub added : Event → Dispatcher C → Dispatcher C
  added e d = record d { seen = event_key e ∷ d.seen; pending = add_pending e d.pending }

  pub added-Remembers : (e : Event) (d : Dispatcher C) → Remembers d → Remembers (added e d)
  unfolding contains
  added-Remembers e d h k seen = elim (text_cases (event_key e) k) [
    | inl is ↦ (e, is, Waits-add_pending e d.pending)
    | inr other ↦
        let (x, key, waits) = h k (ground (arith, other, seen)) in
        (x, key, Waits-add_pending_keep x e d.pending waits)
  ]

  pub added-Delivered :
      (old : List (C × Digest)) (x e : Event) (d : Dispatcher C)
      → Delivered old x d
      → Delivered old x (added e d)
  added-Delivered old x e d (news, is, inl waits) =
      (news, is, inl (Waits-add_pending_keep x e d.pending waits))
  added-Delivered old x e d (news, is, inr reached) = (news, is, inr reached)
