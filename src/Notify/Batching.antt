-- ===== src/Notify/Batching.antt =====
-- Every run of the Dispatcher: the calls of `Enqueue`, `Flush` (also by its timer) and `Close`, in
-- any order.
use certlight.Base.{ℕ, ◌≤◌, pos, leb_ℤ, ◌≡◌, ◌⊎◌, true, false, List, [], ◌∷◌, arith}
use certlight.Notify.Digest.{Event}
use certlight.Notify.Dispatcher.{Dispatcher, total_pending, accept, enqueue, flush, close}

pub data Call : Type 0 where
  enqueue_at : ℕ → Event → Call
  flush_at : ℕ → Call
  close_at : ℕ → Call

module _ {C : Type 0} where
  abbrev pub step : Call → Dispatcher C → Dispatcher C
  step (enqueue_at now e) d = enqueue now e d
  step (flush_at now) d = flush now d
  step (close_at now) d = close now d

  abbrev pub run : List Call → Dispatcher C → Dispatcher C
  run [] d = d
  run (c ∷ cs) d = run cs (step c d)

  -- What holds between the calls: fewer events wait than a batch holds, the timer runs exactly if
  -- some wait, and none wait once the dispatcher is closed.
  pub record IsSound (d : Dispatcher C) : Type 0 where
    pub below : leb_ℤ d.cfg.max_batch (pos (total_pending d.pending)) ≡ false
    pub timed : d.timer ≡ true → 1 ≤ total_pending d.pending
    pub waiting : 1 ≤ total_pending d.pending → (d.timer ≡ true) × (d.closed ≡ false)

  pub enqueue-cases :
      (now : ℕ) (e : Event) (d : Dispatcher C)
      → (enqueue now e d ≡ d) ⊎ ((d.closed ≡ false) × (enqueue now e d ≡ accept now e d))
  unfolding enqueue
  enqueue-cases now e d = ground arith
