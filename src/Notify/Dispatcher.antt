-- ===== src/Notify/Dispatcher.antt =====
-- The Dispatcher (notify/notify.go). The mutex makes each method atomic. `timer` tells whether the
-- window timer runs; `sent` is the list of the sends that `flushLocked` has started, one for each
-- channel and digest, in order: `sendWithRetry` (Retry) is what each of them does. The map
-- `pending` is the list of its entries; Go does not fix the order in which it is walked.
use Prim.Native.String.{◌++◌}
use certlight.Base.{
  ℕ, ◌+◌, ℤ, pos, leb_ℤ, String, Bool, true, false, ◌&&◌, not, List, [], ◌∷◌, ◌==◌, leb, length,
  contains, if◌then◌else◌,
}
use mathlib.Core.List
use certlight.Core.Severity.{Severity, severity_to_string}
use certlight.Core.Finding.{Finding}
use certlight.Store.Engine.{ReconcileResult}
use certlight.Notify.Digest.{
  EventKind, opened, resolved, kind_to_string, Event, Digest, is_empty, severity_rank,
  sort_by_severity,
}

pub record Config : Type 0 where
  pub flush_interval : ℤ
  pub max_batch : ℤ
  pub min_severity : Severity
  pub retries : ℤ
  pub retry_delay : ℤ

-- `if x <= 0 { x = d }`
abbrev pub or_default : ℤ → ℕ → ℤ
or_default x d = if leb_ℤ x (pos 0) then pos d else x

unfoldable pub with_defaults : Config → Config
with_defaults c = record c {
  flush_interval = or_default c.flush_interval 30000000000;
  max_batch = or_default c.max_batch 100;
  retries = or_default c.retries 3;
  retry_delay = or_default c.retry_delay 5000000000;
}

pub record Dispatcher (C : Type 0) : Type 0 where
  pub cfg : Config
  pub channels : List C
  pub pending : List (String × List Event)
  pub seen : List String
  pub timer : Bool
  pub closed : Bool
  pub sent : List (C × Digest)

unfoldable pub event_key : Event → String
event_key e = kind_to_string e.kind ++ "|" ++ e.module_id ++ "|" ++ e.finding.fingerprint

unfoldable pub passes_severity : Config → Severity → Bool
unfolding severity_rank
passes_severity cfg s =
    if severity_to_string cfg.min_severity == ""
    then true
    else leb (severity_rank cfg.min_severity) (severity_rank s)

-- `d.pending[e.Module] = append(d.pending[e.Module], e)`
unfoldable pub add_pending : Event → List (String × List Event) → List (String × List Event)
add_pending e [] = (e.module_id, e ∷ []) ∷ []
add_pending e ((m, es) ∷ rest) =
    let later = add_pending e rest in
    if m == e.module_id then (m, List.◌++◌ es (e ∷ [])) ∷ rest else (m, es) ∷ later

unfoldable pub total_pending : List (String × List Event) → ℕ
total_pending [] = 0
total_pending ((m, es) ∷ rest) = length es + total_pending rest

abbrev pub add_event : Event → Digest → Digest
add_event e d = elim e.kind [
  | opened ↦ record d { opened = e.finding ∷ d.opened }
  | resolved ↦ record d { resolved = e.finding ∷ d.resolved }
]

-- The loop over the events of a module, which keeps their order.
unfoldable pub gather : String → ℕ → List Event → Digest
gather m now [] = record { module_id = m; opened = []; resolved = []; at = now }
gather m now (e ∷ es) = add_event e (gather m now es)

unfoldable pub digest_of : ℕ → String × List Event → Digest
unfolding gather sort_by_severity
digest_of now (m, es) = let d = gather m now es in record d { opened = sort_by_severity d.opened }

abbrev pub is_opened : EventKind → Bool
is_opened opened = true
is_opened resolved = false

abbrev pub events_of : EventKind → String → List Finding → List Event
events_of k m [] = []
events_of k m (f ∷ fs) = record { kind = k; module_id = m; finding = f } ∷ events_of k m fs

module _ {C : Type 0} where
  abbrev pub to_all : Digest → List C → List (C × Digest)
  to_all d [] = []
  to_all d (c ∷ cs) = (c, d) ∷ to_all d cs

  -- The sends of a flush.
  unfoldable pub sends : ℕ → List C → List (String × List Event) → List (C × Digest)
  unfolding digest_of is_empty
  sends now cs [] = []
  sends now cs (p ∷ ps) =
      let rest = sends now cs ps in
      if is_empty (digest_of now p) then rest else List.◌++◌ (to_all (digest_of now p) cs) rest

  unfoldable pub flush_locked : ℕ → Dispatcher C → Dispatcher C
  unfolding sends
  flush_locked now d = record d {
    timer = false;
    pending = [];
    seen = elim d.pending [ [] ↦ d.seen | _ ∷ _ ↦ [] ];
    sent = List.◌++◌ d.sent (sends now d.channels d.pending);
  }

  unfoldable pub flush : ℕ → Dispatcher C → Dispatcher C
  unfolding flush_locked
  flush now d = flush_locked now d

  unfoldable pub close : ℕ → Dispatcher C → Dispatcher C
  unfolding flush_locked
  close now d = let flushed = flush_locked now d in record flushed { closed = true }

  -- The part of `Enqueue` after its early returns.
  unfoldable pub accept : ℕ → Event → Dispatcher C → Dispatcher C
  unfolding add_pending total_pending flush_locked event_key
  accept now e d =
      let added = record d { seen = event_key e ∷ d.seen; pending = add_pending e d.pending } in
      if leb_ℤ d.cfg.max_batch (pos (total_pending added.pending))
      then flush_locked now added
      else record added { timer = true }

  unfoldable pub enqueue : ℕ → Event → Dispatcher C → Dispatcher C
  unfolding accept passes_severity event_key
  enqueue now e d =
      if is_opened e.kind && not (passes_severity d.cfg e.finding.severity)
      then d
      else if d.closed
      then d
      else if contains (event_key e) d.seen
      then d
      else accept now e d

  unfoldable pub enqueue_all : ℕ → List Event → Dispatcher C → Dispatcher C
  unfolding enqueue
  enqueue_all now [] d = d
  enqueue_all now (e ∷ es) d = enqueue_all now es (enqueue now e d)

  abbrev pub new_dispatcher : Config → List C → Dispatcher C
  new_dispatcher cfg channels = record {
    cfg = with_defaults cfg;
    channels = channels;
    pending = [];
    seen = [];
    timer = false;
    closed = false;
    sent = [];
  }

  -- The callback that `BindScheduler` installs, after the one that stood before.
  unfoldable pub on_result : ℕ → String → ReconcileResult → Dispatcher C → Dispatcher C
  unfolding enqueue_all
  on_result now m r d =
      enqueue_all now (events_of resolved m r.resolved_now)
        (enqueue_all now (events_of opened m r.newly_open) d)
