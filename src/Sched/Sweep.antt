-- ===== src/Sched/Sweep.antt =====
-- What `moduleLoop` keeps between its sweeps: the failures of each target and the time before which
-- it is left alone (sched/scheduler.go). The mutex makes the end of each scan one step, and the scans
-- of a sweep end in any order.
use certlight.Base.{
  GoMap, ℕ, suc, ◌+◌, ◌-◌, ℤ, pos, negsuc, ◌≡◌, refl, ◌∙◌, ap, lookup, insert, lookup-insert,
  String, Bool, ◌==◌, text_refl, text_cases, inl, inr, Option, none, some, List, [], ◌∷◌, ◌++◌,
  length, length-append, leb, if◌then◌else◌, arith,
}
use certlight.Sched.Config.{Config, backoff_for}

-- The errors of a scan; `canceled` is context.Canceled.
pub data Trouble : Type 0 where
  canceled : Trouble
  failed : String → Trouble

pub record Failures : Type 0 where
  pub failures : GoMap ℕ
  pub next_ok : GoMap ℕ

-- `OnError` is told this.
pub record ScanError : Type 0 where
  pub target : String
  pub error : String
  pub attempt : ℕ
  pub next_try : ℤ

-- `m[k]`, which is 0 for a missing key.
abbrev pub or_zero : Option ℕ → ℕ
or_zero none = 0
or_zero (some n) = n

unfoldable pub failures_of : String → Failures → ℕ
failures_of t s = or_zero (lookup t s.failures)

unfoldable pub gate_of : String → Failures → ℕ
gate_of t s = or_zero (lookup t s.next_ok)

-- Not `time.Now().Before(gate)`.
unfoldable pub is_due : ℕ → String → Failures → Bool
unfolding gate_of
is_due now t s = leb (gate_of t s) now

-- `time.Now().Add(d)`
abbrev pub add_duration : ℕ → ℤ → ℕ
add_duration now (pos d) = now + d
add_duration now (negsuc d) = now - suc d

module _ {F : Type 0} (cfg : Config F) where
  abbrev pub set : String → ℕ → ℕ → Failures → Failures
  set t n gate s = record { failures = insert t n s.failures; next_ok = insert t gate s.next_ok }

  -- The end of a scan of `t` at `now`.
  unfoldable pub after_scan : ℕ → String → Option Trouble → Failures → Failures × Option ScanError
  unfolding failures_of backoff_for
  after_scan now t none s = (set t 0 0 s, none)
  after_scan now t (some canceled) s = (set t 0 0 s, none)
  after_scan now t (some (failed x)) s =
      let n = suc (failures_of t s) in
      (
        set t n (add_duration now (backoff_for cfg n)) s,
        some (record { target = t; error = x; attempt = n; next_try = backoff_for cfg n }),
      )

  -- A scan that ended: its time, its target and its error.
  abbrev pub Ended : Type 0
  Ended = ℕ × String × Option Trouble

  abbrev pub after_scans : List Ended → Failures → Failures
  after_scans [] s = s
  after_scans ((now, t, x) ∷ scans) s = after_scans scans (after_scan now t x s).0

  -- The same for one target that is alone: its failures in a row, and its gate.
  abbrev pub alone : ℕ → Option Trouble → ℕ × ℕ → ℕ × ℕ
  alone now none own = (0, 0)
  alone now (some canceled) own = (0, 0)
  alone now (some (failed x)) (n, gate) = (suc n, add_duration now (backoff_for cfg (suc n)))

  abbrev pub all_alone : String → List Ended → ℕ × ℕ → ℕ × ℕ
  all_alone t [] own = own
  all_alone t ((now, u, x) ∷ scans) own =
      all_alone t scans (if u == t then alone now x own else own)

  abbrev pub own_of : String → Failures → ℕ × ℕ
  own_of t s = (failures_of t s, gate_of t s)

  own_of-set :
      (t u : String) (n gate : ℕ) (s : Failures)
      → own_of t (set u n gate s) ≡ (if u == t then (n, gate) else own_of t s)
  unfolding failures_of gate_of
  own_of-set t u n gate s =
      rw (lookup-insert u t n s.failures, lookup-insert u t gate s.next_ok) (ground arith)

  -- What the end of a scan leaves of a target's failures and gate.
  pub own_of-after_scan :
      (now : ℕ) (t u : String) (x : Option Trouble) (s : Failures)
      → own_of t (after_scan now u x s).0
        ≡ (if u == t then alone now x (own_of t s) else own_of t s)
  unfolding after_scan
  own_of-after_scan now t u none s = own_of-set t u 0 0 s
  own_of-after_scan now t u (some canceled) s = own_of-set t u 0 0 s
  own_of-after_scan now t u (some (failed x)) s = elim (text_cases u t) [
    | inl is ↦ rw is (
        own_of-set t t (suc (failures_of t s))
          (add_duration now (backoff_for cfg (suc (failures_of t s)))) s)
    | inr other ↦
        own_of-set t u (suc (failures_of u s))
          (add_duration now (backoff_for cfg (suc (failures_of u s)))) s
        ∙ rw other refl
  ]

  -- What the loop keeps of a target after any scans is what the scans of that target alone give:
  -- the failures of another host do not slow it.
  pub after_scans-alone :
      (t : String) (scans : List Ended) (s : Failures)
      → (failures_of t (after_scans scans s), gate_of t (after_scans scans s))
        ≡ all_alone t scans (failures_of t s, gate_of t s)
  after_scans-alone t [] s = refl
  after_scans-alone t ((now, u, x) ∷ scans) s =
      after_scans-alone t scans (after_scan now u x s).0
      ∙ ap (all_alone t scans) (own_of-after_scan now t u x s)

  -- Scans of one target that all fail, each with its time and its error.
  abbrev pub outage : String → List (ℕ × String) → List Ended
  outage t [] = []
  outage t ((now, x) ∷ rest) = (now, t, some (failed x)) ∷ outage t rest

  -- The gate after an outage, from the failures and the gate before it.
  abbrev pub gate_after : ℕ → ℕ → List (ℕ × String) → ℕ
  gate_after n gate [] = gate
  gate_after n gate ((now, x) ∷ rest) =
      gate_after (suc n) (add_duration now (backoff_for cfg (suc n))) rest

  outage-all_alone :
      (t : String) (rest : List (ℕ × String)) (n gate : ℕ)
      → all_alone t (outage t rest) (n, gate) ≡ (n + length rest, gate_after n gate rest)
  outage-all_alone t [] n gate = ap (λ k. (k, gate)) (omega arith)
  outage-all_alone t ((now, x) ∷ rest) n gate =
      rw (text_refl t, all_alone)
        (outage-all_alone t rest (suc n) (add_duration now (backoff_for cfg (suc n)))
          ∙ ap (λ k. (k, gate_after (suc n) (add_duration now (backoff_for cfg (suc n))) rest))
              (omega arith))

  gate_after-last :
      (n gate : ℕ) (before : List (ℕ × String)) (now : ℕ) (x : String)
      → gate_after n gate (before ++ (now, x) ∷ [])
        ≡ add_duration now (backoff_for cfg (n + length before + 1))
  gate_after-last n gate [] now x = ap (λ k. add_duration now (backoff_for cfg k)) (omega arith)
  gate_after-last n gate ((at, y) ∷ before) now x =
      gate_after-last (suc n) (add_duration at (backoff_for cfg (suc n))) before now x
      ∙ ap (λ k. add_duration now (backoff_for cfg k)) (omega arith)

  -- Failures in a row add up, and the target is due again once the delay for that many failures
  -- has passed since the last of them.
  pub outage-is_due :
      (t : String) (before : List (ℕ × String)) (now later : ℕ) (x : String) (s : Failures)
      → (failures_of t (after_scans (outage t (before ++ (now, x) ∷ [])) s)
          ≡ failures_of t s + length before + 1)
        × (is_due later t (after_scans (outage t (before ++ (now, x) ∷ [])) s)
            ≡ leb (add_duration now (backoff_for cfg (failures_of t s + length before + 1))) later)
  unfolding is_due
  outage-is_due t before now later x s =
      let own =
        after_scans-alone t (outage t (before ++ (now, x) ∷ [])) s
        ∙ outage-all_alone t (before ++ (now, x) ∷ []) (failures_of t s) (gate_of t s) in
      (
        ap (λ p. p.0) own ∙ omega (arith, length-append before ((now, x) ∷ [])),
        ap (λ p. leb p.1 later) own
            ∙ ap (λ g. leb g later) (gate_after-last (failures_of t s) (gate_of t s) before now x),
      )
