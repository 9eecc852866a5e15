-- ===== src/Notify/Retry.antt =====
-- `sendWithRetry` (notify/notify.go). `send n` is the answer of the channel's nth call of `Send`,
-- `none` where it succeeds. `observed` says whether `OnSendError` is set, and
-- `reported` is its argument, where it is called.
use certlight.Base.{
  Bool, ℕ, zero, suc, subst, ◌+◌, ◌-◌, ◌≤◌, ◌<◌, ℤ, pos, ◌≡◌, refl, ◌∙◌, ap, inl, inr, ltb, ltb→lt,
  Bool-cases, if◌then◌else◌, Option, none, some, Option-cases, arith,
}
use certlight.Notify.Dispatcher.{Config, with_defaults}

pub record Delivery (E : Type 0) : Type 0 where
  pub attempts : ℕ
  pub sleeps : ℕ
  pub reported : Option (Option E)

-- The loop's count: a bound below 1 gives no round.
abbrev pub rounds : ℤ → ℕ
rounds (pos n) = n
rounds _ = 0

rounds_positive : (cfg : Config) → 1 ≤ rounds (with_defaults cfg).retries
unfolding with_defaults
rounds_positive cfg = ground arith

module _ {E : Type 0} (observed : Bool) (send : ℕ → Option E) where
  abbrev pub slept : ℕ → ℕ → ℕ → ℕ
  slept retries attempt sleeps = if ltb attempt (retries - 1) then suc sleeps else sleeps

  -- The loop with `left` rounds to go, at `attempt`, with the error of the round before.
  unfoldable pub attempt_from : ℕ → ℕ → ℕ → ℕ → Option E → Delivery E
  attempt_from retries zero attempt sleeps err = record {
    attempts = attempt;
    sleeps = sleeps;
    reported = if observed then some err else none;
  }
  attempt_from retries (suc left) attempt sleeps err = elim (send attempt) [
    | none ↦ record { attempts = suc attempt; sleeps = sleeps; reported = none }
    | some x ↦ attempt_from retries left (suc attempt) (slept retries attempt sleeps) (some x)
  ]

  unfoldable pub send_with_retry : Config → Delivery E
  unfolding attempt_from
  send_with_retry cfg = attempt_from (rounds cfg.retries) (rounds cfg.retries) 0 0 none

  -- The first `n` calls fail.
  abbrev pub FailsUpTo : ℕ → Type 0
  FailsUpTo n = (j : ℕ) → j < n → (x : E) × (send j ≡ some x)

  -- Delivered at call `k`, the first to succeed, or given up after `n` calls with the last error.
  pub data Outcome (n : ℕ) (d : Delivery E) : Type 0 where
    delivered :
        (k : ℕ)
        → k < n
        → FailsUpTo k
        → send k ≡ none
        → d ≡ record { attempts = suc k; sleeps = k; reported = none }
        → Outcome n d
    given_up :
        (x : E)
        → FailsUpTo n
        → send (n - 1) ≡ some x
        → d ≡ record {
          attempts = n;
          sleeps = n - 1;
          reported = if observed then some (some x) else none;
        }
        → Outcome n d

  FailsUpTo-suc : (k : ℕ) (x : E) → FailsUpTo k → send k ≡ some x → FailsUpTo (suc k)
  FailsUpTo-suc k x h now j lt = elim (Bool-cases (ltb j k)) [
    | inl before ↦ h j (ltb→lt j k before)
    | inr after ↦ let here : j ≡ k = ground arith in (x, ap send here ∙ now)
  ]

  attempt_from-Outcome :
      (n left k sleeps : ℕ) (err : Option E)
      → 1 ≤ n
      → k + left ≡ n
      → FailsUpTo k
      → (k < n → sleeps ≡ k)
      → (k ≡ n → (sleeps ≡ n - 1) × (x : E) × (err ≡ some x) × (send (n - 1) ≡ some x))
      → Outcome n (attempt_from n left k sleeps err)
  unfolding attempt_from
  attempt_from-Outcome n zero k sleeps err one sum h early last =
      let all : k ≡ n = omega (arith, sum) in
      let (pauses, x, is, at) = last all in
      given_up x (subst FailsUpTo all h) at (rw (is, all, pauses) refl)
  attempt_from-Outcome n (suc left) k sleeps err one sum h early last =
      let more : k < n = omega (arith, sum) in
      elim (Option-cases (send k)) [
        | inl good ↦ delivered k more h good (rw (good, attempt_from, early more) refl)
        | inr (x, bad) ↦
            rw (bad, attempt_from)
              (attempt_from-Outcome n left (suc k) (slept n k sleeps) (some x) one
                (omega (arith, sum)) (FailsUpTo-suc k x h bad) (λ lt. ground (arith, early more))
                (λ q. (ground (arith, early more), x, refl, ap send (omega (arith, q)) ∙ bad)))
      ]

  -- Under a dispatcher's configuration the delivery stops at the first call that succeeds, or makes
  -- all the tries, sleeps between them, and reports the last error to the observer, if there is one.
  pub send_with_retry-Outcome :
      (cfg : Config)
      → Outcome (rounds (with_defaults cfg).retries) (send_with_retry (with_defaults cfg))
  unfolding send_with_retry
  send_with_retry-Outcome cfg =
      let n : ℕ = rounds (with_defaults cfg).retries in
      let one : 1 ≤ n = rounds_positive cfg in
      attempt_from-Outcome n n 0 0 none one (omega arith) (λ j lt. absurd (omega (arith, lt)))
        (λ _. refl) (λ q. absurd (omega (arith, one, q)))
