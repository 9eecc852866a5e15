-- ===== src/Sched/Config.antt =====
-- The scheduler's configuration and the delay after failures (sched/scheduler.go). A duration is an
-- int64 of nanoseconds; the jitter is a float64, the parameter `F`.
use certlight.Base.{ℕ, zero, suc, ℤ, pos, Bool, if◌then◌else◌, leb_ℤ, ltb_ℤ, double64}

pub record Config (F : Type 0) : Type 0 where
  pub workers : ℤ
  pub scan_timeout : ℤ
  pub jitter_fraction : F
  pub retry_base : ℤ
  pub retry_max : ℤ
  pub interval_override : ℤ

-- `if x <= 0 { x = d }`
abbrev pub or_default : ℤ → ℕ → ℤ
or_default x d = if leb_ℤ x (pos 0) then pos d else x

-- `out_of_range` tests a jitter for `<= 0 || > 1`, and `tenth` is 0.1.
unfoldable pub with_defaults : {F : Type 0} → (F → Bool) → F → Config F → Config F
with_defaults out_of_range tenth c = record c {
  workers = or_default c.workers 8;
  scan_timeout = or_default c.scan_timeout 30000000000;
  jitter_fraction = if out_of_range c.jitter_fraction then tenth else c.jitter_fraction;
  retry_base = or_default c.retry_base 30000000000;
  retry_max = or_default c.retry_max 900000000000;
}

-- The loop with `n` rounds to go.
unfoldable pub back_off : ℤ → ℕ → ℤ → ℤ
unfolding double64
back_off most zero d = if ltb_ℤ most d then most else d
back_off most (suc n) d =
    let doubled = double64 d in
    let rest = back_off most n doubled in if leb_ℤ most doubled then most else rest

-- The rounds of `for i := 1; i < consecutive; i++`.
abbrev pub rounds : ℕ → ℕ
rounds zero = 0
rounds (suc n) = n

unfoldable pub backoff_for : {F : Type 0} → Config F → ℕ → ℤ
unfolding back_off
backoff_for cfg consecutive = back_off cfg.retry_max (rounds consecutive) cfg.retry_base

-- The wait between two sweeps, before its jitter.
unfoldable pub interval_of : {F : Type 0} → Config F → ℕ → ℤ
interval_of cfg default_interval =
    let chosen =
      if ltb_ℤ (pos 0) cfg.interval_override then cfg.interval_override else pos default_interval in
    if leb_ℤ chosen (pos 0) then pos 3600000000000 else chosen
