-- ===== src/Sched/Backoff.antt =====
-- The delays are the doublings of the base, up to the most (sched/scheduler.go).
use native.Mathlib.Nat.{mod-eq_of_lt, pow-succ', mul_assoc}
use certlight.Base.{
  ℕ, zero, suc, ◌*◌, ◌^◌, ◌≤◌, ◌<◌, ◌≡◌, sym, ◌∙◌, ap, ℤ, pos, true, leb_ℤ, double64, of_bits64,
  ltb, if◌then◌else◌, arith, Bool-cases, inl, inr,
}
use certlight.Sched.Config.{Config, back_off, backoff_for, rounds}

abbrev pub min : ℕ → ℕ → ℕ
min a b = if ltb b a then b else a

of_bits64-small : (n : ℕ) → n < 2 ^ 63 → of_bits64 n ≡ pos n
of_bits64-small n h = ground (arith, h)

double64-pos : (d : ℕ) → d < 2 ^ 62 → double64 (pos d) ≡ pos (d * 2)
unfolding double64
double64-pos d h =
    ap of_bits64 (mod-eq_of_lt (omega (arith, h))) ∙ of_bits64-small (d * 2) (omega (arith, h))

double-pow : (d n : ℕ) → d * 2 ^ suc n ≡ d * 2 * 2 ^ n
double-pow d n = ap (◌*◌ d) (pow-succ' 2 n) ∙ sym (mul_assoc d 2 (2 ^ n))

le-double : (d n : ℕ) → d ≤ d * 2 ^ n
le-double d zero = omega arith
le-double d (suc n) = rw (double-pow d n) (omega (arith, le-double (d * 2) n))

-- A doubling does not wrap around below 2 ^ 62.
back_off-suc :
    (most n d : ℕ)
    → d < 2 ^ 62
    → back_off (pos most) (suc n) (pos d)
      ≡ (if leb_ℤ (pos most) (pos (d * 2)) then pos most else back_off (pos most) n (pos (d * 2)))
unfolding back_off
back_off-suc most n d h =
    ap (λ x. if leb_ℤ (pos most) x then pos most else back_off (pos most) n x) (double64-pos d h)

back_off-pos :
    (most n d : ℕ)
    → most ≤ 2 ^ 62
    → d < 2 ^ 62
    → back_off (pos most) n (pos d) ≡ pos (min (d * 2 ^ n) most)
unfolding back_off
back_off-pos most zero d m h = ground arith
back_off-pos most (suc n) d m h = elim (Bool-cases (leb_ℤ (pos most) (pos (d * 2)))) [
  | inl reached ↦
      back_off-suc most n d h
      ∙ rw (reached, double-pow d n) (ground (arith, reached, le-double (d * 2) n))
  | inr below ↦
      back_off-suc most n d h
      ∙ rw (below, double-pow d n) (back_off-pos most n (d * 2) m (ground (arith, below, m)))
]

-- With a base below 2 ^ 62 nanoseconds, which is 146 years, and a most of up to that, the delay after
-- n + 1 failures in a row is the base doubled n times, or the most where that is less.
pub backoff_for-min :
    {F : Type 0} (cfg : Config F) (base most n : ℕ)
    → cfg.retry_base ≡ pos base
    → cfg.retry_max ≡ pos most
    → base < 2 ^ 62
    → most ≤ 2 ^ 62
    → backoff_for cfg (suc n) ≡ pos (min (base * 2 ^ n) most)
unfolding backoff_for
backoff_for-min cfg base most n b m h k = rw (b, m) (back_off-pos most n base k h)

back_off-most : (most n : ℕ) (d : ℤ) → leb_ℤ (back_off (pos most) n d) (pos most) ≡ true
unfolding back_off
back_off-most most zero d = ground arith
back_off-most most (suc n) d = elim (Bool-cases (leb_ℤ (pos most) (double64 d))) [
  | inl reached ↦ rw reached (ground arith)
  | inr below ↦ rw below (back_off-most most n (double64 d))
]

-- No delay passes the most, also where a doubling wraps around.
pub backoff_for-most :
    {F : Type 0} (cfg : Config F) (most n : ℕ)
    → cfg.retry_max ≡ pos most
    → leb_ℤ (backoff_for cfg n) (pos most) ≡ true
unfolding backoff_for
backoff_for-most cfg most n h = rw h (back_off-most most (rounds n) cfg.retry_base)
