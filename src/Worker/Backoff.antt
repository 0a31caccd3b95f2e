-- ===== src/Worker/Backoff.antt =====
-- backoffFor and powInt of worker.go, over the float64 operations that they use.
use go_stripenav.Base.{
  ℕ, zero, suc, ◌-◌, ◌^◌, ◌≤◌, ◌<◌, ◌≡◌, inl, inr, Bool, false, arith, ◌==◌, if◌then◌else◌,
  Bool-cases,
}
use go_stripenav.Worker.{Worker}

-- The non-negative float64 values that are no NaN, and what IEEE 754 and Go's conversion from
-- float64 to an integer (which truncates) say of them: an integer below 2^53 is held exactly,
-- truncation is monotone, and so it is for what is not greater.
pub record Float64 : Type 1 where
  pub Float : Type 0
  pub of_int : ℕ → Float
  pub mul : Float → Float → Float
  pub gt : Float → Float → Bool
  pub to_int : Float → ℕ
  pub to_int-of_int : (n : ℕ) → n < 2 ^ 53 → to_int (of_int n) ≡ n
  pub to_int-mono : (a b : Float) → gt a b ≡ false → to_int a ≤ to_int b

module _ (f64 : Float64) where
  open f64 use {Float, of_int, mul, gt, to_int, to_int-of_int, to_int-mono}

  -- `for i := 1; i < exp; i++` with `left` rounds to go.
  unfoldable pub pow_loop : Float → ℕ → Float → Float
  pow_loop base zero r = r
  pow_loop base (suc left) r =
      let r' = mul r base in
      let rest = pow_loop base left r' in
      if gt r' (of_int 1_000_000_000_000_000_000) then r' else rest

  unfoldable pub pow_int : Float → ℕ → Float
  unfolding pow_loop
  pow_int base zero = of_int 1
  pow_int base (suc n) = pow_loop base n base

  -- `jitter` is the drawn factor `0.8 + rng.Float64()*0.4`.
  unfoldable pub backoff_for : Worker → Float → ℕ → ℕ
  unfolding pow_int
  backoff_for w jitter attempts =
      let attempts' = if attempts == 0 then 1 else attempts in
      let delay = mul (mul (of_int w.base_backoff) (pow_int (of_int 2) (attempts' - 1))) jitter in
      to_int (if gt delay (of_int w.max_backoff) then of_int w.max_backoff else delay)

  capped :
      (w : Worker) (delay : Float)
      → w.max_backoff < 2 ^ 53
      → to_int (if gt delay (of_int w.max_backoff) then of_int w.max_backoff else delay)
        ≤ w.max_backoff
  capped w delay h = elim (Bool-cases (gt delay (of_int w.max_backoff))) [
    | inl e ↦ rw e (omega (arith, to_int-of_int w.max_backoff h))
    | inr e ↦
        rw e
          (omega (arith, to_int-of_int w.max_backoff h, to_int-mono delay (of_int w.max_backoff) e))
  ]

  -- The retry delay never exceeds the configured maximum, whatever the number of attempts and the
  -- jitter, for a maximum below 2^53 nanoseconds (104 days).
  pub backoff_for-le :
      (w : Worker) (jitter : Float) (attempts : ℕ)
      → w.max_backoff < 2 ^ 53
      → backoff_for w jitter attempts ≤ w.max_backoff
  unfolding backoff_for
  backoff_for-le w jitter attempts h = capped w _ h
