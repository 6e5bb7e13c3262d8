-- ===== src/Kafka/Retry.antt =====
-- RetryDelay of internal/kafka/model.go: the delay doubles with each attempt, up to a maximum.
use native.Mathlib.Nat.{pow-suc}
use sql_sentinel.Prelude.{
  ℕ, zero, suc, ◌+◌, ◌-◌, ◌*◌, ◌/◌, ◌^◌, ◌≤◌, ◌<◌, min, ◌≡◌, arith, if◌then◌else◌,
}
use sql_sentinel.Prelude.Int.{ℤ, pos, pos_part, ltb_ℤ, ◌+ℤ◌, half, wrap64, wrap64-pos}
use sql_sentinel.Kafka.Model.{Duration}

-- The loop and what follows it; `rounds` is what is left of `attempt - i`. The doubling is that of
-- int64.
unfoldable pub retry_loop : ℕ → Duration → Duration → Duration
retry_loop zero top d = if ltb_ℤ top d then top else d
retry_loop (suc rounds) top d =
    let next = retry_loop rounds top (wrap64 (d +ℤ d)) in
    if ltb_ℤ d top
    then (if ltb_ℤ (half top) d then top else next)
    else if ltb_ℤ top d
    then top
    else d

unfoldable pub retry_delay : Duration → Duration → ℤ → Duration
unfolding retry_loop
retry_delay base top attempt =
    let n = if ltb_ℤ attempt (pos 1) then pos 1 else attempt in retry_loop (pos_part n - 1) top base

pow_pos : (n : ℕ) → 1 ≤ 2 ^ n
pow_pos zero = omega arith
pow_pos (suc n) = omega (arith, pow-suc 2 n, pow_pos n)

-- A product with a power is no less than its factor.
le-mul_pow : (b n : ℕ) → b ≤ b * 2 ^ n
le-mul_pow b n = grind (arith, pow_pos n)

mul_pow_suc : (b n : ℕ) → b * 2 ^ suc n ≡ (b + b) * 2 ^ n
mul_pow_suc b n = rw pow-suc (omega arith)

doubled : (b m : ℕ) → m < 2 ^ 63 → b ≤ m / 2 → wrap64 (pos b +ℤ pos b) ≡ pos (b + b)
unfolding ◌+ℤ◌
doubled b m h le = ground (arith, wrap64-pos (b + b))

retry_loop-eq-min :
    (n b m : ℕ) → m < 2 ^ 63 → retry_loop n (pos m) (pos b) ≡ pos (min m (b * 2 ^ n))
unfolding retry_loop
retry_loop-eq-min zero b m h = ground arith
retry_loop-eq-min (suc n) b m h =
    ground
      (arith, mul_pow_suc b n, le-mul_pow (b + b) n, doubled b m h, retry_loop-eq-min n (b + b) m h)

-- For a base that is not negative and a maximum that fits int64, the delay before the next attempt
-- is the base doubled once for each attempt but the first, cut at the maximum: the doubling never
-- wraps around. An attempt below 1 counts as the first.
pub retry_delay-eq-min :
    (base top attempt : ℕ)
    → top < 2 ^ 63
    → retry_delay (pos base) (pos top) (pos attempt) ≡ pos (min top (base * 2 ^ (attempt - 1)))
unfolding retry_delay
retry_delay-eq-min base top zero h = retry_loop-eq-min 0 base top h
retry_delay-eq-min base top (suc n) h = ground (arith, retry_loop-eq-min n base top h)
