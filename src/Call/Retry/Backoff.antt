-- ===== src/Call/Retry/Backoff.antt =====
-- How long the retrier sleeps between attempts.
use native.Mathlib.Nat.{pow-suc}
use chassis_go.Prelude.{
  ℕ, zero, suc, ◌+◌, ◌*◌, ◌/◌, ◌%◌, ◌^◌, ◌≤◌, ◌<◌, ◌≡◌, ◌∙◌, if◌then◌else◌, arith, ◌-◌, ◌==◌,
  nat_comparable, leb, ◌||◌,
}
use chassis_go.Call.Retry.{Retrier, backoff_delay, doubled, half, int64_mod}

one-le-pow : (n : ℕ) → 1 ≤ 2 ^ n
one-le-pow zero = omega arith
one-le-pow (suc n) = omega (arith, one-le-pow n, pow-suc 2 n)

mul-le-mul : (d k p : ℕ) → 1 ≤ p → d * k ≤ d * k * p
mul-le-mul d k p h = grind arith

-- Without overflow the doubled delay is the base times a power of two.
doubled-eq : (n d : ℕ) → d * 2 ^ n < 2 ^ 63 → doubled n d ≡ d * 2 ^ n
unfolding doubled
doubled-eq zero d h = grind arith
doubled-eq (suc n) d h =
    let shift : d * 2 * 2 ^ n ≡ d * 2 ^ suc n = grind (arith, pow-suc 2 n) in
    let small : d * 2 < 2 ^ 63 = grind (arith, shift, one-le-pow n, mul-le-mul d 2 (2 ^ n)) in
    let kept : d * 2 % int64_mod ≡ d * 2 = omega arith in
    rw kept (doubled-eq n (d * 2) (omega (arith, shift)) ∙ shift)

-- If the base delay times 2 ^ attempt is below 2 ^ 62 nanoseconds, and the jitter is drawn from
-- [0, n), the retrier sleeps at least that product and less than half of it longer (or not longer,
-- where the half is 0). A base delay that is zero or negative as an int64 counts as 100 ms.
pub backoff_delay_bounds :
    (r : Retrier) (rand : ℕ → ℕ → ℕ) (attempt base : ℕ)
    → ((a n : ℕ) → 0 < n → rand a n < n)
    → base ≡ (if r.base_delay == 0 || leb (2 ^ 63) r.base_delay then 100000000 else r.base_delay)
    → base * 2 ^ attempt < 2 ^ 62
    → (base * 2 ^ attempt ≤ backoff_delay r rand attempt)
      × (backoff_delay r rand attempt ≤ base * 2 ^ attempt + (base * 2 ^ attempt / 2 - 1))
unfolding backoff_delay half
backoff_delay_bounds r rand attempt base drawn e small =
    let total = base * 2 ^ attempt in
    rw (← e, doubled-eq attempt base (omega arith)) (ground (arith, drawn attempt (total / 2)))
