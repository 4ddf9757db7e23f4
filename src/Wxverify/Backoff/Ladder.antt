-- ===== src/Wxverify/Backoff/Ladder.antt =====
-- The cap of the exponent in the ladder of worker/domain_backoff.py.
use home_assistant_apps.Prelude.{
  ℕ, zero, suc, ◌*◌, ◌-◌, ◌/◌, ◌^◌, ◌≤◌, ◌<◌, ◌≡◌, inl, inr, min, ◌==◌, arith, Bool-cases, leb,
  leb→le, if_rule,
}
use home_assistant_apps.Wxverify.Backoff.{bit_length_from, bit_length, max_backoff_shift, ladder}

half_lt : (n p : ℕ) → n / 2 < p → n < 2 * p
half_lt n p h = omega arith

pow_suc : (k : ℕ) → 2 ^ suc k ≡ 2 * 2 ^ k
pow_suc k = omega arith

lt-bit_length_from : (fuel n : ℕ) → n ≤ fuel → n < 2 ^ bit_length_from fuel n
unfolding bit_length_from
lt-bit_length_from zero n h = omega arith
lt-bit_length_from (suc fuel) n h =
    let ih : n / 2 ≤ fuel → n / 2 < 2 ^ bit_length_from fuel (n / 2) =
      lt-bit_length_from fuel (n / 2) in
    if_rule (λ k. n < 2 ^ k) (n == 0) _ _ (λ e. ground arith)
      (λ e. rw (pow_suc _) (half_lt n _ (ih (omega arith))))

div_lt : (a b : ℕ) → 0 < b → a < b * suc (a / b)
div_lt a b h = omega arith

mul_mono : (a b c : ℕ) → a ≤ c → b * a ≤ b * c
mul_mono a b c h = grind arith

pow_pos : (n : ℕ) → 0 < 2 ^ n
pow_pos zero = omega arith
pow_pos (suc n) = omega (arith, pow_suc n, pow_pos n)

pow_mono : (m n : ℕ) → m ≤ n → 2 ^ m ≤ 2 ^ n
pow_mono zero n h = omega (arith, pow_pos n)
pow_mono (suc m) zero h = omega arith
pow_mono (suc m) (suc n) h = omega (arith, pow_suc m, pow_suc n, pow_mono m n (omega arith))

-- The delay at the greatest exponent is beyond the ceiling.
ceiling-lt :
    (default_delay max_delay : ℕ)
    → 0 < default_delay
    → max_delay < default_delay * 2 ^ max_backoff_shift default_delay max_delay
unfolding max_backoff_shift bit_length
ceiling-lt d m h =
    let q = m / d in
    let bits : q < 2 ^ bit_length_from q q = lt-bit_length_from q q (omega arith) in
    omega (arith, div_lt m d h, mul_mono (suc q) d (2 ^ bit_length_from q q) bits)

-- For a default delay that is not 0, whatever the ceiling and however great the count, capping the
-- exponent at the number of bits of their quotient gives the same delay as the doubling without it.
pub ladder-uncapped :
    (default_delay max_delay retry_count : ℕ)
    → 0 < default_delay
    → ladder default_delay max_delay retry_count
      ≡ min max_delay (default_delay * 2 ^ (retry_count - 1))
unfolding ladder
ladder-uncapped d m n h =
    let shift = max_backoff_shift d m in
    let beyond : m < d * 2 ^ shift = ceiling-lt d m h in
    elim (Bool-cases (leb (n - 1) shift)) [
      | inl small ↦
          let same : min (n - 1) shift ≡ n - 1 = omega (arith, leb→le (n - 1) shift small) in
          rw same
      | inr great ↦
          let le : shift ≤ n - 1 = ground arith in
          let same : min (n - 1) shift ≡ shift = omega arith in
          let far = mul_mono (2 ^ shift) d (2 ^ (n - 1)) (pow_mono shift (n - 1) le) in
          rw same (omega arith)
    ]
