-- ===== src/Syslog/Matching/Runs.antt =====
-- What the pieces of the regular expressions match in a text that is laid out for them.
use home_assistant_apps.Prelude.{
  ℕ, zero, suc, ◌+◌, ◌/◌, ◌%◌, ◌≤◌, ◌<◌, ◌≡◌, refl, ◌≢◌, Bool, true, false, not, some, [], ◌∷◌,
  ◌++◌, Text, All, length, ltb, if◌then◌else◌, if_rule, arith,
}
use home_assistant_apps.Syslog.Matching.{
  CharClasses, span, span_upto, expect, nonempty, token, digits_value,
}

module _ (p : ℕ → Bool) (c : ℕ) (rest : Text) where
  pub span-run :
      (w : Text) → All (λ d. p d ≡ true) w → p c ≡ false → span p (w ++ c ∷ rest) ≡ (w, c ∷ rest)
  unfolding span
  span-run [] h stop = rw stop
  span-run (d ∷ w) h stop = rw (span-run w h.1 stop) (rw h.0)

  pub span_upto-run :
      (k : ℕ) (w : Text)
      → length w ≤ k
      → All (λ d. p d ≡ true) w
      → p c ≡ false
      → span_upto k p (w ++ c ∷ rest) ≡ (w, c ∷ rest)
  unfolding span_upto
  span_upto-run zero [] l h stop = refl
  span_upto-run zero (d ∷ w) l h stop = absurd (omega arith)
  span_upto-run (suc k) [] l h stop = rw stop
  span_upto-run (suc k) (d ∷ w) l h stop = rw (span_upto-run k w (omega arith) h.1 stop) (rw h.0)

-- A field of an RFC 5424 header.
pub record IsWord (u : CharClasses) (w : Text) : Type 0 where
  pub some_char : w ≢ []
  pub no_space : All (λ c. not (u.is_space c) ≡ true) w

pub nonempty-ne : (w : Text) → w ≢ [] → nonempty w ≡ some w
unfolding nonempty
nonempty-ne [] h = absurd (h refl)
nonempty-ne (c ∷ w) h = refl

pub token-word :
    (u : CharClasses) (w rest : Text) → IsWord u w → token u (w ++ 32 ∷ rest) ≡ some (w, rest)
unfolding token expect
token-word u w rest h =
    rw (span-run (λ c. not (u.is_space c)) 32 rest w h.no_space (rw u.space_space))
      (rw (nonempty-ne w h.some_char))

-- The decimal digits of a number below 1000.
unfoldable pub decimal : ℕ → Text
decimal n =
    if ltb n 10
    then (48 + n) ∷ []
    else if ltb n 100
    then (48 + n / 10) ∷ (48 + n % 10) ∷ []
    else (48 + n / 100) ∷ (48 + n / 10 % 10) ∷ (48 + n % 10) ∷ []

pub decimal-length : (n : ℕ) → (0 < length (decimal n)) × (length (decimal n) ≤ 3)
unfolding decimal
decimal-length n = ground arith

module _ (u : CharClasses) where
  pub decimal-digits : (n : ℕ) → n < 1000 → All (λ c. u.is_digit c ≡ true) (decimal n)
  unfolding decimal
  decimal-digits n h =
      if_rule (All (λ c. u.is_digit c ≡ true)) (ltb n 10) _ _
        (λ e. (u.ascii_digit n (ground arith), tt))
        λ e.
          if_rule (All (λ c. u.is_digit c ≡ true)) (ltb n 100) _ _
            (λ e'.
              (u.ascii_digit (n / 10) (ground arith), (u.ascii_digit (n % 10) (omega arith), tt)))
            λ e'. (
              u.ascii_digit (n / 100) (omega arith),
              (
                u.ascii_digit (n / 10 % 10) (omega arith),
                (u.ascii_digit (n % 10) (omega arith), tt),
              ),
            )

  pub digits_value-decimal : (n : ℕ) → n < 1000 → digits_value u 0 (decimal n) ≡ n
  unfolding decimal digits_value
  digits_value-decimal n h = ground (
    arith,
    u.ascii_value n,
    u.ascii_value (n / 10),
    u.ascii_value (n % 10),
    u.ascii_value (n / 100),
    u.ascii_value (n / 10 % 10),
  )
