-- ===== src/Syslog/Matching.antt =====
-- The pieces of the regular expressions of py-syslog/pysyslog/parser.py. In each of them a
-- repetition is followed by a character that it cannot take, so the longest run is the only match.
pub mod Runs
use home_assistant_apps.Prelude.{
  ℕ, zero, suc, ◌+◌, ◌*◌, ◌<◌, ◌≡◌, Bool, true, false, not, Option, none, some, List, [], ◌∷◌, Text,
  ◌==◌, if◌then◌else◌, ◌>>=◌,
}

-- Python's character classes `\d` and `\s`, and the value that `int` gives a `\d`. The tables are
-- Unicode's; what is stated of them is the part that is ASCII.
pub record CharClasses : Type 0 where
  pub is_digit : ℕ → Bool
  pub digit_value : ℕ → ℕ
  pub is_space : ℕ → Bool
  pub ascii_digit : (n : ℕ) → n < 10 → is_digit (48 + n) ≡ true
  pub ascii_value : (n : ℕ) → n < 10 → digit_value (48 + n) ≡ n
  pub space_digit : is_digit 32 ≡ false
  pub greater_digit : is_digit 62 ≡ false
  pub space_space : is_space 32 ≡ true

-- The longest run of a class, and what follows it.
unfoldable pub span : (ℕ → Bool) → Text → Text × Text
span p [] = ([], [])
span p (c ∷ text) = let (run, rest) = span p text in if p c then (c ∷ run, rest) else ([], c ∷ text)

-- `p{0,k}`.
unfoldable pub span_upto : ℕ → (ℕ → Bool) → Text → Text × Text
span_upto zero p text = ([], text)
span_upto (suc k) p [] = ([], [])
span_upto (suc k) p (c ∷ text) =
    let (run, rest) = span_upto k p text in if p c then (c ∷ run, rest) else ([], c ∷ text)

-- One given character.
unfoldable pub expect : ℕ → Text → Option Text
expect d [] = none
expect d (c ∷ text) = if c == d then some text else none

-- One character of each class, in order.
unfoldable pub match_classes : List (ℕ → Bool) → Text → Option (Text × Text)
match_classes [] text = some ([], text)
match_classes (p ∷ ps) [] = none
match_classes (p ∷ ps) (c ∷ text) =
    let rest = match_classes ps text in
    if p c then (do (run, after) ← rest; some (c ∷ run, after)) else none

unfoldable pub nonempty : Text → Option Text
nonempty [] = none
nonempty (c ∷ text) = some (c ∷ text)

module _ (u : CharClasses) where
  -- `(\S+) `.
  unfoldable pub token : Text → Option (Text × Text)
  token text = do
    let (run, rest) = span (λ c. not (u.is_space c)) text
    word ← nonempty run
    after ← expect 32 rest
    some (word, after)

  -- `int` of a run of digits.
  unfoldable pub digits_value : ℕ → Text → ℕ
  digits_value acc [] = acc
  digits_value acc (c ∷ text) = digits_value (acc * 10 + u.digit_value c) text
