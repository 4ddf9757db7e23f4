-- ===== src/Syslog/Escape/OneLine.antt =====
-- Characters that end a line or control a terminal, in escaped texts of models.py.
use home_assistant_apps.Prelude.{ℕ, ◌/◌, ◌%◌, ◌≤◌, ◌<◌, inl, Text, [], ◌∷◌, All, All-append, arith}
use home_assistant_apps.Syslog.Escape.Cases.{IsPlain, escape_char_rule}
use home_assistant_apps.Syslog.Escape.{hex_digit, hex2, hex4, escape_char, escape}

hex_digit_bounds : (n : ℕ) → n < 16 → (48 ≤ hex_digit n) × (hex_digit n ≤ 102)
unfolding hex_digit
hex_digit_bounds n h = ground arith

IsPlain-ascii : (c : ℕ) → 32 ≤ c → c < 127 → IsPlain c
IsPlain-ascii c l h = record {
  above_controls = l;
  outside_controls = inl h;
  not_ls = omega arith;
  not_ps = omega arith;
}

hex_digit-IsPlain : (n : ℕ) → n < 16 → IsPlain (hex_digit n)
hex_digit-IsPlain n h =
    let (l, u) = hex_digit_bounds n h in IsPlain-ascii (hex_digit n) (omega arith) (omega arith)

hex2-IsPlain : (c : ℕ) → c < 256 → All IsPlain (hex2 c)
unfolding hex2
hex2-IsPlain c h = (
  IsPlain-ascii 92 (omega arith) (omega arith),
  (
    IsPlain-ascii b'x' (omega arith) (omega arith),
    (hex_digit-IsPlain (c / 16) (omega arith), (hex_digit-IsPlain (c % 16) (omega arith), tt)),
  ),
)

hex4-IsPlain : (c : ℕ) → c < 65536 → All IsPlain (hex4 c)
unfolding hex4
hex4-IsPlain c h = (
  IsPlain-ascii 92 (omega arith) (omega arith),
  (
    IsPlain-ascii b'u' (omega arith) (omega arith),
    (
      hex_digit-IsPlain (c / 4096) (omega arith),
      (
        hex_digit-IsPlain (c / 256 % 16) (omega arith),
        (
          hex_digit-IsPlain (c / 16 % 16) (omega arith),
          (hex_digit-IsPlain (c % 16) (omega arith), tt),
        ),
      ),
    ),
  ),
)

named-IsPlain : (c : ℕ) → 32 ≤ c → c < 127 → All IsPlain (92 ∷ c ∷ [])
named-IsPlain c l h = (IsPlain-ascii 92 (omega arith) (omega arith), (IsPlain-ascii c l h, tt))

escape_char-IsPlain : (c : ℕ) → All IsPlain (escape_char c)
escape_char-IsPlain c =
    escape_char_rule (All IsPlain) c (λ _. named-IsPlain 92 (omega arith) (omega arith))
      (λ _. named-IsPlain b'n' (omega arith) (omega arith))
      (λ _. named-IsPlain b'r' (omega arith) (omega arith))
      (λ _. named-IsPlain b't' (omega arith) (omega arith)) (hex2-IsPlain c) (hex4-IsPlain c)
      (λ _ h. (h, tt))

-- No character of an escaped text is a control character or a line break, whatever the text.
pub escape-IsPlain : (text : Text) → All IsPlain (escape text)
unfolding escape
escape-IsPlain [] = tt
escape-IsPlain (c ∷ text) =
    All-append IsPlain (escape_char c) (escape text) (escape_char-IsPlain c) (escape-IsPlain text)
