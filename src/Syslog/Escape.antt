-- ===== src/Syslog/Escape.antt =====
-- `_escape` of py-syslog/pysyslog/models.py: one datagram is one physical line.
pub mod Cases
pub mod OneLine
pub mod Decode
use home_assistant_apps.Prelude.{
  ℕ, ◌+◌, ◌-◌, ◌/◌, ◌%◌, Text, codes, List, [], ◌∷◌, ◌++◌, ◌&&◌, ◌||◌, ltb, leb, ◌==◌,
  if◌then◌else◌,
}

-- One digit of `{code:02x}`.
hex_digit : ℕ → ℕ
hex_digit n = if ltb n 10 then b'0' + n else b'a' + (n - 10)

-- `\xNN`.
pub hex2 : ℕ → Text
unfolding hex_digit
hex2 c = 92 ∷ b'x' ∷ hex_digit (c / 16) ∷ hex_digit (c % 16) ∷ []

-- `\uNNNN`.
pub hex4 : ℕ → Text
unfolding hex_digit
hex4 c =
    92
    ∷ b'u'
    ∷ hex_digit (c / 4096)
    ∷ hex_digit (c / 256 % 16)
    ∷ hex_digit (c / 16 % 16)
    ∷ hex_digit (c % 16)
    ∷ []

-- The body of the loop, on one character.
unfoldable pub escape_char : ℕ → Text
unfolding hex2 hex4
escape_char c =
    if c == 92
    then 92 ∷ 92 ∷ []
    else if c == 10
    then 92 ∷ b'n' ∷ []
    else if c == 13
    then 92 ∷ b'r' ∷ []
    else if c == 9
    then 92 ∷ b't' ∷ []
    else if ltb c 0x20 || c == 0x7f || (leb 0x80 c && leb c 0x9f)
    then hex2 c
    else if c == 0x2028 || c == 0x2029
    then hex4 c
    else c ∷ []

unfoldable pub escape : Text → Text
escape [] = []
escape (c ∷ text) = escape_char c ++ escape text
