-- ===== src/Syslog/Escape/Decode.antt =====
-- A decoder for the escape of models.py, written from the format's description.
use home_assistant_apps.Prelude.{
  ℕ, ◌+◌, ◌-◌, ◌*◌, ◌/◌, ◌%◌, ◌<◌, ◌≡◌, refl, Text, [], ◌∷◌, ◌++◌, ltb, ◌==◌, if◌then◌else◌, arith,
  ap, ◌∙◌,
}
use home_assistant_apps.Syslog.Escape.Cases.{escape_char_rule}
use home_assistant_apps.Syslog.Escape.{hex_digit, hex2, hex4, escape_char, escape}

-- Between characters, after a backslash, or with so many hex digits still to read of a number.
data Mode : Type 0 where
  plain slash : Mode
  hex : ℕ → ℕ → Mode

hex_value : ℕ → ℕ
hex_value d = if ltb d b'a' then d - b'0' else d - b'a' + 10

after_slash : ℕ → Mode × Text
after_slash c =
    if c == b'x'
    then (hex 1 0, [])
    else if c == b'u'
    then (hex 3 0, [])
    else if c == b'n'
    then (plain, 10 ∷ [])
    else if c == b'r'
    then (plain, 13 ∷ [])
    else if c == b't'
    then (plain, 9 ∷ [])
    else (plain, c ∷ [])

-- `hex k v` reads a digit, and `k` more after it.
decode_char : Mode → ℕ → Mode × Text
unfolding after_slash hex_value
decode_char plain c = if c == 92 then (slash, []) else (plain, c ∷ [])
decode_char slash c = after_slash c
decode_char (hex ℕ.zero v) c = (plain, (v * 16 + hex_value c) ∷ [])
decode_char (hex (ℕ.suc k) v) c = (hex k (v * 16 + hex_value c), [])

decode : Mode → Text → Text
decode m [] = []
decode m (c ∷ text) = let (m', out) = decode_char m c in out ++ decode m' text

pub unescape : Text → Text
unfolding decode
unescape text = decode plain text

hex_value-hex_digit : (n : ℕ) → n < 16 → hex_value (hex_digit n) ≡ n
unfolding hex_value hex_digit
hex_value-hex_digit n h = ground arith

decode-hex2 :
    (c : ℕ) (rest : Text) → c < 256 → decode plain (hex2 c ++ rest) ≡ c ∷ decode plain rest
unfolding decode decode_char hex2
decode-hex2 c rest h =
    ap (λ v. v ∷ decode plain rest)
      (omega (arith, hex_value-hex_digit (c / 16), hex_value-hex_digit (c % 16)))

decode-hex4 :
    (c : ℕ) (rest : Text) → c < 65536 → decode plain (hex4 c ++ rest) ≡ c ∷ decode plain rest
unfolding decode decode_char hex4
decode-hex4 c rest h =
    ap (λ v. v ∷ decode plain rest)
      (omega (
        arith,
        hex_value-hex_digit (c / 4096),
        hex_value-hex_digit (c / 256 % 16),
        hex_value-hex_digit (c / 16 % 16),
        hex_value-hex_digit (c % 16),
      ))

decode-escape_char :
    (c : ℕ) (rest : Text) → decode plain (escape_char c ++ rest) ≡ c ∷ decode plain rest
unfolding decode decode_char
decode-escape_char c rest =
    escape_char_rule (λ t. decode plain (t ++ rest) ≡ c ∷ decode plain rest) c (λ e. rw e)
      (λ e. rw e) (λ e. rw e) (λ e. rw e) (decode-hex2 c rest) (decode-hex4 c rest)
      (λ h _. ground arith)

-- Decoding an escaped text gives the text back, whatever its characters: the escape is unambiguous.
pub unescape-escape : (text : Text) → unescape (escape text) ≡ text
unfolding unescape escape
unescape-escape [] = unfold decode in refl
unescape-escape (c ∷ text) =
    decode-escape_char c (escape text) ∙ ap (λ t. c ∷ t) (unescape-escape text)
