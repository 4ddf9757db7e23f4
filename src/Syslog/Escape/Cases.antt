-- ===== src/Syslog/Escape/Cases.antt =====
-- What a character of the escape can be, and the case split on `escape_char`.
use home_assistant_apps.Prelude.{
  ℕ, ◌≤◌, ◌<◌, ◌≡◌, ◌≢◌, ◌⊎◌, Text, [], ◌∷◌, All, not, if_rule, ==_iff, Bool, true, false, ◌&&◌,
  ◌||◌, ltb, leb, ◌==◌, arith,
}
use home_assistant_apps.Syslog.Escape.{hex2, hex4, escape_char}

-- Neither a control character of ASCII or Latin-1, and neither of the two Unicode separators. These include all
-- characters at which `str.splitlines` breaks.
pub record IsPlain (c : ℕ) : Type 0 where
  pub above_controls : 0x20 ≤ c
  pub outside_controls : (c < 0x7f) ⊎ (0x9f < c)
  pub not_ls : c ≢ 0x2028
  pub not_ps : c ≢ 0x2029

-- The test of the branch that writes two hex digits.
abbrev pub is_control : ℕ → Bool
is_control c = ltb c 0x20 || c == 0x7f || (leb 0x80 c && leb c 0x9f)

is_control-lt : (c : ℕ) → is_control c ≡ true → c < 256
is_control-lt c h = ground arith

is_separator-lt : (c : ℕ) → (c == 0x2028 || c == 0x2029) ≡ true → c < 65536
is_separator-lt c h = ground arith

IsPlain-of_tests : (c : ℕ) → is_control c ≡ false → (c == 0x2028 || c == 0x2029) ≡ false → IsPlain c
IsPlain-of_tests c p q = ground arith

-- One premise for each branch of the loop body.
pub escape_char_rule {κ} :
    (P : Text → Type κ) (c : ℕ)
    → (c ≡ 92 → P (92 ∷ 92 ∷ []))
    → (c ≡ 10 → P (92 ∷ b'n' ∷ []))
    → (c ≡ 13 → P (92 ∷ b'r' ∷ []))
    → (c ≡ 9 → P (92 ∷ b't' ∷ []))
    → (c < 256 → P (hex2 c))
    → (c < 65536 → P (hex4 c))
    → (c ≢ 92 → IsPlain c → P (c ∷ []))
    → P (escape_char c)
unfolding escape_char
escape_char_rule P c backslash newline return tab control separator other =
    if_rule P (c == 92) _ _ (λ h. backslash ((==_iff c 92).0 h))
      λ n.
        if_rule P (c == 10) _ _ (λ h. newline ((==_iff c 10).0 h))
          λ _.
            if_rule P (c == 13) _ _ (λ h. return ((==_iff c 13).0 h))
              λ _.
                if_rule P (c == 9) _ _ (λ h. tab ((==_iff c 9).0 h))
                  λ _.
                    if_rule P (is_control c) _ _ (λ h. control (is_control-lt c h))
                      λ p.
                        if_rule P (c == 0x2028 || c == 0x2029) _ _
                          (λ h. separator (is_separator-lt c h))
                          λ q. other (λ e. cc (n, (==_iff c 92).1 e)) (IsPlain-of_tests c p q)

-- `IsPlain` on every character, by evaluation.
unfoldable pub all_plain : Text → Bool
all_plain [] = true
all_plain (c ∷ text) = not (is_control c) && not (c == 0x2028 || c == 0x2029) && all_plain text

pub IsPlain-of_all_plain : (text : Text) → all_plain text ≡ true → All IsPlain text
unfolding all_plain
IsPlain-of_all_plain [] h = tt
IsPlain-of_all_plain (c ∷ text) h =
    (IsPlain-of_tests c (ground arith) (ground arith), IsPlain-of_all_plain text (ground arith))
