-- ===== src/Syslog/Structured/Elements.antt =====
-- The grammar of RFC 5424's STRUCTURED-DATA as the parser reads it, and the split along it.
use home_assistant_apps.Prelude.{
  ℕ, suc, ◌+◌, ◌≡◌, refl, ap, ◌∙◌, ◌≢◌, Text, [], ◌∷◌, ◌++◌, length, length-append, append_assoc,
  take-append, drop-append, some, arith,
}
use home_assistant_apps.Syslog.Structured.{
  outside, inside, scan, after_separator, cut, split_structured_data,
}

-- The inside of an element: brackets are balanced, but for the characters behind a backslash.
pub data IsBody : Text → Type 0 where
  nil : IsBody []
  plain : {c : ℕ} {t : Text} → c ≢ 92 → c ≢ b'[' → c ≢ b']' → IsBody t → IsBody (c ∷ t)
  quoted : (c : ℕ) {t : Text} → IsBody t → IsBody (92 ∷ c ∷ t)
  nested : {s t : Text} → IsBody s → IsBody t → IsBody (b'[' ∷ (s ++ b']' ∷ t))

-- A run of elements with nothing between them.
pub data IsElements : Text → Type 0 where
  none_left : IsElements []
  element : {s t : Text} → IsBody s → IsElements t → IsElements (b'[' ∷ (s ++ b']' ∷ t))

scan_plain :
    (d i c : ℕ) (t : Text)
    → c ≢ 92
    → c ≢ b'['
    → c ≢ b']'
    → scan (inside d) i (c ∷ t) ≡ scan (inside d) (i + 1) t
unfolding scan
scan_plain d i c t p q r = ground arith

-- A bracket that opens in a body is at depth `suc d`, so its partner does not end the element.
scan-body :
    {t : Text} (d i : ℕ) (rest : Text)
    → IsBody t
    → scan (inside d) i (t ++ rest) ≡ scan (inside d) (i + length t) rest
unfolding scan
scan-body d i rest nil = ap (λ j. scan (inside d) j rest) (omega arith)
scan-body d i rest (plain {c = c} {t = t} p q r b) =
    scan_plain d i c (t ++ rest) p q r
    ∙ scan-body d (i + 1) rest b
    ∙ ap (λ j. scan (inside d) j rest) (omega arith)
scan-body d i rest (quoted c {t = t} b) =
    scan-body d (i + 1 + 1) rest b ∙ ap (λ j. scan (inside d) j rest) (omega arith)
scan-body d i rest (nested {s = s} {t = t} b b') = rw append_assoc (
    scan-body (suc d) (i + 1) (b']' ∷ (t ++ rest)) b
    ∙ scan-body d (i + 1 + length s + 1) rest b'
    ∙ ap (λ j. scan (inside d) j rest) (omega (arith, length-append s (b']' ∷ t))))

-- The text does not go on with another element.
abbrev pub Stops : Text → Type 0
Stops [] = Unit
Stops (c ∷ t) = c ≢ b'['

scan-Stops : (i : ℕ) (rest : Text) → Stops rest → scan outside i rest ≡ some i
unfolding scan
scan-Stops i [] h = refl
scan-Stops i (c ∷ t) h = ground arith

scan-elements :
    {t : Text} (i : ℕ) (rest : Text)
    → IsElements t
    → Stops rest
    → scan outside i (t ++ rest) ≡ some (i + length t)
unfolding scan
scan-elements i rest none_left h = scan-Stops i rest h ∙ ap some (omega arith)
scan-elements i rest (element {s = s} {t = t} b e) h = rw append_assoc (
    scan-body 0 (i + 1) (b']' ∷ (t ++ rest)) b
    ∙ scan-elements (i + 1 + length s + 1) rest e h
    ∙ ap some (omega (arith, length-append s (b']' ∷ t))))

cut-append :
    (t rest : Text) (n : ℕ) → n ≡ length t → cut (t ++ rest) (some n) ≡ (t, after_separator rest)
unfolding cut
cut-append t rest n e = rw (e, take-append, drop-append)

-- The structured data of a text is the run of elements that it begins with, in full, when the text
-- goes on with anything but another element; one space behind the run is dropped, and the message
-- is all the rest.
pub split_structured_data-elements :
    (t rest : Text)
    → IsElements t
    → t ≢ []
    → Stops rest
    → split_structured_data (t ++ rest) ≡ (t, after_separator rest)
unfolding split_structured_data
split_structured_data-elements t rest none_left n h = absurd (n refl)
split_structured_data-elements t rest (element {s = s} {t = t'} b e) n h =
    rw (scan-elements 0 rest (element b e) h)
      (cut-append (b'[' ∷ (s ++ b']' ∷ t')) rest _ (omega arith))

-- Without structured data, that is with a `-`, the message is what follows the space behind it.
pub split_structured_data-nil : (msg : Text) → split_structured_data (b'-' ∷ 32 ∷ msg) ≡ ([], msg)
unfolding split_structured_data
split_structured_data-nil msg = refl
