-- ===== src/Syslog/Structured.antt =====
-- `_split_structured_data` of py-syslog/pysyslog/parser.py.
pub mod Elements
use home_assistant_apps.Prelude.{
  ℕ, zero, suc, ◌+◌, Text, [], ◌∷◌, Option, none, some, take, drop, ◌==◌, if◌then◌else◌,
}

-- Where the two loops stand: at the outer test, or in the inner loop with `depth` one more than
-- the number given, the character before it a backslash or not.
pub data Scan : Type 0 where
  outside : Scan
  inside : ℕ → Scan
  escaped : ℕ → Scan

close : ℕ → Scan
close zero = outside
close (suc d) = inside d

-- One character. `none` is the exit of the outer loop: the character is no `[`.
next : Scan → ℕ → Option Scan
unfolding close
next outside c = if c == b'[' then some (inside 0) else none
next (inside d) c =
    if c == 92
    then some (escaped d)
    else if c == b'['
    then some (inside (suc d))
    else if c == b']'
    then some (close d)
    else some (inside d)
next (escaped d) c = some (inside d)

-- What is left at the end of the text: the index if no element is open. An element that is open
-- is the `else` of the inner loop.
at_end : Scan → ℕ → Option ℕ
at_end outside i = some i
at_end (inside d) i = none
at_end (escaped d) i = none

-- Both loops: the boundary index `i`.
unfoldable pub scan : Scan → ℕ → Text → Option ℕ
unfolding next at_end
scan s i [] = at_end s i
scan s i (c ∷ text) = elim (next s c) [ none ↦ some i | some s' ↦ scan s' (i + 1) text ]

-- `tail[i + 1 :]` if a space separates, else `tail[i:]`.
unfoldable pub after_separator : Text → Text
after_separator [] = []
after_separator (c ∷ text) = if c == 32 then text else c ∷ text

-- `tail[2:] if tail.startswith("- ") else ""`, behind the dash.
after_nil : Text → Text
after_nil [] = []
after_nil (c ∷ text) = if c == 32 then text else []

cut : Text → Option ℕ → Text × Text
unfolding after_separator
cut tail none = ([], [])
cut tail (some i) = (take i tail, after_separator (drop i tail))

unfoldable pub split_structured_data : Text → Text × Text
unfolding after_nil cut
split_structured_data [] = ([], [])
split_structured_data (c ∷ text) =
    if c == b'-'
    then ([], after_nil text)
    else if c == b'['
    then cut (c ∷ text) (scan outside 0 (c ∷ text))
    else ([], c ∷ text)
