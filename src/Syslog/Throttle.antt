-- ===== src/Syslog/Throttle.antt =====
-- `_Throttle` of py-syslog/pysyslog/server.py: at most one warning per key and window. Times are
-- natural numbers of one unit that is fine enough for the clock's readings, such as nanoseconds.
pub mod Spacing
use home_assistant_apps.Prelude.{
  ℕ, ◌+◌, Text, Bool, true, false, Option, none, some, Dict, lookup, insert, leb, if◌then◌else◌,
}

pub record Throttle : Type 0 where
  pub window : ℕ
  pub last : Dict ℕ

-- `last is None or (monotonic - last) >= self._window`.
abbrev is_due : Option ℕ → ℕ → ℕ → Bool
is_due none window monotonic = true
is_due (some last) window monotonic = leb (last + window) monotonic

unfoldable pub should_emit : Throttle → Text → ℕ → Bool × Throttle
should_emit t key monotonic =
    if is_due (lookup key t.last) t.window monotonic
    then (true, record t { last = insert key monotonic t.last })
    else (false, t)
