-- ===== src/Syslog/Throttle/Spacing.antt =====
-- The times of the warnings that the throttle of server.py lets through.
use home_assistant_apps.Prelude.{
  ℕ, ◌+◌, ◌≤◌, ◌≡◌, Text, text_eq, text_eq_iff, List, [], ◌∷◌, true, Option, none, some, lookup,
  insert, lookup-insert, ◌&&◌, if◌then◌else◌, Bool-cases, inl, inr, leb→le,
}
use home_assistant_apps.Syslog.Throttle.{Throttle, is_due, should_emit}

-- The times at which calls with `key` were let through, of a list of calls.
unfoldable pub emitted : Text → Throttle → List (Text × ℕ) → List ℕ
emitted key t [] = []
emitted key t ((k, now) ∷ calls) =
    let (ok, t') = should_emit t k now in
    let rest = emitted key t' calls in if ok && text_eq k key then now ∷ rest else rest

-- Each time is at least `window` after the one before it, the first after `last`.
abbrev pub Spaced : ℕ → Option ℕ → List ℕ → Type 0
Spaced window last [] = Unit
Spaced window none (x ∷ xs) = Spaced window (some x) xs
Spaced window (some l) (x ∷ xs) = (l + window ≤ x) × Spaced window (some x) xs

Spaced-cons :
    (window now : ℕ) (last : Option ℕ) (rest : List ℕ)
    → is_due last window now ≡ true
    → Spaced window (some now) rest
    → Spaced window last (now ∷ rest)
Spaced-cons window now none rest due h = h
Spaced-cons window now (some l) rest due h = (leb→le (l + window) now due, h)

-- Whatever the order and the times of the calls, the warnings let through for a key are spaced by
-- the window, also from the last one that the throttle remembers of that key.
pub emitted-Spaced :
    (key : Text) (t : Throttle) (calls : List (Text × ℕ))
    → Spaced t.window (lookup key t.last) (emitted key t calls)
unfolding emitted should_emit
emitted-Spaced key t [] = tt
emitted-Spaced key t ((k, now) ∷ calls) =
    elim (Bool-cases (is_due (lookup k t.last) t.window now)) [
      | inr early ↦ rw early (emitted-Spaced key t calls)
      | inl due ↦ rw due (
          let ih =
            rw lookup-insert at
              (emitted-Spaced key (record t { last = insert k now t.last }) calls) in
          elim (Bool-cases (text_eq k key)) [
            | inr other ↦ rw other (rw other at ih)
            | inl same ↦ rw same (
                Spaced-cons t.window now (lookup key t.last) _
                  (rw ((text_eq_iff k key).0 same) at due) (rw same at ih))
          ])
    ]
