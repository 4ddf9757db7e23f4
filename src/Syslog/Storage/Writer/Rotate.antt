-- ===== src/Syslog/Storage/Writer/Rotate.antt =====
-- The lines that the check for a new day in writer.py keeps.
use home_assistant_apps.Prelude.{
  ℕ, suc, ◌+◌, ◌≤◌, ◌<◌, ◌≡◌, inl, inr, Text, true, false, Option, ◌==◌, Bool-cases, arith,
}
use home_assistant_apps.Syslog.Storage.Writer.{Meets, Sink, open_base, rotate_if_needed}
use home_assistant_apps.Syslog.Storage.Writer.Kept.{Ends, and_then-Ends, Kept-later}
use home_assistant_apps.Syslog.Storage.Writer.Day.{
  Ready, Closing, Good, Done, close_handle-Ends, archive_base-Ends, prune-Ends, open_base-Ends,
}

module _ (first : ℕ) (t : Option Text) where
  pub Good-later : (a b : ℕ) (s : Sink) → a ≤ b → Good first a t s → Good first b t s
  unfolding Good
  Good-later a b s le (inl r) = inl (record {
    after_first = r.after_first;
    in_past = omega (arith, le, r.in_past);
    kept = r.kept;
  })
  Good-later a b s le (inr c) = inr (record {
    after_first = c.after_first;
    in_past = omega (arith, le, c.in_past);
    closed = c.closed;
    kept = c.kept;
    new = c.new;
  })

  is_today :
      (today : ℕ) (s : Sink)
      → (today == s.open_date) ≡ true
      → Good first today t s
      → Ready first today t s
  unfolding Good
  is_today today s same (inl r) = r
  is_today today s same (inr c) = absurd (ground (arith, same, c.in_past))

  is_past :
      (today : ℕ) (s : Sink)
      → (today == s.open_date) ≡ false
      → Good first today t s
      → s.open_date < today
  unfolding Good
  is_past today s other (inl r) = ground (arith, other, r.in_past)
  is_past today s other (inr c) = c.in_past

  open-Ends :
      (m : Meets) (s : Sink)
      → first ≤ m.today
      → Done first m.today t s
      → Ends (Good first m.today t) (Ready first m.today t) (open_base m.open_fails m.today s)
  unfolding Good
  open-Ends m s after d =
      open_base-Ends first m.today t (Good first m.today t) m.open_fails m.today s after
        (omega arith) (inr d.closing)
        (Kept-later first (suc s.open_date) m.today t s.dir (omega (arith, d.closing.in_past))
          d.closing.kept)

  pub rotate-Ends :
      (retention_days : ℕ) (m : Meets) (s : Sink)
      → m.day_at_prune ≤ first + retention_days
      → Good first m.today t s
      → Ends (Good first m.today t) (Ready first m.today t) (rotate_if_needed retention_days m s)
  unfolding rotate_if_needed Ends
  rotate-Ends r m s within g = elim (Bool-cases (m.today == s.open_date)) [
    | inl same ↦ rw (same, rotate_if_needed) (is_today m.today s same g)
    | inr other ↦
        rw (other, rotate_if_needed)
          (and_then-Ends (Good first m.today t) (Closing first m.today t) (Ready first m.today t) _
            _ (close_handle-Ends first m.today t m s (is_past m.today s other g) g)
            (λ s1 c1.
              and_then-Ends (Good first m.today t) (Done first m.today t) (Ready first m.today t) _
                _ (archive_base-Ends first m.today t m.daily_run s1 c1)
                (λ s2 d2.
                  and_then-Ends (Good first m.today t) (Done first m.today t)
                    (Ready first m.today t) _ _ (prune-Ends first m.today t m r s2 within d2)
                    (λ s3 d3.
                      open-Ends m s3 (omega (arith, d3.closing.after_first, d3.closing.in_past))
                        d3))))
  ]
