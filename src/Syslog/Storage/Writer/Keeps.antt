-- ===== src/Syslog/Storage/Writer/Keeps.antt =====
-- The lines that writes of writer.py keep.
use home_assistant_apps.Prelude.{
  ℕ, ◌+◌, ◌≤◌, ◌&&◌, ◌≡◌, refl, ap, ◌⊎◌, inl, inr, List, [], ◌∷◌, ◌++◌, Text, Bool, true, false,
  Option, none, some, leb, if◌then◌else◌, if_rule, arith,
}
use home_assistant_apps.Syslog.Storage.Files.{
  archive, base, daily, Content, lines, gzipped, truncated, get, name_eq,
}
use home_assistant_apps.Syslog.Storage.Files.Laws.{get-put}
use home_assistant_apps.Syslog.Storage.Space.{Volume, Limits}
use home_assistant_apps.Syslog.Storage.Writer.{
  Append, appended, fails, append_line, reopen, write, write_all, Meets, Sink, Outcome, extended,
  append_to_base,
}
use home_assistant_apps.Syslog.Storage.Writer.Stored.{Has, Holds, Has-append_last, Stored}
use home_assistant_apps.Syslog.Storage.Writer.Kept.{
  Held, is_text, Ends, and_then-Ends, Ends-imp, Kept-extended, Kept-later,
}
use home_assistant_apps.Syslog.Storage.Writer.Day.{Ready, Good, open_base-Ends}
use home_assistant_apps.Syslog.Storage.Writer.Rotate.{Good-later, rotate-Ends}
use home_assistant_apps.Syslog.Storage.Writer.Roll.{rotate_by_size-Ends}

-- What two lines' records have, each.
Ends-both :
    (P P' Q Q' : Sink → Type 0) (o : Outcome)
    → Ends P Q o
    → Ends P' Q' o
    → Ends P (λ s. Q s × Q' s) o
unfolding Ends
Ends-both P P' Q Q' (true, s) e e' = e
Ends-both P P' Q Q' (false, s) e e' = (e, e')

Ready-append :
    (first clock : ℕ) (t : Option Text) (new : List Text) (s : Sink)
    → Ready first clock t s
    → Ready first clock t (append_to_base new s)
Ready-append first clock t new s r = record {
  after_first = r.after_first;
  in_past = r.in_past;
  kept = Kept-extended first s.open_date t new s.dir r.kept;
}

-- A line that has been appended is stored.
Ready-appended :
    (first clock : ℕ) (t : Option Text) (line : Text) (pending : List Text) (s : Sink)
    → Ready first clock t s
    → Ready first clock (some line) (append_to_base (pending ++ line ∷ []) s)
unfolding name_eq Holds Has Held
Ready-appended first clock t line pending s r =
    let more = Ready-append first clock t (pending ++ line ∷ []) s r in
    record {
      after_first = r.after_first;
      in_past = r.in_past;
      kept = record {
        text = more.kept.text;
        days_free = more.kept.days_free;
        stored = record {
          file = base;
          content = extended (get base s.dir) (pending ++ line ∷ []);
          since = refl;
          there = rw get-put refl;
          holds = at_end (get base s.dir) r.kept.text;
        };
      };
    }
  where
    at_end :
        (o : Option Content) → is_text o ≡ true → Holds line (extended o (pending ++ line ∷ []))
    at_end none h = Has-append_last line [] pending
    at_end (some (lines ls)) h = Has-append_last line ls pending
    at_end (some (gzipped c)) h = cc
    at_end (some truncated) h = cc

Ready-later :
    (first a b : ℕ) (t : Option Text) (s : Sink) → a ≤ b → Ready first a t s → Ready first b t s
Ready-later first a b t s le r = record {
  after_first = r.after_first;
  in_past = omega (arith, le, r.in_past);
  kept = r.kept;
}

reopen-Ends :
    (v : Volume) (limits : Limits) (max_segment_mb retention_days fuel first : ℕ) (t : Option Text)
    (m : Meets) (s : Sink)
    → m.today ≤ m.day_at_open
    → first ≤ m.today
    → Ready first m.today t s
    → Ends
        (Ready first m.day_at_open t)
        (Ready first m.day_at_open t)
        (reopen v limits max_segment_mb retention_days fuel m s)
unfolding reopen Ends
reopen-Ends v limits mb rd fuel first t m s le after r =
    let later = Ready-later first m.today m.day_at_open t s le r in
    if_rule (Ends (Ready first m.day_at_open t) (Ready first m.day_at_open t)) s.is_open _ _
      (λ o. later)
      (λ shut.
        open_base-Ends first m.day_at_open t (Ready first m.day_at_open t) m.reopen_fails
          m.day_at_open s (omega (arith, after, le)) (omega arith) later
          (Kept-later first s.open_date m.day_at_open t s.dir (omega (arith, later.in_past))
            r.kept))

append-Ends :
    (first clock : ℕ) (t : Option Text) (line : Text) (a : Append) (s : Sink)
    → Ready first clock t s
    → Ends
        (Ready first clock t)
        (λ s'. Ready first clock t s' × Ready first clock (some line) s')
        (append_line a line s)
unfolding Ends
append-Ends first clock t line (appended pending) s r = (
  Ready-append first clock t (pending ++ line ∷ []) s r,
  Ready-appended first clock t line pending s r,
)
append-Ends first clock t line (fails part) s r = Ready-append first clock t part s r

module _ (v : Volume) (limits : Limits) (max_segment_mb retention_days fuel : ℕ)
    (no_min : limits.min_free_percent ≡ 0) (no_max : limits.max_log_percent ≡ 0) (first : ℕ) where
  -- A write keeps a line, and the line of a write that returns.
  pub write-Ends :
      (m : Meets) (t : Option Text) (line : Text) (s : Sink)
      → m.today ≤ m.day_at_prune
      → m.day_at_prune ≤ m.day_at_open
      → m.day_at_open ≤ first + retention_days
      → Good first m.today t s
      → Ends
          (Good first m.day_at_open t)
          (λ s'. Good first m.day_at_open t s' × Good first m.day_at_open (some line) s')
          (write v limits max_segment_mb retention_days fuel m line s)
  unfolding write Good
  write-Ends m t line s to_prune to_open within g =
      let le : m.today ≤ m.day_at_open = omega (arith, to_prune, to_open) in
      and_then-Ends (Good first m.day_at_open t) (Ready first m.today t) _ _ _
        (Ends-imp _ _ _ _ _ (λ s' g'. Good-later first t m.today m.day_at_open s' le g')
          (λ s' r'. r') (rotate-Ends first t retention_days m s (omega (arith, to_open, within)) g))
        (λ s1 r1.
          and_then-Ends (Good first m.day_at_open t) (Ready first m.day_at_open t) _ _ _
            (Ends-imp _ _ _ _ _ (λ s' r'. inl r') (λ s' r'. r')
              (reopen-Ends v limits max_segment_mb retention_days fuel first t m s1 le
                (omega (arith, r1.after_first, r1.in_past)) r1))
            (λ s2 r2.
              and_then-Ends (Good first m.day_at_open t)
                (λ s'. Ready first m.day_at_open t s' × Ready first m.day_at_open (some line) s') _
                _ _
                (Ends-imp _ _ _ _ _ (λ s' r'. inl r') (λ s' r'. r')
                  (append-Ends first m.day_at_open t line m.append s2 r2))
                (λ s3 rs.
                  Ends-imp _ _ _ _ _ (λ s' r'. inl r') (λ s' rs'. (inl rs'.0, inl rs'.1))
                    (Ends-both _ _ _ _ _
                      (rotate_by_size-Ends v limits max_segment_mb retention_days fuel no_min no_max
                        first m.day_at_open t m s3 rs.0)
                      (rotate_by_size-Ends v limits max_segment_mb retention_days fuel no_min no_max
                        first m.day_at_open (some line) m s3 rs.1)))))

-- Readings of the clock that do not go back and do not exceed a day.
unfoldable pub is_in_order : ℕ → ℕ → List (Meets × Text) → Bool
is_in_order limit clock [] = true
is_in_order limit clock ((m, line) ∷ calls) =
    leb clock m.today
    && (leb m.today m.day_at_prune
        && (leb m.day_at_prune m.day_at_open
            && (leb m.day_at_open limit && is_in_order limit m.day_at_open calls)))

module _ (v : Volume) (limits : Limits) (max_segment_mb retention_days fuel : ℕ)
    (no_min : limits.min_free_percent ≡ 0) (no_max : limits.max_log_percent ≡ 0) (first : ℕ) where
  Held-Stored :
      (clock : ℕ) (held : Option Text) (t : Text) (s : Sink)
      → held ≡ some t
      → Good first clock held s
      → Stored first t s.dir
  unfolding Good Held
  Held-Stored clock none t s e g = cc
  Held-Stored clock (some t') t s e (inl r) = let same : t' ≡ t = cc in rw⁻¹ same r.kept.stored
  Held-Stored clock (some t') t s e (inr c) = let same : t' ≡ t = cc in rw⁻¹ same c.kept.stored

  -- A call before others.
  write_step :
      (clock : ℕ) (held : Option Text) (t line : Text) (o : Outcome)
      (rest : Sink → List Text × Sink)
      → ((held : Option Text) (s : Sink)
          → Good first clock held s
          → (held ≡ some t) ⊎ Has t (rest s).0
          → Stored first t (rest s).1.dir)
      → Ends
          (Good first clock held)
          (λ s. Good first clock held s × Good first clock (some line) s)
          o
      → (held ≡ some t) ⊎ Has t (if o.0 then (rest o.1).0 else line ∷ (rest o.1).0)
      → Stored first t (rest o.1).1.dir
  unfolding Ends Has
  write_step clock held t line (true, s) rest ih g h = ih held s g h
  write_step clock held t line (false, s) rest ih (g, g') (inl e) = ih held s g (inl e)
  write_step clock held t line (false, s) rest ih (g, g') (inr (inl e)) =
      ih (some line) s g' (inl (ap some e))
  write_step clock held t line (false, s) rest ih (g, g') (inr (inr h)) = ih held s g (inr h)

  write_all-Held :
      (calls : List (Meets × Text)) (clock : ℕ) (held : Option Text) (t : Text) (s : Sink)
      → is_in_order (first + retention_days) clock calls ≡ true
      → Good first clock held s
      → (held ≡ some t) ⊎ Has t (write_all v limits max_segment_mb retention_days fuel calls s).0
      → Stored first t (write_all v limits max_segment_mb retention_days fuel calls s).1.dir
  unfolding write_all is_in_order Has
  write_all-Held [] clock held t s ordered g (inl e) = Held-Stored clock held t s e g
  write_all-Held [] clock held t s ordered g (inr h) = absurd h
  write_all-Held ((m, line) ∷ calls) clock held t s ordered g h =
      let clock_le : clock ≤ m.today = ground (arith, ordered) in
      let today_le : m.today ≤ m.day_at_prune = ground (arith, ordered) in
      let prune_le : m.day_at_prune ≤ m.day_at_open = ground (arith, ordered) in
      let within : m.day_at_open ≤ first + retention_days = ground (arith, ordered) in
      let later : is_in_order (first + retention_days) m.day_at_open calls ≡ true =
        ground (arith, ordered) in
      write_step m.day_at_open held t line
        (write v limits max_segment_mb retention_days fuel m line s)
        (write_all v limits max_segment_mb retention_days fuel calls)
        (λ held s' g' h'. write_all-Held calls m.day_at_open held t s' later g' h')
        (write-Ends v limits max_segment_mb retention_days fuel no_min no_max first m held line s
          today_le prune_le within (Good-later first held clock m.today s clock_le g))
        h

  -- Where the space guard is off and a writer starts, no earlier than a first day, with a base file
  -- that is text or not there and without a daily archive of its day or a later one: after any calls
  -- of `write` whose readings of the clock neither go back nor exceed the first day by more than the
  -- retention, however their system calls end, each line that an archive since the first day or the
  -- base held at the start, and the line of each call that returned, is in the base or in an archive
  -- since the first day.
  pub write_all-Stored :
      (calls : List (Meets × Text)) (t : Text) (s : Sink)
      → first ≤ s.open_date
      → is_text (get base s.dir) ≡ true
      → ((d : ℕ) → s.open_date ≤ d → get (daily archive d) s.dir ≡ none)
      → is_in_order (first + retention_days) s.open_date calls ≡ true
      → Stored first t s.dir
        ⊎ Has t (write_all v limits max_segment_mb retention_days fuel calls s).0
      → Stored first t (write_all v limits max_segment_mb retention_days fuel calls s).1.dir
  unfolding Good Held
  write_all-Stored calls t s after text free ordered (inl here) =
      write_all-Held calls s.open_date (some t) t s ordered
        (inl (record {
          after_first = after;
          in_past = omega arith;
          kept = record { text = text; days_free = free; stored = here };
        }))
        (inl refl)
  write_all-Stored calls t s after text free ordered (inr acknowledged) =
      write_all-Held calls s.open_date none t s ordered
        (inl (record {
          after_first = after;
          in_past = omega arith;
          kept = record { text = text; days_free = free; stored = tt };
        }))
        (inr acknowledged)
