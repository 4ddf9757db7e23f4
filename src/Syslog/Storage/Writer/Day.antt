-- ===== src/Syslog/Storage/Writer/Day.antt =====
-- The change of the day in writer.py, and the lines that the directory keeps over it.
use home_assistant_apps.Prelude.{
  ℕ, suc, ◌+◌, ◌≤◌, ◌<◌, ◌≡◌, refl, ◌∙◌, ap, ◌⊎◌, inl, inr, List, Text, Bool, true, false, Option,
  none, some, ◌==◌, Bool-cases, Option-cases, arith,
}
use home_assistant_apps.Syslog.Storage.Files.{
  partial, archive, FileName, base, daily, Content, gzipped, Dir, get, exists, name_eq,
}
use home_assistant_apps.Syslog.Storage.Files.Laws.{name_eq_refl, get-remove}
use home_assistant_apps.Syslog.Storage.Gzip.{
  GzipRun, completes, before_write, in_write, before_replace, before_unlink, after_unlink,
  is_stopped, gzip_steps, atomic_gzip, compress,
}
use home_assistant_apps.Syslog.Storage.Gzip.Crash.{AreApart}
use home_assistant_apps.Syslog.Storage.Writer.{
  Meets, Sink, with_dir, open_base, prune_names, close_handle, archive_base,
}
use home_assistant_apps.Syslog.Storage.Writer.Stored.{is_since}
use home_assistant_apps.Syslog.Storage.Writer.Archiving.{gzip_steps_source}
use home_assistant_apps.Syslog.Storage.Writer.Pruning.{get-prune_names, Stored-prune_names}
use home_assistant_apps.Syslog.Storage.Writer.Kept.{
  Held-imp, is_text, Ends, Kept, Kept-extended, Kept-with_base, Kept-gzip, IsNew,
}

module _ (first clock : ℕ) (t : Option Text) where
  -- A writer that can append to its base file.
  pub record Ready (s : Sink) : Type 0 where
    pub after_first : first ≤ s.open_date
    pub in_past : s.open_date ≤ clock
    pub kept : Kept first s.open_date t s.dir

  -- A writer whose day is over and whose handle is closed.
  pub record Closing (s : Sink) : Type 0 where
    pub after_first : first ≤ s.open_date
    pub in_past : s.open_date < clock
    pub closed : s.is_open ≡ false
    pub kept : Kept first (suc s.open_date) t s.dir
    pub new : IsNew s.open_date s.dir

  unfoldable pub Good : Sink → Type 0
  Good s = Ready s ⊎ Closing s

  pub record Done (s : Sink) : Type 0 where
    pub closing : Closing s
    pub gone : get base s.dir ≡ none

  Ready-Closing : (s : Sink) → Closing s → get (daily archive s.open_date) s.dir ≡ none → Ready s
  Ready-Closing s c free = record {
    after_first = c.after_first;
    in_past = omega (arith, c.in_past);
    kept = record {
      text = c.kept.text;
      days_free = λ d le. elim (Bool-cases (s.open_date == d)) [
        | inl same ↦ let e : s.open_date ≡ d = ground (arith, same) in rw⁻¹ e free
        | inr other ↦ c.kept.days_free d (ground (arith, le, other))
      ];
      stored = c.kept.stored;
    };
  }

  Ready→Closing :
      (s : Sink)
      → first ≤ s.open_date
      → s.open_date < clock
      → s.is_open ≡ false
      → Kept first s.open_date t s.dir
      → Closing s
  unfolding IsNew
  Ready→Closing s after past shut k = record {
    after_first = after;
    in_past = past;
    closed = shut;
    kept = record {
      text = k.text;
      days_free = λ d le. k.days_free d (omega (arith, le));
      stored = k.stored;
    };
    new = inl (k.days_free s.open_date (omega arith));
  }

  pub close_handle-Ends :
      (m : Meets) (s : Sink) → s.open_date < clock → Good s → Ends Good Closing (close_handle m s)
  unfolding Ends Good
  close_handle-Ends m s past (inr c) = rw (c.closed, close_handle) c
  close_handle-Ends m s past (inl r) =
      let more = Kept-extended first s.open_date t m.close_leaves s.dir r.kept in
      elim (Bool-cases s.is_open) [
        | inr shut ↦ rw (shut, close_handle) (Ready→Closing s r.after_first past shut r.kept)
        | inl is_open ↦ elim (Bool-cases m.close_fails) [
          | inl failed ↦
              rw (is_open, failed, close_handle)
                (inl (record { after_first = r.after_first; in_past = r.in_past; kept = more }))
          | inr closes ↦
              rw (is_open, closes, close_handle) (Ready→Closing _ r.after_first past refl more)
        ]
      ]

  day-AreApart : (d : ℕ) → AreApart base (daily partial d) (daily archive d)
  unfolding name_eq
  day-AreApart d = record { source_tmp = refl; source_final = refl; tmp_final = refl }

  new_archive :
      (day : ℕ) (c : Content) (dir : Dir)
      → get base dir ≡ some c
      → IsNew day dir
      → (get (daily archive day) dir ≡ none) ⊎ (get (daily archive day) dir ≡ some (gzipped c))
  unfolding IsNew
  new_archive day c dir here (inl e) = inl e
  new_archive day c dir here (inr (inl e)) = cc
  new_archive day c dir here (inr (inr (c', here', there))) =
      inr (let same : c' ≡ c = cc in rw⁻¹ same there)

  after_gzip :
      (day : ℕ) (c : Content) (dir : Dir)
      → (get base dir ≡ none)
        ⊎ ((get base dir ≡ some c)
            × ((get (daily archive day) dir ≡ none)
                ⊎ (get (daily archive day) dir ≡ some (gzipped c))))
      → IsNew day dir
  unfolding IsNew
  after_gzip day c dir (inl gone) = inr (inl gone)
  after_gzip day c dir (inr (here, inl free)) = inl free
  after_gzip day c dir (inr (here, inr same)) = inr (inr (c, here, same))

  Closing-gzip :
      (run : GzipRun) (c : Content) (s : Sink)
      → get base s.dir ≡ some c
      → Closing s
      → Closing (record s {
        dir = gzip_steps run base (daily partial s.open_date) (daily archive s.open_date) c s.dir;
      })
  unfolding name_eq
  Closing-gzip run c s here k =
      let day = s.open_date in
      let new = new_archive day c s.dir here k.new in
      let apart = day-AreApart day in
      let since : is_since first (daily archive day) ≡ true = ground (arith, k.after_first) in
      record {
        after_first = k.after_first;
        in_past = k.in_past;
        closed = k.closed;
        kept =
            Kept-gzip first (suc day) t run (daily partial day) (daily archive day) c s.dir apart
              refl since (λ d le. refl) (λ d le. ground (arith, le)) here new k.kept;
        new = after_gzip day c _ (
            gzip_steps_source first base (daily partial day) (daily archive day) c s.dir apart refl
              since here new run);
      }

  Closing→Good : (s : Sink) → Closing s → Good s
  unfolding Good
  Closing→Good s k = inr k

  gzip-Ends :
      (run : GzipRun) (c : Content) (s : Sink)
      → get base s.dir ≡ some c
      → Closing s
      → Ends Good Done (
        is_stopped run,
        record s {
          dir = gzip_steps run base (daily partial s.open_date) (daily archive s.open_date) c s.dir;
        },
      )
  unfolding Ends Good gzip_steps
  gzip-Ends completes c s here k = record {
    closing = Closing-gzip completes c s here k;
    gone = gone;
  }
    where
      gone :
          get base (
            gzip_steps completes base
              (daily partial s.open_date)
              (daily archive s.open_date)
              c
              s.dir)
          ≡ none
      gone = rw (gzip_steps, get-remove, name_eq_refl) refl
  gzip-Ends before_write c s here k = inr (Closing-gzip before_write c s here k)
  gzip-Ends in_write c s here k = inr (Closing-gzip in_write c s here k)
  gzip-Ends before_replace c s here k = inr (Closing-gzip before_replace c s here k)
  gzip-Ends before_unlink c s here k = inr (Closing-gzip before_unlink c s here k)
  gzip-Ends after_unlink c s here k = inr (Closing-gzip after_unlink c s here k)

  pub archive_base-Ends :
      (run : GzipRun) (s : Sink) → Closing s → Ends Good Done (archive_base run s)
  unfolding archive_base compress atomic_gzip Ends
  archive_base-Ends run s k = elim (Option-cases (get base s.dir)) [
    | inl gone ↦ rw (gone, archive_base, exists) (record { closing = k; gone = gone })
    | inr (c, here) ↦
        rw (here, archive_base, exists, compress, atomic_gzip) (gzip-Ends run c s here k)
  ]

  -- Pruning keeps what the change of the day needs, if the day is within the retention of the first.
  pub Kept-prune_names :
      (retention_days today day : ℕ) (unlink_fails : FileName → Bool) (names : List FileName)
      (dir : Dir)
      → today ≤ first + retention_days
      → Kept first day t dir
      → Kept first day t (prune_names retention_days today unlink_fails names dir).1
  Kept-prune_names r today day unlink_fails names dir within k = record {
    text = elim (get-prune_names r today unlink_fails names base dir) [
      | inl same ↦ ap is_text same ∙ k.text
      | inr (gone, beyond) ↦ cc
    ];
    days_free = λ d le. elim (get-prune_names r today unlink_fails names (daily archive d) dir) [
      | inl same ↦ same ∙ k.days_free d le
      | inr (gone, beyond) ↦ gone
    ];
    stored =
        Held-imp first t dir _
          (λ t s. Stored-prune_names first r today t unlink_fails names dir within s) k.stored;
  }

  prune-Done :
      (retention_days today : ℕ) (unlink_fails : FileName → Bool) (names : List FileName) (s : Sink)
      → today ≤ first + retention_days
      → Done s
      → Done (record s { dir = (prune_names retention_days today unlink_fails names s.dir).1 })
  unfolding IsNew
  prune-Done r today unlink_fails names s within d =
      let gone =
        elim (get-prune_names r today unlink_fails names base s.dir)
          as (λ x. get base (prune_names r today unlink_fails names s.dir).1 ≡ none) [
            | inl same ↦ same ∙ d.gone
            | inr (gone, beyond) ↦ gone
          ] in
      record {
        closing = record {
          after_first = d.closing.after_first;
          in_past = d.closing.in_past;
          closed = d.closing.closed;
          kept =
              Kept-prune_names r today (suc s.open_date) unlink_fails names s.dir within
                d.closing.kept;
          new = inr (inl gone);
        };
        gone = gone;
      }

  pub prune-Ends :
      (m : Meets) (retention_days : ℕ) (s : Sink)
      → m.day_at_prune ≤ first + retention_days
      → Done s
      → Ends Good Done
          (with_dir s (prune_names retention_days m.day_at_prune m.unlink_fails m.names s.dir))
  unfolding Ends Good
  prune-Ends m r s within d = ends _ (prune-Done r m.day_at_prune m.unlink_fails m.names s within d)
    where
      ends : (p : Bool × Dir) → Done (record s { dir = p.1 }) → Ends Good Done (with_dir s p)
      ends (true, dir) k = inr k.closing
      ends (false, dir) k = k

-- Opening the base for a day that no archive is of.
pub open_base-Ends :
    (first clock : ℕ) (t : Option Text) (P : Sink → Type 0) (raises : Bool) (day : ℕ) (s : Sink)
    → first ≤ day
    → day ≤ clock
    → P s
    → Kept first day t s.dir
    → Ends P (Ready first clock t) (open_base raises day s)
unfolding Ends open_base
open_base-Ends first clock t P true day s after past p k = p
open_base-Ends first clock t P false day s after past p k = record {
  after_first = after;
  in_past = past;
  kept = Kept-with_base first day t s.dir k;
}
