-- ===== src/Syslog/Storage/Writer/Roll.antt =====
-- The lines that the roll by size in writer.py keeps.
use home_assistant_apps.Prelude.{
  ℕ, ◌+◌, ◌≤◌, ◌*◌, ltb, ◌≡◌, refl, inl, inr, Text, Bool, true, false, Option, none, ◌==◌,
  Option-cases, if_rule, arith,
}
use home_assistant_apps.Syslog.Storage.Files.{partial, archive, base, segment, Dir, get, name_eq}
use home_assistant_apps.Syslog.Storage.Gzip.{GzipRun, atomic_gzip}
use home_assistant_apps.Syslog.Storage.Gzip.Crash.{AreApart}
use home_assistant_apps.Syslog.Storage.Archives.{next_seq}
use home_assistant_apps.Syslog.Storage.Archives.Laws.{get-next_seq}
use home_assistant_apps.Syslog.Storage.Gzip.{compress_segment}
use home_assistant_apps.Syslog.Storage.Space.{Volume, Limits, enforce_space}
use home_assistant_apps.Syslog.Storage.Writer.{
  guarded, roll, rotate_by_size_if_needed, base_size, Meets, Sink, with_dir,
}
use home_assistant_apps.Syslog.Storage.Writer.Kept.{Ends, and_then-Ends, Kept, Kept-gzip}
use home_assistant_apps.Syslog.Storage.Writer.Day.{Ready, open_base-Ends}

segment-AreApart : (d n : ℕ) → AreApart base (segment partial d n) (segment archive d n)
unfolding name_eq
segment-AreApart d n = record { source_tmp = refl; source_final = refl; tmp_final = refl }

Ready-closed :
    (first clock : ℕ) (t : Option Text) (s : Sink) (dir : Dir)
    → Ready first clock t s
    → Kept first s.open_date t dir
    → Ready first clock t (record s { is_open = false; dir = dir })
Ready-closed first clock t s dir r k = record {
  after_first = r.after_first;
  in_past = r.in_past;
  kept = k;
}

-- The gzip of a segment whose number is free.
Kept-segment :
    (first day seq : ℕ) (t : Option Text) (run : GzipRun) (dir : Dir)
    → first ≤ day
    → get (segment archive day seq) dir ≡ none
    → Kept first day t dir
    → Kept first day t (compress_segment run base day seq dir).1
unfolding compress_segment atomic_gzip name_eq
Kept-segment first day seq t run dir after free k = elim (Option-cases (get base dir)) [
  | inl gone ↦ rw (gone, compress_segment, atomic_gzip) k
  | inr (c, here) ↦
      rw (here, compress_segment, atomic_gzip)
        (Kept-gzip first day t run (segment partial day seq) (segment archive day seq) c dir
          (segment-AreApart day seq) refl (ground (arith, after)) (λ d le. refl) (λ d le. refl) here
          (inl free) k)
]

module _ (v : Volume) (limits : Limits) (max_segment_mb retention_days fuel : ℕ)
    (no_min : limits.min_free_percent ≡ 0) (no_max : limits.max_log_percent ≡ 0) (first clock : ℕ)
    (t : Option Text) where
  -- The guard does nothing where both percentages are 0.
  Ready-guarded :
      (s : Sink)
      → Ready first clock t s
      → Ready first clock t (guarded v limits max_segment_mb retention_days fuel s)
  unfolding guarded enforce_space
  Ready-guarded s r = rw (no_min, no_max, guarded, enforce_space) r

  roll-Ends :
      (m : Meets) (seq : ℕ) (s : Sink)
      → get (segment archive s.open_date seq) s.dir ≡ none
      → Ready first clock t s
      → Ends
          (Ready first clock t)
          (Ready first clock t)
          (roll v limits max_segment_mb retention_days fuel m seq s)
  unfolding roll Ends
  roll-Ends m seq s free r =
      let after : first ≤ s.open_date = r.after_first in
      let k = Kept-segment first s.open_date seq t m.segment_run s.dir r.after_first free r.kept in
      if_rule (Ends (Ready first clock t) (Ready first clock t)) m.roll_close_fails _ _
        (λ failed. r)
        (λ closes.
          and_then-Ends (Ready first clock t)
            (λ s1. Ready first clock t s1 × (s1.open_date ≡ s.open_date)) (Ready first clock t) _ _
            (closed_at (compress_segment m.segment_run base s.open_date seq s.dir) k)
            (λ s1 p.
              let open_kept : Kept first s.open_date t s1.dir = rw⁻¹ p.1 p.0.kept in
              and_then-Ends (Ready first clock t) (Ready first clock t) (Ready first clock t) _ _
                (open_base-Ends first clock t (Ready first clock t) m.roll_open_fails s.open_date s1
                  r.after_first r.in_past p.0 open_kept)
                (λ s2 r2.
                  Ready-guarded (record s2 { size_rotations = s2.size_rotations + 1 })
                    (counted s2 r2))))
    where
      closed_at :
          (p : Bool × Dir)
          → Kept first s.open_date t p.1
          → Ends
              (Ready first clock t)
              (λ s1. Ready first clock t s1 × (s1.open_date ≡ s.open_date))
              (with_dir (record s { is_open = false }) p)
      closed_at (true, dir) k = Ready-closed first clock t s dir r k
      closed_at (false, dir) k = (Ready-closed first clock t s dir r k, refl)

      counted :
          (s2 : Sink)
          → Ready first clock t s2
          → Ready first clock t (record s2 { size_rotations = s2.size_rotations + 1 })
      counted s2 r2 = record { after_first = r2.after_first; in_past = r2.in_past; kept = r2.kept }

  pub rotate_by_size-Ends :
      (m : Meets) (s : Sink)
      → Ready first clock t s
      → Ends
          (Ready first clock t)
          (Ready first clock t)
          (rotate_by_size_if_needed v limits max_segment_mb retention_days fuel m s)
  unfolding rotate_by_size_if_needed Ends
  rotate_by_size-Ends m s r =
      if_rule (Ends (Ready first clock t) (Ready first clock t)) (max_segment_mb == 0) _ _
        (λ off. r)
        (λ on.
          if_rule (Ends (Ready first clock t) (Ready first clock t))
            (ltb (base_size v limits max_segment_mb retention_days fuel (get base s.dir))
              (max_segment_mb * 1048576))
            _ _ (λ small. r)
            (λ large.
              if_rule (Ends (Ready first clock t) (Ready first clock t))
                (ltb 999 (next_seq s.open_date s.dir)) _ _
                (λ over. record { after_first = r.after_first; in_past = r.in_past; kept = r.kept })
                (λ fits.
                  roll-Ends m (next_seq s.open_date s.dir) s
                    (get-next_seq s.open_date _ s.dir (omega arith)) r)))
