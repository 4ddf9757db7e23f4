-- ===== src/Syslog/Storage/Space/Budget.antt =====
-- The ends of the size guard of writer.py, and the fuel of its loop.
use home_assistant_apps.Prelude.{
  refl, ◌⊎◌, inl, inr, Option-cases, Bool-cases, true, ℕ, zero, suc, ◌<◌, ◌≤◌, ◌≡◌, [], ◌∷◌, false,
  none, some, length, arith,
}
use home_assistant_apps.Syslog.Storage.Files.{FileName, Content, Dir, remove}
use home_assistant_apps.Syslog.Storage.Files.Laws.{name_eq_refl}
use home_assistant_apps.Syslog.Storage.Archives.{Key, sort_key, earlier, oldest_prunable}
use home_assistant_apps.Syslog.Storage.Space.{
  fails_before, fails_after, is_over, log_dir_bytes, Volume, Limits, Guard, End, disabled,
  within_budget, not_measured, exhausted, not_unlinked, prune_victim, measure, space_loop,
  enforce_space,
}
use home_assistant_apps.Syslog.Storage.Space.Steps.{loop_rule, enforce_rule}

-- What holds at an end of the guard's. `total` is the volume's size at its start.
pub data IsDone (v : Volume) (limits : Limits) (total : ℕ) : End × Guard → Type 0 where
  is_off :
      {g : Guard}
      → limits.min_free_percent ≡ 0
      → limits.max_log_percent ≡ 0
      → IsDone v limits total (disabled, g)
  holds :
      {g : Guard}
      → measure v limits total g.dir ≡ some false
      → IsDone v limits total (within_budget, g)
  nothing_left : {g : Guard} → oldest_prunable g.dir ≡ none → IsDone v limits total (exhausted, g)
  unmeasured :
      {g : Guard}
      → (v.stats g.dir ≡ none) ⊎ (v.scan_fails g.dir ≡ true)
      → IsDone v limits total (not_measured, g)
  not_dropped :
      {g : Guard} {f : FileName} {k : Key}
      → oldest_prunable g.dir ≡ some (f, k)
      → v.unlink f g.dir ≡ fails_before
      → IsDone v limits total (not_unlinked, g)
  half_dropped :
      {g : Guard} {f : FileName} {k : Key} {dir : Dir}
      → oldest_prunable dir ≡ some (f, k)
      → v.unlink f dir ≡ fails_after
      → g.dir ≡ remove f dir
      → IsDone v limits total (not_unlinked, g)

measure-fails :
    (v : Volume) (limits : Limits) (total : ℕ) (dir : Dir)
    → measure v limits total dir ≡ none
    → (v.stats dir ≡ none) ⊎ (v.scan_fails dir ≡ true)
unfolding measure
measure-fails v limits total dir e = elim (Option-cases (v.stats dir)) [
  | inl unknown ↦ inl unknown
  | inr ((total', free), known) ↦ elim (Bool-cases (v.scan_fails dir)) [
    | inl fails ↦ inr fails
    | inr scans ↦
        let there : measure v limits total dir
            ≡ some (is_over v limits total free (log_dir_bytes v limits dir)) =
          rw (known, measure) (rw scans refl) in
        cc
  ]
]

length-remove_le : (f : FileName) (d : Dir) → length (remove f d) ≤ length d
unfolding remove
length-remove_le f [] = omega arith
length-remove_le f ((g, c) ∷ d) = ground (arith, length-remove_le f d)

earlier_step :
    (h f : FileName) (k : Key) (c : Content) (d : Dir)
    → (oldest_prunable d ≡ some (f, k) → length (remove f d) < length d)
    → earlier h (sort_key h) (oldest_prunable d) ≡ some (f, k)
    → length (remove f ((h, c) ∷ d)) < suc (length d)
unfolding earlier remove
earlier_step h f k c d ih e = ground (arith, length-remove_le f d, name_eq_refl f)

remove-oldest :
    (f : FileName) (k : Key) (d : Dir)
    → oldest_prunable d ≡ some (f, k)
    → length (remove f d) < length d
unfolding oldest_prunable
remove-oldest f k [] e = cc
remove-oldest f k ((h, c) ∷ d) e = earlier_step h f k c d (remove-oldest f k d) e

space_loop-IsDone :
    (v : Volume) (limits : Limits) (fuel total : ℕ) (g : Guard)
    → length g.dir < fuel
    → IsDone v limits total (space_loop v limits fuel total g)
unfolding space_loop prune_victim
space_loop-IsDone v limits zero total g h = absurd (omega arith)
space_loop-IsDone v limits (suc fuel) total g h =
    loop_rule v limits (IsDone v limits total) total fuel g
      (λ e. unmeasured (measure-fails v limits total g.dir e)) holds nothing_left
      (λ f k e.
        space_loop-IsDone v limits fuel total (prune_victim v limits f g)
          (omega (arith, remove-oldest f k g.dir e)))
      (λ f k e h. not_dropped e h) (λ f k e h. half_dropped e h refl)

-- If the volume is measured at the start and the fuel is more than the number of files, the guard
-- ends in a proper way: both limits are off; or the directory that it leaves is measured within the
-- limits; or no archive is left; or the volume or the scan of the directory that it leaves cannot be
-- measured; or the unlink of the oldest archive has failed, before or after the file was gone. Its
-- loop never runs out of fuel.
pub enforce_space-IsDone :
    (v : Volume) (limits : Limits) (fuel total free : ℕ) (g : Guard)
    → length g.dir < fuel
    → v.stats g.dir ≡ some (total, free)
    → IsDone v limits total (enforce_space v limits fuel g)
enforce_space-IsDone v limits fuel total free g enough measured =
    enforce_rule v limits fuel g (IsDone v limits total) is_off (λ e. unmeasured (inl e))
      (λ total' free' e.
        let same : total' ≡ total = cc in rw same (space_loop-IsDone v limits fuel total g enough))
