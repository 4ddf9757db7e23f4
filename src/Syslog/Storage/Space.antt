-- ===== src/Syslog/Storage/Space.antt =====
-- The size guard of py-syslog/pysyslog/writer.py. The volume's total and free bytes, the sizes of
-- files, and which calls of the system fail are parameters.
pub mod Steps
pub mod Ring
pub mod Budget
use home_assistant_apps.Prelude.{
  ℕ, zero, suc, ◌+◌, ◌*◌, ◌/◌, List, [], ◌∷◌, Bool, true, false, ◌&&◌, ◌||◌, Option, none, some,
  ltb, ◌==◌, if◌then◌else◌,
}
use home_assistant_apps.Syslog.Storage.Files.{FileName, Content, Dir, get, remove}
use home_assistant_apps.Syslog.Storage.Archives.{Key, oldest_prunable}

-- How `stat`, `unlink` and the `fsync` of the directory end: all done, or an `OSError` before or
-- after the file is gone.
pub data Unlink : Type 0 where
  unlinked fails_before fails_after : Unlink

pub record Volume : Type 0 where
  pub stats : Dir → Option (ℕ × ℕ)  -- total and free bytes, or an `OSError`
  pub size : Content → ℕ
  pub scan_fails : Dir → Bool
  pub unlink : FileName → Dir → Unlink

pub record Limits : Type 0 where
  pub min_free_percent : ℕ
  pub max_log_percent : ℕ

-- The key of a warning, and how the guard ended.
pub data Warning : Type 0 where
  statvfs scandir space_exhausted unlink_error pruned : Warning

pub record Guard : Type 0 where
  pub dir : Dir
  pub space_prunes : ℕ
  pub bytes_reclaimed : ℕ
  pub warnings : List Warning

-- `out_of_fuel` is no end of the source's loop.
pub data End : Type 0 where
  disabled within_budget not_measured exhausted not_unlinked out_of_fuel : End

abbrev pub warn : Warning → Guard → Guard
warn w g = record g { warnings = w ∷ g.warnings }

module _ (v : Volume) (limits : Limits) where
  unfoldable pub log_dir_bytes : Dir → ℕ
  log_dir_bytes [] = 0
  log_dir_bytes ((f, c) ∷ dir) = v.size c + log_dir_bytes dir

  -- `need_free or over_cap`.
  abbrev pub is_over : ℕ → ℕ → ℕ → Bool
  is_over total free logsz =
      (ltb 0 limits.min_free_percent && ltb free (total * limits.min_free_percent / 100))
      || (ltb 0 limits.max_log_percent && ltb (total * limits.max_log_percent / 100) logsz)

  -- The size that `victim.stat()` finds.
  abbrev size_at : Option Content → ℕ
  size_at none = 0
  size_at (some c) = v.size c

  -- The end of an iteration that prunes.
  unfoldable pub prune_victim : FileName → Guard → Guard
  prune_victim f g = record g {
    dir = remove f g.dir;
    space_prunes = g.space_prunes + 1;
    bytes_reclaimed = g.bytes_reclaimed + size_at (get f g.dir);
    warnings = pruned ∷ g.warnings;
  }

  -- The measurement at the head of an iteration: whether the budget holds, or an `OSError`.
  unfoldable pub measure : ℕ → Dir → Option Bool
  unfolding log_dir_bytes
  measure total dir = elim (v.stats dir) [
    | none ↦ none
    | some (total', free) ↦
        if v.scan_fails dir then none else some (is_over total free (log_dir_bytes dir))
  ]

  -- `while True`, with fuel.
  unfoldable pub space_loop : ℕ → ℕ → Guard → End × Guard
  unfolding prune_victim
  space_loop zero total g = (out_of_fuel, g)
  space_loop (suc fuel) total g = elim (measure total g.dir) [
    | none ↦ (not_measured, warn scandir g)
    | some over ↦ elim over [
      | false ↦ (within_budget, g)
      | true ↦ elim (oldest_prunable g.dir) [
        | none ↦ (exhausted, warn space_exhausted g)
        | some (f, k) ↦ elim (v.unlink f g.dir) [
          | unlinked ↦ space_loop fuel total (prune_victim f g)
          | fails_before ↦ (not_unlinked, warn unlink_error g)
          | fails_after ↦ (not_unlinked, warn unlink_error (record g { dir = remove f g.dir }))
        ]
      ]
    ]
  ]

  unfoldable pub enforce_space : ℕ → Guard → End × Guard
  unfolding space_loop
  enforce_space fuel g =
      if limits.min_free_percent == 0 && limits.max_log_percent == 0
      then (disabled, g)
      else elim (v.stats g.dir) [
        | none ↦ (not_measured, warn statvfs g)
        | some (total, free) ↦ space_loop fuel total g
      ]
