-- ===== src/Syslog/Storage/Reconcile/Start.antt =====
-- The start of the writer of py-syslog/pysyslog/writer.py.
use home_assistant_apps.Prelude.{ℕ, List, [], Bool, false}
use home_assistant_apps.Syslog.Storage.Files.{FileName, Dir}
use home_assistant_apps.Syslog.Storage.Writer.{
  Sink, Outcome, and_then, with_dir, open_base, prune_names,
}
use home_assistant_apps.Syslog.Storage.Reconcile.{Faults, reconcile_orphans, reconcile_stale_base}

-- What `__init__` meets, with its readings of the clock.
pub record Startup : Type 0 where
  pub faults : Faults
  pub open_date : ℕ
  pub mtime_day : ℕ  -- the day of the base file's time of change
  pub today : ℕ
  pub orphan_names : List FileName  -- the names that `_reconcile_orphans` finds
  pub day_at_prune : ℕ
  pub archive_names : List FileName  -- the names that `_prune` finds
  pub unlink_fails : FileName → Bool
  pub open_fails : Bool

abbrev pub unopened : ℕ → Dir → Sink
unopened day dir = record {
  dir = dir;
  open_date = day;
  is_open = false;
  size_rotations = 0;
  seq_overflows = 0;
  space_prunes = 0;
  bytes_reclaimed = 0;
  warnings = [];
}

-- `__init__`, behind the creation of the directory.
unfoldable pub start : ℕ → Startup → Dir → Outcome
unfolding reconcile_stale_base reconcile_orphans prune_names open_base
start retention_days m dir =
    and_then
      (with_dir (unopened m.open_date dir) (reconcile_stale_base m.faults m.mtime_day m.today dir))
      (λ s1. and_then (with_dir s1 (reconcile_orphans m.faults m.orphan_names s1.dir)) (λ s2.
        and_then
          (with_dir s2
            (prune_names retention_days m.day_at_prune m.unlink_fails m.archive_names s2.dir))
          (open_base m.open_fails m.open_date)))
