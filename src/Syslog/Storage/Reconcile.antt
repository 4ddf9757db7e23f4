-- ===== src/Syslog/Storage/Reconcile.antt =====
-- The startup reconciliation of py-syslog/pysyslog/writer.py. How each gzip run ends, and whether an
-- unlink of a file that is there succeeds, are parameters.
pub mod Restart
pub mod Order
pub mod Start
pub mod Listing
pub mod Recovery
use home_assistant_apps.Prelude.{
  ℕ, List, [], ◌∷◌, Bool, true, false, not, ◌||◌, Option, none, some, ltb, if◌then◌else◌,
}
use home_assistant_apps.Syslog.Storage.Files.{
  source, partial, archive, FileName, base, daily, segment, Dir, get, exists, remove,
}
use home_assistant_apps.Syslog.Storage.Gzip.{GzipRun, compress, compress_segment}

pub record Faults : Type 0 where
  pub run : FileName → GzipRun
  pub unlink_fails : FileName → Bool

module _ (faults : Faults) where
  -- `child.unlink()`: it raises for a file that is not there.
  pub unlink : FileName → Dir → Bool × Dir
  unlink f dir =
      if not (exists f dir) || faults.unlink_fails f then (true, dir) else (false, remove f dir)

  -- The body of the loop of `_reconcile_orphans`: whether it raised, and the directory.
  pub reconcile_orphan : FileName → Dir → Bool × Dir
  unfolding unlink
  reconcile_orphan (segment partial day seq) dir = unlink (segment partial day seq) dir
  reconcile_orphan (daily partial day) dir = unlink (daily partial day) dir
  reconcile_orphan (segment source day seq) dir =
      let f = segment source day seq in
      if exists (segment archive day seq) dir
      then unlink f dir
      else compress_segment (faults.run f) f day seq dir
  reconcile_orphan (daily source day) dir =
      let f = daily source day in
      if exists (daily archive day) dir then unlink f dir else compress (faults.run f) f day dir
  reconcile_orphan _ dir = (false, dir)

  -- The loop, over the sorted names that the directory had at its start.
  pub reconcile_orphans : List FileName → Dir → Bool × Dir
  reconcile_orphans [] dir = (false, dir)
  reconcile_orphans (f ∷ names) dir =
      let (raised, dir') = reconcile_orphan f dir in
      elim raised [ true ↦ (true, dir') | false ↦ reconcile_orphans names dir' ]

  -- A base file is rotated if its time of change lies on a day before today.
  unfoldable pub reconcile_stale_base : ℕ → ℕ → Dir → Bool × Dir
  reconcile_stale_base mtime_day today dir =
      if exists base dir
      then (if ltb mtime_day today
          then compress (faults.run base) base mtime_day dir
          else (false, dir))
      else (false, dir)
