-- ===== src/Syslog/Storage/Gzip.antt =====
-- `_atomic_gzip` of py-syslog/pysyslog/writer.py and the two that call it. Where the run stops, by
-- an `OSError` or by the end of the process, is a parameter.
pub mod Crash
use home_assistant_apps.Prelude.{ℕ, Bool, true, false, Option, none, some}
use home_assistant_apps.Syslog.Storage.Files.{
  partial, archive, FileName, daily, segment, Content, gzipped, truncated, Dir, get, put, remove,
}

-- The run completes, or it stops: before the partial file is there, within the writing of it, before `os.replace`,
-- before the source is unlinked, or behind that.
pub data GzipRun : Type 0 where
  completes before_write in_write before_replace before_unlink after_unlink : GzipRun

-- The directory where a run over the content `c` of `source` stops.
unfoldable pub gzip_steps : GzipRun → FileName → FileName → FileName → Content → Dir → Dir
gzip_steps before_write source tmp final c dir = dir
gzip_steps in_write source tmp final c dir = put tmp truncated dir
gzip_steps before_replace source tmp final c dir = put tmp (gzipped c) dir
gzip_steps before_unlink source tmp final c dir = put final (gzipped c) (remove tmp dir)
gzip_steps after_unlink source tmp final c dir =
    remove source (put final (gzipped c) (remove tmp dir))
gzip_steps completes source tmp final c dir = remove source (put final (gzipped c) (remove tmp dir))

abbrev pub is_stopped : GzipRun → Bool
is_stopped completes = false
is_stopped _ = true

-- Whether it raised, and the directory. A source that is not there fails to open.
unfoldable pub atomic_gzip : GzipRun → FileName → FileName → FileName → Dir → Bool × Dir
unfolding gzip_steps
atomic_gzip run source tmp final dir = elim (get source dir) [
  | none ↦ (true, dir)
  | some c ↦ (is_stopped run, gzip_steps run source tmp final c dir)
]

unfoldable pub compress : GzipRun → FileName → ℕ → Dir → Bool × Dir
unfolding atomic_gzip
compress run source day dir = atomic_gzip run source (daily partial day) (daily archive day) dir

unfoldable pub compress_segment : GzipRun → FileName → ℕ → ℕ → Dir → Bool × Dir
unfolding atomic_gzip
compress_segment run source day seq dir =
    atomic_gzip run source (segment partial day seq) (segment archive day seq) dir
