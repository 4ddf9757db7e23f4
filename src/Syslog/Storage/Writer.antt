-- ===== src/Syslog/Storage/Writer.antt =====
-- The active file of py-syslog/pysyslog/writer.py: opening, appending, the change of the day, the roll
-- by size, and `write`. The clock, how each call of the system ends, and the sizes are parameters.
pub mod Stored
pub mod Archiving
pub mod Pruning
pub mod Kept
pub mod Day
pub mod Rotate
pub mod Roll
pub mod Keeps
use home_assistant_apps.Prelude.{
  ℕ, ◌+◌, ◌*◌, List, [], ◌∷◌, ◌++◌, Text, Bool, true, false, not, ◌&&◌, ◌||◌, Option, none, some,
  ltb, ◌==◌, if◌then◌else◌,
}
use home_assistant_apps.Syslog.Storage.Files.{
  archive, FileName, base, daily, segment, Content, lines, gzipped, truncated, Dir, get, put,
  exists, remove,
}
use home_assistant_apps.Syslog.Storage.Gzip.{GzipRun, compress, compress_segment}
use home_assistant_apps.Syslog.Storage.Archives.{sort_key, is_beyond, next_seq}
use home_assistant_apps.Syslog.Storage.Space.{Volume, Limits, Warning, Guard, enforce_space}

-- How `write` and `flush` end. What failed flushes before have left in the buffer comes first; a
-- flush that fails may get some of its text into the file.
pub data Append : Type 0 where
  appended : List Text → Append
  fails : List Text → Append

-- What one call of `write` meets. A handle that has just been flushed has nothing left to flush, so
-- that its close at a roll gets no text into the file.
pub record Meets : Type 0 where
  pub today : ℕ
  pub day_at_prune : ℕ  -- the reading of the clock in `_prune`
  pub day_at_open : ℕ  -- another reading of the clock, where a handle is opened again
  pub close_leaves : List Text  -- what the close of the day's end still gets into the file
  pub close_fails : Bool
  pub daily_run : GzipRun
  pub names : List FileName  -- the names that `_prune` finds
  pub unlink_fails : FileName → Bool
  pub open_fails : Bool
  pub reopen_fails : Bool
  pub append : Append
  pub roll_close_fails : Bool
  pub segment_run : GzipRun
  pub roll_open_fails : Bool

-- The writer: its directory and its handle, which is of the base file.
pub record Sink : Type 0 where
  pub dir : Dir
  pub open_date : ℕ
  pub is_open : Bool
  pub size_rotations : ℕ
  pub seq_overflows : ℕ
  pub space_prunes : ℕ
  pub bytes_reclaimed : ℕ
  pub warnings : List Warning

-- Whether it raised, and the writer.
abbrev pub Outcome : Type 0
Outcome = Bool × Sink

abbrev pub and_then : Outcome → (Sink → Outcome) → Outcome
and_then (true, s) next = (true, s)
and_then (false, s) next = next s

-- The directory in which a file can be appended to.
abbrev pub with_base : Dir → Dir
with_base dir = if exists base dir then dir else put base (lines []) dir

-- `_open`.
unfoldable pub open_base : Bool → ℕ → Sink → Outcome
unfolding get put
open_base raises day s =
    if raises
    then (true, s)
    else (false, record s { dir = with_base s.dir; is_open = true; open_date = day })

-- The loop of `_prune`.
unfoldable pub prune_names : ℕ → ℕ → (FileName → Bool) → List FileName → Dir → Bool × Dir
prune_names retention_days cutoff unlink_fails [] dir = (false, dir)
prune_names retention_days cutoff unlink_fails (f ∷ names) dir =
    elim (is_beyond retention_days cutoff (sort_key f)) [
      | false ↦ prune_names retention_days cutoff unlink_fails names dir
      | true ↦ elim (not (exists f dir) || unlink_fails f) [
        | true ↦ (true, dir)
        | false ↦ prune_names retention_days cutoff unlink_fails names (remove f dir)
      ]
    ]

abbrev pub with_dir : Sink → Bool × Dir → Outcome
with_dir s (raised, dir) = (raised, record s { dir = dir })

-- The base file of a day that is over becomes the archive of the day.
unfoldable pub archive_base : GzipRun → Sink → Outcome
unfolding compress
archive_base run s =
    if exists base s.dir then with_dir s (compress run base s.open_date s.dir) else (false, s)

-- What the base file holds with more lines at its end.
abbrev pub extended : Option Content → List Text → Content
extended none new = lines new
extended (some (lines old)) new = lines (old ++ new)
extended (some (gzipped c)) new = gzipped c
extended (some truncated) new = truncated

abbrev pub append_to_base : List Text → Sink → Sink
append_to_base new s = record s { dir = put base (extended (get base s.dir) new) s.dir }

-- The handle of the day that is over. A close that fails leaves the attribute as it was.
abbrev pub close_handle : Meets → Sink → Outcome
close_handle m s = elim s.is_open [
  | false ↦ (false, s)
  | true ↦ elim m.close_fails [
    | true ↦ (true, append_to_base m.close_leaves s)
    | false ↦ (false, record (append_to_base m.close_leaves s) { is_open = false })
  ]
]

unfoldable pub rotate_if_needed : ℕ → Meets → Sink → Outcome
unfolding archive_base prune_names open_base
rotate_if_needed retention_days m s =
    if m.today == s.open_date
    then (false, s)
    else and_then (close_handle m s) (λ s1. and_then (archive_base m.daily_run s1) (λ s2.
      and_then
        (with_dir s2 (prune_names retention_days m.day_at_prune m.unlink_fails m.names s2.dir))
        (open_base m.open_fails m.today)))

abbrev pub append_line : Append → Text → Sink → Outcome
append_line (appended pending) line s = (false, append_to_base (pending ++ line ∷ []) s)
append_line (fails part) line s = (true, append_to_base part s)

module _ (v : Volume) (limits : Limits) (max_segment_mb retention_days fuel : ℕ) where
  abbrev base_size : Option Content → ℕ
  base_size none = 0
  base_size (some c) = v.size c

  -- The guard over the writer's directory and counters.
  unfoldable pub guarded : Sink → Sink
  guarded s =
      let g =
        (enforce_space v limits fuel (record {
          dir = s.dir;
          space_prunes = s.space_prunes;
          bytes_reclaimed = s.bytes_reclaimed;
          warnings = s.warnings;
        })).1 in
      record s {
        dir = g.dir;
        space_prunes = g.space_prunes;
        bytes_reclaimed = g.bytes_reclaimed;
        warnings = g.warnings;
      }

  -- The roll itself, under the sequence number.
  unfoldable pub roll : Meets → ℕ → Sink → Outcome
  unfolding open_base compress_segment guarded
  roll m seq s =
      if m.roll_close_fails
      then (true, s)
      else and_then
          (with_dir (record s { is_open = false })
            (compress_segment m.segment_run base s.open_date seq s.dir))
          (λ s1.
            and_then (open_base m.roll_open_fails s.open_date s1)
              (λ s2. (false, guarded (record s2 { size_rotations = s2.size_rotations + 1 }))))

  unfoldable pub rotate_by_size_if_needed : Meets → Sink → Outcome
  unfolding roll next_seq
  rotate_by_size_if_needed m s =
      if max_segment_mb == 0
      then (false, s)
      else if ltb (base_size (get base s.dir)) (max_segment_mb * 1048576)
      then (false, s)
      else if ltb 999 (next_seq s.open_date s.dir)
      then (false, record s { seq_overflows = s.seq_overflows + 1 })
      else roll m (next_seq s.open_date s.dir) s

  unfoldable pub reopen : Meets → Sink → Outcome
  reopen m s = if s.is_open then (false, s) else open_base m.reopen_fails m.day_at_open s

  unfoldable pub write : Meets → Text → Sink → Outcome
  unfolding rotate_if_needed reopen rotate_by_size_if_needed
  write m line s = and_then (rotate_if_needed retention_days m s) (λ s1.
      and_then (reopen m s1)
        (λ s2. and_then (append_line m.append line s2) (rotate_by_size_if_needed m)))

  -- Calls of `write`: the lines of those that returned, and the writer.
  unfoldable pub write_all : List (Meets × Text) → Sink → List Text × Sink
  unfolding write
  write_all [] s = ([], s)
  write_all ((m, line) ∷ calls) s =
      let (raised, s') = write m line s in
      let (acknowledged, last) = write_all calls s' in
      (if raised then acknowledged else line ∷ acknowledged, last)
