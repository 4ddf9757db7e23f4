-- ===== src/Syslog/Storage/Examples.antt =====
-- The theorems about the storage sink at concrete directories.
use home_assistant_apps.Prelude.{
  ℕ, ◌≡◌, refl, List, Text, inl, if◌then◌else◌, [], ◌∷◌, true, false, none, some, codes, arith,
}
use home_assistant_apps.Syslog.Storage.Files.{
  source, partial, archive, FileName, base, daily, segment, foreign, Content, lines, gzipped,
  truncated, Dir, get, name_eq, remove, put,
}
use home_assistant_apps.Syslog.Storage.Gzip.{
  completes, in_write, before_unlink, compress, compress_segment, atomic_gzip, gzip_steps,
}
use home_assistant_apps.Syslog.Storage.Gzip.Crash.{expected}
use home_assistant_apps.Syslog.Storage.Reconcile.{Faults, reconcile_stale_base}
use home_assistant_apps.Syslog.Storage.Reconcile.Restart.{after_restart}
use home_assistant_apps.Syslog.Storage.Reconcile.Start.{Startup, start}
use home_assistant_apps.Syslog.Storage.Reconcile.Listing.{is_leftover, Distinct, IsListing}
use home_assistant_apps.Syslog.Storage.Reconcile.Recovery.{restart_recovers}
use home_assistant_apps.Syslog.Storage.Archives.{
  Key, is_beyond, oldest_prunable, sort_key, key_lt, next_seq,
}
use home_assistant_apps.Syslog.Storage.Space.{
  Volume, Limits, unlinked, Guard, enforce_space, space_loop, measure, log_dir_bytes, prune_victim,
}
use home_assistant_apps.Syslog.Storage.Space.Ring.{enforce_space-drops_oldest}
use home_assistant_apps.Syslog.Storage.Space.Budget.{IsDone, enforce_space-IsDone}
use home_assistant_apps.Syslog.Storage.Writer.{
  appended, Meets, Sink, open_base, archive_base, prune_names, rotate_if_needed, guarded, roll,
  rotate_by_size_if_needed, reopen, write, write_all,
}
use home_assistant_apps.Syslog.Storage.Writer.Stored.{Has, Holds, Stored}
use home_assistant_apps.Syslog.Storage.Writer.Keeps.{is_in_order, write_all-Stored}

abbrev day_log : Content
day_log = lines (codes "one" ∷ codes "two" ∷ [])

abbrev log_dir : Dir
log_dir = (base, day_log) ∷ (daily archive 7, gzipped day_log) ∷ (foreign 0, day_log) ∷ []

abbrev no_faults : Faults
no_faults = record { run = λ f. completes; unlink_fails = λ f. false }

abbrev left_names : List FileName
left_names = daily archive 7 ∷ daily archive 8 ∷ foreign 0 ∷ []

-- A start on day 9, after a rotation of day 8 that stopped while it wrote the partial file.
abbrev day_nine : Startup
day_nine = record {
  faults = no_faults;
  open_date = 9;
  mtime_day = 8;
  today = 9;
  orphan_names = left_names;
  day_at_prune = 9;
  archive_names = left_names;
  unlink_fails = λ f. false;
  open_fails = false;
}

log_dir-alone :
    (f : FileName)
    → is_leftover f ≡ true
    → name_eq (daily partial 8) f ≡ false
    → get f log_dir ≡ none
unfolding get name_eq
log_dir-alone base h other = cc
log_dir-alone (foreign n) h other = cc
log_dir-alone (daily source d) h other = refl
log_dir-alone (daily partial d) h other = refl
log_dir-alone (daily archive d) h other = cc
log_dir-alone (segment s d n) h other = refl

left_names-IsListing : IsListing left_names (after_restart no_faults in_write 8 9 log_dir).1
unfolding after_restart compress atomic_gzip gzip_steps reconcile_stale_base get put remove name_eq
    Distinct
left_names-IsListing = record {
  all_there = (refl, (refl, (refl, tt)));
  distinct = ((refl, (refl, tt)), ((refl, tt), (tt, tt)));
  complete = λ f h. ground arith;
}

restart_recovers_example :
    ((start 30 day_nine (compress in_write base 8 log_dir).1).0 ≡ false)
    × ((start 30 day_nine (compress in_write base 8 log_dir).1).1.is_open ≡ true)
    × ((start 30 day_nine (compress in_write base 8 log_dir).1).1.open_date ≡ 9)
    × (get base (start 30 day_nine (compress in_write base 8 log_dir).1).1.dir ≡ some (lines []))
    × ((g : FileName)
        → name_eq base g ≡ false
        → get g (start 30 day_nine (compress in_write base 8 log_dir).1).1.dir ≡ (
            if is_beyond 30 9 (sort_key g)
            then none
            else expected base (daily partial 8) (daily archive 8) day_log log_dir g))
unfolding get name_eq
restart_recovers_example =
    restart_recovers 30 8 log_dir day_log refl log_dir-alone day_nine refl (omega arith) refl
      (λ f. refl) refl in_write left_names-IsListing left_names-IsListing

abbrev orphan_dir : Dir
orphan_dir = (base, day_log) ∷ (daily source 8, day_log) ∷ (daily partial 8, truncated) ∷ []

abbrev segments : Dir
segments =
    (segment archive 8 2, gzipped day_log)
    ∷ (base, day_log)
    ∷ (segment archive 8 1, gzipped day_log)
    ∷ (daily archive 8, gzipped day_log)
    ∷ []

-- A volume of 100 bytes with ten for each file.
abbrev volume : Volume
volume = record {
  stats = λ dir. some (100, 10);
  size = λ c. 10;
  scan_fails = λ dir. false;
  unlink = λ f dir. unlinked;
}

abbrev limits : Limits
limits = record { min_free_percent = 0; max_log_percent = 20 }

abbrev guard : Guard
guard = record { dir = segments; space_prunes = 0; bytes_reclaimed = 0; warnings = [] }

enforce_space-IsDone_example : IsDone volume limits 100 (enforce_space volume limits 5 guard)
enforce_space-IsDone_example = enforce_space-IsDone volume limits 5 100 10 guard (omega arith) refl

abbrev left : Dir
left = (segment archive 8 2, gzipped day_log) ∷ (base, day_log) ∷ []

enforce_space_example : (enforce_space volume limits 5 guard).1.dir ≡ left
unfolding enforce_space space_loop measure log_dir_bytes prune_victim oldest_prunable remove name_eq
enforce_space_example = refl

enforce_space-drops_oldest_example :
    ((f kept : FileName) (c c' : Content) (k l : Key)
      → get f segments ≡ some c
      → get f left ≡ none
      → get kept left ≡ some c'
      → sort_key f ≡ some k
      → sort_key kept ≡ some l
      → key_lt l k ≡ false)
    × ((f : FileName) → sort_key f ≡ none → get f left ≡ get f segments)
enforce_space-drops_oldest_example =
    enforce_space-drops_oldest volume limits 5 guard left enforce_space_example

-- A writer of day 8, a write of that day whose roll fails, and one of the next day.
abbrev sink : Sink
sink = record {
  dir = (base, day_log) ∷ [];
  open_date = 8;
  is_open = true;
  size_rotations = 0;
  seq_overflows = 0;
  space_prunes = 0;
  bytes_reclaimed = 0;
  warnings = [];
}

abbrev smooth : ℕ → Meets
smooth day = record {
  today = day;
  day_at_prune = day;
  day_at_open = day;
  close_leaves = [];
  close_fails = false;
  daily_run = completes;
  names = daily archive 8 ∷ [];
  unlink_fails = λ f. false;
  open_fails = false;
  reopen_fails = false;
  append = appended [];
  segment_run = completes;
  roll_close_fails = false;
  roll_open_fails = false;
}

abbrev calls : List (Meets × Text)
calls =
    (record (smooth 8) { segment_run = before_unlink }, codes "two")
    ∷ (smooth 9, codes "three")
    ∷ []

abbrev guard_off : Limits
guard_off = record { min_free_percent = 0; max_log_percent = 0 }

abbrev megabyte_files : Volume
megabyte_files = record volume { size = λ c. 1048576 }

write_all_example : (write_all megabyte_files guard_off 1 3 5 calls sink).0 ≡ codes "three" ∷ []
unfolding write_all write rotate_if_needed rotate_by_size_if_needed roll reopen open_base
    archive_base prune_names compress compress_segment atomic_gzip gzip_steps next_seq get put
    remove name_eq guarded enforce_space
write_all_example = refl

write_all-Stored_example :
    Stored 8 (codes "one") (write_all megabyte_files guard_off 1 3 5 calls sink).1.dir
unfolding get name_eq is_in_order Holds Has
write_all-Stored_example =
    write_all-Stored megabyte_files guard_off 1 3 5 refl refl 8 calls (codes "one") sink
      (omega arith) refl (λ d le. refl) refl
      (inl
        (record { file = base; content = day_log; since = refl; there = refl; holds = inl refl }))
