-- ===== src/Syslog/Storage/Archives.antt =====
-- The order of the archives, their retention and their numbering, in py-syslog/pysyslog/writer.py.
pub mod Laws
use home_assistant_apps.Prelude.{
  ℕ, suc, ◌+◌, ◌-◌, List, [], ◌∷◌, Bool, true, false, ◌&&◌, ◌||◌, Option, none, some, max, ltb,
  ◌==◌, if◌then◌else◌,
}
use home_assistant_apps.Syslog.Storage.Files.{
  archive, FileName, daily, segment, Content, Dir, get, name_eq, remove,
}

-- `_segment_sort_key`: the day and the sequence number, one more than in the source, where a daily
-- archive has -1. `none` is for the names that its callers leave out.
pub record Key : Type 0 where
  pub day : ℕ
  pub rank : ℕ

abbrev pub sort_key : FileName → Option Key
sort_key (daily archive d) = some (record { day = d; rank = 0 })
sort_key (segment archive d n) = some (record { day = d; rank = n + 1 })
sort_key _ = none

-- The order of tuples.
abbrev pub key_lt : Key → Key → Bool
key_lt a b = ltb a.day b.day || (a.day == b.day && ltb a.rank b.rank)

-- The earlier of an archive and the earliest behind it, which wins only if it is strictly smaller.
unfoldable pub earlier : FileName → Option Key → Option (FileName × Key) → Option (FileName × Key)
earlier f none rest = rest
earlier f (some k) none = some (f, k)
earlier f (some k) (some (g, l)) = if key_lt l k then some (g, l) else some (f, k)

-- `_oldest_prunable_segment`, with its key.
unfoldable pub oldest_prunable : Dir → Option (FileName × Key)
unfolding earlier
oldest_prunable [] = none
oldest_prunable ((f, c) ∷ dir) = earlier f (sort_key f) (oldest_prunable dir)

-- `(cutoff - day).days > retention_days`; a day that lies ahead counts no days.
abbrev pub is_beyond : ℕ → ℕ → Option Key → Bool
is_beyond retention_days cutoff none = false
is_beyond retention_days cutoff (some k) = ltb retention_days (cutoff - k.day)

-- `_prune`, where no unlink fails.
unfoldable pub prune : ℕ → ℕ → Dir → Dir
prune retention_days cutoff [] = []
prune retention_days cutoff ((f, c) ∷ dir) =
    let rest = prune retention_days cutoff dir in
    if is_beyond retention_days cutoff (sort_key f) then rest else (f, c) ∷ rest

abbrev pub seq_of : ℕ → FileName → ℕ
seq_of day (segment archive d n) = if d == day then n else 0
seq_of day _ = 0

highest_seq : ℕ → Dir → ℕ
highest_seq day [] = 0
highest_seq day ((f, c) ∷ dir) = max (seq_of day f) (highest_seq day dir)

unfoldable pub next_seq : ℕ → Dir → ℕ
unfolding highest_seq
next_seq day dir = highest_seq day dir + 1
