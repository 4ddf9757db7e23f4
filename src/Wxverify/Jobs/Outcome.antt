-- ===== src/Wxverify/Jobs/Outcome.antt =====
-- The ends of a job in wxverify/wxverify/db/queue.py, and how `run_claimed_job` of
-- wxverify/wxverify/worker/processor.py records them.
pub mod Retries
use home_assistant_apps.Prelude.{
  ℕ, ◌+◌, ◌-◌, ◌*◌, ◌^◌, List, [], ◌∷◌, Bool, true, false, not, ◌&&◌, ◌||◌, Option, none, some,
  Text, codes, text_eq, min, max, ltb, leb, ◌==◌, if◌then◌else◌,
}
use home_assistant_apps.Wxverify.Jobs.{
  Status, pending, running, completed, failed, Row, Table, is_pending, is_running, is_failed,
  text_le, find_row, update, delete, count, has_id, Outside,
}

abbrev pub max_retry_count : ℕ
max_retry_count = 2 ^ 63 - 1

pub record FailDisposition : Type 0 where
  pub terminal : Bool
  pub retry_count : ℕ
  pub max_retries : ℕ
  pub next_attempt_at : Option Text

abbrev pub at_least : Option ℕ → ℕ → ℕ
at_least none delay = delay
at_least (some least) delay = max delay least

-- The seconds until a failed job's next attempt.
unfoldable pub retry_delay : ℕ → Option ℕ → ℕ
retry_delay retry_count min_delay_seconds =
    at_least min_delay_seconds (min 3600 (2 ^ min retry_count 10))

-- The count of failures after one more.
abbrev pub next_retry_count : Row → ℕ
next_retry_count r = min (r.retry_count + 1) max_retry_count

-- Whether that failure is the last.
abbrev pub is_exhausted : Row → Bool
is_exhausted r = ltb r.max_retries (next_retry_count r) || leb max_retry_count (next_retry_count r)

module _ (outside : Outside) where
  abbrev pub complete_row : ℕ → Option Text → Row → Row
  complete_row now result r = record r {
    status = completed;
    result = result;
    updated_at = outside.isoformat_utc now;
  }

  unfoldable pub complete : ℕ → ℕ → Option Text → Table → Table
  unfolding update
  complete now id result t = update (has_id id) (complete_row now result) t

  abbrev pub failed_row : ℕ → Text → Row → FailDisposition × Row
  failed_row now error r = (
    record {
      terminal = true;
      retry_count = next_retry_count r;
      max_retries = r.max_retries;
      next_attempt_at = none;
    },
    record r {
      status = failed;
      retry_count = next_retry_count r;
      last_error = some error;
      updated_at = outside.isoformat_utc now;
    },
  )

  abbrev pub retried_row : ℕ → Text → Text → Row → FailDisposition × Row
  retried_row now error next r = (
    record {
      terminal = false;
      retry_count = next_retry_count r;
      max_retries = r.max_retries;
      next_attempt_at = some next;
    },
    record r {
      status = pending;
      retry_count = next_retry_count r;
      last_error = some error;
      next_attempt_at = some next;
      updated_at = outside.isoformat_utc now;
    },
  )

  -- What `fail` says, and writes into the row.
  unfoldable pub fail_row : ℕ → Text → Option ℕ → Row → FailDisposition × Row
  unfolding retry_delay
  fail_row now error min_delay r =
      if is_exhausted r
      then failed_row now error r
      else retried_row now error
          (outside.isoformat_utc (now + retry_delay (next_retry_count r) min_delay)) r

  -- The id is the primary key, so the row that is read is the one that is updated.
  unfoldable pub fail : ℕ → ℕ → Text → Option ℕ → Table → Option FailDisposition × Table
  unfolding fail_row find_row update
  fail now id error min_delay t = elim (find_row (has_id id) t) [
    | none ↦ (none, t)
    | some r ↦ (
      some (fail_row now error min_delay r).0,
      update (has_id id) (λ r'. (fail_row now error min_delay r').1) t,
    )
  ]

  abbrev pub defer_row : ℕ → Text → Row → Row
  defer_row now next r = record r {
    status = pending;
    next_attempt_at = some next;
    updated_at = outside.isoformat_utc now;
  }

  unfoldable pub defer_job : ℕ → ℕ → Text → Table → Table
  unfolding update
  defer_job now id next t = update (has_id id) (defer_row now next) t

  abbrev pub is_old_failure : Text → Row → Bool
  is_old_failure cutoff r = is_failed r.status && not (text_le cutoff r.updated_at)

  -- `timedelta(hours=hours)` in the seconds of the clock.
  unfoldable pub purge_failed_jobs_older_than : ℕ → ℕ → Table → Table
  unfolding delete
  purge_failed_jobs_older_than now hours t =
      delete (is_old_failure (outside.isoformat_utc (now - hours * 3600))) t

  unfoldable pub count_failed_jobs_older_than : ℕ → ℕ → Table → ℕ
  unfolding count
  count_failed_jobs_older_than now hours t =
      count (is_old_failure (outside.isoformat_utc (now - hours * 3600))) t

  abbrev pub reclaim_row : ℕ → Row → Row
  reclaim_row now r = record r { status = pending; updated_at = outside.isoformat_utc now }

  -- No type is a chain type, so no `next_attempt_at` changes.
  unfoldable pub reclaim_all_stale : ℕ → Table → Table
  unfolding update
  reclaim_all_stale now t = update (λ r. is_running r.status) (reclaim_row now) t

-- `_still_claimed`.
unfoldable pub still_claimed : ℕ → Text → Table → Bool
unfolding find_row
still_claimed id type t =
    elim (find_row (λ r. has_id id r && text_eq r.type type && is_running r.status) t) [
      | some r ↦ true
      | none ↦ false
    ]

-- How `dispatch` ends: it returns, or it raises `JobDeferred`, `JobCancelled`, `StopRequested`, or
-- another exception. A permission error that stops the process records nothing, as `stopped`.
pub data Ending : Type 0 where
  returned cancelled stopped : Ending
  deferred : Text → Ending
  raised : Text → Option ℕ → Ending

module _ (outside : Outside) where
  unfoldable pub record_ending : ℕ → ℕ → Ending → Table → Table
  unfolding complete defer_job fail
  record_ending now id returned t = complete outside now id (some (codes "ok")) t
  record_ending now id cancelled t = complete outside now id none t
  record_ending now id stopped t = t
  record_ending now id (deferred next) t = defer_job outside now id next t
  record_ending now id (raised error min_delay) t = (fail outside now id error min_delay t).1

  -- `_record_outcome`, for the claimed row of `run_claimed_job`.
  unfoldable pub record_outcome : ℕ → ℕ → Text → Ending → Table → Table
  unfolding still_claimed record_ending
  record_outcome now id type ending t =
      if still_claimed id type t then record_ending now id ending t else t
