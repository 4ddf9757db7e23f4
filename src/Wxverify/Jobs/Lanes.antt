-- ===== src/Wxverify/Jobs/Lanes.antt =====
-- The two worker lanes over the job table: `run_worker` and `_run_main_lane` of
-- wxverify/wxverify/worker/processor.py, and `run_current_obs_poller` beside it. A lane runs one job
-- at a time; what else changes the table comes between.
mod Outer
mod Slots
pub mod Owned
use home_assistant_apps.Prelude.{ℕ, ◌≡◌, Bool, true, false, Option, none, some, Text, if◌then◌else◌}
use home_assistant_apps.Wxverify.Jobs.{Row, Table, Outside}
use home_assistant_apps.Wxverify.Jobs.Claim.{Lane, main, current_obs, is_current_obs, claim}
use home_assistant_apps.Wxverify.Jobs.Outcome.{Ending, stopped, record_outcome, reclaim_all_stale}
use home_assistant_apps.Wxverify.Jobs.Changes.{
  Change, enqueue, enqueue_with_cooldown, purge_failed, delete_site, apply,
}

-- What a lane keeps of its job for the record of the outcome.
pub record Job : Type 0 where
  pub id : ℕ
  pub type : Text

pub record Workers : Type 0 where
  pub jobs : Lane → Option Job
  pub table : Table

abbrev pub set_job : Lane → Option Job → (Lane → Option Job) → Lane → Option Job
set_job main job jobs main = job
set_job main job jobs current_obs = jobs current_obs
set_job current_obs job jobs main = jobs main
set_job current_obs job jobs current_obs = job

abbrev pub kept_job : Option Row → Option Job
kept_job none = none
kept_job (some r) = some (record { id = r.id; type = r.type })

-- The lane of a row's type.
abbrev pub lane_of : Row → Lane
lane_of r = if is_current_obs r then current_obs else main

-- A change of neither lane: an enqueue, the purge, the delete of a site.
abbrev pub is_outer : Change → Bool
is_outer (enqueue _ _ _ _) = true
is_outer (enqueue_with_cooldown _ _ _ _ _ _) = true
is_outer (purge_failed _ _) = true
is_outer (delete_site _) = true
is_outer _ = false

-- Whether the end of a run is recorded. After one that is not, the lane claims nothing more.
abbrev pub is_recorded : Ending → Bool
is_recorded stopped = false
is_recorded _ = true

-- A pass of an idle lane.
unfoldable pub take_next : Outside → Lane → ℕ → Workers → Workers
take_next outside lane time w = record {
  jobs = set_job lane (kept_job (claim outside lane time w.table).0) w.jobs;
  table = (claim outside lane time w.table).1;
}

-- The end of the run of a lane's job.
unfoldable pub finish : Outside → Lane → ℕ → Job → Ending → Workers → Workers
finish outside lane now job ending w = record {
  jobs = set_job lane none w.jobs;
  table = record_outcome outside now job.id job.type ending w.table;
}

-- The start of a process, and the end of the one before.
unfoldable pub restart : Outside → ℕ → Workers → Workers
restart outside now w = record {
  jobs = λ lane. none;
  table = reclaim_all_stale outside now w.table;
}

pub data LaneStep (w : Workers) : Workers → Type 0 where
  takes :
      (outside : Outside) (lane : Lane) (time : ℕ)
      → w.jobs lane ≡ none
      → LaneStep w (take_next outside lane time w)
  finishes :
      (outside : Outside) (lane : Lane) (now : ℕ) (job : Job) (ending : Ending)
      → w.jobs lane ≡ some job
      → is_recorded ending ≡ true
      → LaneStep w (finish outside lane now job ending w)
  changes :
      (outside : Outside) (c : Change)
      → is_outer c ≡ true
      → LaneStep w (record w { table = apply outside c w.table })
  restarts : (outside : Outside) (now : ℕ) → LaneStep w (restart outside now w)

pub data LaneSteps (w : Workers) : Workers → Type 0 where
  no_step : LaneSteps w w
  and_then : {v u : Workers} → LaneSteps w v → LaneStep v u → LaneSteps w u
