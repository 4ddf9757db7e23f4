-- ===== src/Wxverify/Jobs/Examples.antt =====
-- The job queue of wxverify/wxverify/db/queue.py on concrete tables.
use home_assistant_apps.Prelude.{
  ℕ, ◌≤◌, ◌≡◌, refl, List, [], ◌∷◌, All, true, false, Option, none, some, Text, codes, text_eq, leb,
  if◌then◌else◌, arith,
}
use home_assistant_apps.Wxverify.Jobs.{
  has_name, is_allowed, append_row, greatest_id, find_row, enqueue_if_absent, Row, Table, JobName,
  Outside, object, no_json, count, update, text_le, new_row,
}
use home_assistant_apps.Wxverify.Jobs.Claim.{
  main, is_claimable, comes_first, first_claimable, is_readable, start, claim, tier,
}
use home_assistant_apps.Wxverify.Jobs.Claim.Order.{claim-First}
use home_assistant_apps.Wxverify.Jobs.Claim.Drain.{claims, settled_rows, claims-drain}
use home_assistant_apps.Wxverify.Jobs.Outcome.{returned, raised}
use home_assistant_apps.Wxverify.Jobs.Outcome.Retries.{fail_all, HasFailed, fail_all-HasFailed}
use home_assistant_apps.Wxverify.Jobs.Moves.{Has, Increasing}
use home_assistant_apps.Wxverify.Jobs.Dedupe.{IsDeduped}
use home_assistant_apps.Wxverify.Jobs.Changes.{
  Change, enqueue, enqueue_with_cooldown, claim_next, end_job, purge_failed, reclaim, apply,
  apply_all, apply_all-IsDeduped,
}
use home_assistant_apps.Wxverify.Jobs.Enqueue.{is_active_job, enqueue_if_absent-Active}
use home_assistant_apps.Wxverify.Jobs.Lanes.{
  Workers, take_next, restart, LaneSteps, takes, changes, restarts, no_step, and_then,
}
use home_assistant_apps.Wxverify.Jobs.Lanes.Owned.{IsSound, LaneSteps-IsSound}
use home_assistant_apps.Wxverify.Jobs.Life.{life, LifeStep}
use home_assistant_apps.Wxverify.Jobs.Life.Steps.{apply-refines}

abbrev parse : Text → Option ℕ
parse [] = none
parse (n ∷ t) = some n

abbrev outside : Outside
outside = record {
  isoformat_utc = λ n. n ∷ [];
  parse_utc = parse;
  sqlite_stamp = λ n. n ∷ [];
  loads = λ t. if text_eq t (codes "{") then no_json else object;
  site_exists = λ s. leb s 5;
}

abbrev feed_job : JobName
feed_job = record { type = codes "fetch_feed"; site_id = some 3; job_key = codes "feed:7" }

abbrev close_job : JobName
close_job = record { type = codes "day_close"; site_id = some 3; job_key = codes "day" }

-- The feed's job is there twice, and runs, fails and runs again; the close's job is dropped as
-- unreadable.
abbrev history : List (Outside × Change)
history =
    (outside, enqueue 100 feed_job (codes "{}") 5)
    ∷ (outside, enqueue 101 feed_job (codes "{}") 5)
    ∷ (outside, enqueue 102 close_job (codes "{") 0)
    ∷ (outside, claim_next main 110)
    ∷ (outside, claim_next main 111)
    ∷ (outside, end_job 112 1 (codes "fetch_feed") (raised (codes "timeout") none))
    ∷ (outside, claim_next main 130)
    ∷ (outside, end_job 131 1 (codes "fetch_feed") returned)
    ∷ (outside, enqueue_with_cooldown 140 feed_job (codes "{}") 60 (some 60) 5)
    ∷ (outside, purge_failed 90000 1)
    ∷ (outside, reclaim 90001)
    ∷ []

empty-IsDeduped : IsDeduped []
unfolding count Increasing
empty-IsDeduped = record { rising = tt; at_most_one = λ n. omega arith }

apply_all-IsDeduped_example : IsDeduped (apply_all history [])
apply_all-IsDeduped_example = apply_all-IsDeduped history [] empty-IsDeduped

abbrev two_jobs : Table
two_jobs =
    new_row outside 100 feed_job (codes "{}") 5 1
    ∷ new_row outside 102 close_job (codes "{}") 0 2
    ∷ []

one_job-IsDeduped : IsDeduped (apply_all ((outside, enqueue 100 feed_job (codes "{}") 5) ∷ []) [])
one_job-IsDeduped =
    apply_all-IsDeduped ((outside, enqueue 100 feed_job (codes "{}") 5) ∷ []) [] empty-IsDeduped

apply-refines_example :
    LifeStep 1
      (claim_next main 110)
      (life 1 (apply_all ((outside, enqueue 100 feed_job (codes "{}") 5) ∷ []) []))
      (life 1 (
        apply outside
          (claim_next main 110)
          (apply_all ((outside, enqueue 100 feed_job (codes "{}") 5) ∷ []) [])))
apply-refines_example =
    apply-refines 1 outside (claim_next main 110)
      (apply_all ((outside, enqueue 100 feed_job (codes "{}") 5) ∷ []) []) one_job-IsDeduped

-- The close's job is in tier 0, and goes first.
abbrev close_row : Row
close_row = start outside (110 ∷ []) (new_row outside 102 close_job (codes "{}") 0 2)

close_claimed : (claim outside main 110 two_jobs).0 ≡ some close_row
unfolding claim first_claimable is_claimable comes_first tier text_le is_readable update text_eq
close_claimed = refl

claim-First_example :
    (r : Row) × (Has r two_jobs
      × is_claimable main (110 ∷ []) r ≡ true
      × is_readable outside r ≡ true
      × close_row ≡ start outside (110 ∷ []) r
      × All (λ x. is_claimable main (110 ∷ []) x ≡ true → comes_first r x ≡ true) two_jobs)
claim-First_example = claim-First outside main 110 two_jobs close_row close_claimed

two_due : count (is_claimable main (110 ∷ [])) two_jobs ≤ 2
unfolding count is_claimable text_le text_eq
two_due = omega arith

two_jobs-IsDeduped : IsDeduped two_jobs
unfolding apply_all apply enqueue_if_absent find_row has_name is_allowed append_row greatest_id
    text_eq
two_jobs-IsDeduped =
    apply_all-IsDeduped
      ((outside, enqueue 100 feed_job (codes "{}") 5)
        ∷ (outside, enqueue 102 close_job (codes "{}") 0)
        ∷ [])
      [] empty-IsDeduped

claims-drain_example : claims outside main 110 2 two_jobs ≡ settled_rows outside main 110 two_jobs
claims-drain_example = claims-drain outside main 110 2 two_jobs two_jobs-IsDeduped two_due

abbrev one_retry : Row
one_retry = new_row outside 100 feed_job (codes "{}") 1 1

-- The second failure of a job with one retry is its last.
fail_all-HasFailed_example : HasFailed one_retry 2 (
    fail_all outside
      ((110, (codes "timeout", none)) ∷ (120, (codes "refused", some 30)) ∷ [])
      one_retry)
fail_all-HasFailed_example =
    fail_all-HasFailed outside (110, (codes "timeout", none))
      ((120, (codes "refused", some 30)) ∷ []) one_retry (omega arith) (omega arith)

abbrev idle_workers : Workers
idle_workers = record { jobs = λ lane. none; table = [] }

-- A job comes in, the main lane takes it, and the process starts again in its run.
abbrev restarted : Workers
restarted = restart outside 120 (
    take_next outside main 110
      (record idle_workers { table = apply outside (enqueue 100 feed_job (codes "{}") 5) [] }))

run_and_restart : LaneSteps idle_workers restarted
run_and_restart =
    and_then
      (and_then (and_then no_step (changes outside (enqueue 100 feed_job (codes "{}") 5) refl))
        (takes outside main 110 refl))
      (restarts outside 120)

idle-IsSound : IsSound idle_workers
idle-IsSound = record { deduped = empty-IsDeduped; owned = tt }

LaneSteps-IsSound_example : IsSound restarted
LaneSteps-IsSound_example = LaneSteps-IsSound run_and_restart idle-IsSound

feed_allowed : is_allowed outside feed_job ≡ true
unfolding is_allowed text_eq
feed_allowed = refl

enqueue_if_absent-Active_example :
    (r : Row) × (find_row
          (is_active_job feed_job)
          (enqueue_if_absent outside 130 feed_job (codes "{}") 5 two_jobs).1
        ≡ some r
      × (enqueue_if_absent outside 130 feed_job (codes "{}") 5 two_jobs).0.job_id ≡ some r.id
      × ((enqueue_if_absent outside 130 feed_job (codes "{}") 5 two_jobs).0.created ≡ false
          → (enqueue_if_absent outside 130 feed_job (codes "{}") 5 two_jobs).1 ≡ two_jobs))
enqueue_if_absent-Active_example =
    enqueue_if_absent-Active outside 130 feed_job (codes "{}") 5 two_jobs feed_allowed
