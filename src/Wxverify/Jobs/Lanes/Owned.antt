-- ===== src/Wxverify/Jobs/Lanes/Owned.antt =====
-- The running rows of db/queue.py are the jobs that the lanes hold.
use home_assistant_apps.Prelude.{
  ℕ, ◌≡◌, refl, sym, ap, ◌∙◌, inl, inr, All, Bool, true, false, ◌&&◌, Option, none, some, Text,
  text_eq, text_eq_refl, ==_iff, if_rule, and_left, and_right, Option-cases, arith,
}
use home_assistant_apps.Wxverify.Jobs.{Row, Table, is_running, find_row, update, has_id, Outside}
use home_assistant_apps.Wxverify.Jobs.Claim.{
  Lane, is_claimable, first_claimable, is_readable, start, give_up, claim,
}
use home_assistant_apps.Wxverify.Jobs.Outcome.{
  Ending, returned, cancelled, stopped, deferred, raised, FailDisposition, is_exhausted, fail_row,
  complete, defer_job, fail, record_ending, still_claimed, record_outcome, reclaim_row,
  reclaim_all_stale,
}
use home_assistant_apps.Wxverify.Jobs.Moves.{Increasing, All-imp, All-Has, All-All}
use home_assistant_apps.Wxverify.Jobs.Rows.{find_row-Has, first_claimable-Has, update-update, by_id}
use home_assistant_apps.Wxverify.Jobs.Dedupe.{IsDeduped, Moves-IsDeduped}
use home_assistant_apps.Wxverify.Jobs.Changes.{
  Change, claim_next, end_job, reclaim, apply, apply-Moves,
}
use home_assistant_apps.Wxverify.Jobs.Lanes.{
  Job, Workers, set_job, kept_job, is_recorded, take_next, finish, restart, LaneStep, takes,
  finishes, changes, restarts, LaneSteps, no_step, and_then,
}
use home_assistant_apps.Wxverify.Jobs.Lanes.Outer.{IsOwned, All-update, All-outer, find_row-none}
use home_assistant_apps.Wxverify.Jobs.Lanes.Slots.{
  set_job-same, lane_of-in_lane, kept, idle, All-both, held_is, and_all, clash,
}

module _ (outside : Outside) where
  fail_row-stops :
      (now : ℕ) (error : Text) (floor : Option ℕ) (r : Row)
      → is_running (fail_row outside now error floor r).1.status ≡ false
  unfolding fail_row
  fail_row-stops now error floor r =
      if_rule (λ (x : FailDisposition × Row). is_running x.1.status ≡ false) (is_exhausted r) _ _
        (λ _. refl) (λ _. refl)

  -- The end of a lane's job: its row runs no more.
  finish-update :
      (lane : Lane) (job : Job) (w : Workers) (f : Row → Row)
      → w.jobs lane ≡ some job
      → ((y : Row) → is_running (f y).status ≡ false)
      → All (IsOwned w.jobs) w.table
      → All (IsOwned (set_job lane none w.jobs)) (update (has_id job.id) f w.table)
  finish-update lane job w f held stops owned =
      All-update (IsOwned w.jobs) (IsOwned (set_job lane none w.jobs)) (has_id job.id) f w.table
        (λ x other h.
          kept lane none w x
            (λ same there runs.
              let e =
                ap (λ j. j.id)
                  (held_is (w.jobs lane) job (record { id = x.id; type = x.type }) held there) in
              clash (has_id job.id x) ((==_iff x.id job.id).1 (sym e)) other)
            h)
        (All-All (λ x. has_id job.id x ≡ true → IsOwned (set_job lane none w.jobs) (f x)) w.table
          (λ x e runs. absurd (clash (is_running (f x).status) runs (stops x))))
        owned

  record_ending-Owned :
      (lane : Lane) (now : ℕ) (job : Job) (ending : Ending) (w : Workers) (x : Row)
      → w.jobs lane ≡ some job
      → is_recorded ending ≡ true
      → find_row (has_id job.id) w.table ≡ some x
      → All (IsOwned w.jobs) w.table
      → All (IsOwned (set_job lane none w.jobs)) (record_ending outside now job.id ending w.table)
  unfolding record_ending complete defer_job fail
  record_ending-Owned lane now job returned w x held recorded found owned =
      finish-update lane job w _ held (λ y. refl) owned
  record_ending-Owned lane now job cancelled w x held recorded found owned =
      finish-update lane job w _ held (λ y. refl) owned
  record_ending-Owned lane now job stopped w x held recorded found owned = grind arith
  record_ending-Owned lane now job (deferred next) w x held recorded found owned =
      finish-update lane job w _ held (λ y. refl) owned
  record_ending-Owned lane now job (raised error floor) w x held recorded found owned =
      rw (found, record_ending, fail)
        (finish-update lane job w (λ y. (fail_row outside now error floor y).1) held
          (fail_row-stops now error floor) owned)

  finish-Owned :
      (lane : Lane) (now : ℕ) (job : Job) (ending : Ending) (w : Workers)
      → w.jobs lane ≡ some job
      → is_recorded ending ≡ true
      → All (IsOwned w.jobs) w.table
      → All
          (IsOwned (set_job lane none w.jobs))
          (record_outcome outside now job.id job.type ending w.table)
  unfolding record_outcome still_claimed
  finish-Owned lane now job ending w held recorded owned =
      let q : Row → Bool = λ r. has_id job.id r && text_eq r.type job.type && is_running r.status in
      elim (Option-cases (find_row q w.table)) [
        | inl absent ↦
            rw (absent, record_outcome, still_claimed)
              (All-both (IsOwned w.jobs) (λ x. q x ≡ false) (IsOwned (set_job lane none w.jobs))
                w.table
                (λ x h no.
                  kept lane none w x
                    (λ same there runs.
                      let e =
                        held_is (w.jobs lane) job (record { id = x.id; type = x.type }) held
                          there in
                      clash (q x)
                        (and_all (has_id job.id x) (text_eq x.type job.type) (is_running x.status)
                          ((==_iff x.id job.id).1 (sym (ap (λ j. j.id) e)))
                          (rw (ap (λ j. j.type) e) (text_eq_refl x.type)) runs)
                        no)
                    h)
                owned (find_row-none q w.table absent))
        | inr (x, found) ↦
            let h = find_row-Has q w.table x found in
            rw (found, record_outcome, still_claimed)
              (elim (Option-cases (find_row (has_id job.id) w.table)) [
                | inl none_there ↦ absurd (
                    clash (has_id job.id x) (and_left _ _ (and_left _ _ h.1)) (
                      All-Has (λ y. has_id job.id y ≡ false) x w.table
                        (find_row-none (has_id job.id) w.table none_there) h.0))
                | inr (y, there) ↦
                    record_ending-Owned lane now job ending w y held recorded there owned
              ])
      ]

  take_next-Owned :
      (lane : Lane) (time : ℕ) (w : Workers)
      → w.jobs lane ≡ none
      → Increasing w.table
      → All (IsOwned w.jobs) w.table
      → All
          (IsOwned (set_job lane (kept_job (claim outside lane time w.table).0) w.jobs))
          (claim outside lane time w.table).1
  unfolding claim is_claimable
  take_next-Owned lane time w free rising owned =
      let now = outside.isoformat_utc time in
      let jobs : Option Job → Lane → Option Job = λ j. set_job lane j w.jobs in
      let Goal : Option Row × Table → Type 0 = λ c. All (IsOwned (jobs (kept_job c.0))) c.1 in
      elim (Option-cases (first_claimable lane now w.table)) [
        | inl absent ↦
            rw (absent, claim)
              (All-imp (IsOwned w.jobs) (IsOwned (jobs none)) w.table
                (λ x h. idle lane none w x free h) owned)
        | inr (r, found) ↦
            let h = first_claimable-Has lane now w.table r found in
            let here = lane_of-in_lane lane r (and_right _ _ h.1) in
            let j : Option Job = some (record { id = r.id; type = r.type }) in
            rw (found, claim)
              (if_rule Goal (is_readable outside r) _ _
                (λ _.
                  All-update (IsOwned w.jobs) (IsOwned (jobs j)) (has_id r.id) (start outside now)
                    w.table (λ x other h. idle lane j w x free h)
                    (by_id (λ x. IsOwned (jobs j) (start outside now x)) r.id w.table r rising h.0
                      ((==_iff r.id r.id).1 refl)
                      (λ runs. ap (jobs j) here ∙ set_job-same lane j w.jobs))
                    owned)
                (λ _.
                  rw
                    (update-update r.id (start outside now) (give_up outside now) w.table
                      (λ x. refl))
                    (All-update (IsOwned w.jobs) (IsOwned (jobs none)) (has_id r.id)
                      (λ x. give_up outside now (start outside now x)) w.table
                      (λ x other h. idle lane none w x free h)
                      (All-All
                        (λ x.
                          has_id r.id x ≡ true
                          → IsOwned (jobs none) (give_up outside now (start outside now x)))
                        w.table (λ x e runs. absurd (clash false runs refl)))
                      owned)))
      ]

-- The ids of the table rise, no two active jobs have one name, and each running row is the job that
-- the lane of its type holds.
pub record IsSound (w : Workers) : Type 0 where
  pub deduped : IsDeduped w.table
  pub owned : All (IsOwned w.jobs) w.table

change-IsDeduped :
    (outside : Outside) (c : Change) (t : Table) → IsDeduped t → IsDeduped (apply outside c t)
change-IsDeduped outside c t d = Moves-IsDeduped (apply-Moves outside c t d.rising) d

reclaim-Owned :
    (outside : Outside) (now : ℕ) (jobs jobs' : Lane → Option Job) (t : Table)
    → All (IsOwned jobs) t
    → All (IsOwned jobs') (reclaim_all_stale outside now t)
unfolding reclaim_all_stale
reclaim-Owned outside now jobs jobs' t h =
    All-update (IsOwned jobs) (IsOwned jobs') (λ r. is_running r.status) (reclaim_row outside now) t
      (λ x idle_row owned runs. absurd (clash (is_running x.status) runs idle_row))
      (All-All (λ x. is_running x.status ≡ true → IsOwned jobs' (reclaim_row outside now x)) t
        (λ x e runs. absurd (clash false runs refl)))
      h

LaneStep-IsSound : {w v : Workers} → LaneStep w v → IsSound w → IsSound v
unfolding take_next finish restart apply
LaneStep-IsSound {w} {v} (takes outside lane time free) s = record {
  deduped = change-IsDeduped outside (claim_next lane time) w.table s.deduped;
  owned = take_next-Owned outside lane time w free s.deduped.rising s.owned;
}
LaneStep-IsSound {w} {v} (finishes outside lane now job ending held recorded) s = record {
  deduped = change-IsDeduped outside (end_job now job.id job.type ending) w.table s.deduped;
  owned = finish-Owned outside lane now job ending w held recorded s.owned;
}
LaneStep-IsSound {w} {v} (changes outside c outer) s = record {
  deduped = change-IsDeduped outside c w.table s.deduped;
  owned = All-outer outside w.jobs c w.table outer s.owned;
}
LaneStep-IsSound {w} {v} (restarts outside now) s = record {
  deduped = change-IsDeduped outside (reclaim now) w.table s.deduped;
  owned = reclaim-Owned outside now w.jobs (λ lane. none) w.table s.owned;
}

-- Whatever the two lanes, the enqueues, the purge, the deletes of sites and the restarts do in turn,
-- the workers stay sound: the ids rise, no two pending or running jobs have one name, and a row runs
-- only as the job, by its id and type, that the lane of its type holds.
pub LaneSteps-IsSound : {w v : Workers} → LaneSteps w v → IsSound w → IsSound v
LaneSteps-IsSound no_step s = s
LaneSteps-IsSound (and_then ms m) s = LaneStep-IsSound m (LaneSteps-IsSound ms s)
