-- ===== src/Wxverify/Jobs/Life/Steps.antt =====
-- Each change of the table of db/queue.py as a step of the abstract queue.
use home_assistant_apps.Prelude.{
  ℕ, ◌+◌, ◌≡◌, refl, inl, inr, true, ◌&&◌, Option, none, some, Text, ==_iff, if_rule, and_left,
  Option-cases,
}
use home_assistant_apps.Wxverify.Jobs.{
  pending, failed, Row, Table, JobName, has_name, is_pending, is_active, find_row, update,
  greatest_id, has_id, Outside, EnqueueResult, new_row, is_allowed, is_suppressed, last_row,
  enqueue_if_absent, enqueue_if_absent_with_cooldown,
}
use home_assistant_apps.Wxverify.Jobs.Claim.{
  Lane, is_claimable, first_claimable, is_readable, start, give_up, claim,
}
use home_assistant_apps.Wxverify.Jobs.Outcome.{
  reclaim_row, purge_failed_jobs_older_than, reclaim_all_stale,
}
use home_assistant_apps.Wxverify.Jobs.Moves.{All-All, Increasing, Has}
use home_assistant_apps.Wxverify.Jobs.Changes.{
  Change, enqueue, enqueue_with_cooldown, claim_next, end_job, purge_failed, reclaim, delete_site,
  apply,
}
use home_assistant_apps.Wxverify.Jobs.Dedupe.{IsDeduped}
use home_assistant_apps.Wxverify.Jobs.Rows.{first_claimable-Has, update-update, by_id}
use home_assistant_apps.Wxverify.Jobs.Life.{
  job_of, life, LifeStep, LifeStep-same, stays, arrives, arrives_later, starts, is_unreadable,
  is_purged, is_reclaimed, loses_site, life-update, life-append, life-delete,
}
use home_assistant_apps.Wxverify.Jobs.Life.Ends.{
  pending_only, running_only, failed_only, record_outcome-step,
}

module _ (outside : Outside) (id : ℕ) where
  one_claimed :
      (lane : Lane) (time : ℕ) (f : Row → Row) (t : Table) (r : Row)
      → Increasing t
      → Has r t
      → is_pending r.status ≡ true
      → (f r).id ≡ r.id
      → (f r).type ≡ r.type
      → LifeStep id (claim_next lane time) (some (r.type, pending)) (some (r.type, (f r).status))
      → LifeStep id (claim_next lane time) (life id t) (life id (update (has_id r.id) f t))
  one_claimed lane time f t r rising has waits keeps kind step =
      life-update (LifeStep id (claim_next lane time)) id (has_id r.id) f t (λ s. stays)
        (by_id
          (λ x.
            (f x).id ≡ x.id
            × (has_id id x ≡ true
                → LifeStep id (claim_next lane time) (some (job_of x)) (some (job_of (f x)))))
          r.id t r rising has ((==_iff r.id r.id).1 refl)
          (keeps, λ own. LifeStep-same refl kind (pending_only r.status waits) step))

  claim-step :
      (lane : Lane) (time : ℕ) (t : Table)
      → Increasing t
      → LifeStep id (claim_next lane time) (life id t) (life id (claim outside lane time t).1)
  unfolding claim is_claimable
  claim-step lane time t rising =
      elim (Option-cases (first_claimable lane (outside.isoformat_utc time) t)) [
        | inl absent ↦ rw (absent, claim) stays
        | inr (r, found) ↦
            let h = first_claimable-Has lane (outside.isoformat_utc time) t r found in
            let now = outside.isoformat_utc time in
            let waits = and_left _ _ (and_left _ _ h.1) in
            rw (found, claim)
              (if_rule
                (λ (x : Option Row × Table).
                  LifeStep id (claim_next lane time) (life id t) (life id x.1))
                (is_readable outside r) _ _
                (λ _.
                  one_claimed lane time (start outside now) t r rising h.0 waits refl refl starts)
                (λ _.
                  rw (update-update r.id (start outside now) (give_up outside now) t (λ x. refl)) (
                    one_claimed lane time (λ x. give_up outside now (start outside now x)) t r
                      rising h.0 waits refl refl is_unreadable)))
      ]

  enqueue-step :
      (c : Change) (now : ℕ) (n : JobName) (payload : Text) (tries : ℕ) (t : Table)
      → LifeStep id c none (some (n.type, pending))
      → LifeStep id c (life id t) (life id (enqueue_if_absent outside now n payload tries t).1)
  unfolding enqueue_if_absent
  enqueue-step c now n payload tries t new =
      elim (Option-cases (find_row (λ r. has_name n r && is_active r.status) t)) [
        | inr (x, found) ↦ rw (found, enqueue_if_absent) stays
        | inl absent ↦
            rw (absent, enqueue_if_absent)
              (if_rule (λ (x : EnqueueResult × Table). LifeStep id c (life id t) (life id x.1))
                (is_allowed outside n) _ _
                (λ _.
                  life-append (LifeStep id c) id t
                    (new_row outside now n payload tries (greatest_id t + 1)) (λ s. stays) new)
                (λ _. stays))
      ]

  enqueue_with_cooldown-step :
      (now : ℕ) (n : JobName) (payload : Text) (cooldown : ℕ) (success : Option ℕ) (tries : ℕ)
      (t : Table)
      → LifeStep id (enqueue_with_cooldown now n payload cooldown success tries) (life id t) (
          life id
            (enqueue_if_absent_with_cooldown outside now n payload cooldown success tries t).1)
  unfolding enqueue_if_absent_with_cooldown
  enqueue_with_cooldown-step now n payload cooldown success tries t =
      let c = enqueue_with_cooldown now n payload cooldown success tries in
      let added = enqueue-step c now n payload tries t arrives_later in
      elim (Option-cases (find_row (λ r. has_name n r && is_active r.status) t)) [
        | inr (x, found) ↦ rw (found, enqueue_if_absent_with_cooldown) added
        | inl absent ↦
            rw (absent, enqueue_if_absent_with_cooldown)
              (if_rule
                (λ (x : Option EnqueueResult × Table). LifeStep id c (life id t) (life id x.1))
                (is_suppressed outside now cooldown success (last_row (has_name n) t)) _ _
                (λ _. stays) (λ _. added))
      ]

-- Each change moves the job of each id, which is its type and its status, as the abstract queue
-- allows for that change, and never gives it another type: only an enqueue brings it in, pending and
-- with the type of the enqueue; only a claim starts it, or fails it as unreadable, when it is pending;
-- only an end of a run that names its id and its type completes it, fails it or puts it back, when it
-- is running; the purge takes failed jobs only; the reclaim puts running ones back; and the delete of
-- a site takes jobs. The ids must rise along the table, and no name may have two pending or running
-- jobs.
pub apply-refines :
    (id : ℕ) (outside : Outside) (c : Change) (t : Table)
    → IsDeduped t
    → LifeStep id c (life id t) (life id (apply outside c t))
unfolding apply purge_failed_jobs_older_than reclaim_all_stale
apply-refines id outside (enqueue now n payload tries) t d =
    enqueue-step outside id (enqueue now n payload tries) now n payload tries t arrives
apply-refines id outside (enqueue_with_cooldown now n payload cooldown success tries) t d =
    enqueue_with_cooldown-step outside id now n payload cooldown success tries t
apply-refines id outside (claim_next lane now) t d = claim-step outside id lane now t d.rising
apply-refines id outside (end_job now i type ending) t d =
    record_outcome-step outside id now i type ending t d.rising
apply-refines id outside (purge_failed now hours) t d =
    life-delete (LifeStep id (purge_failed now hours)) id _ t d.rising (λ s. stays)
      (λ r old.
        let e : r.status ≡ failed = failed_only r.status (and_left _ _ old) in rw e is_purged)
apply-refines id outside (reclaim now) t d =
    life-update (LifeStep id (reclaim now)) id _ (reclaim_row outside now) t (λ s. stays)
      (All-All _ t (λ r runs. (refl, λ own. rw (running_only r.status runs) is_reclaimed)))
apply-refines id outside (delete_site site) t d =
    life-delete (LifeStep id (delete_site site)) id _ t d.rising (λ s. stays)
      (λ r of_site. loses_site)
