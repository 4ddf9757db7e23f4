-- ===== src/Wxverify/Jobs/Changes.antt =====
-- The table of db/queue.py under any sequence of its operations, and of deletes of sites (the
-- schema of db/migrations.py deletes their jobs).
use home_assistant_apps.Prelude.{
  ℕ, ◌+◌, ◌≡◌, refl, sym, ◌∙◌, inl, inr, List, [], ◌∷◌, true, ◌&&◌, Option, some, Text, text_eq,
  ==_iff, if_rule, and_left, and_right, Option-cases,
}
use home_assistant_apps.Wxverify.Jobs.{
  Row, Table, JobName, has_name, same_site, is_running, is_active, find_row, delete, greatest_id,
  has_id, Outside, EnqueueResult, new_row, is_allowed, is_suppressed, last_row, enqueue_if_absent,
  enqueue_if_absent_with_cooldown,
}
use home_assistant_apps.Wxverify.Jobs.Claim.{
  Lane, is_claimable, first_claimable, is_readable, start, give_up, claim,
}
use home_assistant_apps.Wxverify.Jobs.Outcome.{
  Ending, returned, cancelled, stopped, deferred, raised, fail_row, reclaim_row, complete, fail,
  defer_job, purge_failed_jobs_older_than, reclaim_all_stale, still_claimed, record_ending,
  record_outcome,
}
use home_assistant_apps.Wxverify.Jobs.Moves.{
  All-All, Increasing, requeued, finished, gave_up, Legal, advances, inserts, removes, Moves, rest,
  one-Move, Has, All-Has, Increasing-unique,
}
use home_assistant_apps.Wxverify.Jobs.Dedupe.{IsDeduped, Moves-IsDeduped}
use home_assistant_apps.Wxverify.Jobs.Rows.{
  find_row-Has, first_claimable-Has, advance_one, advance_twice,
}
use home_assistant_apps.Wxverify.Jobs.Edges.{
  Legal-running, Legal-start, Legal-fail_row, Legal-reclaim, new_row-named,
}

pub data Change : Type 0 where
  enqueue : ℕ → JobName → Text → ℕ → Change
  enqueue_with_cooldown : ℕ → JobName → Text → ℕ → Option ℕ → ℕ → Change
  claim_next : Lane → ℕ → Change
  end_job : ℕ → ℕ → Text → Ending → Change
  purge_failed : ℕ → ℕ → Change
  reclaim : ℕ → Change
  delete_site : ℕ → Change

unfoldable pub apply : Outside → Change → Table → Table
apply outside (enqueue now n payload tries) t = (enqueue_if_absent outside now n payload tries t).1
apply outside (enqueue_with_cooldown now n payload cooldown success tries) t =
    (enqueue_if_absent_with_cooldown outside now n payload cooldown success tries t).1
apply outside (claim_next lane now) t = (claim outside lane now t).1
apply outside (end_job now id type ending) t = record_outcome outside now id type ending t
apply outside (purge_failed now hours) t = purge_failed_jobs_older_than outside now hours t
apply outside (reclaim now) t = reclaim_all_stale outside now t
apply outside (delete_site site) t = delete (λ r. same_site r.site_id (some site)) t

-- The outside may be another one at each change.
unfoldable pub apply_all : List (Outside × Change) → Table → Table
apply_all [] t = t
apply_all ((outside, c) ∷ cs) t = apply_all cs (apply outside c t)

module _ (outside : Outside) where
  record_ending-Moves :
      (now id : ℕ) (ending : Ending) (t : Table) (r : Row)
      → Increasing t
      → Has r t
      → has_id id r ≡ true
      → is_running r.status ≡ true
      → Moves t (record_ending outside now id ending t)
  unfolding record_ending complete defer_job fail has_name
  record_ending-Moves now id returned t r rising has same e =
      advance_one id _ t r rising has ((==_iff r.id id).0 same)
        (Legal-running r _ e refl (λ n. refl) finished)
  record_ending-Moves now id cancelled t r rising has same e =
      advance_one id _ t r rising has ((==_iff r.id id).0 same)
        (Legal-running r _ e refl (λ n. refl) finished)
  record_ending-Moves now id stopped t r rising has same e = rest
  record_ending-Moves now id (deferred next) t r rising has same e =
      advance_one id _ t r rising has ((==_iff r.id id).0 same)
        (Legal-running r _ e refl (λ n. refl) requeued)
  record_ending-Moves now id (raised error min_delay) t r rising has same e =
      elim (Option-cases (find_row (has_id id) t)) [
        | inl absent ↦ rw (absent, record_ending, fail) rest
        | inr (x, found) ↦
            let h = find_row-Has (has_id id) t x found in
            let x_id : x.id ≡ id = (==_iff x.id id).0 h.1 in
            let r_id : r.id ≡ id = (==_iff r.id id).0 same in
            let x_is_r : x ≡ r =
              All-Has (λ y. has_id r.id y ≡ true → y ≡ r) x t (Increasing-unique r t rising has) h.0
                ((==_iff x.id r.id).1 (x_id ∙ sym r_id)) in
            rw (found, record_ending, fail)
              (advance_one id (λ y. (fail_row outside now error min_delay y).1) t x rising h.0 x_id
                (Legal-fail_row outside now error min_delay x (rw x_is_r e)))
      ]

  record_outcome-Moves :
      (now id : ℕ) (type : Text) (ending : Ending) (t : Table)
      → Increasing t
      → Moves t (record_outcome outside now id type ending t)
  unfolding record_outcome still_claimed
  record_outcome-Moves now id type ending t rising =
      elim (Option-cases
        (find_row (λ r. has_id id r && text_eq r.type type && is_running r.status) t)) [
          | inl absent ↦ rw (absent, record_outcome, still_claimed) rest
          | inr (x, found) ↦
              let h =
                find_row-Has (λ r. has_id id r && text_eq r.type type && is_running r.status) t x
                  found in
              rw (found, record_outcome, still_claimed)
                (record_ending-Moves now id ending t x rising h.0 (and_left _ _ (and_left _ _ h.1))
                  (and_right _ _ h.1))
        ]

  claim-Moves :
      (lane : Lane) (time : ℕ) (t : Table) → Increasing t → Moves t (claim outside lane time t).1
  unfolding claim is_claimable has_name
  claim-Moves lane time t rising =
      elim (Option-cases (first_claimable lane (outside.isoformat_utc time) t)) [
        | inl absent ↦ rw (absent, claim) rest
        | inr (r, found) ↦
            let h = first_claimable-Has lane (outside.isoformat_utc time) t r found in
            let now = outside.isoformat_utc time in
            let legal = Legal-start outside now r (and_left _ _ (and_left _ _ h.1)) in
            rw (found, claim)
              (if_rule (λ (x : Option Row × Table). Moves t x.1) (is_readable outside r) _ _
                (λ _. advance_one r.id (start outside now) t r rising h.0 refl legal)
                (λ _.
                  advance_twice r.id (start outside now) (give_up outside now) t r rising h.0 refl
                    legal
                    (Legal-running (start outside now r) (give_up outside now (start outside now r))
                      refl refl (λ n. refl) gave_up)))
      ]

  enqueue-Moves :
      (now : ℕ) (n : JobName) (payload : Text) (tries : ℕ) (t : Table)
      → Moves t (enqueue_if_absent outside now n payload tries t).1
  unfolding enqueue_if_absent
  enqueue-Moves now n payload tries t =
      elim (Option-cases (find_row (λ r. has_name n r && is_active r.status) t)) [
        | inr (x, found) ↦ rw (found, enqueue_if_absent) rest
        | inl absent ↦
            rw (absent, enqueue_if_absent)
              (if_rule (λ (x : EnqueueResult × Table). Moves t x.1) (is_allowed outside n) _ _
                (λ _. one-Move (
                  inserts n (new_row outside now n payload tries (greatest_id t + 1)) absent
                    (new_row-named outside now n payload tries (greatest_id t + 1)) refl refl refl))
                (λ _. rest))
      ]

  enqueue_with_cooldown-Moves :
      (now : ℕ) (n : JobName) (payload : Text) (cooldown : ℕ) (success : Option ℕ) (tries : ℕ)
      (t : Table)
      → Moves t (enqueue_if_absent_with_cooldown outside now n payload cooldown success tries t).1
  unfolding enqueue_if_absent_with_cooldown
  enqueue_with_cooldown-Moves now n payload cooldown success tries t =
      let added = enqueue-Moves now n payload tries t in
      elim (Option-cases (find_row (λ r. has_name n r && is_active r.status) t)) [
        | inr (x, found) ↦ rw (found, enqueue_if_absent_with_cooldown) added
        | inl absent ↦
            rw (absent, enqueue_if_absent_with_cooldown)
              (if_rule (λ (x : Option EnqueueResult × Table). Moves t x.1)
                (is_suppressed outside now cooldown success (last_row (has_name n) t)) _ _
                (λ _. rest) (λ _. added))
      ]

  pub apply-Moves : (c : Change) (t : Table) → Increasing t → Moves t (apply outside c t)
  unfolding apply purge_failed_jobs_older_than reclaim_all_stale
  apply-Moves (enqueue now n payload tries) t rising = enqueue-Moves now n payload tries t
  apply-Moves (enqueue_with_cooldown now n payload cooldown success tries) t rising =
      enqueue_with_cooldown-Moves now n payload cooldown success tries t
  apply-Moves (claim_next lane now) t rising = claim-Moves lane now t rising
  apply-Moves (end_job now id type ending) t rising =
      record_outcome-Moves now id type ending t rising
  apply-Moves (purge_failed now hours) t rising = one-Move (removes _ refl)
  apply-Moves (reclaim now) t rising = one-Move (
      advances _ _
        (All-All (λ r. is_running r.status ≡ true → Legal r (reclaim_row outside now r)) t
          (λ r e. Legal-reclaim outside now r e))
        refl)
  apply-Moves (delete_site site) t rising = one-Move (removes _ refl)

-- Any sequence of changes keeps the ids rising, and leaves at most one pending or running job of a
-- name.
pub apply_all-IsDeduped :
    (cs : List (Outside × Change)) (t : Table) → IsDeduped t → IsDeduped (apply_all cs t)
unfolding apply_all
apply_all-IsDeduped [] t d = d
apply_all-IsDeduped ((outside, c) ∷ cs) t d =
    apply_all-IsDeduped cs (apply outside c t)
      (Moves-IsDeduped (apply-Moves outside c t d.rising) d)
