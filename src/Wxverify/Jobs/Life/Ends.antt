-- ===== src/Wxverify/Jobs/Life/Ends.antt =====
-- The end of a run, as `run_claimed_job` records it, as a step of the abstract queue.
use home_assistant_apps.Prelude.{
  ℕ, ◌≡◌, refl, sym, subst, ◌∙◌, inl, inr, true, ◌&&◌, Option, some, Text, text_eq, text_eq→≡,
  ==_iff, if_rule, and_left, and_right, Option-cases, arith,
}
use home_assistant_apps.Wxverify.Jobs.{
  Status, pending, running, completed, failed, Row, Table, is_pending, is_running, is_failed,
  find_row, update, has_id, Outside,
}
use home_assistant_apps.Wxverify.Jobs.Outcome.{
  FailDisposition, is_exhausted, Ending, returned, cancelled, stopped, deferred, raised, fail_row,
  complete, fail, defer_job, still_claimed, record_ending, record_outcome,
}
use home_assistant_apps.Wxverify.Jobs.Moves.{Increasing, Has}
use home_assistant_apps.Wxverify.Jobs.Changes.{end_job}
use home_assistant_apps.Wxverify.Jobs.Rows.{find_row-Has, by_id}
use home_assistant_apps.Wxverify.Jobs.Life.{
  job_of, life, returned_ok, was_cancelled, was_deferred, tries_again, gives_up, LifeStep,
  LifeStep-same, stays, ends, life-update,
}

pub pending_only : (s : Status) → is_pending s ≡ true → s ≡ pending
pending_only pending e = refl
pending_only running e = grind arith
pending_only completed e = grind arith
pending_only failed e = grind arith

pub running_only : (s : Status) → is_running s ≡ true → s ≡ running
running_only running e = refl
running_only pending e = grind arith
running_only completed e = grind arith
running_only failed e = grind arith

pub failed_only : (s : Status) → is_failed s ≡ true → s ≡ failed
failed_only failed e = refl
failed_only pending e = grind arith
failed_only running e = grind arith
failed_only completed e = grind arith

module _ (outside : Outside) (id : ℕ) where
  -- `fail` leaves the job pending or failed.
  fail_row-step :
      (now i : ℕ) (type error : Text) (min_delay : Option ℕ) (r : Row)
      → ((fail_row outside now error min_delay r).1.id ≡ r.id
          × (fail_row outside now error min_delay r).1.type ≡ r.type)
        × LifeStep i
            (end_job now i type (raised error min_delay))
            (some (type, running))
            (some (type, (fail_row outside now error min_delay r).1.status))
  unfolding fail_row
  fail_row-step now i type error min_delay r =
      if_rule
        (λ (x : FailDisposition × Row).
          (x.1.id ≡ r.id × x.1.type ≡ r.type)
          × LifeStep i (end_job now i type (raised error min_delay)) (some (type, running))
              (some (type, x.1.status)))
        (is_exhausted r) _ _ (λ _. ((refl, refl), ends gives_up))
        (λ _. ((refl, refl), ends tries_again))

  one_ends :
      (now i : ℕ) (type : Text) (ending : Ending) (f : Row → Row) (t : Table) (r : Row)
      → Increasing t
      → Has r t
      → has_id i r ≡ true
      → r.type ≡ type
      → is_running r.status ≡ true
      → (f r).id ≡ r.id × (f r).type ≡ r.type
      → LifeStep i (end_job now i type ending) (some (type, running)) (some (type, (f r).status))
      → LifeStep id (end_job now i type ending) (life id t) (life id (update (has_id i) f t))
  one_ends now i type ending f t r rising has same kind runs keeps step =
      life-update (LifeStep id (end_job now i type ending)) id (has_id i) f t (λ s. stays)
        (by_id
          (λ x.
            (f x).id ≡ x.id
            × (has_id id x ≡ true
                → LifeStep id (end_job now i type ending) (some (job_of x)) (some (job_of (f x)))))
          i t r rising has same
          (
            keeps.0,
            λ own.
                subst
                  (λ j.
                    LifeStep j (end_job now i type ending) (some (job_of r)) (some (job_of (f r))))
                  (sym ((==_iff r.id i).0 same) ∙ (==_iff r.id id).0 own)
                  (LifeStep-same kind (keeps.1 ∙ kind) (running_only r.status runs) step),
          ))

  record_ending-step :
      (now i : ℕ) (type : Text) (ending : Ending) (t : Table) (r : Row)
      → Increasing t
      → Has r t
      → has_id i r ≡ true
      → r.type ≡ type
      → is_running r.status ≡ true
      → LifeStep id
          (end_job now i type ending)
          (life id t)
          (life id (record_ending outside now i ending t))
  unfolding record_ending complete defer_job fail
  record_ending-step now i type returned t r rising has same kind runs =
      one_ends now i type returned _ t r rising has same kind runs (refl, refl) (ends returned_ok)
  record_ending-step now i type cancelled t r rising has same kind runs =
      one_ends now i type cancelled _ t r rising has same kind runs (refl, refl)
        (ends was_cancelled)
  record_ending-step now i type stopped t r rising has same kind runs = stays
  record_ending-step now i type (deferred next) t r rising has same kind runs =
      one_ends now i type (deferred next) _ t r rising has same kind runs (refl, refl)
        (ends was_deferred)
  record_ending-step now i type (raised error min_delay) t r rising has same kind runs =
      elim (Option-cases (find_row (has_id i) t)) [
        | inl absent ↦ rw (absent, record_ending, fail) stays
        | inr (x, found) ↦
            let step = fail_row-step now i type error min_delay r in
            rw (found, record_ending, fail)
              (one_ends now i type (raised error min_delay)
                (λ y. (fail_row outside now error min_delay y).1) t r rising has same kind runs
                step.0 step.1)
      ]

  pub record_outcome-step :
      (now i : ℕ) (type : Text) (ending : Ending) (t : Table)
      → Increasing t
      → LifeStep id
          (end_job now i type ending)
          (life id t)
          (life id (record_outcome outside now i type ending t))
  unfolding record_outcome still_claimed
  record_outcome-step now i type ending t rising =
      elim (Option-cases
        (find_row (λ r. has_id i r && text_eq r.type type && is_running r.status) t)) [
          | inl absent ↦ rw (absent, record_outcome, still_claimed) stays
          | inr (x, found) ↦
              let h =
                find_row-Has (λ r. has_id i r && text_eq r.type type && is_running r.status) t x
                  found in
              rw (found, record_outcome, still_claimed)
                (record_ending-step now i type ending t x rising h.0
                  (and_left _ _ (and_left _ _ h.1))
                  (text_eq→≡ x.type type (and_right _ _ (and_left _ _ h.1))) (and_right _ _ h.1))
        ]
