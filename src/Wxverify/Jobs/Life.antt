-- ===== src/Wxverify/Jobs/Life.antt =====
-- The life of a job of db/queue.py, by its id: what an abstract queue promises of it.
mod Ends
pub mod Steps
use home_assistant_apps.Prelude.{
  ℕ, ◌+◌, ◌≤◌, ◌<◌, ◌≡◌, refl, sym, ap, ◌∙◌, ◌⊎◌, inl, inr, List, [], ◌∷◌, All, Bool, true, false,
  not, ◌&&◌, ◌||◌, Option, none, some, Text, text_eq, text_eq→≡, ◌==◌, ==_iff, if◌then◌else◌,
  if_rule, and_left, and_right, Bool-cases, Option-cases, arith,
}
use home_assistant_apps.Wxverify.Jobs.{
  Status, pending, running, completed, failed, Row, Table, JobName, has_name, same_text, same_site,
  is_pending, is_running, is_active, find_row, update, delete, greatest_id, has_id, append_row,
  Outside, EnqueueResult, new_row, is_allowed, is_suppressed, last_row, enqueue_if_absent,
  enqueue_if_absent_with_cooldown,
}
use home_assistant_apps.Wxverify.Jobs.Claim.{
  Lane, is_claimable, better, comes_first, first_claimable, is_readable, start, give_up, claim,
}
use home_assistant_apps.Wxverify.Jobs.Outcome.{
  FailDisposition, is_exhausted, failed_row, retried_row, Ending, returned, cancelled, stopped,
  deferred, raised, complete_row, fail_row, defer_row, reclaim_row, complete, fail, defer_job,
  purge_failed_jobs_older_than, is_old_failure, reclaim_all_stale, still_claimed, record_ending,
  record_outcome,
}
use home_assistant_apps.Wxverify.Jobs.Moves.{
  Increasing, Edge, claimed, requeued, finished, gave_up, Legal, Move, advances, inserts, removes,
  Moves, rest, then_move, one-Move, Has, All-Has, All-imp, Increasing-unique,
}
use home_assistant_apps.Wxverify.Jobs.Dedupe.{
  Above-delete, IsDeduped, Increasing-update, Moves-IsDeduped,
}
use home_assistant_apps.Wxverify.Jobs.Changes.{
  Change, enqueue, enqueue_with_cooldown, claim_next, end_job, purge_failed, reclaim, delete_site,
  apply, apply_all, apply-Moves,
}
use home_assistant_apps.Wxverify.Jobs.Dedupe.{
  Above-delete, IsDeduped, Increasing-update, Moves-IsDeduped,
}

-- What the abstract queue knows of a job: its type and its status.
abbrev pub Job : Type 0
Job = Text × Status

abbrev pub job_of : Row → Job
job_of r = (r.type, r.status)

-- The job of an id, if there is one.
unfoldable pub life : ℕ → Table → Option Job
unfolding find_row
life id t = elim (find_row (has_id id) t) [ none ↦ none | some r ↦ some (job_of r) ]

-- The status that an end of the job's run leaves it in.
pub data Ended : Ending → Status → Type 0 where
  returned_ok : Ended returned completed
  was_cancelled : Ended cancelled completed
  was_deferred : {next : Text} → Ended (deferred next) pending
  tries_again : {error : Text} {min_delay : Option ℕ} → Ended (raised error min_delay) pending
  gives_up : {error : Text} {min_delay : Option ℕ} → Ended (raised error min_delay) failed

-- What a change may do to the job of the id. No change gives a job another type.
pub data LifeStep (id : ℕ) : Change → Option Job → Option Job → Type 0 where
  stays : {c : Change} {s : Option Job} → LifeStep id c s s
  arrives :
      {now : ℕ} {n : JobName} {payload : Text} {tries : ℕ}
      → LifeStep id (enqueue now n payload tries) none (some (n.type, pending))
  arrives_later :
      {now : ℕ} {n : JobName} {payload : Text} {cooldown : ℕ} {success : Option ℕ} {tries : ℕ}
      → LifeStep id
          (enqueue_with_cooldown now n payload cooldown success tries)
          none
          (some (n.type, pending))
  starts :
      {lane : Lane} {now : ℕ} {type : Text}
      → LifeStep id (claim_next lane now) (some (type, pending)) (some (type, running))
  is_unreadable :
      {lane : Lane} {now : ℕ} {type : Text}
      → LifeStep id (claim_next lane now) (some (type, pending)) (some (type, failed))
  -- The end of a run names the id and the type of its own job.
  ends :
      {now : ℕ} {type : Text} {ending : Ending} {s : Status}
      → Ended ending s
      → LifeStep id (end_job now id type ending) (some (type, running)) (some (type, s))
  is_purged :
      {now hours : ℕ} {type : Text}
      → LifeStep id (purge_failed now hours) (some (type, failed)) none
  is_reclaimed :
      {now : ℕ} {type : Text}
      → LifeStep id (reclaim now) (some (type, running)) (some (type, pending))
  loses_site : {site : ℕ} {j : Job} → LifeStep id (delete_site site) (some j) none

-- A step of a job whose type and status are known by equations.
pub LifeStep-same :
    {id : ℕ} {c : Change} {k k' k'' : Text} {s s' u : Status}
    → k' ≡ k
    → k'' ≡ k
    → s' ≡ s
    → LifeStep id c (some (k, s)) (some (k, u))
    → LifeStep id c (some (k', s')) (some (k'', u))
LifeStep-same a b e step = rw (a, b, e) step

life-nil : (id : ℕ) → life id [] ≡ none
unfolding life find_row
life-nil id = refl

life-first : (id : ℕ) (x : Row) (t : Table) → has_id id x ≡ true → life id (x ∷ t) ≡ some (job_of x)
unfolding life find_row
life-first id x t e = rw (e, life, find_row) refl

life-later : (id : ℕ) (x : Row) (t : Table) → has_id id x ≡ false → life id (x ∷ t) ≡ life id t
unfolding life find_row
life-later id x t e = rw (e, life, find_row) refl

-- A relation of jobs holds of an update when it holds of the rows that are updated.
pub life-update :
    (P : Option Job → Option Job → Type 0) (id : ℕ) (p : Row → Bool) (f : Row → Row) (t : Table)
    → ((s : Option Job) → P s s)
    → All
        (λ r.
          p r ≡ true
          → (f r).id ≡ r.id × (has_id id r ≡ true → P (some (job_of r)) (some (job_of (f r)))))
        t
    → P (life id t) (life id (update p f t))
unfolding update
life-update P id p f [] stay h = stay _
life-update P id p f (x ∷ t) stay h =
    let ih = life-update P id p f t stay h.1 in
    elim (Bool-cases (has_id id x)) [
      | inl e ↦
          if_rule (λ u. P (life id (x ∷ t)) (life id u)) (p x) _ _
            (λ yes_p.
              rw (life-first id x t e, life-first id (f x) (update p f t) (rw (h.0 yes_p).0 e))
                ((h.0 yes_p).1 e))
            (λ _. rw (life-first id x t e, life-first id x (update p f t) e) (stay _))
      | inr e ↦
          if_rule (λ u. P (life id (x ∷ t)) (life id u)) (p x) _ _
            (λ yes_p.
              rw (life-later id x t e, life-later id (f x) (update p f t) (rw (h.0 yes_p).0 e)) ih)
            (λ _. rw (life-later id x t e, life-later id x (update p f t) e) ih)
    ]

pub life-append :
    (P : Option Job → Option Job → Type 0) (id : ℕ) (t : Table) (r : Row)
    → ((s : Option Job) → P s s)
    → P none (some (job_of r))
    → P (life id t) (life id (append_row t r))
unfolding append_row
life-append P id [] r stay new = elim (Bool-cases (has_id id r)) [
  | inl e ↦ rw (life-first id r [] e) (rw (life-nil id) new)
  | inr e ↦ rw (life-later id r [] e) (stay _)
]
life-append P id (x ∷ t) r stay new = elim (Bool-cases (has_id id x)) [
  | inl e ↦ rw (life-first id x t e, life-first id x (append_row t r) e) (stay _)
  | inr e ↦
      rw (life-later id x t e, life-later id x (append_row t r) e) (life-append P id t r stay new)
]

-- No row has an id under those of the table.
life-under : (id : ℕ) (t : Table) → All (λ x. id < x.id) t → life id t ≡ none
unfolding life find_row
life-under id [] a = refl
life-under id (x ∷ t) a = life-later id x t (ground arith) ∙ life-under id t a.1

pub life-delete :
    (P : Option Job → Option Job → Type 0) (id : ℕ) (p : Row → Bool) (t : Table)
    → Increasing t
    → ((s : Option Job) → P s s)
    → ((r : Row) → p r ≡ true → P (some (job_of r)) none)
    → P (life id t) (life id (delete p t))
unfolding delete Increasing
life-delete P id p [] rising stay gone = stay _
life-delete P id p (x ∷ t) rising stay gone =
    let ih = life-delete P id p t rising.1 stay gone in
    elim (Bool-cases (has_id id x)) [
      | inl e ↦
          if_rule (λ u. P (life id (x ∷ t)) (life id u)) (p x) _ _
            (λ yes_p.
              rw
                (
                  life-first id x t e,
                  life-under id (delete p t)
                      (rw⁻¹ ((==_iff x.id id).0 e) (Above-delete x.id p t rising.0)),
                )
                (gone x yes_p))
            (λ _. rw (life-first id x t e, life-first id x (delete p t) e) (stay _))
      | inr e ↦
          if_rule (λ u. P (life id (x ∷ t)) (life id u)) (p x) _ _
            (λ _. rw (life-later id x t e) ih)
            (λ _. rw (life-later id x t e, life-later id x (delete p t) e) ih)
    ]
