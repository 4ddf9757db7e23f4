-- ===== src/Wxverify/Jobs/Lanes/Outer.antt =====
-- The changes of the job table that neither lane makes, and the jobs that the lanes hold.
use home_assistant_apps.Prelude.{
  ℕ, ◌+◌, ◌≡◌, inl, inr, [], ◌∷◌, All, Bool, true, false, ◌&&◌, Option, none, some, Text, if_rule,
  Bool-cases, Option-cases, arith,
}
use home_assistant_apps.Wxverify.Jobs.{
  Row, Table, is_running, is_active, JobName, has_name, find_row, last_row, update, delete,
  append_row, greatest_id, Outside, EnqueueResult, new_row, is_allowed, is_suppressed,
  enqueue_if_absent, enqueue_if_absent_with_cooldown,
}
use home_assistant_apps.Wxverify.Jobs.Claim.{Lane}
use home_assistant_apps.Wxverify.Jobs.Outcome.{purge_failed_jobs_older_than}
use home_assistant_apps.Wxverify.Jobs.Changes.{
  Change, enqueue, enqueue_with_cooldown, claim_next, end_job, reclaim, purge_failed, delete_site,
  apply,
}
use home_assistant_apps.Wxverify.Jobs.Lanes.{Job, lane_of, is_outer}

-- A row that runs is the job that the lane of its type holds.
abbrev pub IsOwned : (Lane → Option Job) → Row → Type 0
IsOwned jobs r =
    is_running r.status ≡ true → jobs (lane_of r) ≡ some (record { id = r.id; type = r.type })

pub All-update :
    (P Q : Row → Type 0) (p : Row → Bool) (f : Row → Row) (t : Table)
    → ((x : Row) → p x ≡ false → P x → Q x)
    → All (λ x. p x ≡ true → Q (f x)) t
    → All P t
    → All Q (update p f t)
unfolding update
All-update P Q p f [] other one h = tt
All-update P Q p f (x ∷ t) other one h =
    let ih = All-update P Q p f t other one.1 h.1 in
    if_rule (λ u. All Q u) (p x) _ _ (λ e. (one.0 e, ih)) (λ e. (other x e h.0, ih))

pub All-delete : (P : Row → Type 0) (p : Row → Bool) (t : Table) → All P t → All P (delete p t)
unfolding delete
All-delete P p [] h = tt
All-delete P p (x ∷ t) h =
    let ih = All-delete P p t h.1 in if_rule (λ u. All P u) (p x) _ _ (λ e. ih) (λ e. (h.0, ih))

pub All-append : (P : Row → Type 0) (t : Table) (r : Row) → P r → All P t → All P (append_row t r)
unfolding append_row
All-append P [] r new h = (new, tt)
All-append P (x ∷ t) r new h = (h.0, All-append P t r new h.1)

pub find_row-none : (p : Row → Bool) (t : Table) → find_row p t ≡ none → All (λ x. p x ≡ false) t
unfolding find_row
find_row-none p [] e = tt
find_row-none p (x ∷ t) e = elim (Bool-cases (p x)) [
  | inl h ↦ grind arith
  | inr h ↦ (h, find_row-none p t (grind arith))
]

module _ (outside : Outside) (jobs : Lane → Option Job) where
  All-enqueue :
      (now : ℕ) (n : JobName) (payload : Text) (tries : ℕ) (t : Table)
      → All (IsOwned jobs) t
      → All (IsOwned jobs) (enqueue_if_absent outside now n payload tries t).1
  unfolding enqueue_if_absent
  All-enqueue now n payload tries t h =
      elim (Option-cases (find_row (λ r. has_name n r && is_active r.status) t)) [
        | inr (x, found) ↦ rw (found, enqueue_if_absent) h
        | inl absent ↦
            rw (absent, enqueue_if_absent)
              (if_rule (λ (x : EnqueueResult × Table). All (IsOwned jobs) x.1)
                (is_allowed outside n) _ _
                (λ _.
                  All-append (IsOwned jobs) t
                    (new_row outside now n payload tries (greatest_id t + 1)) (λ e. grind arith) h)
                (λ _. h))
      ]

  pub All-outer :
      (c : Change) (t : Table)
      → is_outer c ≡ true
      → All (IsOwned jobs) t
      → All (IsOwned jobs) (apply outside c t)
  unfolding apply enqueue_if_absent_with_cooldown purge_failed_jobs_older_than
  All-outer (enqueue now n payload tries) t e h = All-enqueue now n payload tries t h
  All-outer (enqueue_with_cooldown now n payload cooldown success tries) t e h =
      let added = All-enqueue now n payload tries t h in
      elim (Option-cases (find_row (λ r. has_name n r && is_active r.status) t)) [
        | inr (x, found) ↦ rw (found, apply, enqueue_if_absent_with_cooldown) added
        | inl absent ↦
            rw (absent, apply, enqueue_if_absent_with_cooldown)
              (if_rule (λ (x : Option EnqueueResult × Table). All (IsOwned jobs) x.1)
                (is_suppressed outside now cooldown success (last_row (has_name n) t)) _ _ (λ _. h)
                (λ _. added))
      ]
  All-outer (purge_failed now hours) t e h = All-delete (IsOwned jobs) _ t h
  All-outer (delete_site site) t e h = All-delete (IsOwned jobs) _ t h
  All-outer (claim_next lane now) t e h = grind arith
  All-outer (end_job now id type ending) t e h = grind arith
  All-outer (reclaim now) t e h = grind arith
