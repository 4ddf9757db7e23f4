-- ===== src/Wxverify/Jobs/Enqueue.antt =====
-- What `enqueue_if_absent` of wxverify/wxverify/db/queue.py promises its callers.
use home_assistant_apps.Prelude.{
  ℕ, ◌+◌, ◌≡◌, refl, inl, inr, [], ◌∷◌, Bool, true, false, ◌&&◌, Option, none, some, Text,
  text_eq_refl, ==_iff, Bool-cases, Option-cases, arith,
}
use home_assistant_apps.Wxverify.Jobs.{
  Row, Table, JobName, has_name, same_site, is_active, find_row, append_row, greatest_id, Outside,
  is_allowed, new_row, enqueue_if_absent,
}

find_row-append :
    (p : Row → Bool) (t : Table) (r : Row)
    → find_row p t ≡ none
    → p r ≡ true
    → find_row p (append_row t r) ≡ some r
unfolding find_row append_row
find_row-append p [] r e h = rw h refl
find_row-append p (x ∷ t) r e h = elim (Bool-cases (p x)) [
  | inl k ↦ grind arith
  | inr k ↦ rw k (find_row-append p t r (grind arith) h)
]

same_site_refl : (s : Option ℕ) → same_site s s ≡ true
same_site_refl none = refl
same_site_refl (some a) = (==_iff a a).1 refl

-- Whether the row is a pending or running job of the name.
abbrev pub is_active_job : JobName → Row → Bool
is_active_job n r = has_name n r && is_active r.status

module _ (outside : Outside) where
  new_row-is_active_job :
      (now : ℕ) (n : JobName) (payload : Text) (tries id : ℕ)
      → is_active_job n (new_row outside now n payload tries id) ≡ true
  unfolding has_name
  new_row-is_active_job now n payload tries id =
      rw (text_eq_refl n.type, text_eq_refl n.job_key, same_site_refl n.site_id) refl

  -- For a name that the table allows, an enqueue leaves a pending or running job of the name, and says
  -- its id; when it says that it created none, the table is as before.
  pub enqueue_if_absent-Active :
      (now : ℕ) (n : JobName) (payload : Text) (tries : ℕ) (t : Table)
      → is_allowed outside n ≡ true
      → (r : Row) × (find_row (is_active_job n) (enqueue_if_absent outside now n payload tries t).1
            ≡ some r
          × (enqueue_if_absent outside now n payload tries t).0.job_id ≡ some r.id
          × ((enqueue_if_absent outside now n payload tries t).0.created ≡ false
              → (enqueue_if_absent outside now n payload tries t).1 ≡ t))
  unfolding enqueue_if_absent
  enqueue_if_absent-Active now n payload tries t allowed =
      elim (Option-cases (find_row (is_active_job n) t)) [
        | inr (x, found) ↦ rw (found, enqueue_if_absent) (x, (found, refl, λ _. refl))
        | inl absent ↦
            rw (absent, enqueue_if_absent, allowed)
              (let new = new_row outside now n payload tries (greatest_id t + 1) in
                (
                  new,
                  (
                    find_row-append (is_active_job n) t new absent
                        (new_row-is_active_job now n payload tries (greatest_id t + 1)),
                    refl,
                    λ e. grind arith,
                  ),
                ))
      ]
