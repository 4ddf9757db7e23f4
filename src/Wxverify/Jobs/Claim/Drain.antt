-- ===== src/Wxverify/Jobs/Claim/Drain.antt =====
-- Repeated claims of one lane, by `_claim` of wxverify/wxverify/db/queue.py.
use home_assistant_apps.Prelude.{
  sym, ap, ◌∙◌, some, codes, if◌then◌else◌, ℕ, zero, suc, ◌+◌, ◌≤◌, ◌<◌, ◌≡◌, refl, inl, inr, [],
  ◌∷◌, All, Bool, true, false, Option, ==_iff, if_rule, Option-cases, arith,
}
use home_assistant_apps.Wxverify.Jobs.{running, failed, Row, Table, has_id, update, count, Outside}
use home_assistant_apps.Wxverify.Jobs.Moves.{Has, Increasing}
use home_assistant_apps.Wxverify.Jobs.Rows.{by_id, first_claimable-Has, update-update}
use home_assistant_apps.Wxverify.Jobs.Claim.{
  Lane, is_claimable, first_claimable, is_readable, start, give_up, claim,
}
use home_assistant_apps.Wxverify.Jobs.Dedupe.{IsDeduped, Moves-IsDeduped}
use home_assistant_apps.Wxverify.Jobs.Changes.{claim_next, apply, apply-Moves}
use home_assistant_apps.Wxverify.Jobs.Claim.Order.{first_claimable-none}

count-update_le :
    (q p : Row → Bool) (f : Row → Row) (t : Table)
    → ((x : Row) → q (f x) ≡ false)
    → count q (update p f t) ≤ count q t
unfolding count update
count-update_le q p f [] h = omega arith
count-update_le q p f (x ∷ t) h =
    let ih = count-update_le q p f t h in
    if_rule (λ u. count q u ≤ count q (x ∷ t)) (p x) _ _ (λ _. rw (h x) (omega (arith, ih)))
      (λ _. omega (arith, ih))

-- One row fewer has the property.
count-update_lt :
    (q p : Row → Bool) (f : Row → Row) (r : Row) (t : Table)
    → ((x : Row) → q (f x) ≡ false)
    → Has r t
    → p r ≡ true
    → q r ≡ true
    → count q (update p f t) < count q t
unfolding count update Has
count-update_lt q p f r [] h m pr qr = absurd m
count-update_lt q p f r (x ∷ t) h (inl same) pr qr =
    rw (same, pr, h r, qr) (omega (arith, count-update_le q p f t h))
count-update_lt q p f r (x ∷ t) h (inr m) pr qr =
    let ih = count-update_lt q p f r t h m pr qr in
    if_rule (λ u. count q u < count q (x ∷ t)) (p x) _ _ (λ _. rw (h x) (omega (arith, ih)))
      (λ _. omega (arith, ih))

count-none : (q : Row → Bool) (t : Table) → All (λ x. q x ≡ false) t → count q t ≡ 0
unfolding count
count-none q [] h = refl
count-none q (x ∷ t) h = rw h.0 (omega (arith, count-none q t h.1))

none-count : (q : Row → Bool) (t : Table) → count q t ≤ 0 → All (λ x. q x ≡ false) t
unfolding count
none-count q [] h = tt
none-count q (x ∷ t) h = (ground arith, none-count q t (omega arith))

module _ (outside : Outside) (lane : Lane) (time : ℕ) where
  abbrev waits_now : Row → Bool
  waits_now = is_claimable lane (outside.isoformat_utc time)

  -- A claim takes a row from those that wait, when there is one.
  claim-count :
      (t : Table) (k : ℕ)
      → count waits_now t ≤ k + 1
      → count waits_now (claim outside lane time t).1 ≤ k
  unfolding claim is_claimable
  claim-count t k le =
      let now = outside.isoformat_utc time in
      elim (Option-cases (first_claimable lane now t)) [
        | inl absent ↦
            rw (absent, claim)
              (omega (arith, count-none waits_now t (first_claimable-none lane now t absent)))
        | inr (r, found) ↦
            let h = first_claimable-Has lane now t r found in
            let same = (==_iff r.id r.id).1 refl in
            rw (found, claim)
              (if_rule (λ (x : Option Row × Table). count waits_now x.1 ≤ k) (is_readable outside r)
                _ _
                (λ _. omega (
                  arith,
                  le,
                  count-update_lt waits_now (has_id r.id) (start outside now) r t (λ x. refl) h.0
                      same h.1,
                ))
                (λ _.
                  rw (update-update r.id (start outside now) (give_up outside now) t (λ x. refl)) (
                    omega (
                      arith,
                      le,
                      count-update_lt waits_now (has_id r.id)
                          (λ x. give_up outside now (start outside now x)) r t (λ x. refl) h.0 same
                          h.1,
                    ))))
      ]

  -- What becomes of a row: one that waits is running, or failed if its payload is unreadable.
  abbrev pub settled : Row → Row
  settled r =
      let now = outside.isoformat_utc time in
      if is_claimable lane now r
      then (if is_readable outside r
          then record r { status = running; updated_at = now }
          else record r {
            status = failed;
            last_error = some (codes "unreadable job row");
            updated_at = now;
          })
      else r

  unfoldable pub settled_rows : Table → Table
  settled_rows [] = []
  settled_rows (r ∷ t) = settled r ∷ settled_rows t

  settled_rows-none : (t : Table) → All (λ x. waits_now x ≡ false) t → settled_rows t ≡ t
  unfolding settled_rows
  settled_rows-none [] h = refl
  settled_rows-none (x ∷ t) h = rw h.0 (ap (λ u. x ∷ u) (settled_rows-none t h.1))

  -- A row that is settled stays so.
  settled_rows-update :
      (p : Row → Bool) (f : Row → Row) (t : Table)
      → All (λ x. p x ≡ true → settled (f x) ≡ settled x) t
      → settled_rows (update p f t) ≡ settled_rows t
  unfolding settled_rows update
  settled_rows-update p f [] h = refl
  settled_rows-update p f (x ∷ t) h =
      let ih = settled_rows-update p f t h.1 in
      if_rule (λ u. settled_rows u ≡ settled x ∷ settled_rows t) (p x) _ _
        (λ e. ap (λ y. y ∷ settled_rows (update p f t)) (h.0 e) ∙ ap (λ u. settled x ∷ u) ih)
        (λ _. ap (λ u. settled x ∷ u) ih)

  settled_rows-claim :
      (t : Table) → Increasing t → settled_rows (claim outside lane time t).1 ≡ settled_rows t
  unfolding claim is_claimable
  settled_rows-claim t rising =
      let now = outside.isoformat_utc time in
      elim (Option-cases (first_claimable lane now t)) [
        | inl absent ↦ rw (absent, claim) refl
        | inr (r, found) ↦
            let h = first_claimable-Has lane now t r found in
            let same = (==_iff r.id r.id).1 refl in
            rw (found, claim)
              (if_rule (λ (x : Option Row × Table). settled_rows x.1 ≡ settled_rows t)
                (is_readable outside r) _ _
                (λ reads. settled_rows-update (has_id r.id) (start outside now) t (
                  by_id (λ x. settled (start outside now x) ≡ settled x) r.id t r rising h.0 same
                    (rw (h.1, reads) refl)))
                (λ fails.
                  rw (update-update r.id (start outside now) (give_up outside now) t (λ x. refl)) (
                    settled_rows-update (has_id r.id)
                      (λ x. give_up outside now (start outside now x)) t
                      (by_id (λ x. settled (give_up outside now (start outside now x)) ≡ settled x)
                        r.id t r rising h.0 same (rw (h.1, fails) refl)))))
      ]

  claim-IsDeduped : (t : Table) → IsDeduped t → IsDeduped (claim outside lane time t).1
  unfolding apply
  claim-IsDeduped t d = Moves-IsDeduped (apply-Moves outside (claim_next lane time) t d.rising) d

  unfoldable pub claims : ℕ → Table → Table
  claims zero t = t
  claims (suc k) t = claims k (claim outside lane time t).1

  -- If the ids rise along the table and no name has two pending or running jobs, then as many claims
  -- as rows of the lane are due leave each of these rows running, or failed with the error of an
  -- unreadable row if its payload is unreadable, both stamped with the time, and every other row as
  -- it was.
  pub claims-drain :
      (k : ℕ) (t : Table)
      → IsDeduped t
      → count (is_claimable lane (outside.isoformat_utc time)) t ≤ k
      → claims k t ≡ settled_rows t
  unfolding claims
  claims-drain zero t d le = sym (settled_rows-none t (none-count waits_now t le))
  claims-drain (suc k) t d le =
      claims-drain k (claim outside lane time t).1 (claim-IsDeduped t d)
        (claim-count t k (omega (arith, le)))
      ∙ settled_rows-claim t d.rising
