-- ===== src/Wxverify/Jobs/Dedupe.antt =====
-- The invariant of the table of db/queue.py: rising ids, and active jobs of one name.
use home_assistant_apps.Prelude.{
  ℕ, ◌+◌, ◌≤◌, ◌<◌, ◌≡◌, refl, inl, inr, [], ◌∷◌, All, Bool, true, ◌&&◌, none, if◌then◌else◌,
  if_rule, Bool-cases, arith,
}
use home_assistant_apps.Wxverify.Jobs.{
  Status, Row, Table, JobName, has_name, is_active, find_row, update, delete, count, greatest_id,
  append_row,
}
use home_assistant_apps.Wxverify.Jobs.Moves.{
  Increasing, Edge, claimed, requeued, finished, gave_up, Legal, Move, advances, inserts, removes,
  Moves, rest, then_move,
}

abbrev pub is_active_of : JobName → Row → Bool
is_active_of n r = has_name n r && is_active r.status

-- No two pending or running jobs have one name.
pub record IsDeduped (t : Table) : Type 0 where
  pub rising : Increasing t
  pub at_most_one : (n : JobName) → count (is_active_of n) t ≤ 1

abbrev pub Above : ℕ → Table → Type 0
Above n t = All (λ x. n < x.id) t

Above-update :
    (n : ℕ) (p : Row → Bool) (f : Row → Row) (t : Table)
    → All (λ r. p r ≡ true → Legal r (f r)) t
    → Above n t
    → Above n (update p f t)
unfolding update
Above-update n p f [] h a = tt
Above-update n p f (r ∷ t) h a =
    let ih = Above-update n p f t h.1 a.1 in
    if_rule (λ u. Above n u) (p r) _ _ (λ e. (omega (arith, (h.0 e).same_id, a.0), ih))
      (λ e. (a.0, ih))

pub Increasing-update :
    (p : Row → Bool) (f : Row → Row) (t : Table)
    → All (λ r. p r ≡ true → Legal r (f r)) t
    → Increasing t
    → Increasing (update p f t)
unfolding Increasing update
Increasing-update p f [] h a = tt
Increasing-update p f (r ∷ t) h a =
    let ih = Increasing-update p f t h.1 a.1 in
    let above = Above-update r.id p f t h.1 a.0 in
    if_rule Increasing (p r) _ _ (λ e. (rw (h.0 e).same_id above, ih)) (λ e. (above, ih))

Edge-is_active : (s s' : Status) → Edge s s' → is_active s ≡ true
Edge-is_active s s' claimed = refl
Edge-is_active s s' requeued = refl
Edge-is_active s s' finished = refl
Edge-is_active s s' gave_up = refl

advance_le :
    (a a' b b' : Bool) → a' ≡ a → b ≡ true → (if a' && b' then 1 else 0) ≤ (if a && b then 1 else 0)
advance_le a a' b b' e h = ground arith

count-update_le :
    (n : JobName) (p : Row → Bool) (f : Row → Row) (t : Table)
    → All (λ r. p r ≡ true → Legal r (f r)) t
    → count (is_active_of n) (update p f t) ≤ count (is_active_of n) t
unfolding update count
count-update_le n p f [] h = omega arith
count-update_le n p f (r ∷ t) h =
    let ih = count-update_le n p f t h.1 in
    if_rule (λ u. count (is_active_of n) u ≤ count (is_active_of n) (r ∷ t)) (p r) _ _
      (λ e.
        let legal = h.0 e in
        omega (
          arith,
          ih,
          advance_le (has_name n r) (has_name n (f r)) (is_active r.status) (is_active (f r).status)
              (legal.same_name n) (Edge-is_active _ _ legal.edge),
        ))
      (λ e. omega (arith, ih))

pub Above-delete : (n : ℕ) (p : Row → Bool) (t : Table) → Above n t → Above n (delete p t)
unfolding delete
Above-delete n p [] a = tt
Above-delete n p (r ∷ t) a =
    let ih = Above-delete n p t a.1 in if_rule (λ u. Above n u) (p r) _ _ (λ e. ih) (λ e. (a.0, ih))

Increasing-delete : (p : Row → Bool) (t : Table) → Increasing t → Increasing (delete p t)
unfolding Increasing delete
Increasing-delete p [] a = tt
Increasing-delete p (r ∷ t) a =
    let ih = Increasing-delete p t a.1 in
    if_rule Increasing (p r) _ _ (λ e. ih) (λ e. (Above-delete r.id p t a.0, ih))

count-delete_le : (q p : Row → Bool) (t : Table) → count q (delete p t) ≤ count q t
unfolding delete count
count-delete_le q p [] = omega arith
count-delete_le q p (r ∷ t) =
    let ih = count-delete_le q p t in
    if_rule (λ u. count q u ≤ count q (r ∷ t)) (p r) _ _ (λ e. omega (arith, ih))
      (λ e. omega (arith, ih))

Above-append : (n : ℕ) (t : Table) (r : Row) → Above n t → n < r.id → Above n (append_row t r)
unfolding append_row
Above-append n [] r a h = (h, tt)
Above-append n (x ∷ t) r a h = (a.0, Above-append n t r a.1 h)

Increasing-append :
    (t : Table) (r : Row) → Increasing t → greatest_id t < r.id → Increasing (append_row t r)
unfolding Increasing append_row greatest_id
Increasing-append [] r a h = (tt, tt)
Increasing-append (x ∷ t) r a h =
    (Above-append x.id t r a.0 (omega arith), Increasing-append t r a.1 (omega arith))

count-append :
    (q : Row → Bool) (t : Table) (r : Row)
    → count q (append_row t r) ≡ count q t + (if q r then 1 else 0)
unfolding append_row count
count-append q [] r = omega arith
count-append q (x ∷ t) r = omega (arith, count-append q t r)

count-none : (q : Row → Bool) (t : Table) → find_row q t ≡ none → count q t ≡ 0
unfolding find_row count
count-none q [] e = refl
count-none q (x ∷ t) e = ground (arith, count-none q t)

count-insert_le :
    (n m : JobName) (t : Table) (r : Row)
    → count (is_active_of n) t ≡ 0
    → (has_name m r ≡ true → m ≡ n)
    → count (is_active_of m) t ≤ 1
    → count (is_active_of m) (append_row t r) ≤ 1
count-insert_le n m t r zero_n same le = elim (Bool-cases (has_name m r)) [
  | inl yes_name ↦ rw count-append (rw (same yes_name) (rw zero_n (ground arith)))
  | inr other ↦ rw count-append (rw other (omega arith))
]

Move-IsDeduped : {t u : Table} → Move t u → IsDeduped t → IsDeduped u
Move-IsDeduped {t} {u} (advances p f legal e) d = rw e (record {
  rising = Increasing-update p f t legal d.rising;
  at_most_one = λ n. omega (arith, count-update_le n p f t legal, d.at_most_one n);
})
Move-IsDeduped {t} {u} (inserts n r absent named new_id fresh e) d = rw e (record {
  rising = Increasing-append t r d.rising (omega (arith, new_id));
  at_most_one = λ m. count-insert_le n m t r (count-none _ t absent) (named m) (d.at_most_one m);
})
Move-IsDeduped {t} {u} (removes p e) d = rw e (record {
  rising = Increasing-delete p t d.rising;
  at_most_one = λ n. omega (arith, count-delete_le (is_active_of n) p t, d.at_most_one n);
})

pub Moves-IsDeduped : {t u : Table} → Moves t u → IsDeduped t → IsDeduped u
Moves-IsDeduped rest d = d
Moves-IsDeduped (then_move ms m) d = Move-IsDeduped m (Moves-IsDeduped ms d)
