-- ===== src/Wxverify/Jobs/Moves.antt =====
-- What the operations of db/queue.py may do to the table: rows advance, a row comes in, rows go.
use home_assistant_apps.Prelude.{
  ◌+◌, ◌<◌, ◌≡◌, ap, ◌⊎◌, inl, inr, [], ◌∷◌, All, Bool, true, ◌&&◌, none, ==_iff, arith,
}
use home_assistant_apps.Wxverify.Jobs.{
  Status, pending, running, completed, failed, Row, Table, JobName, has_name, is_active, find_row,
  update, delete, greatest_id, has_id, append_row,
}

-- The ids rise along the table.
unfoldable pub Increasing : Table → Type 0
Increasing [] = Unit
Increasing (r ∷ t) = All (λ x. r.id < x.id) t × Increasing t

-- The changes of a status.
pub data Edge : Status → Status → Type 0 where
  claimed : Edge pending running
  requeued : Edge running pending
  finished : Edge running completed
  gave_up : Edge running failed

-- The row keeps what it is found by, and its status goes along an edge.
pub record Legal (r r' : Row) : Type 0 where
  pub same_id : r'.id ≡ r.id
  pub same_name : (n : JobName) → has_name n r' ≡ has_name n r
  pub edge : Edge r.status r'.status

pub data Move (t u : Table) : Type 0 where
  advances :
      (p : Row → Bool) (f : Row → Row)
      → All (λ r. p r ≡ true → Legal r (f r)) t
      → u ≡ update p f t
      → Move t u
  inserts :
      (n : JobName) (r : Row)
      → find_row (λ x. has_name n x && is_active x.status) t ≡ none
      → ((m : JobName) → has_name m r ≡ true → m ≡ n)
      → r.id ≡ greatest_id t + 1
      → r.status ≡ pending
      → u ≡ append_row t r
      → Move t u
  removes : (p : Row → Bool) → u ≡ delete p t → Move t u

pub data Moves (t : Table) : Table → Type 0 where
  rest : Moves t t
  then_move : {u v : Table} → Moves t u → Move u v → Moves t v

pub one-Move : {t u : Table} → Move t u → Moves t u
one-Move m = then_move rest m

-- Membership.
unfoldable pub Has : Row → Table → Type 0
Has r [] = ⊥
Has r (x ∷ t) = (x ≡ r) ⊎ Has r t

pub All-Has {κ} : (P : Row → Type κ) (r : Row) (t : Table) → All P t → Has r t → P r
unfolding Has
All-Has P r [] h m = elim m [ ]
All-Has P r (x ∷ t) h (inl e) = rw⁻¹ e h.0
All-Has P r (x ∷ t) h (inr m) = All-Has P r t h.1 m

pub All-imp {κ μ} :
    (P : Row → Type κ) (Q : Row → Type μ) (t : Table) → ((r : Row) → P r → Q r) → All P t → All Q t
All-imp P Q [] k h = tt
All-imp P Q (x ∷ t) k h = (k x h.0, All-imp P Q t k h.1)

pub All-All : (P : Row → Type 0) (t : Table) → ((r : Row) → P r) → All P t
All-All P [] k = tt
All-All P (x ∷ t) k = (k x, All-All P t k)

-- In an increasing table an id has one row.
pub Increasing-unique :
    (r : Row) (t : Table) → Increasing t → Has r t → All (λ x. has_id r.id x ≡ true → x ≡ r) t
unfolding Increasing Has
Increasing-unique r [] h m = tt
Increasing-unique r (x ∷ t) h (inl e) = (
  λ _. e,
  All-imp (λ y. x.id < y.id) (λ y. has_id r.id y ≡ true → y ≡ r) t
      (λ y lt same.
        let e' : x.id ≡ r.id = ap (λ z. z.id) e in
        absurd (omega (arith, (==_iff y.id r.id).0 same)))
      h.0,
)
Increasing-unique r (x ∷ t) h (inr m) =
    let lt : x.id < r.id = All-Has (λ y. x.id < y.id) r t h.0 m in
    (λ same. absurd (omega (arith, (==_iff x.id r.id).0 same)), Increasing-unique r t h.1 m)
