-- ===== src/Wxverify/Jobs/Rows.antt =====
-- Finding a row in the table of db/queue.py, and moving the row of one id along.
use home_assistant_apps.Prelude.{
  ℕ, ◌≡◌, refl, sym, ap, ◌∙◌, ◌⊎◌, inl, inr, [], ◌∷◌, All, Bool, true, false, Option, none, some,
  Text, ==_iff, if◌then◌else◌, if_rule, Bool-cases, arith,
}
use home_assistant_apps.Wxverify.Jobs.{Row, Table, find_row, update, has_id}
use home_assistant_apps.Wxverify.Jobs.Claim.{
  Lane, is_claimable, better, comes_first, first_claimable,
}
use home_assistant_apps.Wxverify.Jobs.Moves.{
  Increasing, Legal, advances, Moves, then_move, one-Move, Has, All-imp, Increasing-unique,
}
use home_assistant_apps.Wxverify.Jobs.Dedupe.{Increasing-update}

pub find_row-Has :
    (p : Row → Bool) (t : Table) (r : Row) → find_row p t ≡ some r → Has r t × p r ≡ true
unfolding find_row Has
find_row-Has p [] r e = grind arith
find_row-Has p (x ∷ t) r e = elim (Bool-cases (p x)) [
  | inl h ↦ let same : x ≡ r = grind arith in (inl same, rw⁻¹ same h)
  | inr h ↦ let ih = find_row-Has p t r (grind arith) in (inr ih.0, ih.1)
]

better-cases : (r : Row) (b : Option Row) (s : Row) → better r b ≡ some s → (r ≡ s) ⊎ (b ≡ some s)
better-cases r none s e = inl (grind arith)
better-cases r (some b) s e = elim (Bool-cases (comes_first r b)) [
  | inl h ↦ inl (grind arith)
  | inr h ↦ inr (grind arith)
]

pub first_claimable-Has :
    (lane : Lane) (now : Text) (t : Table) (r : Row)
    → first_claimable lane now t ≡ some r
    → Has r t × is_claimable lane now r ≡ true
unfolding first_claimable Has
first_claimable-Has lane now [] r e = grind arith
first_claimable-Has lane now (x ∷ t) r e = elim (Bool-cases (is_claimable lane now x)) [
  | inl h ↦ elim (better-cases x (first_claimable lane now t) r (grind arith)) [
    | inl same ↦ (inl same, rw⁻¹ same h)
    | inr later ↦ let ih = first_claimable-Has lane now t r later in (inr ih.0, ih.1)
  ]
  | inr h ↦ let ih = first_claimable-Has lane now t r (grind arith) in (inr ih.0, ih.1)
]

-- The row of one id advances.
advance-Legal :
    (id : ℕ) (f : Row → Row) (t : Table) (r : Row)
    → Increasing t
    → Has r t
    → r.id ≡ id
    → Legal r (f r)
    → All (λ x. has_id id x ≡ true → Legal x (f x)) t
advance-Legal id f t r rising has same legal =
    All-imp (λ x. has_id r.id x ≡ true → x ≡ r) (λ x. has_id id x ≡ true → Legal x (f x)) t
      (λ x unique h. rw (unique (rw same h)) legal) (Increasing-unique r t rising has)

pub Has-update :
    (p : Row → Bool) (f : Row → Row) (r : Row) (t : Table)
    → Has r t
    → p r ≡ true
    → Has (f r) (update p f t)
unfolding update Has
Has-update p f r [] h e = h
Has-update p f r (x ∷ t) (inl same) e = rw (same, e) (inl refl)
Has-update p f r (x ∷ t) (inr m) e =
    let ih = Has-update p f r t m e in if_rule (Has (f r)) (p x) _ _ (λ _. inr ih) (λ _. inr ih)

pub advance_one :
    (id : ℕ) (f : Row → Row) (t : Table) (r : Row)
    → Increasing t
    → Has r t
    → r.id ≡ id
    → Legal r (f r)
    → Moves t (update (has_id id) f t)
advance_one id f t r rising has same legal =
    one-Move (advances (has_id id) f (advance-Legal id f t r rising has same legal) refl)

-- It advances twice.
pub advance_twice :
    (id : ℕ) (f g : Row → Row) (t : Table) (r : Row)
    → Increasing t
    → Has r t
    → r.id ≡ id
    → Legal r (f r)
    → Legal (f r) (g (f r))
    → Moves t (update (has_id id) g (update (has_id id) f t))
advance_twice id f g t r rising has same legal again =
    let first = advance-Legal id f t r rising has same legal in
    let rising' = Increasing-update (has_id id) f t first rising in
    let has' = Has-update (has_id id) f r t has ((==_iff r.id id).1 same) in
    then_move (one-Move (advances (has_id id) f first refl)) (
      advances (has_id id) g
        (advance-Legal id g (update (has_id id) f t) (f r) rising' has' (legal.same_id ∙ same)
          again)
        refl)

update-first :
    (p : Row → Bool) (f : Row → Row) (x : Row) (t : Table)
    → p x ≡ true
    → update p f (x ∷ t) ≡ f x ∷ update p f t
unfolding update
update-first p f x t e = ap (λ b. if b then f x ∷ update p f t else x ∷ update p f t) e

update-later :
    (p : Row → Bool) (f : Row → Row) (x : Row) (t : Table)
    → p x ≡ false
    → update p f (x ∷ t) ≡ x ∷ update p f t
unfolding update
update-later p f x t e = ap (λ b. if b then f x ∷ update p f t else x ∷ update p f t) e

pub update-update :
    (id : ℕ) (f g : Row → Row) (t : Table)
    → ((r : Row) → (f r).id ≡ r.id)
    → update (has_id id) g (update (has_id id) f t) ≡ update (has_id id) (λ r. g (f r)) t
unfolding update
update-update id f g [] keeps = refl
update-update id f g (x ∷ t) keeps =
    let ih = update-update id f g t keeps in
    elim (Bool-cases (has_id id x)) [
      | inl e ↦
          ap (update (has_id id) g) (update-first (has_id id) f x t e)
          ∙ update-first (has_id id) g (f x) (update (has_id id) f t) (rw (keeps x) e)
          ∙ ap (λ u. g (f x) ∷ u) ih
          ∙ sym (update-first (has_id id) (λ r. g (f r)) x t e)
      | inr e ↦
          ap (update (has_id id) g) (update-later (has_id id) f x t e)
          ∙ update-later (has_id id) g x (update (has_id id) f t) e
          ∙ ap (λ u. x ∷ u) ih
          ∙ sym (update-later (has_id id) (λ r. g (f r)) x t e)
    ]

-- In an increasing table, the rows with the id of a row are that row.
pub by_id :
    (Q : Row → Type 0) (id : ℕ) (t : Table) (r : Row)
    → Increasing t
    → Has r t
    → has_id id r ≡ true
    → Q r
    → All (λ x. has_id id x ≡ true → Q x) t
by_id Q id t r rising has same q =
    All-imp (λ x. has_id r.id x ≡ true → x ≡ r) (λ x. has_id id x ≡ true → Q x) t
      (λ x unique e. rw (unique (rw ((==_iff r.id id).0 same) e)) q)
      (Increasing-unique r t rising has)
