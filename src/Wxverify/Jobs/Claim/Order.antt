-- ===== src/Wxverify/Jobs/Claim/Order.antt =====
-- The order in which `_claim` of wxverify/wxverify/db/queue.py takes the due jobs of a lane.
use home_assistant_apps.Prelude.{
  ℕ, ◌≡◌, refl, inl, inr, [], ◌∷◌, All, Bool, true, false, not, ◌&&◌, ◌||◌, Option, none, some,
  Text, ltb, leb, ◌==◌, Bool-cases, Option-cases, arith,
}
use home_assistant_apps.Wxverify.Jobs.{Row, Table, text_le, Outside}
use home_assistant_apps.Wxverify.Jobs.Moves.{Has, All-imp}
use home_assistant_apps.Wxverify.Jobs.Rows.{first_claimable-Has}
use home_assistant_apps.Wxverify.Jobs.Claim.{
  Lane, is_claimable, tier, better, comes_first, first_claimable, is_readable, start, claim,
}

text_le_total : (s t : Text) → (text_le s t || text_le t s) ≡ true
unfolding text_le
text_le_total [] t = refl
text_le_total (c ∷ s) [] = refl
text_le_total (c ∷ s) (d ∷ t) = ground (arith, text_le_total s t)

text_le_trans : (s t u : Text) → text_le s t ≡ true → text_le t u ≡ true → text_le s u ≡ true
unfolding text_le
text_le_trans [] t u h k = refl
text_le_trans (c ∷ s) [] u h k = ground arith
text_le_trans (c ∷ s) (d ∷ t) [] h k = ground arith
text_le_trans (c ∷ s) (d ∷ t) (e ∷ u) h k = ground (arith, text_le_trans s t u)

-- The order of two rows, of their tiers, comparisons of stamps, and ids.
abbrev ordered : ℕ → ℕ → Bool → Bool → ℕ → ℕ → Bool
ordered tier_a tier_b b_le_a a_le_b id_a id_b =
    ltb tier_a tier_b || (tier_a == tier_b && (not b_le_a || (a_le_b && leb id_a id_b)))

ordered_total :
    (i j : ℕ) (x y : Bool) (m n : ℕ)
    → (x || y) ≡ true
    → ordered i j y x m n ≡ false
    → ordered j i x y n m ≡ true
ordered_total i j x y m n total h = ground arith

comes_first_total : (a b : Row) → comes_first a b ≡ false → comes_first b a ≡ true
unfolding comes_first
comes_first_total a b h =
    ordered_total (tier a) (tier b) (text_le a.created_at b.created_at)
      (text_le b.created_at a.created_at) a.id b.id (text_le_total a.created_at b.created_at) h

comes_first_refl : (a : Row) → comes_first a a ≡ true
comes_first_refl a = elim (Bool-cases (comes_first a a)) [
  | inl e ↦ e
  | inr e ↦ comes_first_total a a e
]

ordered_trans :
    (i j k m n o : ℕ) (ab ba bc cb ac ca : Bool)
    → (ab || ba) ≡ true
    → (bc || cb) ≡ true
    → (not ab || not bc || ac) ≡ true
    → (not ca || not ab || cb) ≡ true
    → (not bc || not ca || ba) ≡ true
    → ordered i j ba ab m n ≡ true
    → ordered j k cb bc n o ≡ true
    → ordered i k ca ac m o ≡ true
ordered_trans i j k m n o ab ba bc cb ac ca q1 q2 t1 t2 t3 h l = ground arith

implied : (a b c : Bool) → (a ≡ true → b ≡ true → c ≡ true) → (not a || not b || c) ≡ true
implied true true c h = h refl refl
implied true false c h = refl
implied false b c h = refl

comes_first_trans :
    (a b c : Row) → comes_first a b ≡ true → comes_first b c ≡ true → comes_first a c ≡ true
unfolding comes_first
comes_first_trans a b c h k =
    let s = a.created_at in
    let t = b.created_at in
    let u = c.created_at in
    ordered_trans (tier a) (tier b) (tier c) a.id b.id c.id (text_le s t) (text_le t s)
      (text_le t u) (text_le u t) (text_le s u) (text_le u s) (text_le_total s t)
      (text_le_total t u) (implied _ _ _ (text_le_trans s t u))
      (implied _ _ _ (text_le_trans u s t)) (implied _ _ _ (text_le_trans t u s)) h k

-- Nothing is chosen only when nothing is claimable.
pub first_claimable-none :
    (lane : Lane) (now : Text) (t : Table)
    → first_claimable lane now t ≡ none
    → All (λ x. is_claimable lane now x ≡ false) t
unfolding first_claimable
first_claimable-none lane now [] e = tt
first_claimable-none lane now (x ∷ t) e = elim (Bool-cases (is_claimable lane now x)) [
  | inl h ↦ absurd (better-some x (first_claimable lane now t) (grind arith))
  | inr h ↦ (h, first_claimable-none lane now t (grind arith))
]
  where
    better-some : (r : Row) (b : Option Row) → better r b ≡ none → ⊥
    better-some r none k = grind arith
    better-some r (some b) k = elim (Bool-cases (comes_first r b)) [
      | inl h ↦ grind arith
      | inr h ↦ grind arith
    ]

better-First :
    (lane : Lane) (now : Text) (x r : Row) (b : Option Row) (t : Table)
    → (b ≡ none → All (λ y. is_claimable lane now y ≡ false) t)
    → ((s : Row)
        → b ≡ some s
        → All (λ y. is_claimable lane now y ≡ true → comes_first s y ≡ true) t)
    → better x b ≡ some r
    → comes_first r x ≡ true × All (λ y. is_claimable lane now y ≡ true → comes_first r y ≡ true) t
better-First lane now x r none t no_row ih e =
    let x_is_r : x ≡ r = grind arith in
    rw⁻¹ x_is_r (
      comes_first_refl x,
      All-imp (λ y. is_claimable lane now y ≡ false)
          (λ y. is_claimable lane now y ≡ true → comes_first x y ≡ true) t
          (λ y no yes_y. grind arith) (no_row refl),
    )
better-First lane now x r (some b) t no_row ih e = elim (Bool-cases (comes_first x b)) [
  | inl h ↦
      let x_is_r : x ≡ r = grind arith in
      rw⁻¹ x_is_r (
        comes_first_refl x,
        All-imp (λ y. is_claimable lane now y ≡ true → comes_first b y ≡ true)
            (λ y. is_claimable lane now y ≡ true → comes_first x y ≡ true) t
            (λ y after yes_y. comes_first_trans x b y h (after yes_y)) (ih b refl),
      )
  | inr h ↦ let b_is_r : b ≡ r = grind arith in rw⁻¹ b_is_r (comes_first_total x b h, ih b refl)
]

-- The choice comes before every claimable row.
first_claimable-First :
    (lane : Lane) (now : Text) (t : Table) (r : Row)
    → first_claimable lane now t ≡ some r
    → All (λ x. is_claimable lane now x ≡ true → comes_first r x ≡ true) t
unfolding first_claimable
first_claimable-First lane now [] r e = tt
first_claimable-First lane now (x ∷ t) r e = elim (Bool-cases (is_claimable lane now x)) [
  | inl h ↦
      let k =
        better-First lane now x r (first_claimable lane now t) t (first_claimable-none lane now t)
          (λ s found. first_claimable-First lane now t s found) (grind arith) in
      (λ _. k.0, k.1)
  | inr h ↦ (λ h'. grind arith, first_claimable-First lane now t r (grind arith))
]

module _ (outside : Outside) where
  -- A claim that hands out a job hands out, as running, a row of the table that was pending, due and
  -- in the lane, was readable, and comes first, by tier, creation and id, of all such rows.
  pub claim-First :
      (lane : Lane) (time : ℕ) (t : Table) (job : Row)
      → (claim outside lane time t).0 ≡ some job
      → (r : Row) × (Has r t
          × is_claimable lane (outside.isoformat_utc time) r ≡ true
          × is_readable outside r ≡ true
          × job ≡ start outside (outside.isoformat_utc time) r
          × All
              (λ x.
                is_claimable lane (outside.isoformat_utc time) x ≡ true → comes_first r x ≡ true)
              t)
  unfolding claim
  claim-First lane time t job e =
      let now = outside.isoformat_utc time in
      elim (Option-cases (first_claimable lane now t)) [
        | inl absent ↦ grind arith
        | inr (r, found) ↦
            let has = first_claimable-Has lane now t r found in
            elim (Bool-cases (is_readable outside r)) [
              | inl h ↦
                  (r, (has.0, has.1, h, grind arith, first_claimable-First lane now t r found))
              | inr h ↦ grind arith
            ]
      ]
