-- ===== src/Wxverify/RainPick/Drop.antt =====
-- The drop rule of forecast/rain_pick.py.
use home_assistant_apps.Prelude.{
  subst, ℕ, zero, suc, ◌≡◌, refl, ap, ◌⊎◌, inl, inr, ◌≤◌, ◌<◌, List, [], ◌∷◌, length, Bool, true,
  false, ◌&&◌, max, ltb, ◌==◌, if◌then◌else◌, Bool-cases, if_rule, arith,
}
use home_assistant_apps.Wxverify.RainPick.{
  ModelSeries, Days, count, has_id, without, max_count, drop_lt, largest, shared_days, all_know,
  common_days, drop_until,
}

-- Each feed has one model.
unfoldable pub Distinct : List ModelSeries → Type 0
Distinct [] = Unit
Distinct (m ∷ pool) = (has_id m.feed_id pool ≡ false) × Distinct pool

unfoldable pub Among : ModelSeries → List ModelSeries → Type 0
Among x [] = ⊥
Among x (y ∷ pool) = (y ≡ x) ⊎ Among x pool

unfoldable pub AllAtLeast : ℕ → List ModelSeries → Type 0
AllAtLeast n [] = Unit
AllAtLeast n (m ∷ pool) = (n ≤ count m) × AllAtLeast n pool

AllAtLeast-le : (a b : ℕ) (pool : List ModelSeries) → a ≤ b → AllAtLeast b pool → AllAtLeast a pool
unfolding AllAtLeast
AllAtLeast-le a b [] le h = tt
AllAtLeast-le a b (m ∷ pool) le (h, hs) = (omega (arith, le, h), AllAtLeast-le a b pool le hs)

drop_lt-count :
    (a b : ModelSeries) (r : Bool)
    → drop_lt a b ≡ r
    → if r then count b ≤ count a else count a ≤ count b
unfolding drop_lt
drop_lt-count a b true e = ground (arith, e)
drop_lt-count a b false e = ground (arith, e)

-- No model of the pool has fewer counted days than the one that is dropped.
largest-least :
    (m : ModelSeries) (pool : List ModelSeries)
    → (count (largest m pool) ≤ count m) × AllAtLeast (count (largest m pool)) pool
unfolding largest AllAtLeast
largest-least m [] = (omega arith, tt)
largest-least m (x ∷ pool) =
    if_rule
      (λ (y : ModelSeries).
        (count (largest y pool) ≤ count m) × AllAtLeast (count (largest y pool)) (x ∷ pool))
      (drop_lt m x) x m
      (λ less.
        let (h, hs) = largest-least x pool in
        (omega (arith, h, drop_lt-count m x true less), (h, hs)))
      (λ more.
        let (h, hs) = largest-least m pool in
        (h, (omega (arith, h, drop_lt-count m x false more), hs)))

largest-Among : (m : ModelSeries) (pool : List ModelSeries) → Among (largest m pool) (m ∷ pool)
unfolding largest Among
largest-Among m [] = inl refl
largest-Among m (x ∷ pool) =
    if_rule (λ (y : ModelSeries). Among (largest y pool) (m ∷ x ∷ pool)) (drop_lt m x) x m
      (λ less. inr (largest-Among x pool)) (λ more. behind (largest-Among m pool))
  where
    behind :
        Among (largest m pool) (m ∷ pool)
        → (m ≡ largest m pool) ⊎ ((x ≡ largest m pool) ⊎ Among (largest m pool) pool)
    behind (inl e) = inl e
    behind (inr h) = inr (inr h)

Among-has_id :
    (x : ModelSeries) (pool : List ModelSeries) → Among x pool → has_id x.feed_id pool ≡ true
unfolding Among has_id
Among-has_id x [] h = absurd h
Among-has_id x (y ∷ pool) (inl e) =
    let same = ap (λ (z : ModelSeries). z.feed_id) e in ground (arith, same)
Among-has_id x (y ∷ pool) (inr h) = ground (arith, Among-has_id x pool h)

without_fresh : (n : ℕ) (pool : List ModelSeries) → has_id n pool ≡ false → without n pool ≡ pool
unfolding has_id without
without_fresh n [] h = refl
without_fresh n (m ∷ pool) h = ground (arith, without_fresh n pool, h)

pub has_id-without :
    (n k : ℕ) (pool : List ModelSeries) → has_id n pool ≡ false → has_id n (without k pool) ≡ false
unfolding has_id without
has_id-without n k [] h = refl
has_id-without n k (m ∷ pool) h = ground (arith, has_id-without n k pool, h)

pub without-Distinct : (k : ℕ) (pool : List ModelSeries) → Distinct pool → Distinct (without k pool)
unfolding Distinct without
without-Distinct k [] d = tt
without-Distinct k (m ∷ pool) (free, d) =
    if_rule Distinct (m.feed_id == k) _ _ (λ _. without-Distinct k pool d)
      (λ _. (has_id-without m.feed_id k pool free, without-Distinct k pool d))

without-AllAtLeast :
    (n k : ℕ) (pool : List ModelSeries) → AllAtLeast n pool → AllAtLeast n (without k pool)
unfolding AllAtLeast without
without-AllAtLeast n k [] h = tt
without-AllAtLeast n k (m ∷ pool) (h, hs) =
    if_rule (AllAtLeast n) (m.feed_id == k) _ _ (λ _. without-AllAtLeast n k pool hs)
      (λ _. (h, without-AllAtLeast n k pool hs))

apart_ids :
    (n k : ℕ) (pool : List ModelSeries)
    → has_id n pool ≡ false
    → has_id k pool ≡ true
    → (n == k) ≡ false
apart_ids n k pool free there = elim (Bool-cases (n == k)) [
  | inl same ↦
      let e : n ≡ k = ground (arith, same) in let r : has_id n pool ≡ true = rw e there in cc
  | inr other ↦ other
]

-- One model less, and no other count lost.
without-Among :
    (x : ModelSeries) (pool : List ModelSeries)
    → Distinct pool
    → Among x pool
    → (suc (length (without x.feed_id pool)) ≡ length pool)
      × (max_count pool ≤ max (count x) (max_count (without x.feed_id pool)))
unfolding Distinct Among without max_count
without-Among x [] d h = absurd h
without-Among x (y ∷ pool) (free, d) (inl e) =
    subst
      (λ (z : ModelSeries).
        (suc (length (without z.feed_id (y ∷ pool))) ≡ length (y ∷ pool))
        × (max_count (y ∷ pool) ≤ max (count z) (max_count (without z.feed_id (y ∷ pool)))))
      e (ground (arith, without_fresh y.feed_id pool free))
without-Among x (y ∷ pool) (free, d) (inr h) =
    let other : (y.feed_id == x.feed_id) ≡ false =
      apart_ids y.feed_id x.feed_id pool free (Among-has_id x pool h) in
    let (len, most) = without-Among x pool d h in
    rw (other, without) (ground (arith, len), omega (arith, most))

pub nonempty-max :
    (n : ℕ) (pool : List ModelSeries) → 0 < length pool → AllAtLeast n pool → n ≤ max_count pool
unfolding AllAtLeast max_count
nonempty-max n [] pos h = absurd (omega (arith, pos))
nonempty-max n (m ∷ pool) pos (h, hs) = omega (arith, h)

shared_days-alone : (days : Days) → length (shared_days [] days) ≡ length days
unfolding shared_days all_know
shared_days-alone [] = refl
shared_days-alone ((d, rain) ∷ days) = ap suc (shared_days-alone days)

-- A step of the loop keeps the largest count.
max_count-dropped :
    (m : ModelSeries) (pool : List ModelSeries)
    → Distinct (m ∷ pool)
    → 0 < length pool
    → max_count (m ∷ pool) ≤ max_count (without (largest m pool).feed_id (m ∷ pool))
unfolding AllAtLeast
max_count-dropped m pool d pos =
    let x = largest m pool in
    let (len, most) = without-Among x (m ∷ pool) d (largest-Among m pool) in
    let least : AllAtLeast (count x) (without x.feed_id (m ∷ pool)) =
      without-AllAtLeast (count x) x.feed_id (m ∷ pool) (largest-least m pool) in
    let left : count x ≤ max_count (without x.feed_id (m ∷ pool)) =
      nonempty-max (count x) _ (omega (arith, len, pos)) least in
    omega (arith, most, left)

-- The loop ends with enough common days.
pub drop_until-enough :
    (needed fuel : ℕ) (pool : List ModelSeries)
    → Distinct pool
    → 0 < length pool
    → length pool ≤ fuel
    → needed ≤ max_count pool
    → (needed ≤ length (common_days (drop_until needed fuel pool)))
      × (0 < length (drop_until needed fuel pool))
unfolding drop_until max_count
drop_until-enough needed fuel [] d pos le most = absurd (omega (arith, pos))
drop_until-enough needed zero (m ∷ pool) d pos le most = absurd (omega (arith, le))
drop_until-enough needed (suc fuel) (m ∷ pool) d pos le most =
    if_rule (λ (p : List ModelSeries). (needed ≤ length (common_days p)) × (0 < length p))
      (ltb (length (common_days (m ∷ pool))) needed && ltb 1 (length (m ∷ pool))) _ _
      (λ drops.
        let x = largest m pool in
        let others : 0 < length pool = ground (arith, drops) in
        let (len, _) = without-Among x (m ∷ pool) d (largest-Among m pool) in
        drop_until-enough needed fuel (without x.feed_id (m ∷ pool))
          (without-Distinct x.feed_id (m ∷ pool) d) (omega (arith, len, others))
          (omega (arith, len, le)) (omega (arith, most, max_count-dropped m pool d others)))
      (λ ends. (enough_alone pool ends most, omega arith))
  where
    enough_alone :
        (pool : List ModelSeries)
        → (ltb (length (common_days (m ∷ pool))) needed && ltb 1 (length (m ∷ pool))) ≡ false
        → needed ≤ max (count m) (max_count pool)
        → needed ≤ length (common_days (m ∷ pool))
    enough_alone [] ends most = omega (arith, most, shared_days-alone m.counted)
    enough_alone (y ∷ rest) ends most = ground (arith, ends)
