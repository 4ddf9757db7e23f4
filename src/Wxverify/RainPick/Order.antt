-- ===== src/Wxverify/RainPick/Order.antt =====
-- The pools of forecast/rain_pick.py: one model of each feed, in the order of their keys.
use home_assistant_apps.Prelude.{
  ℕ, suc, ◌≡◌, refl, ap, ◌∙◌, ◌≤◌, ◌<◌, List, [], ◌∷◌, length, Bool, false, ◌||◌, max, leb, ◌==◌,
  if_rule, arith,
}
use home_assistant_apps.Wxverify.RainPick.{
  ModelSeries, Days, count, has_id, without, max_count, with_days, min_models, min_counted_days,
  order_lt, common_days, insert_by, sort_by, by_id, eligible, final_pool,
}
use home_assistant_apps.Wxverify.RainPick.Drop.{
  Distinct, AllAtLeast, without-Distinct, nonempty-max, drop_until-enough,
}

has_id-without_self : (n : ℕ) (pool : List ModelSeries) → has_id n (without n pool) ≡ false
unfolding has_id without
has_id-without_self n [] = refl
has_id-without_self n (x ∷ pool) = ground (arith, has_id-without_self n pool)

by_id-Distinct : (truth : Days) (models : List ModelSeries) → Distinct (by_id truth models)
unfolding Distinct by_id
by_id-Distinct truth [] = tt
by_id-Distinct truth (m ∷ models) = (
  has_id-without_self m.feed_id (by_id truth models),
  without-Distinct m.feed_id _ (by_id-Distinct truth models),
)

has_id-with_days :
    (n k : ℕ) (pool : List ModelSeries)
    → has_id n pool ≡ false
    → has_id n (with_days k pool) ≡ false
unfolding has_id with_days
has_id-with_days n k [] h = refl
has_id-with_days n k (m ∷ pool) h = ground (arith, has_id-with_days n k pool, h)

with_days-Distinct : (k : ℕ) (pool : List ModelSeries) → Distinct pool → Distinct (with_days k pool)
unfolding Distinct with_days
with_days-Distinct k [] d = tt
with_days-Distinct k (m ∷ pool) (free, d) =
    if_rule Distinct (leb k (count m)) _ _
      (λ _. (has_id-with_days m.feed_id k pool free, with_days-Distinct k pool d))
      (λ _. with_days-Distinct k pool d)

with_days-AllAtLeast : (k : ℕ) (pool : List ModelSeries) → AllAtLeast k (with_days k pool)
unfolding AllAtLeast with_days
with_days-AllAtLeast k [] = tt
with_days-AllAtLeast k (m ∷ pool) =
    if_rule (AllAtLeast k) (leb k (count m)) _ _
      (λ le. (ground (arith, le), with_days-AllAtLeast k pool)) (λ _. with_days-AllAtLeast k pool)

-- Sorting keeps what the drop rule needs.
insert_by-pool :
    (x : ModelSeries) (pool : List ModelSeries)
    → (length (insert_by order_lt x pool) ≡ suc (length pool))
      × (max_count (insert_by order_lt x pool) ≡ max (count x) (max_count pool))
unfolding insert_by max_count
insert_by-pool x [] = (refl, refl)
insert_by-pool x (y ∷ pool) =
    let (len, most) = insert_by-pool x pool in
    if_rule
      (λ (p : List ModelSeries).
        (length p ≡ suc (suc (length pool)))
        × (max_count p ≡ max (count x) (max (count y) (max_count pool))))
      (order_lt y x) _ _ (λ _. (ap suc len, omega (arith, most))) (λ _. (refl, refl))

insert_by-has_id :
    (n : ℕ) (x : ModelSeries) (pool : List ModelSeries)
    → has_id n (insert_by order_lt x pool) ≡ (x.feed_id == n || has_id n pool)
unfolding insert_by has_id
insert_by-has_id n x [] = refl
insert_by-has_id n x (y ∷ pool) =
    if_rule
      (λ (p : List ModelSeries). has_id n p ≡ (x.feed_id == n || (y.feed_id == n || has_id n pool)))
      (order_lt y x) _ _
      (λ _.
        let ih = insert_by-has_id n x pool in
        rw ih (or_swap (y.feed_id == n) (x.feed_id == n) (has_id n pool)))
      (λ _. refl)
  where
    or_swap : (a b c : Bool) → (a || (b || c)) ≡ (b || (a || c))
    or_swap a b c = ground arith

insert_by-Distinct :
    (x : ModelSeries) (pool : List ModelSeries)
    → has_id x.feed_id pool ≡ false
    → Distinct pool
    → Distinct (insert_by order_lt x pool)
unfolding Distinct insert_by has_id
insert_by-Distinct x [] free d = (refl, tt)
insert_by-Distinct x (y ∷ pool) free (free_y, d) =
    if_rule Distinct (order_lt y x) _ _
      (λ _. (
        insert_by-has_id y.feed_id x pool ∙ ground (arith, free, free_y),
        insert_by-Distinct x pool (ground (arith, free)) d,
      ))
      (λ _. (free, (free_y, d)))

sort_by-has_id :
    (n : ℕ) (pool : List ModelSeries) → has_id n (sort_by order_lt pool) ≡ has_id n pool
unfolding sort_by has_id
sort_by-has_id n [] = refl
sort_by-has_id n (m ∷ pool) =
    insert_by-has_id n m (sort_by order_lt pool)
    ∙ ap (λ b. m.feed_id == n || b) (sort_by-has_id n pool)

sort_by-pool :
    (pool : List ModelSeries)
    → Distinct pool
    → Distinct (sort_by order_lt pool)
      × (length (sort_by order_lt pool) ≡ length pool)
      × (max_count (sort_by order_lt pool) ≡ max_count pool)
unfolding Distinct sort_by max_count
sort_by-pool [] d = (tt, refl, refl)
sort_by-pool (m ∷ pool) (free, d) =
    let (d', len, most) = sort_by-pool pool d in
    let (len', most') = insert_by-pool m (sort_by order_lt pool) in
    (
      insert_by-Distinct m (sort_by order_lt pool) (sort_by-has_id m.feed_id pool ∙ free) d',
      len' ∙ ap suc len,
      most' ∙ ap (max (count m)) most,
    )

-- The pool and N, from models with one of each feed.
pub eligible-pool :
    (models : List ModelSeries)
    → Distinct models
    → Distinct (eligible models).1.0
      × (0 < length (eligible models).1.0 → (eligible models).1.1 ≤ max_count (eligible models).1.0)
unfolding eligible
eligible-pool models d =
    if_rule
      (λ (p : Bool × (List ModelSeries × ℕ)).
        Distinct p.1.0 × (0 < length p.1.0 → p.1.1 ≤ max_count p.1.0))
      (leb min_models (length (with_days min_counted_days models))) _ _
      (λ _. (
        with_days-Distinct min_counted_days models d,
        λ pos. nonempty-max min_counted_days _ pos (with_days-AllAtLeast min_counted_days models),
      ))
      (λ _. (with_days-Distinct 1 models d, λ pos. omega arith))

-- What the drop rule leaves shares enough days.
pub final_pool-enough :
    (truth : Days) (models : List ModelSeries)
    → 0 < length (eligible (by_id truth models)).1.0
    → ((eligible (by_id truth models)).1.1
        ≤ length (
            common_days
              (final_pool (eligible (by_id truth models)).1.0 (eligible (by_id truth models)).1.1)))
      × (0
          < length
              (final_pool (eligible (by_id truth models)).1.0 (eligible (by_id truth models)).1.1))
unfolding final_pool
final_pool-enough truth models pos =
    let (d, le) = eligible-pool (by_id truth models) (by_id-Distinct truth models) in
    let (d', len, most) = sort_by-pool (eligible (by_id truth models)).1.0 d in
    drop_until-enough _ _ _ d' (omega (arith, len, pos)) (omega (arith, len))
      (omega (arith, most, le pos))
