-- ===== src/Wxverify/RainPick/Ranking.antt =====
-- The ranking of forecast/rain_pick.py, with its selected model.
use home_assistant_apps.Prelude.{
  ℕ, suc, ◌≡◌, refl, ap, ◌∙◌, ◌⊎◌, inl, inr, ◌+◌, ◌*◌, ◌≤◌, ◌<◌, List, [], ◌∷◌, length, Bool,
  Option, some, if_rule, arith,
}
use home_assistant_apps.Wxverify.RainPick.{
  ModelSeries, RankedModel, Days, Scored, switch_margin, miss_weight, common_days, insert_by,
  sort_by, by_id, eligible, final_pool, score_all, scored_lt, select, ranked_model, rank_from,
  ranking, rank_pool, drop_until, rank_rain,
}
use home_assistant_apps.Wxverify.RainPick.Order.{final_pool-enough}
use home_assistant_apps.Wxverify.RainPick.Scores.{
  All, Any, Ordered, Chosen, IsRanking, AllScored, IsExact, Rising, score_all-IsExact,
  sort_by-Rising, sort_by-AllScored,
}
use home_assistant_apps.Wxverify.RainPick.Choice.{AnyScored, IsKept, select-keeps, near_some}

rank_from-All :
    (P : RankedModel → Type 0) (Q : Scored → Type 0) (index in_group common selected : ℕ)
    (scored : List Scored)
    → ((index : ℕ) (s : Scored) → Q s → P (ranked_model index in_group common selected s))
    → AllScored Q scored
    → All P (rank_from index in_group common selected scored)
unfolding All AllScored rank_from
rank_from-All P Q index in_group common selected [] k h = tt
rank_from-All P Q index in_group common selected (s ∷ scored) k (h, hs) =
    (k index s h, rank_from-All P Q (index + 1) in_group common selected scored k hs)

rank_from-Any :
    (P : RankedModel → Type 0) (Q : Scored → Type 0) (index in_group common selected : ℕ)
    (scored : List Scored)
    → ((index : ℕ) (s : Scored)
        → IsExact s
        → Q s
        → P (ranked_model index in_group common selected s))
    → AllScored IsExact scored
    → AnyScored Q scored
    → Any P (rank_from index in_group common selected scored)
unfolding Any AllScored AnyScored rank_from
rank_from-Any P Q index in_group common selected [] k e h = absurd h
rank_from-Any P Q index in_group common selected (s ∷ scored) k (e, es) (inl h) =
    inl (k index s e h)
rank_from-Any P Q index in_group common selected (s ∷ scored) k (e, es) (inr h) =
    inr (rank_from-Any P Q (index + 1) in_group common selected scored k es h)

AllScored-both :
    (P Q : Scored → Type 0) (scored : List Scored)
    → AllScored P scored
    → AllScored Q scored
    → AllScored (λ s. P s × Q s) scored
unfolding AllScored
AllScored-both P Q [] p q = tt
AllScored-both P Q (s ∷ scored) (p, ps) (q, qs) = ((p, q), AllScored-both P Q scored ps qs)

rank_from-Ordered :
    (index in_group common selected : ℕ) (scored : List Scored)
    → AllScored IsExact scored
    → Rising scored
    → Ordered (rank_from index in_group common selected scored)
unfolding Ordered AllScored Rising rank_from
rank_from-Ordered index in_group common selected [] e r = tt
rank_from-Ordered index in_group common selected (s ∷ scored) (e, es) (least, r) = (
  rank_from-All _ _ (index + 1) in_group common selected scored
      (λ i q h. omega (arith, h.0, h.1, e)) (AllScored-both _ _ scored es least),
  rank_from-Ordered (index + 1) in_group common selected scored es r,
)

kept_points :
    (selected : ℕ) (best s : Scored)
    → IsExact best
    → IsExact s
    → (selected ≡ s.series.feed_id) ⊎ (best.score + switch_margin ≤ s.score)
    → (some selected ≡ some s.series.feed_id)
      ⊎ (miss_weight * best.misses + best.false_alarms + switch_margin
          ≤ miss_weight * s.misses + s.false_alarms)
kept_points selected best s e e' (inl same) = inl (ap some same)
kept_points selected best s e e' (inr far) = inr (omega (arith, far, e, e'))

ranking-Chosen :
    (incumbent : Option ℕ) (in_group common : ℕ) (best : Scored) (scored : List Scored)
    → AllScored IsExact (best ∷ scored)
    → Rising (best ∷ scored)
    → Chosen incumbent
        (rank_from 0 in_group common (select incumbent best (best ∷ scored)) (best ∷ scored))
        (some (select incumbent best (best ∷ scored)))
unfolding Chosen rank_from AllScored
ranking-Chosen incumbent in_group common best scored exact rising =
    let selected = select incumbent best (best ∷ scored) in
    (
      rank_from-Any _ _ 0 in_group common selected (best ∷ scored)
          (λ i s e h. (ap some h.0, omega (arith, h.1, e, exact.0))) exact
          (near_some incumbent best scored),
      rank_from-All _ (λ s. IsExact s × IsKept incumbent best selected s) 0 in_group common selected
          (best ∷ scored) (λ i s h e. kept_points selected best s exact.0 h.0 (h.1 e))
          (AllScored-both IsExact (IsKept incumbent best selected) (best ∷ scored) exact
            (select-keeps incumbent best (best ∷ scored) rising)),
    )

ranking-IsRanking :
    (day_ahead : ℕ) (provisional : Bool) (truth : Days) (incumbent : Option ℕ)
    (scored : List Scored) (needed common : ℕ)
    → AllScored IsExact scored
    → Rising scored
    → (0 < length scored → needed ≤ common)
    → IsRanking needed incumbent (ranking day_ahead provisional truth incumbent scored common)
unfolding ranking All Ordered Chosen
ranking-IsRanking day_ahead provisional truth incumbent [] needed common exact rising enough =
    record { enough = tt; ordered = tt; chosen = refl }
ranking-IsRanking day_ahead provisional truth incumbent (best ∷ scored) needed common exact rising
      enough =
    record {
      enough = rank_from-All _ _ 0 _ common _ (best ∷ scored) (λ i s h. enough (omega arith)) exact;
      ordered = rank_from-Ordered 0 _ common _ (best ∷ scored) exact rising;
      chosen = ranking-Chosen incumbent _ common best scored exact rising;
    }

insert_by-length :
    (x : Scored) (scored : List Scored)
    → length (insert_by scored_lt x scored) ≡ suc (length scored)
unfolding insert_by
insert_by-length x [] = refl
insert_by-length x (y ∷ scored) =
    if_rule (λ (p : List Scored). length p ≡ suc (suc (length scored))) (scored_lt y x) _ _
      (λ _. ap suc (insert_by-length x scored)) (λ _. refl)

sort_by-length : (scored : List Scored) → length (sort_by scored_lt scored) ≡ length scored
unfolding sort_by
sort_by-length [] = refl
sort_by-length (s ∷ scored) =
    insert_by-length s (sort_by scored_lt scored) ∙ ap suc (sort_by-length scored)

score_all-length :
    (truth : Days) (common : List ℕ) (pool : List ModelSeries)
    → length (score_all truth common pool) ≡ length pool
unfolding score_all
score_all-length truth common [] = refl
score_all-length truth common (m ∷ pool) = ap suc (score_all-length truth common pool)

ranking-nonempty :
    (day_ahead : ℕ) (provisional : Bool) (truth : Days) (incumbent : Option ℕ)
    (scored : List Scored) (common : ℕ)
    → 0 < length scored
    → 0 < length (ranking day_ahead provisional truth incumbent scored common).ranked
unfolding ranking rank_from
ranking-nonempty day_ahead provisional truth incumbent [] common pos = pos
ranking-nonempty day_ahead provisional truth incumbent (s ∷ scored) common pos = omega arith

final_pool-empty :
    (pool : List ModelSeries) (needed : ℕ) → 0 < length (final_pool pool needed) → 0 < length pool
unfolding final_pool drop_until sort_by
final_pool-empty [] needed pos = pos
final_pool-empty (m ∷ pool) needed pos = omega arith

rank_pool-IsRanking :
    (day_ahead : ℕ) (truth : Days) (incumbent : Option ℕ) (provisional : Bool)
    (pool : List ModelSeries) (needed : ℕ)
    → (0 < length pool
        → (needed ≤ length (common_days (final_pool pool needed)))
          × (0 < length (final_pool pool needed)))
    → IsRanking needed incumbent (rank_pool day_ahead truth incumbent provisional pool needed)
      × (0 < length pool
          → 0 < length (rank_pool day_ahead truth incumbent provisional pool needed).ranked)
unfolding rank_pool
rank_pool-IsRanking day_ahead truth incumbent provisional pool needed enough =
    let left = final_pool pool needed in
    let scores = score_all truth (common_days left) left in
    let len = sort_by-length scores ∙ score_all-length truth (common_days left) left in
    (
      ranking-IsRanking day_ahead provisional truth incumbent (sort_by scored_lt scores) needed
          (length (common_days left))
          (sort_by-AllScored IsExact scores (score_all-IsExact truth (common_days left) left))
          (sort_by-Rising scores)
          (λ pos. (enough (final_pool-empty pool needed (omega (arith, len, pos)))).0),
      λ pos.
          ranking-nonempty day_ahead provisional truth incumbent (sort_by scored_lt scores) _
            (omega (arith, len, (enough pos).1)),
    )

-- For all truths, models and incumbents: each model of the ranking is compared on at least N common days;
-- the points, two for a miss and one for a false alarm, do not fall along the ranking; with an empty
-- ranking nothing is selected, and otherwise the selected model is one of the ranking, less than three
-- points behind its first, and an incumbent of the ranking that is not selected is at least three points
-- behind its first; and the ranking is not empty if some model is eligible.
pub rank_rain-IsRanking :
    (day_ahead : ℕ) (truth : Days) (models : List ModelSeries) (incumbent : Option ℕ)
    → IsRanking
        (eligible (by_id truth models)).1.1
        incumbent
        (rank_rain day_ahead truth models incumbent)
      × (0 < length (eligible (by_id truth models)).1.0
          → 0 < length (rank_rain day_ahead truth models incumbent).ranked)
unfolding rank_rain
rank_rain-IsRanking day_ahead truth models incumbent =
    rank_pool-IsRanking day_ahead truth incumbent (eligible (by_id truth models)).0
      (eligible (by_id truth models)).1.0 (eligible (by_id truth models)).1.1
      (final_pool-enough truth models)
