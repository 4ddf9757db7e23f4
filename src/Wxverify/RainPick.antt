-- ===== src/Wxverify/RainPick.antt =====
-- wxverify/wxverify/forecast/rain_pick.py. A day is its ordinal, a mapping of days is the list of its
-- entries, and a set of days the list of its elements.
pub mod Drop
pub mod Order
pub mod Scores
pub mod Choice
pub mod Ranking
mod Examples
use home_assistant_apps.Prelude.{
  ℕ, zero, suc, ◌+◌, ◌*◌, ◌-◌, ◌/◌, List, [], ◌∷◌, length, Bool, true, false, not, ◌&&◌, ◌||◌,
  Option, none, some, min, max, Text, text_eq, ltb, leb, ◌==◌, if◌then◌else◌,
}

-- `RAIN_TRIGGER_HUNDREDTHS` and the constants behind it.
abbrev pub rain_trigger_hundredths : ℕ
rain_trigger_hundredths = 20

abbrev pub min_counted_days : ℕ
min_counted_days = 20

abbrev pub min_models : ℕ
min_models = 2

abbrev pub miss_weight : ℕ
miss_weight = 2

abbrev pub switch_margin : ℕ
switch_margin = 3

abbrev pub Days : Type 0
Days = List (ℕ × Bool)

pub record ModelSeries : Type 0 where
  pub feed_id : ℕ
  pub source : Text
  pub model : Text
  pub counted : Days

pub record RankedModel : Type 0 where
  pub feed_id : ℕ
  pub rank : ℕ
  pub misses : ℕ
  pub false_alarms : ℕ
  pub common_days : ℕ
  pub counted_days : ℕ
  pub in_group : Bool
  pub selected : Bool

pub record RainRanking : Type 0 where
  pub day_ahead : ℕ
  pub provisional : Bool
  pub ranked : List RankedModel
  pub selected_feed_id : Option ℕ

-- A model's misses and false alarms over the common days, with its score.
pub record Scored : Type 0 where
  pub score : ℕ
  pub misses : ℕ
  pub false_alarms : ℕ
  pub series : ModelSeries

-- `round(total * 100) >= 20`, of the rounded hundredths.
abbrev pub forecasts_rain : ℕ → Bool
forecasts_rain hundredths = leb rain_trigger_hundredths hundredths

abbrev pub group_size : ℕ → ℕ
group_size ranked = (3 * ranked + 3) / 4

unfoldable pub day_value : ℕ → Days → Option Bool
day_value d [] = none
day_value d ((e, rain) ∷ days) = if e == d then some rain else day_value d days

abbrev pub is_present : Option Bool → Bool
is_present none = false
is_present (some rain) = true

abbrev pub is_value : Bool → Option Bool → Bool
is_value rain none = false
is_value true (some r) = r
is_value false (some r) = not r

-- The days of a model that are in `truth`.
unfoldable pub known_days : Days → Days → Days
unfolding day_value
known_days truth [] = []
known_days truth ((d, rain) ∷ days) =
    let rest = known_days truth days in
    if is_present (day_value d truth) then (d, rain) ∷ rest else rest

-- `by_id` and `counted`: the first model of each feed, with its days in `truth`.
unfoldable pub has_id : ℕ → List ModelSeries → Bool
has_id n [] = false
has_id n (m ∷ models) = m.feed_id == n || has_id n models

unfoldable pub without : ℕ → List ModelSeries → List ModelSeries
without n [] = []
without n (m ∷ models) = let rest = without n models in if m.feed_id == n then rest else m ∷ rest

unfoldable pub by_id : Days → List ModelSeries → List ModelSeries
unfolding known_days without
by_id truth [] = []
by_id truth (m ∷ models) =
    record m { counted = known_days truth m.counted } ∷ without m.feed_id (by_id truth models)

abbrev pub count : ModelSeries → ℕ
count m = length m.counted

-- The models with at least so many counted days.
unfoldable pub with_days : ℕ → List ModelSeries → List ModelSeries
with_days n [] = []
with_days n (m ∷ models) =
    let rest = with_days n models in if leb n (count m) then m ∷ rest else rest

unfoldable pub max_count : List ModelSeries → ℕ
max_count [] = 0
max_count (m ∷ models) = max (count m) (max_count models)

-- `a < b` on texts and on `_order_key`.
unfoldable pub text_lt : Text → Text → Bool
text_lt s [] = false
text_lt [] (d ∷ t) = true
text_lt (c ∷ s) (d ∷ t) = ltb c d || (c == d && text_lt s t)

abbrev pub order_lt : ModelSeries → ModelSeries → Bool
order_lt a b =
    text_lt a.source b.source
    || (text_eq a.source b.source
        && (text_lt a.model b.model || (text_eq a.model b.model && ltb a.feed_id b.feed_id)))

-- `a < b` on `drop_key`, whose count is negative.
unfoldable pub drop_lt : ModelSeries → ModelSeries → Bool
unfolding text_lt text_eq
drop_lt a b = ltb (count b) (count a) || (count a == count b && order_lt a b)

-- `max(pool, key=drop_key)`, the first of the largest, of a pool and its first model.
unfoldable pub largest : ModelSeries → List ModelSeries → ModelSeries
unfolding drop_lt
largest m [] = m
largest m (x ∷ pool) = largest (if drop_lt m x then x else m) pool

unfoldable pub all_know : ℕ → List ModelSeries → Bool
unfolding day_value
all_know d [] = true
all_know d (m ∷ models) = is_present (day_value d m.counted) && all_know d models

unfoldable pub shared_days : List ModelSeries → Days → List ℕ
unfolding all_know
shared_days others [] = []
shared_days others ((d, rain) ∷ days) =
    let rest = shared_days others days in if all_know d others then d ∷ rest else rest

-- `_common_days`.
abbrev pub common_days : List ModelSeries → List ℕ
common_days [] = []
common_days (m ∷ pool) = shared_days pool m.counted

-- The `while` loop, with fuel.
unfoldable pub drop_until : ℕ → ℕ → List ModelSeries → List ModelSeries
unfolding largest without shared_days
drop_until needed zero pool = pool
drop_until needed (suc fuel) [] = []
drop_until needed (suc fuel) (m ∷ pool) =
    let rest = drop_until needed fuel (without (largest m pool).feed_id (m ∷ pool)) in
    if ltb (length (common_days (m ∷ pool))) needed && ltb 1 (length (m ∷ pool))
    then rest
    else m ∷ pool

-- A stable sort.
module _ {ℓ} {A : Type ℓ} (lt : A → A → Bool) where
  unfoldable pub insert_by : A → List A → List A
  insert_by x [] = x ∷ []
  insert_by x (y ∷ ys) = let rest = insert_by x ys in if lt y x then y ∷ rest else x ∷ y ∷ ys

  unfoldable pub sort_by : List A → List A
  unfolding insert_by
  sort_by [] = []
  sort_by (x ∷ xs) = insert_by x (sort_by xs)

-- The days of the list with one value in the truth and the other in the forecasts.
unfoldable pub days_with : Bool → Bool → Days → Days → List ℕ → ℕ
unfolding day_value
days_with true_rain forecast_rain truth counted [] = 0
days_with true_rain forecast_rain truth counted (d ∷ days) =
    let rest = days_with true_rain forecast_rain truth counted days in
    if is_value true_rain (day_value d truth) && is_value forecast_rain (day_value d counted)
    then suc rest
    else rest

unfoldable pub score_all : Days → List ℕ → List ModelSeries → List Scored
unfolding days_with
score_all truth common [] = []
score_all truth common (m ∷ pool) =
    let misses = days_with true false truth m.counted common in
    let false_alarms = days_with false true truth m.counted common in
    record {
      score = miss_weight * misses + false_alarms;
      misses = misses;
      false_alarms = false_alarms;
      series = m;
    }
    ∷ score_all truth common pool

unfoldable pub scored_lt : Scored → Scored → Bool
unfolding text_lt text_eq
scored_lt a b =
    ltb a.score b.score
    || (a.score == b.score
        && (ltb a.misses b.misses || (a.misses == b.misses && order_lt a.series b.series)))

abbrev pub is_incumbent : Option ℕ → ℕ → Bool
is_incumbent none id = false
is_incumbent (some i) id = id == i

-- The loop over `scored` that looks for the incumbent.
unfoldable pub select : Option ℕ → Scored → List Scored → ℕ
select incumbent best [] = best.series.feed_id
select incumbent best (s ∷ scored) =
    let rest = select incumbent best scored in
    if is_incumbent incumbent s.series.feed_id
    then (if ltb (s.score - best.score) switch_margin
        then s.series.feed_id
        else best.series.feed_id)
    else rest

abbrev pub ranked_model : ℕ → ℕ → ℕ → ℕ → Scored → RankedModel
ranked_model index in_group common selected s = record {
  feed_id = s.series.feed_id;
  rank = index + 1;
  misses = s.misses;
  false_alarms = s.false_alarms;
  common_days = common;
  counted_days = count s.series;
  in_group = ltb index in_group;
  selected = s.series.feed_id == selected;
}

unfoldable pub rank_from : ℕ → ℕ → ℕ → ℕ → List Scored → List RankedModel
rank_from index in_group common selected [] = []
rank_from index in_group common selected (s ∷ scored) =
    ranked_model index in_group common selected s
    ∷ rank_from (index + 1) in_group common selected scored

-- Whether the minimum is off, the pool, and N.
unfoldable pub eligible : List ModelSeries → Bool × (List ModelSeries × ℕ)
unfolding with_days max_count
eligible models =
    if leb min_models (length (with_days min_counted_days models))
    then (false, (with_days min_counted_days models, min_counted_days))
    else (true, (with_days 1 models, min min_counted_days (max_count (with_days 1 models))))

-- The ranking of what the loop leaves.
unfoldable pub ranking : ℕ → Bool → Days → Option ℕ → List Scored → ℕ → RainRanking
unfolding select rank_from
ranking day_ahead provisional truth incumbent [] common = record {
  day_ahead = day_ahead;
  provisional = provisional;
  ranked = [];
  selected_feed_id = none;
}
ranking day_ahead provisional truth incumbent (best ∷ scored) common =
    let selected = select incumbent best (best ∷ scored) in
    record {
      day_ahead = day_ahead;
      provisional = provisional;
      ranked = rank_from 0 (group_size (length (best ∷ scored))) common selected (best ∷ scored);
      selected_feed_id = some selected;
    }

-- The pool after the drop rule.
unfoldable pub final_pool : List ModelSeries → ℕ → List ModelSeries
unfolding drop_until sort_by text_lt text_eq
final_pool pool needed = drop_until needed (length pool) (sort_by order_lt pool)

-- The drop rule, the scores and the selection over the eligible models.
unfoldable pub rank_pool : ℕ → Days → Option ℕ → Bool → List ModelSeries → ℕ → RainRanking
unfolding final_pool score_all scored_lt ranking
rank_pool day_ahead truth incumbent provisional pool needed =
    let left = final_pool pool needed in
    let common = common_days left in
    ranking day_ahead provisional truth incumbent (sort_by scored_lt (score_all truth common left))
      (length common)

unfoldable pub rank_rain : ℕ → Days → List ModelSeries → Option ℕ → RainRanking
unfolding by_id eligible rank_pool
rank_rain day_ahead truth models incumbent =
    let (provisional, (pool, needed)) = eligible (by_id truth models) in
    rank_pool day_ahead truth incumbent provisional pool needed
