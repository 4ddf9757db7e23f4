-- ===== src/Wxverify/RainPick/Examples.antt =====
-- The rain model ranking on concrete models.
use home_assistant_apps.Prelude.{
  ◌≡◌, ◌<◌, refl, List, [], ◌∷◌, length, true, false, some, codes, text_eq,
}
use home_assistant_apps.Wxverify.RainPick.{
  ModelSeries, Days, by_id, known_days, day_value, without, with_days, max_count, eligible,
  final_pool, drop_until, largest, drop_lt, shared_days, all_know, insert_by, sort_by, text_lt,
  days_with, score_all, scored_lt, select, rank_from, ranking, rank_pool, rank_rain,
}
use home_assistant_apps.Wxverify.RainPick.Scores.{IsRanking}
use home_assistant_apps.Wxverify.RainPick.Ranking.{rank_rain-IsRanking}

abbrev truth : Days
truth = (1, true) ∷ (2, false) ∷ (3, true) ∷ []

-- The first is right on all days, the second misses one, and the third has one day.
abbrev models : List ModelSeries
models =
    record {
      feed_id = 1;
      source = codes "a";
      model = codes "x";
      counted = (1, true) ∷ (2, false) ∷ (3, true) ∷ (9, true) ∷ [];
    }
    ∷ record {
      feed_id = 2;
      source = codes "b";
      model = codes "y";
      counted = (1, true) ∷ (2, false) ∷ (3, false) ∷ [];
    }
    ∷ record { feed_id = 3; source = codes "a"; model = codes "z"; counted = (1, false) ∷ [] }
    ∷ []

-- The incumbent is two points behind and stays; the third model is dropped.
rank_rain_stays : (rank_rain 1 truth models (some 2)).selected_feed_id ≡ some 2
unfolding rank_rain by_id known_days day_value without with_days max_count eligible final_pool
    drop_until largest drop_lt shared_days all_know insert_by sort_by text_lt text_eq days_with
    score_all scored_lt select rank_from ranking rank_pool
rank_rain_stays = refl

rank_rain_drops : length (rank_rain 1 truth models (some 2)).ranked ≡ 2
unfolding rank_rain by_id known_days day_value without with_days max_count eligible final_pool
    drop_until largest drop_lt shared_days all_know insert_by sort_by text_lt text_eq days_with
    score_all scored_lt select rank_from ranking rank_pool
rank_rain_drops = refl

rank_rain-IsRanking_example :
    IsRanking (eligible (by_id truth models)).1.1 (some 2) (rank_rain 1 truth models (some 2))
    × (0 < length (eligible (by_id truth models)).1.0
        → 0 < length (rank_rain 1 truth models (some 2)).ranked)
rank_rain-IsRanking_example = rank_rain-IsRanking 1 truth models (some 2)
