-- ===== src/Wxverify/RainPick/Scores.antt =====
-- What a ranking of forecast/rain_pick.py is, and the order of its scores.
use home_assistant_apps.Prelude.{
  ℕ, ◌≡◌, refl, ◌⊎◌, ◌+◌, ◌*◌, ◌≤◌, ◌<◌, List, [], ◌∷◌, Bool, true, false, Option, none, some,
  if◌then◌else◌, if_rule, arith,
}
use home_assistant_apps.Wxverify.RainPick.{
  ModelSeries, RankedModel, RainRanking, Days, Scored, switch_margin, miss_weight, insert_by,
  sort_by, score_all, scored_lt,
}

unfoldable pub All : (RankedModel → Type 0) → List RankedModel → Type 0
All P [] = Unit
All P (r ∷ ranked) = P r × All P ranked

unfoldable pub Any : (RankedModel → Type 0) → List RankedModel → Type 0
Any P [] = ⊥
Any P (r ∷ ranked) = P r ⊎ Any P ranked

-- The points of a ranked model.
abbrev pub points : RankedModel → ℕ
points r = miss_weight * r.misses + r.false_alarms

-- The points do not fall along the ranking.
unfoldable pub Ordered : List RankedModel → Type 0
unfolding All
Ordered [] = Unit
Ordered (r ∷ ranked) = All (λ q. points r ≤ points q) ranked × Ordered ranked

-- The selected model is less than three points behind the first one; an incumbent in the ranking that
-- is not selected is three points behind it or more.
unfoldable pub Chosen : Option ℕ → List RankedModel → Option ℕ → Type 0
unfolding All Any
Chosen incumbent [] selected = selected ≡ none
Chosen incumbent (first ∷ ranked) selected =
    Any (λ r. (selected ≡ some r.feed_id) × (points r < points first + switch_margin))
      (first ∷ ranked)
    × All
        (λ r.
          incumbent ≡ some r.feed_id
          → (selected ≡ some r.feed_id) ⊎ (points first + switch_margin ≤ points r))
        (first ∷ ranked)

pub record IsRanking (needed : ℕ) (incumbent : Option ℕ) (k : RainRanking) : Type 0 where
  pub enough : All (λ r. needed ≤ r.common_days) k.ranked
  pub ordered : Ordered k.ranked
  pub chosen : Chosen incumbent k.ranked k.selected_feed_id

-- The score of each is that of its misses and false alarms, and the scores do not fall.
unfoldable pub AllScored : (Scored → Type 0) → List Scored → Type 0
AllScored P [] = Unit
AllScored P (s ∷ scored) = P s × AllScored P scored

abbrev pub IsExact : Scored → Type 0
IsExact s = s.score ≡ miss_weight * s.misses + s.false_alarms

unfoldable pub Rising : List Scored → Type 0
unfolding AllScored
Rising [] = Unit
Rising (s ∷ scored) = AllScored (λ q. s.score ≤ q.score) scored × Rising scored

pub score_all-IsExact :
    (truth : Days) (common : List ℕ) (pool : List ModelSeries)
    → AllScored IsExact (score_all truth common pool)
unfolding AllScored score_all
score_all-IsExact truth common [] = tt
score_all-IsExact truth common (m ∷ pool) = (refl, score_all-IsExact truth common pool)

pub AllScored-insert :
    (P : Scored → Type 0) (x : Scored) (scored : List Scored)
    → P x
    → AllScored P scored
    → AllScored P (insert_by scored_lt x scored)
unfolding AllScored insert_by
AllScored-insert P x [] h hs = (h, tt)
AllScored-insert P x (y ∷ scored) h (hy, hs) =
    if_rule (AllScored P) (scored_lt y x) _ _ (λ _. (hy, AllScored-insert P x scored h hs))
      (λ _. (h, (hy, hs)))

AllScored-le :
    (a b : ℕ) (scored : List Scored)
    → a ≤ b
    → AllScored (λ q. b ≤ q.score) scored
    → AllScored (λ q. a ≤ q.score) scored
unfolding AllScored
AllScored-le a b [] le h = tt
AllScored-le a b (s ∷ scored) le (h, hs) = (omega (arith, le, h), AllScored-le a b scored le hs)

scored_lt-score :
    (a b : Scored) (r : Bool)
    → scored_lt a b ≡ r
    → if r then a.score ≤ b.score else b.score ≤ a.score
unfolding scored_lt
scored_lt-score a b true e = ground (arith, e)
scored_lt-score a b false e = ground (arith, e)

insert_by-Rising :
    (x : Scored) (scored : List Scored) → Rising scored → Rising (insert_by scored_lt x scored)
unfolding Rising insert_by AllScored
insert_by-Rising x [] r = (tt, tt)
insert_by-Rising x (y ∷ scored) (least, r) =
    if_rule Rising (scored_lt y x) _ _
      (λ less. (
        AllScored-insert (λ q. y.score ≤ q.score) x scored (scored_lt-score y x true less) least,
        insert_by-Rising x scored r,
      ))
      (λ more.
        let le = scored_lt-score y x false more in
        ((le, AllScored-le x.score y.score scored le least), (least, r)))

pub sort_by-Rising : (scored : List Scored) → Rising (sort_by scored_lt scored)
unfolding Rising sort_by
sort_by-Rising [] = tt
sort_by-Rising (s ∷ scored) = insert_by-Rising s (sort_by scored_lt scored) (sort_by-Rising scored)

pub sort_by-AllScored :
    (P : Scored → Type 0) (scored : List Scored)
    → AllScored P scored
    → AllScored P (sort_by scored_lt scored)
unfolding AllScored sort_by
sort_by-AllScored P [] h = tt
sort_by-AllScored P (s ∷ scored) (h, hs) =
    AllScored-insert P s (sort_by scored_lt scored) h (sort_by-AllScored P scored hs)
