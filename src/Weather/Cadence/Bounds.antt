-- ===== src/Weather/Cadence/Bounds.antt =====
-- The range of the learned interval of py-weather/pyweather/cadence.py.
use home_assistant_apps.Prelude.{ℕ, ◌≤◌, List, [], ◌∷◌, arith}
use home_assistant_apps.Weather.Cadence.{
  ℤ, pos, negsuc, Estimator, clamp, max_interval, interval_of,
}

clamp-Within :
    (v : ℤ) (low high : ℕ) → low ≤ high → low ≤ clamp v low high × clamp v low high ≤ high
unfolding clamp
clamp-Within (pos n) low high le = (omega arith, omega arith)
clamp-Within (negsuc n) low high le = (omega arith, le)

module _ (estimator : Estimator) where
  -- The learned interval lies between the floor and 1800 seconds. The floor is at most 1800.
  pub interval_of-Within :
      (gaps : List (ℕ × ℕ)) (min_interval : ℕ)
      → min_interval ≤ max_interval
      → min_interval ≤ interval_of estimator min_interval gaps
        × interval_of estimator min_interval gaps ≤ max_interval
  unfolding interval_of
  interval_of-Within [] min_interval le = (omega arith, le)
  interval_of-Within (g ∷ gs) min_interval le =
      clamp-Within (estimator.scaled_median g gs) min_interval max_interval le
