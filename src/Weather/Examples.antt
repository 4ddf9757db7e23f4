-- ===== src/Weather/Examples.antt =====
-- The weather publisher, py-weather/pyweather, on a concrete station.
use home_assistant_apps.Prelude.{
  ℕ, ◌-◌, true, text_eq, member, lookup, insert, ◌≡◌, refl, false, List, [], ◌∷◌, Option, none,
  Text, codes, arith,
}
use home_assistant_apps.Weather.Cadence.{
  pos, IsoStamp, invalid, aware, is_overflow, Estimator, parsed, base_interval, gaps, gaps_of,
  interval_of, gaps_from, is_stale, parse_obstime, clamp,
}
use home_assistant_apps.Weather.Health.{EntityState, evaluate, status_of}
use home_assistant_apps.Weather.Health.Representative.{last_representative, evaluate-Representative}
use home_assistant_apps.Weather.Scheduler.{
  Config, answered, terminal, Answers, StationState, seeded, poll, poll_station, read_health,
  after_read, learn,
}
use home_assistant_apps.Weather.Scheduler.Window.{NoRepeat, IsWindow, polls, polls-IsWindow}
use home_assistant_apps.Weather.Scheduler.Rules.{Overflows}
use home_assistant_apps.Weather.Scheduler.Rests.{Rest, poll-Rest}
use home_assistant_apps.Weather.Loop.{
  Loop, Timing, Turn, start, first_polls, init_states, earliest, run,
}
use home_assistant_apps.Weather.Loop.Table.{due_count}
use home_assistant_apps.Weather.Loop.Invariant.{left_by}
use home_assistant_apps.Weather.Loop.Fair.{AllGoOn, run-Fair}

-- A stamp is one code, its time.
abbrev first_code : Text → IsoStamp
first_code [] = invalid
first_code (n ∷ t) = aware n

abbrev estimator : Estimator
estimator = record { fromisoformat = first_code; scaled_median = λ g gs. pos (g.1 - g.0) }

abbrev strip_lower : Text → Text
strip_lower t = t

abbrev config : Config
config = record { max_backoff_seconds = 86400; min_interval_seconds = 300 }

abbrev snapshot : Text → List EntityState
snapshot stamp =
    record { entity_id = codes "sensor.wu_temp_abc"; state = codes "20" }
    ∷ record { entity_id = codes "sensor.wu_obstimeutc_abc"; state = stamp }
    ∷ []

abbrev sees : Text → Answers
sees stamp = record {
  update_entity = answered tt;
  is_stopped = false;
  get_states = answered (snapshot stamp);
  now = 900;
  jitter = λ n. n;
}

abbrev refused : Answers
refused = record (sees []) { update_entity = terminal }

abbrev cold : StationState
cold = seeded (codes "abc") []

never_overflows : (t : Text) → is_overflow (parse_obstime estimator t) ≡ false
unfolding parse_obstime
never_overflows [] = refl
never_overflows (n ∷ t) = refl

-- This reader of stamps never leaves the range.
in_range : (o : Option EntityState) → ¬ Overflows strip_lower estimator o
in_range o x =
    let e : is_overflow (parse_obstime estimator x.entity.state) ≡ true = rw x.raises refl in
    absurd (ground (arith, e, never_overflows x.entity.state))

evaluate-Representative_example :
    evaluate strip_lower estimator (codes "abc") (snapshot (100 ∷ []))
    ≡ status_of strip_lower estimator (last_representative (codes "abc") none (snapshot (100 ∷ [])))
evaluate-Representative_example =
    evaluate-Representative strip_lower estimator (codes "abc") (snapshot (100 ∷ []))

cold-IsWindow : IsWindow strip_lower estimator cold
unfolding NoRepeat
cold-IsWindow = record { short = omega arith; parses = tt; changes = tt; last_seen = refl }

polls-IsWindow_example : IsWindow strip_lower estimator (
    polls strip_lower estimator config
      (sees (100 ∷ []) ∷ sees (100 ∷ []) ∷ refused ∷ sees (700 ∷ []) ∷ sees [] ∷ [])
      cold)
polls-IsWindow_example =
    polls-IsWindow strip_lower estimator config
      (sees (100 ∷ []) ∷ sees (100 ∷ []) ∷ refused ∷ sees (700 ∷ []) ∷ sees [] ∷ []) cold
      cold-IsWindow

poll-Rest_example :
    Rest strip_lower estimator config
      (sees (100 ∷ []))
      cold
      (poll strip_lower estimator config (sees (100 ∷ [])) cold)
poll-Rest_example =
    poll-Rest strip_lower estimator config (sees (100 ∷ [])) cold (omega arith) cold-IsWindow

abbrev timing : Timing
timing = record { second = 10; startup_stagger_seconds = 2 }

-- A turn that polls at a time.
abbrev turn_at : ℕ → Turn
turn_at at = record { now = at; sleeper = λ wait. false; answers = sees (100 ∷ []); after = at }

abbrev stations : List Text
stations = codes "abc" ∷ codes "xyz" ∷ []

-- The first station is polled, and the second one is due.
abbrev after_first : Loop
after_first = left_by strip_lower estimator config timing stations [] 1000 (turn_at 1000 ∷ [])

run-Fair_example :
    member (codes "xyz") (run strip_lower estimator config timing (turn_at 1020 ∷ []) after_first).0
    ≡ true
unfolding text_eq member gaps_from gaps_of interval_of is_stale AllGoOn due_count run start
    first_polls init_states earliest poll_station poll read_health after_read learn base_interval
    gaps parsed parse_obstime clamp evaluate lookup insert
run-Fair_example =
    run-Fair strip_lower estimator config timing (omega arith) (omega arith) (omega arith)
      (omega arith) stations [] 1000 (turn_at 1000 ∷ []) (turn_at 1020 ∷ []) 1020 (codes "xyz") 1020
      (λ k events h. cc)
      (
        record {
          sleeps = λ w. refl;
          in_time = omega arith;
          spread = λ n h. h;
          in_range = λ key states h. in_range _;
        },
        tt,
      )
      refl (omega arith) (omega arith)
