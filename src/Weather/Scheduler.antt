-- ===== src/Weather/Scheduler.antt =====
-- py-weather/pyweather/scheduler.py: one poll of a station, and what it leaves in the station's
-- window. The answers of Home Assistant, the sleeper, the clock and the jitter are parameters.
pub mod Rules
pub mod Window
pub mod Rests
use home_assistant_apps.Prelude.{
  ℕ, ◌+◌, ◌-◌, List, [], ◌∷◌, ◌++◌, length, drop, get_last?, Bool, true, false, Option, none, some,
  ◌>>=◌, Text, text_eq, Dict, lookup, insert, if◌then◌else◌,
}
use home_assistant_apps.Weather.Cadence.{
  Estimator, window_length, offline_reprobe, base_interval, jittered_interval, is_stale,
}
use home_assistant_apps.Weather.Health.{
  EntityState, HealthStatus, online, offline, obstimeutc, discover, evaluate,
}

pub record Config : Type 0 where
  pub max_backoff_seconds : ℕ
  pub min_interval_seconds : ℕ

-- A call of the API: it returns, or raises `TerminalError` or `TransientError`.
pub data Answer (A : Type 0) : Type 0 where
  answered : A → Answer A
  terminal transient : Answer A

-- What one poll meets. The jitter is rounded.
pub record Answers : Type 0 where
  pub update_entity : Answer Unit
  pub is_stopped : Bool
  pub get_states : Answer (List EntityState)
  pub now : ℕ
  pub jitter : ℕ → ℕ

pub record StationState : Type 0 where
  pub key : Text
  pub events : List Text
  pub last_obstime : Option Text

-- `StationState.__init__`, of a persisted window.
abbrev pub seeded : Text → List Text → StationState
seeded key events = record { key = key; events = events; last_obstime = get_last? events }

-- What a poll leaves: the seconds to the next one, the state, and whether it is saved and stale.
pub record Poll : Type 0 where
  pub delay : ℕ
  pub state : StationState
  pub is_saved : Bool
  pub warns_stale : Bool

-- `xs[-n:]`.
abbrev pub last_n : ℕ → List Text → List Text
last_n n xs = drop (length xs - n) xs

abbrev pub is_seen : Option Text → Text → Bool
is_seen none t = false
is_seen (some s) t = text_eq t s

unfoldable pub learn : Option Text → StationState → StationState
learn none s = s
learn (some t) s =
    if is_seen s.last_obstime t
    then s
    else record s { events = last_n window_length (s.events ++ t ∷ []); last_obstime = some t }

module _ (strip_lower : Text → Text) (estimator : Estimator) (config : Config) where
  abbrev pub obstime_of : HealthStatus → Option EntityState → Option Text
  obstime_of online (some representative) = some representative.state
  obstime_of online none = none
  obstime_of offline o = none

  -- `none` is the error of a stamp, here and below.
  unfoldable pub read_health : Answers → Text → Option (Answer (HealthStatus × Option Text))
  unfolding evaluate lookup
  read_health a key = if a.is_stopped then some transient else elim a.get_states [
    | answered states ↦ elim (evaluate strip_lower estimator key states) [
      | none ↦ none
      | some status ↦
          some (answered (status, obstime_of status (lookup obstimeutc (discover states key))))
    ]
    | terminal ↦ some terminal
    | transient ↦ some transient
  ]

  abbrev pub rest_unchanged : ℕ → StationState → Poll
  rest_unchanged delay s = record {
    delay = delay;
    state = s;
    is_saved = false;
    warns_stale = false;
  }

  -- What an online poll leaves, from its base interval, its rest and whether it is stale.
  abbrev pub online_poll : StationState → ℕ → Bool → Poll
  online_poll s delay stale = record {
    delay = delay;
    state = s;
    is_saved = true;
    warns_stale = stale;
  }

  unfoldable pub after_read : Answers → StationState → HealthStatus × Option Text → Option Poll
  unfolding learn base_interval is_stale
  after_read a s (online, obstime) = do
    let s' = learn obstime s
    base ← base_interval estimator s'.events config.min_interval_seconds
    delay ← jittered_interval estimator s'.events config.min_interval_seconds a.jitter
    stale ← is_stale estimator s'.events a.now base
    some (online_poll s' delay stale)
  after_read a s (offline, obstime) =
      some (record { delay = offline_reprobe; state = s; is_saved = true; warns_stale = false })

  unfoldable pub poll : Answers → StationState → Option Poll
  unfolding read_health after_read
  poll a s = elim a.update_entity [
    | terminal ↦ some (rest_unchanged config.max_backoff_seconds s)
    | transient ↦ some (rest_unchanged config.min_interval_seconds s)
    | answered _ ↦ elim (read_health a s.key) [
      | none ↦ none
      | some answer ↦ elim answer [
        | terminal ↦ some (rest_unchanged config.max_backoff_seconds s)
        | transient ↦ some (rest_unchanged config.min_interval_seconds s)
        | answered read ↦ after_read a s read
      ]
    ]
  ]

  -- `poll_station`, over the states of all stations; a key that has none is an error.
  unfoldable pub poll_station : Answers → Text → Dict StationState → Option (ℕ × Dict StationState)
  unfolding poll lookup insert
  poll_station a key states = elim (lookup key states) [
    | none ↦ none
    | some s ↦ elim (poll a s) [ none ↦ none | some p ↦ some (p.delay, insert key p.state states) ]
  ]
