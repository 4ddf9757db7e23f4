-- ===== src/Weather/Loop.antt =====
-- `Scheduler.__init__` and `run_loop` of py-weather/pyweather/scheduler.py. A reading of the clock is in
-- ticks, of which a second has some number; the sleeper, the clock and the answers are parameters.
pub mod Table
pub mod Invariant
pub mod Fair
use home_assistant_apps.Prelude.{
  ℕ, ◌+◌, ◌*◌, ◌-◌, List, [], ◌∷◌, Bool, true, false, Option, none, some, Text, Dict, lookup,
  insert, ltb, if◌then◌else◌,
}
use home_assistant_apps.Weather.Cadence.{Estimator}
use home_assistant_apps.Weather.Scheduler.{Config, Answers, StationState, seeded, poll_station}

pub record Timing : Type 0 where
  pub second : ℕ
  pub startup_stagger_seconds : ℕ

-- What one turn of the loop meets.
pub record Turn : Type 0 where
  pub now : ℕ
  pub sleeper : ℕ → Bool  -- whether a stop is signalled in the wait
  pub answers : Answers
  pub after : ℕ  -- the clock behind the poll

pub record Loop : Type 0 where
  pub next_poll : Dict ℕ
  pub states : Dict StationState

pub data LoopEnd : Type 0 where
  is_running stopped raised : LoopEnd

-- The earlier of an entry and the earliest behind it, which wins only if it is strictly earlier.
abbrev pub earlier : Text → ℕ → Option (Text × ℕ) → Option (Text × ℕ)
earlier k t none = some (k, t)
earlier k t (some (j, u)) = if ltb u t then some (j, u) else some (k, t)

-- `min(next_poll, key=...)`, which raises over no keys.
unfoldable pub earliest : Dict ℕ → Option (Text × ℕ)
earliest [] = none
earliest ((k, t) ∷ d) = earlier k t (earliest d)

-- The states of `__init__`, from what was persisted.
unfoldable pub init_states : List Text → Dict (List Text) → Dict StationState → Dict StationState
init_states [] persisted states = states
init_states (k ∷ keys) persisted states =
    init_states keys persisted (insert k (seeded k (persisted_of (lookup k persisted))) states)
  where
    persisted_of : Option (List Text) → List Text
    persisted_of none = []
    persisted_of (some events) = events

-- The first polls, one stagger apart.
unfoldable pub first_polls : ℕ → List Text → ℕ → Dict ℕ → Dict ℕ
first_polls stagger [] at next_poll = next_poll
first_polls stagger (k ∷ keys) at next_poll =
    first_polls stagger keys (at + stagger) (insert k at next_poll)

module _ (strip_lower : Text → Text) (estimator : Estimator) (config : Config)
    (timing : Timing) where
  unfoldable pub start : List Text → Dict (List Text) → ℕ → Loop
  unfolding init_states first_polls
  start keys persisted now = record {
    next_poll = first_polls (timing.startup_stagger_seconds * timing.second) keys now [];
    states = init_states keys persisted [];
  }

  -- The end of a turn.
  abbrev pub rescheduled : Turn → Text → ℕ × Dict StationState → Dict ℕ → Loop
  rescheduled turn key (delay, states) next_poll = record {
    next_poll = insert key (turn.after + delay * timing.second) next_poll;
    states = states;
  }

  -- The keys of the stations that are polled, how the turns end, and what they leave.
  unfoldable pub run : List Turn → Loop → List Text × (LoopEnd × Loop)
  unfolding earliest poll_station
  run [] l = ([], (is_running, l))
  run (turn ∷ turns) l = elim (earliest l.next_poll) [
    | none ↦ ([], (raised, l))
    | some (key, due) ↦ elim (turn.sleeper (due - turn.now)) [
      | true ↦ ([], (stopped, l))
      | false ↦ elim (poll_station strip_lower estimator config turn.answers key l.states) [
        | none ↦ ([], (raised, l))
        | some done ↦
            let (keys, rest) = run turns (rescheduled turn key done l.next_poll) in
            (key ∷ keys, rest)
      ]
    ]
  ]
