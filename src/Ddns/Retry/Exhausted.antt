-- ===== src/Ddns/Retry/Exhausted.antt =====
-- An operation that fails each time.
use home_assistant_apps.Prelude.{ℕ, ◌≡◌, List, ◌∷◌, Option, none, some, Bool, true, false}
use home_assistant_apps.Ddns.Models.{Reply, returns, transient, Event, slept, Env, State}
use home_assistant_apps.Ddns.Cycle.{call, sleep}
use home_assistant_apps.Ddns.Retry.{base_delay, backoff_delays, jittered, run_from, run}

-- The calls of a run, the last one first: with the stop signal in the first sleep, one attempt and
-- that sleep; without it, three attempts with a sleep between two of them.
abbrev pub calls_of : Bool → Option ℕ → ℕ → Event → List Event → List Event
calls_of true after random attempt l =
    slept (jittered (base_delay after 0) random) true ∷ attempt ∷ l
calls_of false after random attempt l =
    attempt
    ∷ slept (jittered (base_delay after 1) random) false
    ∷ attempt
    ∷ slept (jittered (base_delay after 0) random) false
    ∷ attempt
    ∷ l

-- If an operation raises a transient error each time, with the same delay of the server or none, and
-- the sleeps draw the same random number and are stopped all or none, then the run of attempts gives
-- up in the regular way: behind one attempt and one sleep, if the stop signal comes in it; else behind
-- exactly three attempts with two sleeps of the delays of the first and the second attempt. Nothing
-- but the calls is changed.
pub run-exhausts :
    {A : Type 0} (env : Env) (answer : List Event → Reply A) (note : Reply A → Event) (s : State)
    (after : Option ℕ) (random : ℕ) (stop : Bool)
    → ((l : List Event) → answer l ≡ transient after)
    → ((l : List Event) → env.randbelow_2001 l ≡ random)
    → ((l : List Event) → env.stop l ≡ stop)
    → run env (call answer note) s ≡ (
      returns none,
      record s { events = calls_of stop after random (note (transient after)) s.events },
    )
unfolding run run_from call sleep backoff_delays
run-exhausts env answer note s none random true fails draws stops =
    rw (fails, run_from) (rw (draws, run_from) (rw (stops, run_from) (simp (fails, draws, stops))))
run-exhausts env answer note s (some after) random true fails draws stops =
    rw (fails, run_from) (rw (draws, run_from) (rw (stops, run_from) (simp (fails, draws, stops))))
run-exhausts env answer note s none random false fails draws stops =
    rw (fails, run_from)
      (rw (draws, run_from)
        (rw (stops, run_from)
          (rw fails (rw draws (rw stops (rw fails (simp (fails, draws, stops))))))))
run-exhausts env answer note s (some after) random false fails draws stops =
    rw (fails, run_from)
      (rw (draws, run_from)
        (rw (stops, run_from)
          (rw fails (rw draws (rw stops (rw fails (simp (fails, draws, stops))))))))
