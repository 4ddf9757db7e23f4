-- ===== src/Ddns/Examples.antt =====
-- The theorems about the updater against a concrete outside.
use home_assistant_apps.Prelude.{
  ◌≡◌, ◌⊎◌, inl, refl, List, [], ◌∷◌, Option, none, some, true, false,
}
use home_assistant_apps.Ddns.Models.{
  StateFile, readable, undecodable, Address, azure, url, wrote_known_ip, resolved, returns,
  transient, current, Config, Event, detected, applied, looked_up, ticked, slept, wrote,
  write_failed, Env, State,
}
use home_assistant_apps.Ddns.Cycle.{call}
use home_assistant_apps.Ddns.Retry.{run}
use home_assistant_apps.Ddns.Retry.Exhausted.{calls_of, run-exhausts}
use home_assistant_apps.Ddns.Updater.{run_once, run_loop}
use home_assistant_apps.Ddns.Updater.Confirmed.{Sound}
use home_assistant_apps.Ddns.Updater.Confirmed.Callback.{run_loop-Sound}
use home_assistant_apps.Ddns.Updater.Stuck.{Quiet, start, more, run_loop-Quiet}
use home_assistant_apps.Ddns.Updater.Cases.{run_once-suppresses, run_once-heals}

-- The address 9 is detected, the name and the provider still have 7, and all calls succeed.
abbrev outside : Env
outside = record {
  detect = λ l. returns (some 9);
  read_current = λ l. returns (some 7);
  apply = λ ip l. returns wrote_known_ip;
  resolve = λ l. returns (record { status = resolved; value = some 7 });
  clock = λ l. 100;
  randbelow_2001 = λ l. 0;
  stop = λ l. false;
  state_file = λ l. readable;
  write_fails = λ l. false;
}

abbrev azure_config : Config
azure_config = record { provider = azure; drift_reconcile_seconds = 0 }

abbrev url_config : Config
url_config = record { provider = url; drift_reconcile_seconds = 0 }

abbrev started : State
started = record { first_cycle = true; last_drift = 0; stored = some 7; events = [] }

abbrev settled : State
settled = record { first_cycle = false; last_drift = 0; stored = some 7; events = [] }

run_loop-Sound_example :
    Sound []
      (some 7)
      (run_loop outside azure_config 3 300 started).1.events
      (run_loop outside azure_config 3 300 started).1.stored
run_loop-Sound_example = run_loop-Sound outside azure_config 3 300 started

abbrev quiet : Env
quiet = record outside { detect = λ l. returns none }

run_once-suppresses_example : run_once quiet url_config settled ≡ record settled {
  events =
      looked_up (returns (record { status = resolved; value = some 7 }))
      ∷ detected (returns none)
      ∷ [];
}
run_once-suppresses_example =
    run_once-suppresses quiet url_config settled 7 none refl refl refl refl (inl refl) refl
      (λ l. refl) (λ l. refl)

run_once-heals_example :
    ((run_once outside azure_config started).stored ≡ some 9)
    × ((◌≡◌ {A = Option Address} (some 7) (some 9))
        ⊎ ((l : List Event) × ((run_once outside azure_config started).events
              ≡ wrote 9 ∷ applied (some 9) (returns wrote_known_ip) ∷ l)))
run_once-heals_example =
    run_once-heals outside azure_config started 9 (some 7) refl refl refl (λ l. refl) (λ l. refl)
      λ l. refl

-- A provider that is out of reach, whose server asks for 90 seconds.
abbrev away : Env
away = record outside { read_current = λ l. transient (some 90) }

run-exhausts_example : run away (call away.read_current current) started ≡ (
  returns none,
  record started { events = calls_of false (some 90) 0 (current (transient (some 90))) [] },
)
run-exhausts_example =
    run-exhausts away away.read_current current started (some 90) 0 false (λ l. refl) (λ l. refl)
      λ l. refl

-- The state file is read once something is written.
abbrev file_after : List Event → StateFile
file_after [] = undecodable
file_after (wrote ip ∷ l) = readable
file_after (e ∷ l) = file_after l

abbrev garbled : Env
garbled = record outside { state_file = file_after }

garbled-broken : (l : List Event) → Quiet [] l → garbled.state_file l ≡ undecodable
garbled-broken l start = refl
garbled-broken (detected r ∷ l) (more e q) = garbled-broken l q
garbled-broken (current r ∷ l) (more e q) = garbled-broken l q
garbled-broken (applied ip r ∷ l) (more e q) = garbled-broken l q
garbled-broken (looked_up r ∷ l) (more e q) = garbled-broken l q
garbled-broken (ticked n ∷ l) (more e q) = garbled-broken l q
garbled-broken (slept n b ∷ l) (more e q) = garbled-broken l q
garbled-broken (wrote ip ∷ l) (more e q) = cc
garbled-broken (write_failed ip ∷ l) (more e q) = garbled-broken l q

run_loop-Quiet_example :
    ((run_loop garbled url_config 3 300 started).1.stored ≡ started.stored)
    × Quiet [] (run_loop garbled url_config 3 300 started).1.events
run_loop-Quiet_example = run_loop-Quiet garbled url_config 3 300 started refl garbled-broken
