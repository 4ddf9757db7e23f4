-- ===== src/Ddns/Updater/Stuck.antt =====
-- The callback's cycle of updater.py over a state file that is no UTF-8.
use home_assistant_apps.Prelude.{
  ℕ, zero, suc, ◌≡◌, refl, List, ◌∷◌, Option, Bool, true, false, if_rule,
}
use home_assistant_apps.Ddns.Models.{
  Address, url, undecodable, Reply, returns, transient, terminal, unexpected, Config, Event,
  detected, applied, wrote, write_failed, Env, State,
}
use home_assistant_apps.Ddns.Cycle.{◌>>=◌, call, read_stored, sleep}
use home_assistant_apps.Ddns.Updater.{cycle_callback, cycle, run_once, run_loop}

-- A fire, or a write of the state file, failed or not.
abbrev pub is_change : Event → Bool
is_change (applied ip r) = true
is_change (wrote ip) = true
is_change (write_failed ip) = true
is_change _ = false

-- No fire and no write among the calls since `past`.
pub data Quiet (past : List Event) : List Event → Type 0 where
  start : Quiet past past
  more : {e : Event} {l : List Event} → is_change e ≡ false → Quiet past l → Quiet past (e ∷ l)

module _ (env : Env) (config : Config) (callback : config.provider ≡ url) (past : List Event)
    (broken : (l : List Event) → Quiet past l → env.state_file l ≡ undecodable) where
  -- The cycle ends at the read.
  run_once-undecodable :
      (s : State)
      → Quiet past s.events
      → run_once env config s
        ≡ record s { first_cycle = false; events = detected (env.detect s.events) ∷ s.events }
  unfolding run_once cycle cycle_callback ◌>>=◌ call read_stored
  run_once-undecodable s quiet = rw (callback, cycle) (ended (env.detect s.events) refl)
    where
      ended :
          (r : Reply (Option Address))
          → env.detect s.events ≡ r
          → record ((cycle_callback env config s).1) { first_cycle = false }
            ≡ record s { first_cycle = false; events = detected (env.detect s.events) ∷ s.events }
      ended (returns ip) e =
          let unread = broken (detected (returns ip) ∷ s.events) (more refl quiet) in
          rw (e, cycle_callback) (rw (unread, read_stored) refl)
      ended (transient after) e = rw (e, cycle_callback) refl
      ended terminal e = rw (e, cycle_callback) refl
      ended unexpected e = rw (e, cycle_callback) refl

  run_loop-Quiet_from :
      (kept : Option Address) (cycles interval : ℕ) (s : State)
      → s.stored ≡ kept
      → Quiet past s.events
      → ((run_loop env config cycles interval s).1.stored ≡ kept)
        × Quiet past (run_loop env config cycles interval s).1.events
  unfolding run_loop sleep
  run_loop-Quiet_from kept zero interval s e q = (e, q)
  run_loop-Quiet_from kept (suc cycles) interval s e q =
      let once = run_once-undecodable s q in
      let asleep : Quiet past (sleep env interval (run_once env config s)).1.events =
        more refl (rw once (more refl q)) in
      let stays : (run_once env config s).stored ≡ kept = rw once e in
      if_rule (λ (r : Bool × State). (r.1.stored ≡ kept) × Quiet past r.1.events)
        (env.stop (run_once env config s).events) _ _ (λ _. (stays, asleep))
        (λ _. run_loop-Quiet_from kept cycles interval _ stays asleep)

-- In the callback archetype, if the state file's bytes are no UTF-8 and stay so until a fire or a write
-- is tried, then the reconcile loop tries neither, in any number of cycles, the first one included, and
-- whatever the outside answers, and the persisted address is the one before.
pub run_loop-Quiet :
    (env : Env) (config : Config) (cycles interval : ℕ) (s : State)
    → config.provider ≡ url
    → ((l : List Event) → Quiet s.events l → env.state_file l ≡ undecodable)
    → ((run_loop env config cycles interval s).1.stored ≡ s.stored)
      × Quiet s.events (run_loop env config cycles interval s).1.events
run_loop-Quiet env config cycles interval s callback broken =
    run_loop-Quiet_from env config callback s.events broken s.stored cycles interval s refl start
