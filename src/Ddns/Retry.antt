-- ===== src/Ddns/Retry.antt =====
-- The bounded backoff of py-ddns/pyddns/updater.py: `RetryRunner.run` over an action.
pub mod Rules
pub mod Exhausted
use home_assistant_apps.Prelude.{
  ℕ, zero, suc, ◌+◌, ◌*◌, ◌-◌, ◌^◌, List, [], ◌∷◌, map, Option, none, some, Bool, true, false, min,
  get_elem?, if◌then◌else◌, ◌==◌,
}
use home_assistant_apps.Ddns.Models.{
  Reply, returns, transient, terminal, unexpected, Event, Env, State,
}
use home_assistant_apps.Ddns.Cycle.{Action, sleep}

abbrev pub max_attempts : ℕ
max_attempts = 3

-- `min(BASE_DELAY_S * (2**i), MAX_DELAY_S)`, or the server's delay, at most a minute.
pub base_delay : Option ℕ → ℕ → ℕ
base_delay none i = min (2 * 2 ^ i) 30
base_delay (some after) i = min after 60

pub backoff_delays : Option ℕ → List ℕ
unfolding base_delay
backoff_delays retry_after = map (base_delay retry_after) (0 ∷ 1 ∷ [])

-- In 5000ths of a second: `factor` is random / 1000 - 1, and a fifth of it is the share added. It is
-- never negative.
pub jittered : ℕ → ℕ → ℕ
jittered delay random = delay * (4000 + random)

-- A server's delay stays in use until another one comes.
abbrev pub or_else : Option ℕ → Option ℕ → Option ℕ
or_else none old = old
or_else (some after) old = some after

module _ (env : Env) {A : Type 0} (op : Action A) where
  -- The attempt with this number, and those behind it; `left` of them are left. `none` is for
  -- False, and `some` for True with what `op` left in its box.
  unfoldable pub run_from : ℕ → ℕ → Option ℕ → Action (Option A)
  unfolding sleep jittered backoff_delays
  run_from zero attempt retry_after s = (returns none, s)
  run_from (suc left) attempt retry_after s =
      let (r, s') = op s in
      let again = run_from left (attempt + 1) in
      elim r [
        | returns a ↦ (returns (some a), s')
        | terminal ↦ (terminal, s')
        | unexpected ↦ (unexpected, s')
        | transient after ↦
            if attempt == max_attempts - 1
            then (returns none, s')
            else elim (get_elem? (backoff_delays (or_else after retry_after)) attempt) [
              | none ↦ (unexpected, s')
              | some delay ↦
                  let (stop, s'') = sleep env (jittered delay (env.randbelow_2001 s'.events)) s' in
                  if stop then (returns none, s'') else again (or_else after retry_after) s''
            ]
      ]

  unfoldable pub run : Action (Option A)
  unfolding run_from
  run = run_from max_attempts 0 none
