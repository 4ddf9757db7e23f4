-- ===== src/Ddns/Updater.antt =====
-- The reconcile loop of py-ddns/pyddns/updater.py and its one cycle.
pub mod Confirmed
pub mod Cases
pub mod Stuck
use home_assistant_apps.Prelude.{
  ℕ, zero, suc, ◌+◌, ◌-◌, List, [], ◌∷◌, Option, none, some, Bool, true, false, not, ◌&&◌, ◌||◌,
  leb, ◌==◌, if◌then◌else◌,
}
use home_assistant_apps.Ddns.Models.{
  Address, Provider, azure, url, ApplyAction, wrote_known_ip, fired_server_detected, skipped_no_ip,
  failed, ResolveStatus, resolved, no_record, query_failed, ResolveOutcome, Reply, returns,
  transient, terminal, unexpected, Config, Env, State,
}
use home_assistant_apps.Ddns.Cycle.{
  Action, continue, ◌>>=◌, pure, fail, gets, modify, detect, read_current, apply, resolve, clock,
  read_stored, write_stored, sleep,
}
use home_assistant_apps.Ddns.Retry.{run}

-- `==` of addresses that may be None.
abbrev pub same_address : Option Address → Option Address → Bool
same_address none none = true
same_address (some a) (some b) = a == b
same_address _ _ = false

abbrev pub is_resolved : ResolveStatus → Bool
is_resolved resolved = true
is_resolved _ = false

abbrev pub is_query_failed : ResolveStatus → Bool
is_query_failed query_failed = true
is_query_failed _ = false

module _ (env : Env) (config : Config) where
  -- `_drift_due`.
  unfoldable pub drift_due : Action Bool
  drift_due = if config.drift_reconcile_seconds == 0 then pure false else do
    now ← clock env
    last ← gets (λ s. s.last_drift)
    pure (leb config.drift_reconcile_seconds (now - last))

  -- `self._last_drift = self._clock()`.
  unfoldable pub note_drift : Action Unit
  note_drift = do now ← clock env; modify (λ s. record s { last_drift = now })

  -- A run of attempts that did not complete is a `TransientError` without a delay.
  abbrev completed : {A : Type 0} → Option A → Action A
  completed none = fail (transient none)
  completed (some a) = pure a

  -- `_read_current_with_retry`.
  unfoldable pub read_current_with_retry : Action (Option Address)
  read_current_with_retry = do box ← run env (read_current env); completed box

  abbrev pub write_if_known : ApplyAction → Address → Action Unit
  write_if_known wrote_known_ip ip = write_stored env ip
  write_if_known _ ip = pure tt

  -- `_apply_api_with_retry`.
  unfoldable pub apply_api_with_retry : Address → Action Unit
  apply_api_with_retry ip = do
    box ← run env (apply env (some ip))
    action ← completed box
    write_if_known action ip

  -- The two ways to judge whether the record is right already.
  unfoldable pub assert_read : Address → Action Unit
  assert_read ip = do
    found ← read_current_with_retry
    _ ← note_drift
    if same_address found (some ip) then write_stored env ip else apply_api_with_retry ip

  unfoldable pub assert_known : Address → Action Unit
  assert_known ip = do
    known ← read_stored env
    if same_address known (some ip) then pure tt else apply_api_with_retry ip

  unfoldable pub api_with : Option Address → Action Unit
  api_with none = pure tt
  api_with (some ip) = do
    first ← gets (λ s. s.first_cycle)
    authoritative ← (if first then pure true else drift_due)
    if authoritative then assert_read ip else assert_known ip

  -- `_cycle_api`.
  unfoldable pub cycle_api : Action Unit
  cycle_api = do ip ← detect env; api_with ip

  -- The resolve after a fire, once more while it fails and a retry is left.
  unfoldable pub confirm : ℕ → Action ResolveOutcome
  confirm zero = resolve env
  confirm (suc retries) = do
    outcome ← resolve env
    if is_query_failed outcome.status then confirm retries else pure outcome

  abbrev pub write_if_resolved : ResolveStatus → Option Address → Action Unit
  write_if_resolved resolved (some ip) = write_stored env ip
  write_if_resolved _ _ = pure tt

  -- `_fire_and_confirm`.
  unfoldable pub fire_and_confirm : Option Address → Action Unit
  fire_and_confirm ip = do
    box ← run env (apply env ip)
    _ ← completed box
    outcome ← confirm 2
    write_if_resolved outcome.status outcome.value

  -- Whether the detected address, if there is one, is the last-known one.
  abbrev pub is_unchanged : Option Address → Address → Bool
  is_unchanged none known = true
  is_unchanged (some ip) known = ip == known

  unfoldable pub suppress_or_fire : Option Address → Address → Action Unit
  suppress_or_fire ip known = do
    outcome ← resolve env
    if is_resolved outcome.status && same_address outcome.value (some known)
        then pure tt
        else fire_and_confirm ip

  -- Outside of the first cycle and of a drift cycle.
  unfoldable pub steady : Option Address → Option Address → Action Unit
  steady ip none = fire_and_confirm ip
  steady ip (some known) =
      if is_unchanged ip known then suppress_or_fire ip known else fire_and_confirm ip

  -- `_cycle_callback`.
  unfoldable pub cycle_callback : Action Unit
  cycle_callback = do
    ip ← detect env
    known ← read_stored env
    drift ← drift_due
    _ ← (if drift then note_drift else pure tt)
    first ← gets (λ s. s.first_cycle)
    if not first && not drift then steady ip known else fire_and_confirm ip

  unfoldable pub cycle : Provider → Action Unit
  cycle azure = cycle_api
  cycle url = cycle_callback

  -- `run_once`: whatever is raised is caught.
  unfoldable pub run_once : State → State
  run_once s = record ((cycle config.provider s).1) { first_cycle = false }

  -- `run_loop`, for a number of cycles: whether the stop signal has ended it. The interval is in
  -- 5000ths of a second, as every sleep is.
  unfoldable pub run_loop : ℕ → ℕ → State → Bool × State
  unfolding run_once
  run_loop zero interval s = (false, s)
  run_loop (suc cycles) interval s =
      let (stop, s') = sleep env interval (run_once s) in
      let rest = run_loop cycles interval s' in if stop then (true, s') else rest

-- `mark_started`.
unfoldable pub mark_started : State → State
mark_started s = record s { first_cycle = false }
