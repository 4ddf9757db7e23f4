-- ===== src/Ddns/Updater/Confirmed.antt =====
-- When an address counts as confirmed, along the API's cycle of updater.py.
pub mod Callback
use home_assistant_apps.Prelude.{
  ℕ, zero, suc, ◌≡◌, refl, List, [], ◌∷◌, Option, none, some, Bool, true, false, not, ◌&&◌,
  if◌then◌else◌, ◌==◌, arith,
}
use home_assistant_apps.Ddns.Models.{
  Address, Provider, azure, url, ApplyAction, wrote_known_ip, fired_server_detected, skipped_no_ip,
  failed, ResolveStatus, resolved, no_record, query_failed, ResolveOutcome, Reply, returns,
  transient, terminal, unexpected, Config, Event, detected, current, applied, looked_up, ticked,
  slept, wrote, write_failed, Env, State,
}
use home_assistant_apps.Ddns.Cycle.{
  Action, ◌>>=◌, pure, fail, gets, modify, detect, read_current, apply, resolve, clock, read_stored,
  write_stored,
}
use home_assistant_apps.Ddns.Cycle.Rules.{
  Ends, Good, bind_rule, choice_rule, pure_rule, gets_rule, call_rule, clock_rule, read_rule,
  write_rule,
}
use home_assistant_apps.Ddns.Retry.{max_attempts, run}
use home_assistant_apps.Ddns.Retry.Rules.{Box, run_rule}
use home_assistant_apps.Ddns.Updater.{
  same_address, is_resolved, is_query_failed, drift_due, note_drift, completed,
  read_current_with_retry, write_if_known, apply_api_with_retry, assert_read, assert_known,
  api_with, cycle_api, confirm, write_if_resolved, fire_and_confirm, is_unchanged, suppress_or_fire,
  steady, cycle_callback, cycle, run_once,
}

-- The last fire has returned, and nothing but lookups came behind it.
pub data Fired : List Event → Type 0 where
  fired :
      {ip : Option Address} {a : ApplyAction} {l : List Event} → Fired (applied ip (returns a) ∷ l)
  looked : {r : Reply ResolveOutcome} {l : List Event} → Fired l → Fired (looked_up r ∷ l)

-- The address has been confirmed by the last call, up to the clock: the provider has it, it has been
-- written there, or the name resolves to it behind a fire.
pub data Confirmed (v : Address) : List Event → Type 0 where
  is_current : {l : List Event} → Confirmed v (current (returns (some v)) ∷ l)
  is_written : {l : List Event} → Confirmed v (applied (some v) (returns wrote_known_ip) ∷ l)
  is_served :
      {l : List Event}
      → Fired l
      → Confirmed v (looked_up (returns (record { status = resolved; value = some v })) ∷ l)
  behind_clock : {t : ℕ} {l : List Event} → Confirmed v l → Confirmed v (ticked t ∷ l)

abbrev pub is_write : Event → Bool
is_write (wrote ip) = true
is_write _ = false

-- From the calls `past`, with `kept` persisted, to the calls of the index and what is persisted then:
-- every write in between was of an address confirmed just before, and nothing else changed it.
pub data Sound (past : List Event) (kept : Option Address)
    : List Event → Option Address → Type 0 where
  start : Sound past kept past kept
  note :
      {e : Event} {l : List Event} {o : Option Address}
      → is_write e ≡ false
      → Sound past kept l o
      → Sound past kept (e ∷ l) o
  write :
      {v : Address} {l : List Event} {o : Option Address}
      → Confirmed v l
      → Sound past kept l o
      → Sound past kept (wrote v ∷ l) (some v)

pub same_address→≡ :
    (o : Option Address) (v : Address) → same_address o (some v) ≡ true → o ≡ some v
same_address→≡ o v h = ground arith

module _ (env : Env) (config : Config) (past : List Event) (kept : Option Address) where
  abbrev pub Ok : State → Type 0
  Ok s = Sound past kept s.events s.stored

  -- Behind an action that returns, with more about what it returns.
  abbrev pub And : {A : Type 0} → (A → State → Type 0) → A → State → Type 0
  And P a s = Ok s × P a s

  abbrev pub Just : {A : Type 0} → A → State → Type 0
  Just a s = Ok s

  pub run_call :
      {A : Type 0} (P : A → State → Type 0) (op : Action A) (s : State)
      → ((s' : State) → Ok s' → Good (And P) Ok op s')
      → Ok s
      → Good (Box (And P) Ok) Ok (run env op) s
  run_call {A = A} P op s keeps h =
      run_rule env op (And P) Ok (λ left s'. Ok s')
        (λ left s' b. record { ends = both (op s').0 (op s').1 (keeps s' b).ends })
        (λ left delay stop s' f b. (note refl f, note refl b)) s h h
    where
      both :
          (r : Reply A) (s' : State)
          → Ends (And P) Ok r s'
          → Ends (And P) (λ s''. Ok s'' × Ok s'') r s'
      both (returns a) s' g = g
      both (transient after) s' g = (g, g)
      both terminal s' g = (g, g)
      both unexpected s' g = (g, g)

  pub completed_rule :
      {A : Type 0} (P : A → State → Type 0) (o : Option A) (s : State)
      → Box (And P) Ok o s
      → Good (And P) Ok (completed env config o) s
  unfolding fail pure
  completed_rule P none s h = record { ends = h }
  completed_rule P (some a) s h = record { ends = h }

  -- A lookup, a clock reading and a choice keep what was so.
  pub drift_due-Ok : (s : State) → Ok s → Good Just Ok (drift_due env config) s
  unfolding drift_due
  drift_due-Ok s h =
      choice_rule Just Ok (config.drift_reconcile_seconds == 0) _ _ s
        (λ _. pure_rule Just Ok false s h)
        (λ _.
          bind_rule Just Just Ok _ _ s (clock_rule env Ok Just s (λ t. note refl h)) (λ now s' h'.
            bind_rule Just Just Ok _ _ s' (gets_rule Just Ok _ s' h')
              (λ last s'' h''. pure_rule Just Ok _ s'' h'')))

  pub note_drift_rule :
      (P : Unit → State → Type 0) (s : State)
      → ((t : ℕ) → P tt (record s { last_drift = t; events = ticked t ∷ s.events }))
      → Good P Ok (note_drift env config) s
  unfolding note_drift modify clock ◌>>=◌
  note_drift_rule P s k = record { ends = k (env.clock s.events) }

  pub write-Ok :
      (v : Address) (s : State) → Ok s → Confirmed v s.events → Good Just Ok (write_stored env v) s
  write-Ok v s h c = write_rule env Ok Just v s (write c h) (note refl h)

  -- What an applied action confirms.
  abbrev Applied : Address → ApplyAction → State → Type 0
  Applied ip a s = a ≡ wrote_known_ip → Confirmed ip s.events

  write_if_known-Ok :
      (a : ApplyAction) (ip : Address) (s : State)
      → Ok s × Applied ip a s
      → Good Just Ok (write_if_known env config a ip) s
  unfolding pure
  write_if_known-Ok wrote_known_ip ip s h = write-Ok ip s h.0 (h.1 refl)
  write_if_known-Ok fired_server_detected ip s h = record { ends = h.0 }
  write_if_known-Ok skipped_no_ip ip s h = record { ends = h.0 }
  write_if_known-Ok failed ip s h = record { ends = h.0 }

  applied-Confirmed :
      (ip : Address) (a : ApplyAction) (l : List Event)
      → a ≡ wrote_known_ip
      → Confirmed ip (applied (some ip) (returns a) ∷ l)
  applied-Confirmed ip a l e = rw e is_written

  apply_api-Ok :
      (ip : Address) (s : State) → Ok s → Good Just Ok (apply_api_with_retry env config ip) s
  unfolding apply_api_with_retry
  apply_api-Ok ip s h =
      bind_rule (Box (And (Applied ip)) Ok) Just Ok _ _ s
        (run_call (Applied ip) (apply env (some ip)) s
          (λ s' h'.
            call_rule (And (Applied ip)) Ok _ _ s'
              (λ a. (note refl h', applied-Confirmed ip a s'.events)) (λ r. note refl h'))
          h)
        (λ o s' h'.
          bind_rule (And (Applied ip)) Just Ok _ _ s' (completed_rule (Applied ip) o s' h')
            (λ a s'' h''. write_if_known-Ok a ip s'' h''))

  -- What a read confirms.
  abbrev Read : Option Address → State → Type 0
  Read o s = (v : Address) → o ≡ some v → Confirmed v s.events

  read-Confirmed :
      (o : Option Address) (l : List Event) (v : Address)
      → o ≡ some v
      → Confirmed v (current (returns o) ∷ l)
  read-Confirmed o l v e = rw e is_current

  reading-Ok : (s : State) → Ok s → Good (And Read) Ok (read_current_with_retry env config) s
  unfolding read_current_with_retry
  reading-Ok s h =
      bind_rule (Box (And Read) Ok) (And Read) Ok _ _ s
        (run_call Read (read_current env) s
          (λ s' h'.
            call_rule (And Read) Ok _ _ s' (λ o. (note refl h', read-Confirmed o s'.events))
              (λ r. note refl h'))
          h)
        (λ o s' h'. completed_rule Read o s' h')

  assert_read-Ok : (ip : Address) (s : State) → Ok s → Good Just Ok (assert_read env config ip) s
  unfolding assert_read
  assert_read-Ok ip s h = bind_rule (And Read) Just Ok _ _ s (reading-Ok s h) (λ found s' h'.
      bind_rule (λ _. And Read found) Just Ok _ _ s'
        (note_drift_rule _ s' (λ t. (note refl h'.0, λ v e. behind_clock (h'.1 v e))))
        (λ _ s'' h''.
          choice_rule Just Ok _ _ _ s''
            (λ e. write-Ok ip s'' h''.0 (h''.1 ip (same_address→≡ found ip e)))
            (λ _. apply_api-Ok ip s'' h''.0)))

  assert_known-Ok : (ip : Address) (s : State) → Ok s → Good Just Ok (assert_known env config ip) s
  unfolding assert_known
  assert_known-Ok ip s h =
      bind_rule Just Just Ok _ _ s (read_rule env Ok Just s (λ o. h) h) (λ known s' h'.
        choice_rule Just Ok _ _ _ s' (λ _. pure_rule Just Ok tt s' h') (λ _. apply_api-Ok ip s' h'))

  api_with-Ok : (o : Option Address) (s : State) → Ok s → Good Just Ok (api_with env config o) s
  unfolding api_with
  api_with-Ok none s h = pure_rule Just Ok tt s h
  api_with-Ok (some ip) s h = bind_rule Just Just Ok _ _ s (gets_rule Just Ok _ s h) (λ first s' h'.
      bind_rule Just Just Ok _ _ s'
        (choice_rule Just Ok first _ _ s' (λ _. pure_rule Just Ok true s' h')
          (λ _. drift_due-Ok s' h'))
        (λ b s'' h''.
          choice_rule Just Ok b _ _ s'' (λ _. assert_read-Ok ip s'' h'')
            (λ _. assert_known-Ok ip s'' h'')))

  pub detect_bind-Ok :
      (f : Option Address → Action Unit) (s : State)
      → ((o : Option Address) (s' : State) → Ok s' → Good Just Ok (f o) s')
      → Ok s
      → Good Just Ok (detect env >>= f) s
  detect_bind-Ok f s k h =
      bind_rule Just Just Ok _ _ s (call_rule Just Ok _ _ s (λ a. note refl h) (λ r. note refl h)) k

  pub cycle_api-Ok : (s : State) → Ok s → Good Just Ok (cycle_api env config) s
  unfolding cycle_api
  cycle_api-Ok s h = detect_bind-Ok _ s api_with-Ok h
