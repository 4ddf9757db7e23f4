-- ===== src/Ddns/Updater/Confirmed/Callback.antt =====
-- Confirmed addresses along the callback's cycle of updater.py, and along the loop.
use home_assistant_apps.Prelude.{
  ℕ, zero, suc, ◌≡◌, refl, List, ◌∷◌, Option, none, some, Bool, not, ◌&&◌, if◌then◌else◌, if_rule,
}
use home_assistant_apps.Ddns.Models.{
  Address, Provider, azure, url, ResolveStatus, resolved, no_record, query_failed, ResolveOutcome,
  Reply, returns, transient, terminal, unexpected, Config, Event, looked_up, Env, State,
}
use home_assistant_apps.Ddns.Cycle.{sleep, pure, apply, resolve}
use home_assistant_apps.Ddns.Cycle.Rules.{
  Ends, Good, bind_rule, choice_rule, pure_rule, gets_rule, call_rule, read_rule,
}
use home_assistant_apps.Ddns.Retry.Rules.{Box}
use home_assistant_apps.Ddns.Updater.{
  note_drift, confirm, write_if_resolved, fire_and_confirm, is_unchanged, suppress_or_fire, steady,
  cycle_callback, cycle, run_once, run_loop,
}
use home_assistant_apps.Ddns.Updater.Confirmed.{
  Fired, fired, looked, Confirmed, is_served, Sound, start, note, run_call, completed_rule,
  drift_due-Ok, note_drift_rule, write-Ok, cycle_api-Ok, detect_bind-Ok,
}

module _ (env : Env) (config : Config) (past : List Event) (kept : Option Address) where
  abbrev Ok : State → Type 0
  Ok s = Sound past kept s.events s.stored

  abbrev And : {A : Type 0} → (A → State → Type 0) → A → State → Type 0
  And P a s = Ok s × P a s

  abbrev Just : {A : Type 0} → A → State → Type 0
  Just a s = Ok s

  -- What a lookup behind a fire confirms.
  abbrev Served : ResolveOutcome → State → Type 0
  Served outcome s =
      (v : Address) → outcome.status ≡ resolved → outcome.value ≡ some v → Confirmed v s.events

  abbrev AfterFire : {A : Type 0} → A → State → Type 0
  AfterFire a s = Fired s.events

  served-Confirmed :
      (status : ResolveStatus) (o : Option Address) (l : List Event) (v : Address)
      → Fired l
      → status ≡ resolved
      → o ≡ some v
      → Confirmed v (looked_up (returns (record { status = status; value = o })) ∷ l)
  served-Confirmed status o l v f e e' = rw (e, e') (is_served f)

  resolve-Ok :
      (s : State)
      → Ok s
      → Fired s.events
      → Good (λ o s'. Ok s' × (Fired s'.events × Served o s')) Ok (resolve env) s
  resolve-Ok s h f =
      call_rule _ Ok _ _ s
        (λ o.
          (note refl h, (looked f, λ v e e'. served-Confirmed o.status o.value s.events v f e e')))
        (λ r. note refl h)

  confirm-Ok :
      (n : ℕ) (s : State) → Ok s → Fired s.events → Good (And Served) Ok (confirm env config n) s
  unfolding confirm
  confirm-Ok zero s h f =
      call_rule (And Served) Ok _ _ s
        (λ o. (note refl h, λ v e e'. served-Confirmed o.status o.value s.events v f e e'))
        (λ r. note refl h)
  confirm-Ok (suc n) s h f = bind_rule _ (And Served) Ok _ _ s (resolve-Ok s h f) (λ o s' h'.
      choice_rule (And Served) Ok _ _ _ s' (λ _. confirm-Ok n s' h'.0 h'.1.0)
        (λ _. pure_rule (And Served) Ok o s' (h'.0, h'.1.1)))

  write_if_resolved-Ok :
      (status : ResolveStatus) (o : Option Address) (s : State)
      → Ok s
      → ((v : Address) → status ≡ resolved → o ≡ some v → Confirmed v s.events)
      → Good Just Ok (write_if_resolved env config status o) s
  write_if_resolved-Ok resolved (some v) s h c = write-Ok env config past kept v s h (c v refl refl)
  write_if_resolved-Ok resolved none s h c = pure_rule Just Ok tt s h
  write_if_resolved-Ok no_record o s h c = pure_rule Just Ok tt s h
  write_if_resolved-Ok query_failed o s h c = pure_rule Just Ok tt s h

  fire-Ok :
      (ip : Option Address) (s : State) → Ok s → Good Just Ok (fire_and_confirm env config ip) s
  unfolding fire_and_confirm
  fire-Ok ip s h =
      bind_rule (Box (And AfterFire) Ok) Just Ok _ _ s
        (run_call env config past kept AfterFire (apply env ip) s
          (λ s' h'.
            call_rule (And AfterFire) Ok _ _ s' (λ a. (note refl h', fired)) (λ r. note refl h'))
          h)
        (λ o s' h'.
          bind_rule (And AfterFire) Just Ok _ _ s'
            (completed_rule env config past kept AfterFire o s' h')
            (λ a s'' h''.
              bind_rule (And Served) Just Ok _ _ s'' (confirm-Ok 2 s'' h''.0 h''.1)
                (λ outcome t g. write_if_resolved-Ok outcome.status outcome.value t g.0 g.1)))

  suppress-Ok :
      (ip : Option Address) (known : Address) (s : State)
      → Ok s
      → Good Just Ok (suppress_or_fire env config ip known) s
  unfolding suppress_or_fire
  suppress-Ok ip known s h =
      bind_rule Just Just Ok _ _ s (call_rule Just Ok _ _ s (λ a. note refl h) (λ r. note refl h))
        (λ o s' h'.
          choice_rule Just Ok _ _ _ s' (λ _. pure_rule Just Ok tt s' h') (λ _. fire-Ok ip s' h'))

  steady-Ok :
      (ip known : Option Address) (s : State) → Ok s → Good Just Ok (steady env config ip known) s
  unfolding steady
  steady-Ok ip none s h = fire-Ok ip s h
  steady-Ok ip (some known) s h =
      choice_rule Just Ok (is_unchanged env config ip known) _ _ s (λ _. suppress-Ok ip known s h)
        (λ _. fire-Ok ip s h)

  drift-Ok :
      (b : Bool) (s : State) → Ok s → Good Just Ok (if b then note_drift env config else pure tt) s
  drift-Ok b s h =
      choice_rule Just Ok b _ _ s
        (λ _. note_drift_rule env config past kept Just s (λ t. note refl h))
        (λ _. pure_rule Just Ok tt s h)

  cycle_callback-Ok : (s : State) → Ok s → Good Just Ok (cycle_callback env config) s
  unfolding cycle_callback
  cycle_callback-Ok s h =
      detect_bind-Ok env config past kept _ s
        (λ ip s1 h1.
          bind_rule Just Just Ok _ _ s1 (read_rule env Ok Just s1 (λ o. h1) h1) (λ known s2 h2.
            bind_rule Just Just Ok _ _ s2 (drift_due-Ok env config past kept s2 h2) (λ drift s3 h3.
              bind_rule Just Just Ok _ _ s3 (drift-Ok drift s3 h3) (λ _ s4 h4.
                bind_rule Just Just Ok _ _ s4 (gets_rule Just Ok _ s4 h4) (λ first s5 h5.
                  choice_rule Just Ok (not first && not drift) _ _ s5
                    (λ _. steady-Ok ip known s5 h5) (λ _. fire-Ok ip s5 h5))))))
        h

  cycle-Ok : (p : Provider) (s : State) → Ok s → Good Just Ok (cycle env config p) s
  unfolding cycle
  cycle-Ok azure s h = cycle_api-Ok env config past kept s h
  cycle-Ok url s h = cycle_callback-Ok s h

  Ends-Ok : (r : Reply Unit) (s : State) → Ends Just Ok r s → Ok s
  Ends-Ok (returns a) s h = h
  Ends-Ok (transient after) s h = h
  Ends-Ok terminal s h = h
  Ends-Ok unexpected s h = h

  run_once-Ok : (s : State) → Ok s → Ok (run_once env config s)
  unfolding run_once
  run_once-Ok s h =
      Ends-Ok (cycle env config config.provider s).0 _ (cycle-Ok config.provider s h).ends

  run_loop-Ok :
      (cycles interval : ℕ) (s : State) → Ok s → Ok (run_loop env config cycles interval s).1
  unfolding run_loop sleep
  run_loop-Ok zero interval s h = h
  run_loop-Ok (suc cycles) interval s h =
      let asleep : Ok (sleep env interval (run_once env config s)).1 =
        note refl (run_once-Ok s h) in
      if_rule (λ (r : Bool × State). Ok r.1) (env.stop (run_once env config s).events) _ _
        (λ _. asleep) (λ _. run_loop-Ok cycles interval _ asleep)

-- Whatever the outside answers and wherever a cycle is cut short, the reconcile loop persists nothing,
-- in any number of cycles, but an address that was confirmed by the call just before, clock readings
-- apart: the provider has just answered with it, or has just reported that it is written, or the name
-- has just resolved to it in a lookup behind a fire that returned, with no call but lookups in
-- between. Without such a write the persisted address stays.
pub run_loop-Sound :
    (env : Env) (config : Config) (cycles interval : ℕ) (s : State)
    → Sound s.events s.stored
        (run_loop env config cycles interval s).1.events
        (run_loop env config cycles interval s).1.stored
run_loop-Sound env config cycles interval s =
    run_loop-Ok env config s.events s.stored cycles interval s start
