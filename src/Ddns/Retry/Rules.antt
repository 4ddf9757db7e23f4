-- ===== src/Ddns/Retry/Rules.antt =====
-- What holds behind a run of attempts, if it holds behind each attempt.
use home_assistant_apps.Prelude.{
  ℕ, zero, suc, ◌+◌, ◌-◌, ◌∷◌, Option, none, some, Bool, get_elem?, if◌then◌else◌, if_rule, ◌==◌,
}
use home_assistant_apps.Ddns.Models.{
  Reply, returns, transient, terminal, unexpected, slept, Env, State,
}
use home_assistant_apps.Ddns.Cycle.{Action, sleep}
use home_assistant_apps.Ddns.Cycle.Rules.{Ends, Good}
use home_assistant_apps.Ddns.Retry.{max_attempts, backoff_delays, jittered, or_else, run_from, run}

-- `True` with a box, or `False`.
abbrev pub Box : {A : Type 0} → (A → State → Type 0) → (State → Type 0) → Option A → State → Type 0
Box P F none s = F s
Box P F (some a) s = P a s

module _ (env : Env) {A : Type 0} (op : Action A) (P : A → State → Type 0) (F : State → Type 0)
    (Before : ℕ → State → Type 0)
    (attempts : (left : ℕ) (s : State)
      → Before (suc left) s
      → Good P (λ s'. F s' × Before left s') op s)
    (sleeps : (left delay : ℕ) (stop : Bool) (s : State)
      → F s
      → Before left s
      → F (record s { events = slept delay stop ∷ s.events })
        × Before left (record s { events = slept delay stop ∷ s.events })) where
  pub run_from_rule :
      (left attempt : ℕ) (retry_after : Option ℕ) (s : State)
      → F s
      → Before left s
      → Good (Box P F) F (run_from env op left attempt retry_after) s
  unfolding run_from sleep
  run_from_rule zero attempt retry_after s f b = record { ends = f }
  run_from_rule (suc left) attempt retry_after s f b = record {
    ends =
        ended (λ after s'. run_from_rule left (attempt + 1) after s') (op s).0 (op s).1
          (attempts left s b).ends;
  }
    where
      Rest : Type 0
      Rest =
          (after : Option ℕ) (s' : State)
          → F s'
          → Before left s'
          → Good (Box P F) F (run_from env op left (attempt + 1) after) s'

      next : Option ℕ → State → Reply (Option A) × State
      next after s' = run_from env op left (attempt + 1) (or_else after retry_after) s'

      slept_state : State → ℕ → State
      slept_state s' delay = record s' {
        events =
            slept (jittered delay (env.randbelow_2001 s'.events)) (env.stop s'.events) ∷ s'.events;
      }

      after_sleep : (after : Option ℕ) (s' : State) → Option ℕ → Reply (Option A) × State
      after_sleep after s' o = elim o [
        | none ↦ (unexpected, s')
        | some delay ↦
            if env.stop s'.events
            then (returns none, slept_state s' delay)
            else next after (slept_state s' delay)
      ]

      delayed :
          Rest
          → (after : Option ℕ) (s' : State) (o : Option ℕ) → F s'
          → Before left s'
          → Ends (Box P F) F (after_sleep after s' o).0 (after_sleep after s' o).1
      delayed rest after s' none g b' = g
      delayed rest after s' (some delay) g b' =
          let (g', b'') =
            sleeps left (jittered delay (env.randbelow_2001 s'.events)) (env.stop s'.events) s' g
              b' in
          if_rule (λ (r : Reply (Option A) × State). Ends (Box P F) F r.0 r.1) (env.stop s'.events)
            _ _ (λ _. g')
            (λ _. (rest (or_else after retry_after) (slept_state s' delay) g' b'').ends)

      failed : Option ℕ → State → Reply (Option A) × State
      failed after s' =
          if attempt == max_attempts - 1
          then (returns none, s')
          else after_sleep after s' (get_elem? (backoff_delays (or_else after retry_after)) attempt)

      ended :
          Rest
          → (r : Reply A) (s' : State) → Ends P (λ s''. F s'' × Before left s'') r s'
          → let x : Reply (Option A) × State = elim r [
            | returns a ↦ (returns (some a), s')
            | terminal ↦ (terminal, s')
            | unexpected ↦ (unexpected, s')
            | transient after ↦ failed after s'
          ] in
            Ends (Box P F) F x.0 x.1
      ended rest (returns a) s' h = h
      ended rest terminal s' h = h.0
      ended rest unexpected s' h = h.0
      ended rest (transient after) s' h =
          if_rule (λ (r : Reply (Option A) × State). Ends (Box P F) F r.0 r.1)
            (attempt == max_attempts - 1) _ _ (λ _. h.0) (λ _. delayed rest after s' _ h.0 h.1)

  pub run_rule : (s : State) → F s → Before max_attempts s → Good (Box P F) F (run env op) s
  unfolding run
  run_rule s f b = record { ends = (run_from_rule max_attempts 0 none s f b).ends }
