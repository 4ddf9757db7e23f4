-- ===== src/Ddns/Cycle/Rules.antt =====
-- What holds behind an action, by the way it is built.
use home_assistant_apps.Prelude.{
  none, ℕ, List, ◌∷◌, ◌≡◌, refl, Option, some, Bool, true, false, if◌then◌else◌, if_rule,
}
use home_assistant_apps.Ddns.Models.{
  readable, not_an_address, undecodable, Address, Reply, returns, transient, terminal, unexpected,
  Event, ticked, wrote, write_failed, Env, State,
}
use home_assistant_apps.Ddns.Cycle.{
  read_file, Action, continue, ◌>>=◌, pure, gets, call, clock, read_stored, write_stored,
}

-- `P` where it returns, and `F` where it raises.
abbrev pub Ends : {A : Type 0} → (A → State → Type 0) → (State → Type 0) → Reply A → State → Type 0
Ends P F (returns a) s = P a s
Ends P F (transient after) s = F s
Ends P F terminal s = F s
Ends P F unexpected s = F s

pub record Good {A : Type 0} (P : A → State → Type 0) (F : State → Type 0) (m : Action A)
    (s : State) : Type 0 where
  pub ends : Ends P F (m s).0 (m s).1

module _ {A B : Type 0} (P : A → State → Type 0) (Q : B → State → Type 0) (F : State → Type 0) where
  continue_rule :
      (f : A → Action B) (r : Reply A) (s : State)
      → Ends P F r s
      → ((a : A) (s' : State) → P a s' → Good Q F (f a) s')
      → Ends Q F (continue r f s).0 (continue r f s).1
  continue_rule f (returns a) s h k = (k a s h).ends
  continue_rule f (transient after) s h k = h
  continue_rule f terminal s h k = h
  continue_rule f unexpected s h k = h

  pub bind_rule :
      (m : Action A) (f : A → Action B) (s : State)
      → Good P F m s
      → ((a : A) (s' : State) → P a s' → Good Q F (f a) s')
      → Good Q F (m >>= f) s
  unfolding ◌>>=◌
  bind_rule m f s h k = record { ends = continue_rule f (m s).0 (m s).1 h.ends k }

module _ {A : Type 0} (P : A → State → Type 0) (F : State → Type 0) where
  pub choice_rule :
      (b : Bool) (m n : Action A) (s : State)
      → (b ≡ true → Good P F m s)
      → (b ≡ false → Good P F n s)
      → Good P F (if b then m else n) s
  choice_rule true m n s hm hn = hm refl
  choice_rule false m n s hm hn = hn refl

  pub pure_rule : (a : A) (s : State) → P a s → Good P F (pure a) s
  unfolding pure
  pure_rule a s h = record { ends = h }

  pub gets_rule : (f : State → A) (s : State) → P (f s) s → Good P F (gets f) s
  unfolding gets
  gets_rule f s h = record { ends = h }

  pub call_rule :
      (answer : List Event → Reply A) (note : Reply A → Event) (s : State)
      → ((a : A) → P a (record s { events = note (returns a) ∷ s.events }))
      → ((r : Reply A) → F (record s { events = note r ∷ s.events }))
      → Good P F (call answer note) s
  unfolding call
  call_rule answer note s h k = record {
    ends = elim (answer s.events) as (λ r. Ends P F r (record s { events = note r ∷ s.events })) [
      | returns a ↦ h a
      | transient after ↦ k (transient after)
      | terminal ↦ k terminal
      | unexpected ↦ k unexpected
    ];
  }

module _ (env : Env) (F : State → Type 0) where
  pub clock_rule :
      (P : ℕ → State → Type 0) (s : State)
      → ((t : ℕ) → P t (record s { events = ticked t ∷ s.events }))
      → Good P F (clock env) s
  unfolding clock
  clock_rule P s h = record { ends = h (env.clock s.events) }

  pub read_rule :
      (P : Option Address → State → Type 0) (s : State)
      → ((o : Option Address) → P o s)
      → F s
      → Good P F (read_stored env) s
  unfolding read_stored
  read_rule P s h failed = record {
    ends = elim (env.state_file s.events) as (λ f. Ends P F (read_file f s).0 (read_file f s).1) [
      | readable ↦ h s.stored
      | not_an_address ↦ h none
      | undecodable ↦ failed
    ];
  }

  pub write_rule :
      (P : Unit → State → Type 0) (ip : Address) (s : State)
      → P tt (record s { stored = some ip; events = wrote ip ∷ s.events })
      → F (record s { events = write_failed ip ∷ s.events })
      → Good P F (write_stored env ip) s
  unfolding write_stored
  write_rule P ip s done failed = record {
    ends =
        if_rule (λ (r : Reply Unit × State). Ends P F r.0 r.1) (env.write_fails s.events) _ _
          (λ _. failed) (λ _. done);
  }
