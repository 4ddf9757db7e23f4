-- ===== src/Ddns/Cycle.antt =====
-- Actions of the updater of py-ddns/pyddns/updater.py: they change its state, and may raise.
pub mod Rules
use home_assistant_apps.Prelude.{ℕ, List, ◌∷◌, Option, none, some, Bool, if◌then◌else◌}
use home_assistant_apps.Ddns.Models.{
  StateFile, readable, not_an_address, undecodable, Address, Reply, returns, transient, terminal,
  unexpected, ApplyAction, ResolveOutcome, Event, detected, current, applied, looked_up, ticked,
  slept, wrote, write_failed, Env, State,
}

abbrev pub Action : Type 0 → Type 0
Action A = State → Reply A × State

module _ {A B : Type 0} where
  -- The rest of a block, behind what the first action gave.
  abbrev pub continue : Reply A → (A → Action B) → Action B
  continue (returns a) f s = f a s
  continue (transient after) f s = (transient after, s)
  continue terminal f s = (terminal, s)
  continue unexpected f s = (unexpected, s)

  infixl 5 ◌>>=◌
  unfoldable pub ◌>>=◌ : Action A → (A → Action B) → Action B
  ◌>>=◌ m f s = let (r, s') = m s in continue r f s'

unfoldable pub pure : {A : Type 0} → A → Action A
pure a s = (returns a, s)

unfoldable pub fail : {A : Type 0} → Reply A → Action A
fail r s = (r, s)

unfoldable pub gets : {A : Type 0} → (State → A) → Action A
gets f s = (returns (f s), s)

unfoldable pub modify : (State → State) → Action Unit
modify f s = (returns tt, f s)

-- A call of the outside, which is noted.
unfoldable pub call : {A : Type 0} → (List Event → Reply A) → (Reply A → Event) → Action A
call answer note s = let r = answer s.events in (r, record s { events = note r ∷ s.events })

abbrev pub read_file : StateFile → Action (Option Address)
read_file readable s = (returns s.stored, s)
read_file not_an_address s = (returns none, s)
read_file undecodable s = (unexpected, s)

module _ (env : Env) where
  abbrev pub detect : Action (Option Address)
  detect = call env.detect detected

  abbrev pub read_current : Action (Option Address)
  read_current = call env.read_current current

  abbrev pub apply : Option Address → Action ApplyAction
  apply ip = call (env.apply ip) (applied ip)

  abbrev pub resolve : Action ResolveOutcome
  resolve = call env.resolve looked_up

  unfoldable pub clock : Action ℕ
  clock s =
      let now = env.clock s.events in (returns now, record s { events = ticked now ∷ s.events })

  unfoldable pub sleep : ℕ → State → Bool × State
  sleep delay s =
      let stop = env.stop s.events in (stop, record s { events = slept delay stop ∷ s.events })

  -- `State.read`.
  unfoldable pub read_stored : Action (Option Address)
  read_stored s = read_file (env.state_file s.events) s

  -- `State.write`: an `OSError` leaves the address that was stored.
  unfoldable pub write_stored : Address → Action Unit
  write_stored ip s =
      if env.write_fails s.events
      then (unexpected, record s { events = write_failed ip ∷ s.events })
      else (returns tt, record s { stored = some ip; events = wrote ip ∷ s.events })
