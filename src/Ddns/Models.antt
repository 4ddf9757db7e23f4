-- ===== src/Ddns/Models.antt =====
-- py-ddns/pyddns/models.py: what the updater's parts say to each other, and the parts themselves as
-- parameters. An address is its number.
use home_assistant_apps.Prelude.{ℕ, Bool, Option, List}

abbrev pub Address : Type 0
Address = ℕ

pub data Provider : Type 0 where
  azure url : Provider

pub data ApplyAction : Type 0 where
  wrote_known_ip fired_server_detected skipped_no_ip failed : ApplyAction

pub data ResolveStatus : Type 0 where
  resolved no_record query_failed : ResolveStatus

pub record ResolveOutcome : Type 0 where
  pub status : ResolveStatus
  pub value : Option Address

-- How a call ends: it returns, or it raises a `TransientError` with the server's delay in seconds, a
-- `TerminalError`, or any other exception.
pub data Reply (A : Type 0) : Type 0 where
  returns : A → Reply A
  transient : Option ℕ → Reply A
  terminal : Reply A
  unexpected : Reply A

pub record Config : Type 0 where
  pub provider : Provider
  pub drift_reconcile_seconds : ℕ  -- a negative number is off too, as 0 is

-- A call and its answer. A sleep is given in 5000ths of a second.
pub data Event : Type 0 where
  detected : Reply (Option Address) → Event
  current : Reply (Option Address) → Event
  applied : Option Address → Reply ApplyAction → Event
  looked_up : Reply ResolveOutcome → Event
  ticked : ℕ → Event
  slept : ℕ → Bool → Event
  wrote : Address → Event
  write_failed : Address → Event

-- What reading the state file gives: what was last written; an `OSError`, or a text that is no
-- address; or bytes that are no UTF-8, whose `UnicodeDecodeError` is no `OSError`.
pub data StateFile : Type 0 where
  readable not_an_address undecodable : StateFile

-- The answers of the outside, which depend on all calls so far, the last one first.
pub record Env : Type 0 where
  pub detect : List Event → Reply (Option Address)
  pub read_current : List Event → Reply (Option Address)
  pub apply : Option Address → List Event → Reply ApplyAction
  pub resolve : List Event → Reply ResolveOutcome
  pub clock : List Event → ℕ
  pub randbelow_2001 : List Event → ℕ
  pub stop : List Event → Bool
  pub state_file : List Event → StateFile
  pub write_fails : List Event → Bool

-- The updater's own state, the persisted address, and the calls so far.
pub record State : Type 0 where
  pub first_cycle : Bool
  pub last_drift : ℕ
  pub stored : Option Address
  pub events : List Event
