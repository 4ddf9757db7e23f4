-- ===== src/Wxverify/AccessHold.antt =====
-- wxverify/wxverify/worker/access_hold.py over the table `runtime_state`, as a dictionary. A time is
-- in microseconds; the readers and writers of JSON and of stamps are parameters.
pub mod Rows
pub mod History
mod Examples
use home_assistant_apps.Prelude.{
  ℕ, ◌+◌, ◌*◌, ◌/◌, List, [], ◌∷◌, ◌++◌, Bool, true, false, Option, none, some, Text, codes,
  text_eq, Dict, lookup, insert, ltb, if◌then◌else◌,
}

pub data AccessKind : Type 0 where
  current_obs hourly five_minute : AccessKind

abbrev pub kind_name : AccessKind → Text
kind_name current_obs = codes "current_obs"
kind_name hourly = codes "hourly"
kind_name five_minute = codes "five_minute"

-- `ACCESS_KINDS`, `ACCESS_HOLD_SECONDS` and `_REFUSED_LISTED_FOR`.
abbrev pub access_kinds : List AccessKind
access_kinds = current_obs ∷ hourly ∷ five_minute ∷ []

abbrev pub hold_time : ℕ
hold_time = 3600 * 1000000

abbrev pub listed_time : ℕ
listed_time = 24 * 3600 * 1000000

unfoldable pub access_hold_key : AccessKind → Text
access_hold_key kind = codes "weathercom_access_hold:" ++ kind_name kind

-- A value in a JSON object: no such field, a string, an integer, or another one.
pub data Json : Type 0 where
  absent other : Json
  string : Text → Json
  integer : ℕ → Json

pub record Fields : Type 0 where
  pub since : Json
  pub until : Json
  pub status : Json
  pub message : Json

-- A string with the time that `parse_utc` reads in it.
pub record Stamp : Type 0 where
  pub text : Text
  pub time : ℕ

pub record AccessRecord : Type 0 where
  pub kind : AccessKind
  pub since : Option Stamp
  pub until : Option Stamp
  pub status : Option ℕ
  pub message : Option Text

-- `parse_utc`, which raises or reads a time, `isoformat_utc`, `json_object` and `json.dumps`, and
-- the message of a status.
pub record Formats : Type 0 where
  pub parse_utc : Text → Option ℕ
  pub isoformat_utc : ℕ → Text
  pub json_object : Text → Option Fields
  pub dumps : Fields → Text
  pub message : ℕ → Text

-- `DELETE ... WHERE key = ?`.
unfoldable pub delete : Text → Dict Text → Dict Text
delete k [] = []
delete k ((j, v) ∷ rows) = let rest = delete k rows in if text_eq j k then rest else (j, v) ∷ rest

abbrev pub int_or_none : Json → Option ℕ
int_or_none (integer n) = some n
int_or_none _ = none

abbrev pub text_or_none : Json → Option Text
text_or_none (string t) = some t
text_or_none _ = none

-- `{}` for a value that is no object.
abbrev pub fields_or_empty : Option Fields → Fields
fields_or_empty (some fields) = fields
fields_or_empty none = record { since = absent; until = absent; status = absent; message = absent }

-- `now.replace(microsecond=0)`.
abbrev pub whole_second : ℕ → ℕ
whole_second now = now / 1000000 * 1000000

-- A refused reply of a kind with its status and the clock, or a granted one.
pub data Verdict : Type 0 where
  refused : AccessKind → ℕ → ℕ → Verdict
  granted : AccessKind → Verdict

module _ (formats : Formats) where
  abbrev pub read_stamp : Text → Option ℕ → Option Stamp
  read_stamp text none = none
  read_stamp text (some time) = some (record { text = text; time = time })

  abbrev pub stamp_or_none : Json → Option Stamp
  stamp_or_none (string text) = read_stamp text (formats.parse_utc text)
  stamp_or_none _ = none

  abbrev pub record_of : AccessKind → Fields → AccessRecord
  record_of kind fields = record {
    kind = kind;
    since = stamp_or_none fields.since;
    until = stamp_or_none fields.until;
    status = int_or_none fields.status;
    message = text_or_none fields.message;
  }

  abbrev pub row_record : AccessKind → Option Text → Option AccessRecord
  row_record kind none = none
  row_record kind (some raw) = some (record_of kind (fields_or_empty (formats.json_object raw)))

  unfoldable pub read_access_record : Dict Text → AccessKind → Option AccessRecord
  unfolding lookup access_hold_key
  read_access_record rows kind = row_record kind (lookup (access_hold_key kind) rows)

  abbrev pub held_until : ℕ → Option AccessRecord → Option Text
  held_until now none = none
  held_until now (some r) = elim r.until [
    | none ↦ none
    | some stamp ↦ if ltb now stamp.time then some stamp.text else none
  ]

  unfoldable pub access_held : Dict Text → AccessKind → ℕ → Option Text
  unfolding read_access_record
  access_held rows kind now = held_until now (read_access_record rows kind)

  -- `record.until > now - 24 h`.
  abbrev pub is_listed : ℕ → AccessRecord → Bool
  is_listed now r = elim r.until [ none ↦ true | some stamp ↦ ltb now (stamp.time + listed_time) ]

  abbrev pub with_listed : ℕ → Option AccessRecord → List AccessRecord → List AccessRecord
  with_listed now none rest = rest
  with_listed now (some r) rest = if is_listed now r then r ∷ rest else rest

  unfoldable pub refused_among : Dict Text → ℕ → List AccessKind → List AccessRecord
  unfolding read_access_record
  refused_among rows now [] = []
  refused_among rows now (kind ∷ kinds) =
      with_listed now (read_access_record rows kind) (refused_among rows now kinds)

  abbrev pub refused_kinds : Dict Text → ℕ → List AccessRecord
  refused_kinds rows now = refused_among rows now access_kinds

  -- The start of the run that a refusal belongs to.
  abbrev pub since_of : ℕ → Option AccessRecord → Text
  since_of now none = formats.isoformat_utc now
  since_of now (some r) = elim r.until [
    | none ↦ formats.isoformat_utc now
    | some u ↦ elim r.since [ none ↦ formats.isoformat_utc now | some s ↦ s.text ]
  ]

  -- The new `until`, and the table.
  unfoldable pub record_access_refused : Dict Text → AccessKind → ℕ → ℕ → Text × Dict Text
  unfolding read_access_record insert access_hold_key
  record_access_refused rows kind status clock =
      let now = whole_second clock in
      let until = formats.isoformat_utc (now + hold_time) in
      let value : Fields = record {
        since = string (since_of now (read_access_record rows kind));
        until = string until;
        status = integer status;
        message = string (formats.message status);
      } in
      (until, insert (access_hold_key kind) (formats.dumps value) rows)

  unfoldable pub clear_access_refused : Dict Text → AccessKind → Dict Text
  unfolding delete access_hold_key
  clear_access_refused rows kind = delete (access_hold_key kind) rows

  unfoldable pub after_verdict : Verdict → Dict Text → Dict Text
  unfolding record_access_refused clear_access_refused
  after_verdict (refused kind status clock) rows = (record_access_refused rows kind status clock).1
  after_verdict (granted kind) rows = clear_access_refused rows kind

  -- Replies, the latest first.
  unfoldable pub after_verdicts : List Verdict → Dict Text → Dict Text
  unfolding after_verdict
  after_verdicts [] rows = rows
  after_verdicts (r ∷ older) rows = after_verdict r (after_verdicts older rows)
