-- ===== src/Wxverify/Backoff.antt =====
-- wxverify/wxverify/worker/domain_backoff.py: the table `domain_backoffs` and the ladder of delays.
-- Reading and printing time stamps and the date of an HTTP header are parameters.
pub mod Ladder
pub mod Streak
use home_assistant_apps.Prelude.{
  ℕ, zero, suc, ◌+◌, ◌*◌, ◌-◌, ◌/◌, ◌^◌, List, [], ◌∷◌, Bool, true, false, not, ◌&&◌, ◌||◌, Option,
  none, some, Text, text_eq, Dict, lookup, insert, min, max, ltb, leb, ◌==◌, if◌then◌else◌,
}

-- `int.bit_length`, by fuel.
pub bit_length_from : ℕ → ℕ → ℕ
bit_length_from zero n = 0
bit_length_from (suc fuel) n =
    let rest = bit_length_from fuel (n / 2) in if n == 0 then 0 else suc rest

pub bit_length : ℕ → ℕ
unfolding bit_length_from
bit_length n = bit_length_from n n

abbrev pub default_delay_seconds : ℕ
default_delay_seconds = 60

abbrev pub max_delay_seconds : ℕ
max_delay_seconds = 3600

-- `_MAX_BACKOFF_SHIFT`, from the two constants.
pub max_backoff_shift : ℕ → ℕ → ℕ
unfolding bit_length
max_backoff_shift default_delay max_delay = bit_length (max_delay / default_delay)

abbrev pub max_retry_count : ℕ
max_retry_count = 2 ^ 63 - 1

-- The ladder, for any two constants.
pub ladder : ℕ → ℕ → ℕ → ℕ
unfolding max_backoff_shift
ladder default_delay max_delay retry_count =
    min max_delay
      (default_delay * 2 ^ min (retry_count - 1) (max_backoff_shift default_delay max_delay))

-- What the column `retry_count` may hold: an integer, or what `int` refuses.
pub data Carrier : Type 0 where
  number : ℕ → Carrier
  negative : ℕ → Carrier
  unreadable : Carrier

pub record Row : Type 0 where
  pub next_attempt_at : Text
  pub retry_count : Carrier

abbrev pub Table : Type 0
Table = Dict Row

pub record Response : Type 0 where
  pub status_code : ℕ
  pub domain : Option Text  -- the host of its URL
  pub retry_after : Option Text

-- What `parsedate_to_datetime` gives, in UTC: nothing, a time, or one that `isoformat_utc` cannot
-- convert since it leaves the range of `datetime`.
pub data HttpDate : Type 0 where
  no_date : HttpDate
  date : ℕ → HttpDate
  out_of_range : HttpDate

-- What `isdecimal` and `int` make of a text: it is not decimal, it is a number, or it has more digits
-- than `int` takes.
pub data Decimal : Type 0 where
  not_decimal : Decimal
  decimal : ℕ → Decimal
  too_long : Decimal

-- `parse_utc`, `isoformat_utc`, `parsedate_to_datetime`, and the number of a text of decimals. A time
-- is in microseconds, `last_time` the last one that a `datetime` holds.
pub record Times : Type 0 where
  pub parse_utc : Text → Option ℕ
  pub isoformat_utc : ℕ → Text
  pub parsedate : Text → HttpDate
  pub read_decimal : Text → Decimal
  pub strip : Text → Text
  pub last_time : ℕ

-- `max(_retry_count(conn, domain), 0)`.
abbrev pub count_of : Option Row → ℕ
count_of none = 0
count_of (some row) = elim row.retry_count [ number n ↦ n | negative n ↦ 0 | unreadable ↦ 0 ]

-- What is raised is the `OverflowError` of a time that leaves the range of `datetime`, or the
-- `ValueError` of `int`.
pub data Stamp : Type 0 where
  overflow : Stamp
  value_error : Stamp
  stamp : Text → Stamp

pub data Check : Type 0 where
  proceeds : Check
  deferred : Text → Check

-- `clear_domain_backoff`.
unfoldable pub clear_domain_backoff : Text → Table → Table
clear_domain_backoff domain [] = []
clear_domain_backoff domain ((d, row) ∷ table) =
    let rest = clear_domain_backoff domain table in
    if text_eq d domain then rest else (d, row) ∷ rest

abbrev pub is_throttled : Response → Bool
is_throttled response = response.status_code == 429 || leb 500 response.status_code

module _ (times : Times) where
  -- `isoformat_utc(utc_now() + timedelta(seconds=...))`.
  pub stamp_after : ℕ → ℕ → Stamp
  stamp_after now seconds =
      let time = now + seconds * 1000000 in
      if leb time times.last_time then stamp (times.isoformat_utc time) else overflow

  -- `_parse_retry_after`, over the text without its ends.
  abbrev stamp_of_text : ℕ → Text → Option Stamp
  stamp_of_text now stripped = elim (times.read_decimal stripped) [
    | decimal seconds ↦ some (stamp_after now seconds)
    | too_long ↦ some value_error
    | not_decimal ↦ elim (times.parsedate stripped) [
      | date time ↦ some (stamp (times.isoformat_utc time))
      | out_of_range ↦ some overflow
      | no_date ↦ none
    ]
  ]

  pub parse_retry_after : ℕ → Option Text → Option Stamp
  parse_retry_after now none = none
  parse_retry_after now (some []) = none
  parse_retry_after now (some (c ∷ cs)) = stamp_of_text now (times.strip (c ∷ cs))

  -- `_next_attempt`.
  pub next_attempt : ℕ → Response → ℕ → Stamp
  unfolding parse_retry_after ladder stamp_after
  next_attempt now response retry_count = elim (parse_retry_after now response.retry_after) [
    | some s ↦ s
    | none ↦ stamp_after now (ladder default_delay_seconds max_delay_seconds retry_count)
  ]

  -- The upsert, unless the stamp raised.
  pub upsert : Text → ℕ → Stamp → Table → Option Stamp × Table
  upsert domain retry_count overflow table = (some overflow, table)
  upsert domain retry_count value_error table = (some value_error, table)
  upsert domain retry_count (stamp t) table = (
    some (stamp t),
    insert domain (record { next_attempt_at = t; retry_count = number retry_count }) table,
  )

  -- `record_http_backoff`: None, the stamp or what was raised, and the table.
  pub record_http_backoff : ℕ → Response → Table → Option Stamp × Table
  unfolding next_attempt upsert
  record_http_backoff now response table =
      if is_throttled response
      then elim response.domain [
        | none ↦ (none, table)
        | some domain ↦
            let retry_count = min (count_of (lookup domain table) + 1) max_retry_count in
            upsert domain retry_count (next_attempt now response retry_count) table
      ]
      else (none, table)

  -- `check_domain_backoff`.
  pub check_domain_backoff : ℕ → Text → Table → Check
  check_domain_backoff now domain table = elim (lookup domain table) [
    | none ↦ proceeds
    | some row ↦ elim (times.parse_utc row.next_attempt_at) [
      | none ↦ proceeds
      | some due ↦ if ltb now due then deferred row.next_attempt_at else proceeds
    ]
  ]
