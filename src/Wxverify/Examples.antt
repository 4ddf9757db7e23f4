-- ===== src/Wxverify/Examples.antt =====
-- The theorems about the collection side at concrete tables.
use home_assistant_apps.Prelude.{
  ℕ, ◌+◌, ◌*◌, ◌-◌, ◌^◌, ◌≤◌, ◌≡◌, ◌⊎◌, refl, List, [], ◌∷◌, true, false, Option, none, some, Text,
  codes, text_eq, lookup, min, ltb, if◌then◌else◌, arith,
}
use home_assistant_apps.Wxverify.Backoff.{
  default_delay_seconds, max_delay_seconds, max_retry_count, ladder, negative, Table, Response,
  Times, no_date, not_decimal, proceeds, deferred, count_of, record_http_backoff,
  check_domain_backoff,
}
use home_assistant_apps.Wxverify.Backoff.Ladder.{ladder-uncapped}
use home_assistant_apps.Wxverify.Backoff.Streak.{
  next_count, record_all, AreInTime, check-record, count-record_all,
}
use home_assistant_apps.Wxverify.Budget.{
  Source, BudgetKey, key_eq, Db, Reserved, Reservation, reserved, reserve_budget, refund_budget,
  take_from, insert_or_ignore, update, counters_of, effective_daily_call_limit,
}
use home_assistant_apps.Wxverify.Budget.Spent.{spent, add}
use home_assistant_apps.Wxverify.Budget.Limits.{IsWithin, reserve_budget-exact}
use home_assistant_apps.Wxverify.Budget.Runs.{
  Change, reserve, set_cap, apply_all, apply_all-AtMost, refund-reserve,
}

ladder-uncapped_example : ladder 60 3600 9 ≡ min 3600 (60 * 2 ^ (9 - 1))
ladder-uncapped_example = ladder-uncapped 60 3600 9 (omega arith)

-- A time stamp is the time, as one code point.
abbrev value_of : Text → Option ℕ
value_of [] = none
value_of (n ∷ ns) = some n

abbrev times : Times
times = record {
  parse_utc = value_of;
  isoformat_utc = λ t. t ∷ [];
  parsedate = λ t. no_date;
  read_decimal = λ t. not_decimal;
  strip = λ t. t;
  last_time = 10000000000;
}

abbrev domain : Text
domain = codes "a.org"

abbrev throttled : Response
throttled = record { status_code = 429; domain = some domain; retry_after = none }

abbrev table : Table
table = (domain, record { next_attempt_at = []; retry_count = negative 3 }) ∷ []

check-record_example :
    (check_domain_backoff times 7 domain (record_http_backoff times 5 throttled table).1 ≡ (
      if ltb 7 (
        5
        + ladder default_delay_seconds max_delay_seconds (next_count (lookup domain table))
          * 1000000)
      then deferred (
          times.isoformat_utc (
            5
            + ladder default_delay_seconds max_delay_seconds (next_count (lookup domain table))
              * 1000000))
      else proceeds))
    × ((other : Text)
        → text_eq domain other ≡ false
        → check_domain_backoff times 7 other (record_http_backoff times 5 throttled table).1
          ≡ check_domain_backoff times 7 other table)
check-record_example =
    check-record times throttled domain refl refl refl 5 7 table (omega arith) (λ t. refl)

count-record_all_example :
    count_of (lookup domain (record_all times throttled (5 ∷ 6 ∷ []) table))
    ≡ min (count_of (lookup domain table) + 2) max_retry_count
unfolding lookup AreInTime text_eq
count-record_all_example =
    count-record_all times throttled domain refl refl refl (5 ∷ 6 ∷ []) table
      (omega arith, (omega arith, tt)) (omega arith)

abbrev weathercom : Text
weathercom = codes "weathercom"

abbrev source : Source
source = record { daily_call_limit = 5000; daily_credit_limit = none; billing_tz = codes "UTC" }

abbrev db : Db
db = record { sources = (weathercom, source) ∷ []; api_budget = [] }

abbrev one_day : Text → Text
one_day tz = codes "2025-01-01"

abbrev today : BudgetKey
today = record { source = weathercom; billing_day = codes "2025-01-01" }

reserve_budget-exact_example :
    (IsWithin weathercom source 2 0
      × ((reserve_budget one_day one_day weathercom 2 none db).0
            ≡ reserved (record {
              source = weathercom;
              billing_day = codes "2025-01-01";
              calls = 2;
              credits = 0;
            })
          × ((k : BudgetKey)
              → spent k (reserve_budget one_day one_day weathercom 2 none db).1.api_budget ≡ (
                  if key_eq today k
                  then add 2 0 (spent k db.api_budget)
                  else spent k db.api_budget))))
    ⊎ (¬ IsWithin weathercom source 2 0
        × ((reserve_budget one_day one_day weathercom 2 none db).0
              ≡ Reserved.deferred (codes "2025-01-01")
            × ((k : BudgetKey)
                → spent k (reserve_budget one_day one_day weathercom 2 none db).1.api_budget
                  ≡ spent k db.api_budget)))
unfolding lookup text_eq counters_of
reserve_budget-exact_example = reserve_budget-exact one_day one_day weathercom source 2 none db refl

abbrev changes : List Change
changes =
    set_cap weathercom (some 9000) none true ∷ reserve one_day one_day weathercom 1400 none ∷ []

apply_all-AtMost_example : (spent today (apply_all changes db).api_budget).calls ≤ 1500
unfolding counters_of text_eq
apply_all-AtMost_example =
    apply_all-AtMost weathercom 1500 refl changes db (λ day. omega arith) (codes "2025-01-01")

abbrev db_after : Db
db_after = record db { api_budget = (today, record { calls = 2; credits = 0 }) ∷ [] }

abbrev reservation : Reservation
reservation = record {
  source = weathercom;
  billing_day = codes "2025-01-01";
  calls = 2;
  credits = 0;
}

refund-reserve_example :
    spent today (refund_budget reservation db_after).api_budget ≡ spent today db.api_budget
unfolding lookup reserve_budget take_from insert_or_ignore counters_of update key_eq
    effective_daily_call_limit text_eq
refund-reserve_example =
    refund-reserve one_day one_day weathercom source 2 none db db_after reservation refl refl today
