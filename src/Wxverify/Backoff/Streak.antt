-- ===== src/Wxverify/Backoff/Streak.antt =====
-- What a throttled response does to its domain, and to the others.
use home_assistant_apps.Prelude.{
  ℕ, ◌+◌, ◌*◌, ◌≤◌, ◌≡◌, refl, List, [], ◌∷◌, true, false, Option, none, some, Text, text_eq,
  text_eq_iff, lookup, insert, lookup-insert, min, ltb, leb, length, if◌then◌else◌, arith,
}
use home_assistant_apps.Wxverify.Backoff.{
  default_delay_seconds, max_delay_seconds, max_retry_count, ladder, number, Row, Table, Response,
  Times, proceeds, deferred, count_of, stamp_after, next_attempt, parse_retry_after, is_throttled,
  upsert, record_http_backoff, check_domain_backoff,
}

text_eq_self : (t : Text) → text_eq t t ≡ true
text_eq_self t = (text_eq_iff t t).1 refl

ladder_le : (count : ℕ) → ladder default_delay_seconds max_delay_seconds count ≤ 3600
unfolding ladder
ladder_le count = omega arith

-- The count that a throttled response writes.
abbrev pub next_count : Option Row → ℕ
next_count o = min (count_of o + 1) max_retry_count

-- The responses at these times, the first one first.
unfoldable pub record_all : Times → Response → List ℕ → Table → Table
record_all times response [] table = table
record_all times response (now ∷ nows) table =
    record_all times response nows (record_http_backoff times now response table).1

unfoldable pub AreInTime : Times → List ℕ → Type 0
AreInTime times [] = Unit
AreInTime times (now ∷ nows) = (now + 3600000000 ≤ times.last_time) × AreInTime times nows

module _ (times : Times) (response : Response) (domain : Text)
    (throttled : is_throttled response ≡ true) (its_domain : response.domain ≡ some domain)
    (no_header : response.retry_after ≡ none) where
  abbrev due : ℕ → Table → ℕ
  due now table =
      now
      + ladder default_delay_seconds max_delay_seconds (next_count (lookup domain table)) * 1000000

  recorded :
      (now : ℕ) (table : Table)
      → now + 3600000000 ≤ times.last_time
      → (record_http_backoff times now response table).1
        ≡ insert domain
            (record {
              next_attempt_at = times.isoformat_utc (due now table);
              retry_count = number (next_count (lookup domain table));
            })
            table
  unfolding record_http_backoff next_attempt parse_retry_after stamp_after upsert
  recorded now table h =
      let in_time : leb (due now table) times.last_time ≡ true =
        ground (arith, ladder_le (next_count (lookup domain table))) in
      rw throttled (rw its_domain (rw no_header (rw in_time refl)))

  -- If a response is throttled, names no delay, and time does not run out within an hour of it, then
  -- its domain is deferred until the ladder's delay for the count behind it is over, and proceeds
  -- from then on; what any other domain's check gives is as before. It is assumed that a printed
  -- time stamp is read back.
  pub check-record :
      (now later : ℕ) (table : Table)
      → now + 3600000000 ≤ times.last_time
      → ((t : ℕ) → times.parse_utc (times.isoformat_utc t) ≡ some t)
      → (check_domain_backoff times later domain (record_http_backoff times now response table).1
          ≡ (if ltb later (
                now
                + ladder default_delay_seconds max_delay_seconds (next_count (lookup domain table))
                  * 1000000)
              then deferred (
                  times.isoformat_utc (
                    now
                    + ladder default_delay_seconds max_delay_seconds
                        (next_count (lookup domain table))
                      * 1000000))
              else proceeds))
        × ((other : Text)
            → text_eq domain other ≡ false
            → check_domain_backoff times later other
                (record_http_backoff times now response table).1
              ≡ check_domain_backoff times later other table)
  unfolding check_domain_backoff
  check-record now later table h reads = rw (recorded now table h) (
    rw (lookup-insert, check_domain_backoff) (rw (text_eq_self domain) (rw reads refl)),
    λ other apart. rw (lookup-insert, check_domain_backoff) (rw apart refl),
  )

  count-record :
      (now : ℕ) (table : Table)
      → now + 3600000000 ≤ times.last_time
      → count_of (lookup domain (record_http_backoff times now response table).1)
        ≡ next_count (lookup domain table)
  count-record now table h =
      rw (recorded now table h) (rw lookup-insert (rw (text_eq_self domain) refl))

  -- If the table's count is at most the greatest one, and time does not run out within an hour of any
  -- of the responses, then a run of throttled responses without a delay counts each of them, up to
  -- the greatest number that the column holds, where the count stays.
  pub count-record_all :
      (nows : List ℕ) (table : Table)
      → AreInTime times nows
      → count_of (lookup domain table) ≤ max_retry_count
      → count_of (lookup domain (record_all times response nows table))
        ≡ min (count_of (lookup domain table) + length nows) max_retry_count
  unfolding record_all AreInTime
  count-record_all [] table h le = omega arith
  count-record_all (now ∷ nows) table h le =
      let step = count-record now table h.0 in
      let ih = count-record_all nows (record_http_backoff times now response table).1 h.1 in
      omega (arith, step, ih (omega (arith, step)))
