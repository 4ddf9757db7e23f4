-- ===== src/Wxverify/Jobs/Claim.antt =====
-- The claim of wxverify/wxverify/db/queue.py: `_claim` with its two lanes and its order.
pub mod Order
pub mod Drain
use home_assistant_apps.Prelude.{
  ℕ, ◌+◌, ◌-◌, List, [], ◌∷◌, map, Bool, true, false, not, ◌&&◌, ◌||◌, Option, none, some, Text,
  codes, text_eq, ltb, leb, ◌==◌, take, if◌then◌else◌,
}
use home_assistant_apps.Wxverify.Jobs.{
  Status, pending, running, failed, Row, Table, is_pending, text_le, same_text, find_row, update,
  has_id, Payload, object, no_object, no_json, Outside,
}

pub data Lane : Type 0 where
  main current_obs : Lane

abbrev pub is_current_obs : Row → Bool
is_current_obs r = text_eq r.type (codes "fetch_current_obs")

-- `MAIN_LANE_TYPE_SQL`, and its complement.
abbrev pub in_lane : Lane → Row → Bool
in_lane main r = not (is_current_obs r)
in_lane current_obs r = is_current_obs r

-- `next_attempt_at IS NULL OR next_attempt_at <= ?`.
abbrev pub is_due_at : Text → Option Text → Bool
is_due_at now none = true
is_due_at now (some t) = text_le t now

-- The rows that a claim chooses from.
unfoldable pub is_claimable : Lane → Text → Row → Bool
is_claimable lane now r = is_pending r.status && is_due_at now r.next_attempt_at && in_lane lane r

-- LIKE compares ASCII letters without their case.
abbrev lower : ℕ → ℕ
lower c = if leb 65 c && leb c 90 then c + 32 else c

abbrev is_round_key : Option Text → Bool
is_round_key none = false
is_round_key (some key) = text_eq (map lower (take 6 key)) (codes "round:")

-- The tier of `_CLAIM_ORDER_BY`. No type is a chain type, so no row has tier 2.
unfoldable pub tier : Row → ℕ
tier r =
    if text_eq r.type (codes "day_close")
      || text_eq r.type (codes "day_publish")
      || (text_eq r.type (codes "fetch_obs") && same_text r.job_key (codes "wind-days"))
      || (text_eq r.type (codes "fetch_feed") && is_round_key r.job_key)
    then 0
    else 1

-- `tier, created_at, id`: whether the first row goes before the second or is the same.
unfoldable pub comes_first : Row → Row → Bool
unfolding tier
comes_first a b =
    ltb (tier a) (tier b)
    || (tier a == tier b
        && (not (text_le b.created_at a.created_at)
            || (text_le a.created_at b.created_at && leb a.id b.id)))

-- `ORDER BY ... LIMIT 1`.
abbrev pub better : Row → Option Row → Option Row
better r none = some r
better r (some b) = if comes_first r b then some r else some b

unfoldable pub first_claimable : Lane → Text → Table → Option Row
unfolding is_claimable
first_claimable lane now [] = none
first_claimable lane now (r ∷ t) =
    let rest = first_claimable lane now t in if is_claimable lane now r then better r rest else rest

module _ (outside : Outside) where
  -- Whether `_job_from_row` reads the row.
  unfoldable pub is_readable : Row → Bool
  is_readable r = elim r.payload [
    | [] ↦ true
    | c ∷ cs ↦ elim (outside.loads (c ∷ cs)) [ object ↦ true | no_object ↦ false | no_json ↦ false ]
  ]

  abbrev pub start : Text → Row → Row
  start now r = record r { status = running; updated_at = now }

  abbrev pub give_up : Text → Row → Row
  give_up now r = record r {
    status = failed;
    last_error = some (codes "unreadable job row");
    updated_at = now;
  }

  -- `_claim`: the job, and the table. The row of a job that cannot be read is failed at once.
  unfoldable pub claim : Lane → ℕ → Table → Option Row × Table
  unfolding first_claimable update is_readable
  claim lane time t =
      let now = outside.isoformat_utc time in
      elim (first_claimable lane now t) [
        | none ↦ (none, t)
        | some r ↦
            let t' = update (has_id r.id) (start now) t in
            if is_readable r
            then (some (start now r), t')
            else (none, update (has_id r.id) (give_up now) t')
      ]
