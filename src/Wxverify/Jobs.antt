-- ===== src/Wxverify/Jobs.antt =====
-- wxverify/wxverify/db/queue.py: the table `jobs` and its operations. `json.loads`, the stamps of
-- times, and which sites are there, are parameters. Stamps are texts, and SQLite compares them so.
pub mod Claim
pub mod Outcome
pub mod Moves
pub mod Dedupe
pub mod Rows
pub mod Edges
pub mod Changes
pub mod Life
pub mod Lanes
pub mod Enqueue
mod Examples
use home_assistant_apps.Prelude.{
  ℕ, zero, suc, ◌+◌, ◌-◌, ◌^◌, List, [], ◌∷◌, map, Bool, true, false, not, ◌&&◌, ◌||◌, Option, none,
  some, Text, codes, text_eq, min, max, ltb, leb, ◌==◌, length, take, if◌then◌else◌, compare,
  Ordering,
}

pub data Status : Type 0 where
  pending running completed failed : Status

-- A row of `jobs`. Numbers are not negative, and its columns hold values of their types.
pub record Row : Type 0 where
  pub id : ℕ
  pub type : Text
  pub site_id : Option ℕ
  pub job_key : Option Text
  pub payload : Text
  pub status : Status
  pub next_attempt_at : Option Text
  pub retry_count : ℕ
  pub max_retries : ℕ
  pub last_error : Option Text
  pub result : Option Text
  pub created_at : Text
  pub updated_at : Text

abbrev pub Table : Type 0
Table = List Row

abbrev pub is_pending : Status → Bool
is_pending pending = true
is_pending _ = false

abbrev pub is_running : Status → Bool
is_running running = true
is_running _ = false

abbrev pub is_failed : Status → Bool
is_failed failed = true
is_failed _ = false

abbrev pub is_completed : Status → Bool
is_completed completed = true
is_completed _ = false

-- `status IN ('pending','running')`.
abbrev pub is_active : Status → Bool
is_active s = is_pending s || is_running s

-- Texts in the order of their code points.
unfoldable pub text_le : Text → Text → Bool
text_le [] t = true
text_le (c ∷ s) [] = false
text_le (c ∷ s) (d ∷ t) =
    let rest = text_le s t in
    elim (compare c d) [ Ordering.lt ↦ true | Ordering.eq ↦ rest | Ordering.gt ↦ false ]

abbrev pub same_site : Option ℕ → Option ℕ → Bool
same_site none none = true
same_site (some a) (some b) = a == b
same_site _ _ = false

abbrev pub same_text : Option Text → Text → Bool
same_text none t = false
same_text (some s) t = text_eq s t

-- What an automatic job is deduplicated by.
pub record JobName : Type 0 where
  pub type : Text
  pub site_id : Option ℕ
  pub job_key : Text

-- `type = ? AND job_key = ? AND site_id IS ?`.
unfoldable pub has_name : JobName → Row → Bool
has_name n r =
    text_eq r.type n.type && same_text r.job_key n.job_key && same_site r.site_id n.site_id

unfoldable pub find_row : (Row → Bool) → Table → Option Row
find_row p [] = none
find_row p (r ∷ t) = if p r then some r else find_row p t

unfoldable pub last_row : (Row → Bool) → Table → Option Row
last_row p [] = none
last_row p (r ∷ t) = elim (last_row p t) [ some r' ↦ some r' | none ↦ if p r then some r else none ]

-- `UPDATE ... WHERE`.
unfoldable pub update : (Row → Bool) → (Row → Row) → Table → Table
update p f [] = []
update p f (r ∷ t) = let rest = update p f t in if p r then f r ∷ rest else r ∷ rest

-- `DELETE ... WHERE`.
unfoldable pub delete : (Row → Bool) → Table → Table
delete p [] = []
delete p (r ∷ t) = let rest = delete p t in if p r then rest else r ∷ rest

unfoldable pub count : (Row → Bool) → Table → ℕ
count p [] = 0
count p (r ∷ t) = (if p r then 1 else 0) + count p t

-- The next rowid: one more than the greatest, and rows stand in the order of their ids.
unfoldable pub greatest_id : Table → ℕ
greatest_id [] = 0
greatest_id (r ∷ t) = max r.id (greatest_id t)

abbrev pub has_id : ℕ → Row → Bool
has_id id r = r.id == id

-- What `json.loads` makes of a payload.
pub data Payload : Type 0 where
  object no_object no_json : Payload

-- The outside: the clock's stamps, the payloads, the rows that the sites' table has.
pub record Outside : Type 0 where
  pub isoformat_utc : ℕ → Text
  pub parse_utc : Text → Option ℕ
  pub sqlite_stamp : ℕ → Text  -- the default of `created_at`
  pub loads : Text → Payload
  pub site_exists : ℕ → Bool

pub record EnqueueResult : Type 0 where
  pub created : Bool
  pub job_id : Option ℕ

abbrev types_with_site : List Text
types_with_site =
    codes "fetch_feed"
    ∷ codes "fetch_obs"
    ∷ codes "fetch_current_obs"
    ∷ codes "pair_and_score"
    ∷ codes "backfill_site"
    ∷ codes "forecast_record"
    ∷ codes "record_gap_scan"
    ∷ codes "verification_run"
    ∷ codes "timezone_correction"
    ∷ codes "day_close"
    ∷ codes "day_publish"
    ∷ []

abbrev any_text : Text → List Text → Bool
any_text t [] = false
any_text t (s ∷ ss) = text_eq t s || any_text t ss

unfoldable pub append_row : Table → Row → Table
append_row [] r = r ∷ []
append_row (x ∷ t) r = x ∷ append_row t r

module _ (outside : Outside) where
  -- The table's CHECK and its foreign key.
  unfoldable pub is_allowed : JobName → Bool
  is_allowed n = elim n.site_id [
    | none ↦ text_eq n.type (codes "catchup")
    | some site ↦ any_text n.type types_with_site && outside.site_exists site
  ]

  abbrev pub new_row : ℕ → JobName → Text → ℕ → ℕ → Row
  new_row now n payload max_retries id = record {
    id = id;
    type = n.type;
    site_id = n.site_id;
    job_key = some n.job_key;
    payload = payload;
    status = pending;
    next_attempt_at = some (outside.isoformat_utc now);
    retry_count = 0;
    max_retries = max_retries;
    last_error = none;
    result = none;
    created_at = outside.sqlite_stamp now;
    updated_at = outside.sqlite_stamp now;
  }

  unfoldable pub enqueue_if_absent : ℕ → JobName → Text → ℕ → Table → EnqueueResult × Table
  unfolding find_row greatest_id append_row
  enqueue_if_absent now n payload max_retries t =
      elim (find_row (λ r. has_name n r && is_active r.status) t) [
        | some r ↦ (record { created = false; job_id = some r.id }, t)
        | none ↦
            if is_allowed n
            then (
              record { created = true; job_id = some (greatest_id t + 1) },
              append_row t (new_row now n payload max_retries (greatest_id t + 1)),
            )
            else (record { created = false; job_id = none }, t)
      ]

  -- `utc_now() - updated_at < cooldown`.
  abbrev within : ℕ → ℕ → ℕ → Bool
  within now cooldown at = ltb now (at + cooldown)

  -- Whether the latest job suppresses the next one.
  abbrev pub is_suppressed : ℕ → ℕ → Option ℕ → Option Row → Bool
  is_suppressed now cooldown success_cooldown none = false
  is_suppressed now cooldown success_cooldown (some r) = elim r.status [
    | failed ↦ elim (outside.parse_utc r.updated_at) [
      | none ↦ false
      | some at ↦ within now cooldown at
    ]
    | completed ↦ elim success_cooldown [
      | none ↦ false
      | some c ↦ elim (outside.parse_utc r.updated_at) [ none ↦ true | some at ↦ within now c at ]
    ]
    | pending ↦ false
    | running ↦ false
  ]

  unfoldable pub enqueue_if_absent_with_cooldown :
      ℕ → JobName → Text → ℕ → Option ℕ → ℕ → Table → Option EnqueueResult × Table
  unfolding enqueue_if_absent last_row
  enqueue_if_absent_with_cooldown now n payload cooldown success_cooldown max_retries t =
      let (r, t') = enqueue_if_absent now n payload max_retries t in
      elim (find_row (λ r. has_name n r && is_active r.status) t) [
        | some _ ↦ (some r, t')
        | none ↦
            if is_suppressed now cooldown success_cooldown (last_row (has_name n) t)
            then (none, t)
            else (some r, t')
      ]
