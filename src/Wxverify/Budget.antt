-- ===== src/Wxverify/Budget.antt =====
-- wxverify/wxverify/collection/budget.py: the tables `sources` and `api_budget`, a day's counters and
-- its limits. The day of a time zone and the stamp of its next midnight are parameters.
pub mod Spent
pub mod Limits
pub mod Runs
use home_assistant_apps.Prelude.{
  ℕ, ◌+◌, ◌-◌, List, [], ◌∷◌, Bool, true, false, ◌&&◌, Option, none, some, Text, codes, text_eq,
  Dict, lookup, insert, min, leb, if◌then◌else◌,
}

-- A row of `sources`. Limits are not negative.
pub record Source : Type 0 where
  pub daily_call_limit : ℕ
  pub daily_credit_limit : Option ℕ
  pub billing_tz : Text

pub record Counters : Type 0 where
  pub calls : ℕ
  pub credits : ℕ

-- The primary key of `api_budget`.
pub record BudgetKey : Type 0 where
  pub source : Text
  pub billing_day : Text

unfoldable pub key_eq : BudgetKey → BudgetKey → Bool
key_eq a b = text_eq a.source b.source && text_eq a.billing_day b.billing_day

abbrev pub Ledger : Type 0
Ledger = List (BudgetKey × Counters)

unfoldable pub counters_of : BudgetKey → Ledger → Option Counters
counters_of key [] = none
counters_of key ((k, c) ∷ ledger) = if key_eq k key then some c else counters_of key ledger

-- `UPDATE ... WHERE source = ? AND billing_day = ?`.
unfoldable pub update : (Counters → Counters) → BudgetKey → Ledger → Ledger
update f key [] = []
update f key ((k, c) ∷ ledger) =
    let rest = update f key ledger in if key_eq k key then (k, f c) ∷ rest else (k, c) ∷ rest

abbrev pub no_counters : Counters
no_counters = record { calls = 0; credits = 0 }

-- `INSERT OR IGNORE`.
unfoldable pub insert_or_ignore : BudgetKey → Ledger → Ledger
insert_or_ignore key ledger = elim (counters_of key ledger) [
  | some c ↦ ledger
  | none ↦ (key, no_counters) ∷ ledger
]

pub record Db : Type 0 where
  pub sources : Dict Source
  pub api_budget : Ledger

-- `PROVIDER_DAILY_CALL_ALLOWANCE.get`.
abbrev pub allowance : Text → Option ℕ
allowance source = if text_eq source (codes "weathercom") then some 1500 else none

abbrev pub capped : Option ℕ → ℕ → ℕ
capped none stored = stored
capped (some most) stored = min stored most

unfoldable pub effective_daily_call_limit : Text → ℕ → ℕ
effective_daily_call_limit source stored = capped (allowance source) stored

pub record Reservation : Type 0 where
  pub source : Text
  pub billing_day : Text
  pub calls : ℕ
  pub credits : ℕ

pub data Reserved : Type 0 where
  unknown_source : Reserved
  deferred : Text → Reserved
  reserved : Reservation → Reserved

-- The condition of the update, on the counters.
abbrev pub within : Option ℕ → ℕ → Bool
within none n = true
within (some limit) n = leb n limit

abbrev pub fits : Text → Source → ℕ → ℕ → Counters → Bool
fits name source calls credits c =
    leb (c.calls + calls) (effective_daily_call_limit name source.daily_call_limit)
    && within source.daily_credit_limit (c.credits + credits)

abbrev pub or_zero : Option ℕ → ℕ
or_zero none = 0
or_zero (some n) = n

module _ (billing_day next_window : Text → Text) where
  -- The update of a source's row on a day, and what its row count leads to.
  unfoldable pub take_from : Text → Source → ℕ → ℕ → Ledger → Reserved × Ledger
  unfolding update insert_or_ignore
  take_from name source calls credits ledger =
      let day = billing_day source.billing_tz in
      let key : BudgetKey = record { source = name; billing_day = day } in
      let there = insert_or_ignore key ledger in
      elim (counters_of key there) [
        | none ↦ (deferred (next_window source.billing_tz), there)
        | some c ↦
            if fits name source calls credits c
            then (
              reserved
                  (record { source = name; billing_day = day; calls = calls; credits = credits }),
              update (λ c'. record { calls = c'.calls + calls; credits = c'.credits + credits }) key
                  there,
            )
            else (deferred (next_window source.billing_tz), there)
      ]

  unfoldable pub reserve_budget : Text → ℕ → Option ℕ → Db → Reserved × Db
  unfolding take_from
  reserve_budget name calls credits db = elim (lookup name db.sources) [
    | none ↦ (unknown_source, db)
    | some source ↦
        let (r, ledger) = take_from name source calls (or_zero credits) db.api_budget in
        (r, record db { api_budget = ledger })
  ]

-- Subtraction stops at 0, as `MAX(0, ...)` does.
abbrev pub give_back : ℕ → ℕ → Counters → Counters
give_back calls credits c = record { calls = c.calls - calls; credits = c.credits - credits }

unfoldable pub refund_budget : Reservation → Db → Db
unfolding update
refund_budget r db = record db {
  api_budget =
      update (give_back r.calls r.credits)
        (record { source = r.source; billing_day = r.billing_day }) db.api_budget;
}

-- The credit limit that `set_source_cap` leaves.
abbrev pub new_credit_limit : Option ℕ → Bool → Option ℕ → Option ℕ
new_credit_limit credit_limit true old = none
new_credit_limit none false old = old
new_credit_limit (some n) false old = some n

abbrev pub new_call_limit : Option ℕ → ℕ → ℕ
new_call_limit none old = old
new_call_limit (some n) old = n

-- `set_source_cap`, where the limits are not negative: whether the source is known, and the tables.
unfoldable pub set_source_cap : Text → Option ℕ → Option ℕ → Bool → Db → Bool × Db
set_source_cap name calls credits no_credit_limit db = elim (lookup name db.sources) [
  | none ↦ (false, db)
  | some source ↦
      let source' : Source = record source {
        daily_call_limit = new_call_limit calls source.daily_call_limit;
        daily_credit_limit = new_credit_limit credits no_credit_limit source.daily_credit_limit;
      } in
      (true, record db { sources = insert name source' db.sources })
]
