-- ===== src/Wxverify/Budget/Spent.antt =====
-- The counters of a day in the table `api_budget` of collection/budget.py, after a change.
use home_assistant_apps.Prelude.{
  ℕ, ◌+◌, ◌≡◌, ◌↔◌, inl, inr, refl, [], ◌∷◌, true, Option, none, some, text_eq_iff, if◌then◌else◌,
  Bool-cases, Option-cases, arith,
}
use home_assistant_apps.Wxverify.Budget.{
  Counters, BudgetKey, key_eq, Ledger, counters_of, update, no_counters, insert_or_ignore,
}

pub key_eq_iff : (a b : BudgetKey) → (key_eq a b ≡ true) ↔ (a ≡ b)
unfolding key_eq
key_eq_iff a b =
    ground (arith, text_eq_iff a.source b.source, text_eq_iff a.billing_day b.billing_day)

abbrev pub map_counters : (Counters → Counters) → Option Counters → Option Counters
map_counters f none = none
map_counters f (some c) = some (f c)

pub counters_of-update :
    (f : Counters → Counters) (key k : BudgetKey) (ledger : Ledger)
    → counters_of k (update f key ledger)
      ≡ (if key_eq key k then map_counters f (counters_of k ledger) else counters_of k ledger)
unfolding counters_of update
counters_of-update f key k [] = ground arith
counters_of-update f key k ((j, c) ∷ ledger) =
    ground
      (arith, key_eq_iff key k, key_eq_iff j key, key_eq_iff j k, counters_of-update f key k ledger)

-- A row that is not there counts nothing.
abbrev pub or_none : Option Counters → Counters
or_none none = no_counters
or_none (some c) = c

abbrev pub spent : BudgetKey → Ledger → Counters
spent key ledger = or_none (counters_of key ledger)

pub key_eq_self : (key : BudgetKey) → key_eq key key ≡ true
key_eq_self key = (key_eq_iff key key).1 refl

pub counters_of-insert_or_ignore :
    (key : BudgetKey) (ledger : Ledger)
    → counters_of key (insert_or_ignore key ledger) ≡ some (spent key ledger)
unfolding insert_or_ignore counters_of
counters_of-insert_or_ignore key ledger = elim (Option-cases (counters_of key ledger)) [
  | inl e ↦ rw (e, insert_or_ignore) (rw (key_eq_self key) refl)
  | inr (c, e) ↦ rw (e, insert_or_ignore) (rw e refl)
]

spent_of_same :
    (key k : BudgetKey) (ledger : Ledger)
    → key_eq key k ≡ true
    → counters_of key ledger ≡ none
    → no_counters ≡ spent k ledger
spent_of_same key k ledger same e = rw⁻¹ ((key_eq_iff key k).0 same) (rw e refl)

pub spent-insert_or_ignore :
    (key k : BudgetKey) (ledger : Ledger) → spent k (insert_or_ignore key ledger) ≡ spent k ledger
unfolding insert_or_ignore counters_of
spent-insert_or_ignore key k ledger = elim (Option-cases (counters_of key ledger)) [
  | inl e ↦
      rw (e, insert_or_ignore)
        (elim (Bool-cases (key_eq key k)) [
          | inl same ↦ rw same (spent_of_same key k ledger same e)
          | inr other ↦ rw other refl
        ])
  | inr (c, e) ↦ rw (e, insert_or_ignore) refl
]

abbrev pub add : ℕ → ℕ → Counters → Counters
add calls credits c = record { calls = c.calls + calls; credits = c.credits + credits }

pub spent-update :
    (f : Counters → Counters) (key k : BudgetKey) (c : Counters) (ledger : Ledger)
    → counters_of key ledger ≡ some c
    → spent k (update f key ledger) ≡ (if key_eq key k then f (spent k ledger) else spent k ledger)
spent-update f key k c ledger there = elim (Bool-cases (key_eq key k)) [
  | inl same ↦
      let here : counters_of k ledger ≡ some c = rw⁻¹ ((key_eq_iff key k).0 same) there in
      rw counters_of-update (rw same (rw here refl))
  | inr other ↦ rw counters_of-update (rw other refl)
]
