-- ===== src/Wxverify/Budget/Runs.antt =====
-- Reservations, refunds and changes of the caps, one after the other.
use home_assistant_apps.Prelude.{
  ℕ, ◌+◌, ◌≤◌, ◌≡◌, inl, inr, refl, ap, sym, ◌∙◌, List, [], ◌∷◌, Bool, true, false, ◌&&◌, Option,
  none, some, Text, lookup, if◌then◌else◌, Bool-cases, Option-cases, arith,
}
use home_assistant_apps.Wxverify.Budget.{
  Source, Counters, BudgetKey, key_eq, Ledger, Db, allowance, capped, give_back,
  effective_daily_call_limit, Reservation, deferred, reserved, fits, or_zero, reserve_budget,
  refund_budget, set_source_cap,
}
use home_assistant_apps.Wxverify.Budget.Spent.{
  key_eq_iff, map_counters, or_none, counters_of-update, spent, add,
}
use home_assistant_apps.Wxverify.Budget.Limits.{reserve_budget_lem}

-- The changes that the program makes to the two tables. The day and the next window may be others
-- at each.
pub data Change : Type 0 where
  reserve : (Text → Text) → (Text → Text) → Text → ℕ → Option ℕ → Change
  refund : Reservation → Change
  set_cap : Text → Option ℕ → Option ℕ → Bool → Change

pub apply : Change → Db → Db
apply (reserve billing_day next_window name calls credits) db =
    (reserve_budget billing_day next_window name calls credits db).1
apply (refund r) db = refund_budget r db
apply (set_cap name calls credits no_limit) db = (set_source_cap name calls credits no_limit db).1

pub apply_all : List Change → Db → Db
apply_all [] db = db
apply_all (c ∷ cs) db = apply_all cs (apply c db)

capped_le : (o : Option ℕ) (stored most : ℕ) → o ≡ some most → capped o stored ≤ most
capped_le none stored most e = cc
capped_le (some a) stored most e = let same : a ≡ most = cc in omega (arith, same)

room_le :
    (name : Text) (source : Source) (calls credits : ℕ) (c : Counters)
    → fits name source calls credits c ≡ true
    → c.calls + calls ≤ effective_daily_call_limit name source.daily_call_limit
room_le name source calls credits c h = ground arith

granted_le :
    (key k : BudgetKey) (source : Source) (calls credits : ℕ) (ledger : Ledger)
    → fits key.source source calls credits (spent key ledger) ≡ true
    → key_eq key k ≡ true
    → (spent k ledger).calls + calls ≤ effective_daily_call_limit k.source source.daily_call_limit
granted_le key k source calls credits ledger h same =
    rw⁻¹ ((key_eq_iff key k).0 same) (room_le key.source source calls credits (spent key ledger) h)

or_none-give_back :
    (calls credits : ℕ) (o : Option Counters)
    → or_none (map_counters (give_back calls credits) o) ≡ give_back calls credits (or_none o)
or_none-give_back calls credits none = ground arith
or_none-give_back calls credits (some c) = refl

spent-refund :
    (r : Reservation) (db : Db) (k : BudgetKey)
    → spent k (refund_budget r db).api_budget ≡ (
        if key_eq (record { source = r.source; billing_day = r.billing_day }) k
        then give_back r.calls r.credits (spent k db.api_budget)
        else spent k db.api_budget)
unfolding refund_budget
spent-refund r db k =
    rw counters_of-update
      (elim (Bool-cases (key_eq (record { source = r.source; billing_day = r.billing_day }) k)) [
        | inl same ↦ rw same (or_none-give_back r.calls r.credits _)
        | inr other ↦ rw other refl
      ])

less_le :
    (calls credits : ℕ) (b : Bool) (c : Counters)
    → (if b then give_back calls credits c else c).calls ≤ c.calls
less_le calls credits b c = ground arith

le_trans : (a b c : ℕ) → a ≤ b → b ≤ c → a ≤ c
le_trans a b c h k = omega arith

module _ (name : Text) (most : ℕ) (its_allowance : allowance name ≡ some most) where
  abbrev pub AtMost : Ledger → Type 0
  AtMost ledger =
      (day : Text) → (spent (record { source = name; billing_day = day }) ledger).calls ≤ most

  effective_le : (stored : ℕ) → effective_daily_call_limit name stored ≤ most
  unfolding effective_daily_call_limit
  effective_le stored = capped_le (allowance name) stored most its_allowance

  step_le :
      (room same : Bool) (c : Counters) (calls credits : ℕ)
      → c.calls ≤ most
      → (room ≡ true → same ≡ true → c.calls + calls ≤ most)
      → (if room && same then add calls credits c else c).calls ≤ most
  step_le room same c calls credits h k = ground (arith, k)

  refund-AtMost :
      (r : Reservation) (db : Db) → AtMost db.api_budget → AtMost (refund_budget r db).api_budget
  refund-AtMost r db h day =
      let key : BudgetKey = record { source = name; billing_day = day } in
      rw (spent-refund r db key) (
        le_trans _ _ most
          (less_le r.calls r.credits
            (key_eq (record { source = r.source; billing_day = r.billing_day }) key)
            (spent key db.api_budget))
          (h day))

  set_cap-AtMost :
      (other : Text) (calls credits : Option ℕ) (b : Bool) (db : Db)
      → AtMost db.api_budget
      → AtMost (set_source_cap other calls credits b db).1.api_budget
  unfolding set_source_cap
  set_cap-AtMost other calls credits b db h = elim (Option-cases (lookup other db.sources)) [
    | inl e ↦ rw (e, set_source_cap) h
    | inr (s, e) ↦ rw (e, set_source_cap) h
  ]

  reserve-AtMost :
      (billing_day next_window : Text → Text) (other : Text) (calls : ℕ) (credits : Option ℕ)
      (db : Db)
      → AtMost db.api_budget
      → AtMost (reserve_budget billing_day next_window other calls credits db).1.api_budget
  unfolding reserve_budget
  reserve-AtMost billing_day next_window other calls credits db h day =
      elim (Option-cases (lookup other db.sources)) [
        | inl e ↦ rw (e, reserve_budget) (h day)
        | inr (s, e) ↦
            let today : BudgetKey = record {
              source = other;
              billing_day = billing_day s.billing_tz;
            } in
            let key : BudgetKey = record { source = name; billing_day = day } in
            rw ((reserve_budget_lem billing_day next_window other s calls credits db e).1) (
              step_le (fits other s calls (or_zero credits) (spent today db.api_budget))
                (key_eq today key) (spent key db.api_budget) calls (or_zero credits) (h day)
                (λ room same.
                  le_trans _ _ most
                    (granted_le today key s calls (or_zero credits) db.api_budget room same)
                    (effective_le s.daily_call_limit)))
      ]

  apply-AtMost : (c : Change) (db : Db) → AtMost db.api_budget → AtMost (apply c db).api_budget
  unfolding apply
  apply-AtMost (reserve billing_day next_window other calls credits) db h =
      reserve-AtMost billing_day next_window other calls credits db h
  apply-AtMost (refund r) db h = refund-AtMost r db h
  apply-AtMost (set_cap other calls credits b) db h = set_cap-AtMost other calls credits b db h

  -- If a provider has an allowance of its own, and no day of it has more calls than that, then none has
  -- after any sequence of reservations, refunds and changes of the caps, whatever the caps are set to.
  pub apply_all-AtMost :
      (changes : List Change) (db : Db)
      → AtMost db.api_budget
      → AtMost (apply_all changes db).api_budget
  unfolding apply_all
  apply_all-AtMost [] db h = h
  apply_all-AtMost (c ∷ cs) db h = apply_all-AtMost cs (apply c db) (apply-AtMost c db h)

give_back-add :
    (b : Bool) (calls credits : ℕ) (c c' : Counters)
    → c' ≡ (if b then add calls credits c else c)
    → (if b then give_back calls credits c' else c') ≡ c
give_back-add b calls credits c c' e = ground arith

refund_granted :
    (today : BudgetKey) (calls credits : ℕ) (room : Bool) (window : Text) (db db' : Db)
    (r : Reservation)
    → reserved r ≡ (
        if room
        then reserved (record {
          source = today.source;
          billing_day = today.billing_day;
          calls = calls;
          credits = credits;
        })
        else deferred window)
    → (k : BudgetKey)
    → spent k db'.api_budget ≡ (
        if room && key_eq today k
        then add calls credits (spent k db.api_budget)
        else spent k db.api_budget)
    → spent k (refund_budget r db').api_budget ≡ spent k db.api_budget
refund_granted today calls credits true window db db' r e k h =
    let same : r ≡ record {
      source = today.source;
      billing_day = today.billing_day;
      calls = calls;
      credits = credits;
    } =
      cc in
    rw same (rw spent-refund (give_back-add (key_eq today k) calls credits _ _ h))
refund_granted today calls credits false window db db' r e k h = cc

-- If a reservation for a known source has been granted, refunding it gives every counter of every
-- source and day back its value.
pub refund-reserve :
    (billing_day next_window : Text → Text) (name : Text) (source : Source) (calls : ℕ)
    (credits : Option ℕ) (db db' : Db) (r : Reservation)
    → lookup name db.sources ≡ some source
    → reserve_budget billing_day next_window name calls credits db ≡ (reserved r, db')
    → (k : BudgetKey) → spent k (refund_budget r db').api_budget ≡ spent k db.api_budget
refund-reserve billing_day next_window name source calls credits db db' r known granted k =
    let exact = reserve_budget_lem billing_day next_window name source calls credits db known in
    let today : BudgetKey = record { source = name; billing_day = billing_day source.billing_tz } in
    refund_granted today calls (or_zero credits)
      (fits name source calls (or_zero credits) (spent today db.api_budget))
      (next_window source.billing_tz) db db' r (ap (λ x. x.0) (sym granted) ∙ exact.0) k
      (ap (λ x. spent k x.1.api_budget) (sym granted) ∙ exact.1 k)
