-- ===== src/Wxverify/Budget/Limits.antt =====
-- What a reservation of collection/budget.py does to the counters of a day.
use home_assistant_apps.Prelude.{
  ℕ, ◌+◌, ◌≤◌, ◌≡◌, ◌↔◌, ◌⊎◌, ◌∙◌, leb, codes, text_eq, and_left, and_right, inl, inr, refl, Bool,
  true, ◌&&◌, Option, none, some, Text, text_eq_iff, lookup, if◌then◌else◌, Bool-cases, arith,
}
use home_assistant_apps.Wxverify.Budget.{
  Source, Counters, BudgetKey, key_eq, Ledger, update, insert_or_ignore, Db,
  effective_daily_call_limit, within, deferred, reserved, fits, or_zero, take_from, reserve_budget,
}
use home_assistant_apps.Wxverify.Budget.Spent.{
  spent, counters_of-insert_or_ignore, spent-insert_or_ignore, add, spent-update,
}

module _ (billing_day next_window : Text → Text) (name : Text) (source : Source) (calls credits : ℕ)
    (ledger : Ledger) where
  -- The row of the source's day.
  abbrev pub today : BudgetKey
  today = record { source = name; billing_day = billing_day source.billing_tz }

  abbrev pub has_room : Bool
  has_room = fits name source calls credits (spent today ledger)

  pub take_from_lem : take_from billing_day next_window name source calls credits ledger ≡ (
      if has_room
      then (
        reserved (record {
          source = name;
          billing_day = billing_day source.billing_tz;
          calls = calls;
          credits = credits;
        }),
        update (add calls credits) today (insert_or_ignore today ledger),
      )
      else (deferred (next_window source.billing_tz), insert_or_ignore today ledger))
  unfolding take_from
  take_from_lem = rw (counters_of-insert_or_ignore today ledger, take_from) refl

  pub spent-take_from :
      (k : BudgetKey)
      → spent k (take_from billing_day next_window name source calls credits ledger).1 ≡ (
          if has_room && key_eq today k then add calls credits (spent k ledger) else spent k ledger)
  spent-take_from k = rw take_from_lem (elim (Bool-cases has_room) [
    | inl room ↦ rw room (
        rw
          (spent-update (add calls credits) today k _ _ (counters_of-insert_or_ignore today ledger))
          (rw spent-insert_or_ignore refl))
    | inr full ↦ rw full (rw spent-insert_or_ignore refl)
  ])

-- A reservation for a known source, by the condition of the update.
pub reserve_budget_lem :
    (billing_day next_window : Text → Text) (name : Text) (source : Source) (calls : ℕ)
    (credits : Option ℕ) (db : Db)
    → lookup name db.sources ≡ some source
    → ((reserve_budget billing_day next_window name calls credits db).0 ≡ (
        if fits name source calls (or_zero credits) (
          spent
            (record { source = name; billing_day = billing_day source.billing_tz })
            db.api_budget)
        then reserved (record {
          source = name;
          billing_day = billing_day source.billing_tz;
          calls = calls;
          credits = or_zero credits;
        })
        else deferred (next_window source.billing_tz)))
      × ((k : BudgetKey)
          → spent k (reserve_budget billing_day next_window name calls credits db).1.api_budget ≡ (
              if fits name source calls (or_zero credits) (
                  spent
                    (record { source = name; billing_day = billing_day source.billing_tz })
                    db.api_budget)
                && key_eq (record { source = name; billing_day = billing_day source.billing_tz }) k
              then add calls (or_zero credits) (spent k db.api_budget)
              else spent k db.api_budget))
unfolding reserve_budget
reserve_budget_lem billing_day next_window name source calls credits db known =
    rw (known, reserve_budget)
      (
        rw take_from_lem
            (elim (Bool-cases (
              has_room billing_day next_window name source calls (or_zero credits) db.api_budget)) [
                | inl room ↦ rw room refl
                | inr full ↦ rw full refl
              ]),
        spent-take_from billing_day next_window name source calls (or_zero credits) db.api_budget,
      )

-- The limits in force, on what is spent with the reservation.
pub record IsWithin (name : Text) (source : Source) (calls credits : ℕ) : Type 0 where
  pub under_cap : calls ≤ source.daily_call_limit
  pub under_allowance : name ≡ codes "weathercom" → calls ≤ 1500
  pub under_credits : (limit : ℕ) → source.daily_credit_limit ≡ some limit → credits ≤ limit

within_iff :
    (o : Option ℕ) (n : ℕ) → (within o n ≡ true) ↔ ((limit : ℕ) → o ≡ some limit → n ≤ limit)
within_iff none n = (λ _ limit e. cc, λ _. refl)
within_iff (some l) n = (
  λ h limit e. let same : l ≡ limit = cc in let le : leb n l ≡ true = h in ground (arith, le, same),
  λ h. ground (arith, h l refl),
)

effective_iff :
    (name : Text) (stored n : ℕ)
    → (leb n (effective_daily_call_limit name stored) ≡ true)
      ↔ (n ≤ stored × (name ≡ codes "weathercom" → n ≤ 1500))
unfolding effective_daily_call_limit
effective_iff name stored n = elim (Bool-cases (text_eq name (codes "weathercom"))) [
  | inl e ↦
      rw (e, effective_daily_call_limit)
        (
          λ h. (ground (arith, h), λ _. ground (arith, h)),
          λ h.
              let one = h.1 ((text_eq_iff name (codes "weathercom")).0 e) in
              ground (arith, h.0, one),
        )
  | inr e ↦
      rw (e, effective_daily_call_limit)
        (
          λ h. (
            ground (arith, h),
            λ same.
                let yes = (text_eq_iff name (codes "weathercom")).1 same in
                absurd (ground (arith, e, yes)),
          ),
          λ h. ground (arith, h.0),
        )
]

fits_iff :
    (name : Text) (source : Source) (calls credits : ℕ) (c : Counters)
    → (fits name source calls credits c ≡ true)
      ↔ IsWithin name source (c.calls + calls) (c.credits + credits)
fits_iff name source calls credits c =
    let by_calls = effective_iff name source.daily_call_limit (c.calls + calls) in
    let by_credits = within_iff source.daily_credit_limit (c.credits + credits) in
    (
      λ h.
          let both = by_calls.0 (and_left _ _ h) in
          record {
            under_cap = both.0;
            under_allowance = both.1;
            under_credits = by_credits.0 (and_right _ _ h);
          },
      λ w. rw (by_calls.1 (w.under_cap, w.under_allowance), by_credits.1 w.under_credits) refl,
    )

-- The key of a source's counters of the day.
abbrev pub day_key : (Text → Text) → Text → Source → BudgetKey
day_key billing_day name source = record {
  source = name;
  billing_day = billing_day source.billing_tz;
}

-- For a known source and whatever number of calls and credits, one of two things holds. Either the
-- day's counters with the reservation are within the source's stored limits, and its calls within
-- 1500 if the source is weathercom; then the reservation is granted, the source's counters of that day
-- grow by it and no others change. Or they are not; then the caller is deferred to the next window of
-- the source's time zone, and no counter changes.
pub reserve_budget-exact :
    (billing_day next_window : Text → Text) (name : Text) (source : Source) (calls : ℕ)
    (credits : Option ℕ) (db : Db)
    → lookup name db.sources ≡ some source
    → (IsWithin name source
          ((spent (day_key billing_day name source) db.api_budget).calls + calls)
          ((spent (day_key billing_day name source) db.api_budget).credits + or_zero credits)
        × ((reserve_budget billing_day next_window name calls credits db).0
              ≡ reserved (record {
                source = name;
                billing_day = billing_day source.billing_tz;
                calls = calls;
                credits = or_zero credits;
              })
            × ((k : BudgetKey)
                → spent k
                    (reserve_budget billing_day next_window name calls credits db).1.api_budget
                  ≡ (if key_eq (day_key billing_day name source) k
                      then add calls (or_zero credits) (spent k db.api_budget)
                      else spent k db.api_budget))))
      ⊎ (¬ IsWithin name source
            ((spent (day_key billing_day name source) db.api_budget).calls + calls)
            ((spent (day_key billing_day name source) db.api_budget).credits + or_zero credits)
          × ((reserve_budget billing_day next_window name calls credits db).0
                ≡ deferred (next_window source.billing_tz)
              × ((k : BudgetKey)
                  → spent k
                      (reserve_budget billing_day next_window name calls credits db).1.api_budget
                    ≡ spent k db.api_budget)))
reserve_budget-exact billing_day next_window name source calls credits db known =
    let lem = reserve_budget_lem billing_day next_window name source calls credits db known in
    let c = spent (day_key billing_day name source) db.api_budget in
    let iff = fits_iff name source calls (or_zero credits) c in
    elim (Bool-cases (fits name source calls (or_zero credits) c)) [
      | inl room ↦ inl (iff.0 room, (lem.0 ∙ rw room refl, λ k. lem.1 k ∙ rw room refl))
      | inr full ↦ inr (
        λ w. let room = iff.1 w in absurd (ground (arith, room, full)),
        (lem.0 ∙ rw full refl, λ k. lem.1 k ∙ rw full refl),
      )
    ]
