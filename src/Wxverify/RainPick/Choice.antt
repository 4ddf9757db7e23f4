-- ===== src/Wxverify/RainPick/Choice.antt =====
-- The selected model of forecast/rain_pick.py.
use home_assistant_apps.Prelude.{
  ℕ, ◌≡◌, refl, sym, ap, ◌∙◌, ◌⊎◌, inl, inr, ◌+◌, ◌-◌, ◌≤◌, ◌<◌, List, [], ◌∷◌, true, false, Option,
  none, some, ltb, if_rule, arith,
}
use home_assistant_apps.Wxverify.RainPick.{Scored, switch_margin, is_incumbent, select}
use home_assistant_apps.Wxverify.RainPick.Scores.{AllScored, Rising}

unfoldable pub AnyScored : (Scored → Type 0) → List Scored → Type 0
AnyScored P [] = ⊥
AnyScored P (s ∷ scored) = P s ⊎ AnyScored P scored

pub select-near :
    (incumbent : Option ℕ) (best : Scored) (scored : List Scored)
    → (select incumbent best scored ≡ best.series.feed_id)
      ⊎ AnyScored
          (λ s.
            (select incumbent best scored ≡ s.series.feed_id)
            × (s.score < best.score + switch_margin))
          scored
unfolding select AnyScored
select-near incumbent best [] = inl refl
select-near incumbent best (s ∷ scored) =
    if_rule
      (λ (n : ℕ).
        (n ≡ best.series.feed_id)
        ⊎ AnyScored (λ q. (n ≡ q.series.feed_id) × (q.score < best.score + switch_margin))
            (s ∷ scored))
      (is_incumbent incumbent s.series.feed_id) _ _
      (λ here.
        if_rule
          (λ (n : ℕ).
            (n ≡ best.series.feed_id)
            ⊎ AnyScored (λ q. (n ≡ q.series.feed_id) × (q.score < best.score + switch_margin))
                (s ∷ scored))
          (ltb (s.score - best.score) switch_margin) _ _
          (λ close. inr (inl (refl, ground (arith, close)))) (λ far. inl refl))
      (λ other. behind (select-near incumbent best scored))
  where
    behind :
        (select incumbent best scored ≡ best.series.feed_id)
          ⊎ AnyScored
              (λ q.
                (select incumbent best scored ≡ q.series.feed_id)
                × (q.score < best.score + switch_margin))
              scored
        → (select incumbent best scored ≡ best.series.feed_id)
          ⊎ AnyScored
              (λ q.
                (select incumbent best scored ≡ q.series.feed_id)
                × (q.score < best.score + switch_margin))
              (s ∷ scored)
    behind (inl e) = inl e
    behind (inr h) = inr (inr h)

abbrev pub IsKept : Option ℕ → Scored → ℕ → Scored → Type 0
IsKept incumbent best selected s =
    incumbent ≡ some s.series.feed_id
    → (selected ≡ s.series.feed_id) ⊎ (best.score + switch_margin ≤ s.score)

incumbent_true :
    (incumbent : Option ℕ) (n : ℕ) → is_incumbent incumbent n ≡ true → incumbent ≡ some n
incumbent_true none n h = absurd (ground (arith, h))
incumbent_true (some i) n h = ap some (ground (arith, h))

incumbent_false :
    (incumbent : Option ℕ) (n : ℕ) → is_incumbent incumbent n ≡ false → ¬ (incumbent ≡ some n)
incumbent_false none n h e = absurd (ground (arith, e))
incumbent_false (some i) n h e = absurd (ground (arith, h, e))

pub AllScored-imp :
    (P Q : Scored → Type 0) (scored : List Scored)
    → ((s : Scored) → P s → Q s)
    → AllScored P scored
    → AllScored Q scored
unfolding AllScored
AllScored-imp P Q [] k h = tt
AllScored-imp P Q (s ∷ scored) k (h, hs) = (k s h, AllScored-imp P Q scored k hs)

pub select-keeps :
    (incumbent : Option ℕ) (best : Scored) (scored : List Scored)
    → Rising scored
    → AllScored (IsKept incumbent best (select incumbent best scored)) scored
unfolding select AllScored Rising
select-keeps incumbent best [] r = tt
select-keeps incumbent best (s ∷ scored) (least, r) =
    if_rule (λ (n : ℕ). AllScored (IsKept incumbent best n) (s ∷ scored))
      (is_incumbent incumbent s.series.feed_id) _ _
      (λ here.
        let is_s = incumbent_true incumbent s.series.feed_id here in
        if_rule (λ (n : ℕ). AllScored (IsKept incumbent best n) (s ∷ scored))
          (ltb (s.score - best.score) switch_margin) _ _
          (λ close. (
            (λ e. inl refl),
            AllScored-imp _ _ scored
                (λ q h e.
                  inl
                    (let same : some s.series.feed_id ≡ some q.series.feed_id = sym is_s ∙ e in cc))
                least,
          ))
          (λ far. (
            (λ e. inr (ground (arith, far))),
            AllScored-imp _ _ scored (λ q h e. inr (ground (arith, far, h))) least,
          )))
      (λ other. (
        (λ e. absurd (incumbent_false incumbent s.series.feed_id other e)),
        select-keeps incumbent best scored r,
      ))

pub near_some :
    (incumbent : Option ℕ) (best : Scored) (scored : List Scored)
    → AnyScored
        (λ s.
          (select incumbent best (best ∷ scored) ≡ s.series.feed_id)
          × (s.score < best.score + switch_margin))
        (best ∷ scored)
unfolding AnyScored
near_some incumbent best scored = at_head (select-near incumbent best (best ∷ scored))
  where
    at_head :
        (select incumbent best (best ∷ scored) ≡ best.series.feed_id)
          ⊎ AnyScored
              (λ s.
                (select incumbent best (best ∷ scored) ≡ s.series.feed_id)
                × (s.score < best.score + switch_margin))
              (best ∷ scored)
        → AnyScored
            (λ s.
              (select incumbent best (best ∷ scored) ≡ s.series.feed_id)
              × (s.score < best.score + switch_margin))
            (best ∷ scored)
    at_head (inl e) = inl (e, omega arith)
    at_head (inr h) = h
