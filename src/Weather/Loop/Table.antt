-- ===== src/Weather/Loop/Table.antt =====
-- The times of the next polls of run_loop: the earliest one, and how many are due.
use home_assistant_apps.Prelude.{
  ℕ, suc, ◌≡◌, refl, ◌≤◌, ◌<◌, length, [], ◌∷◌, false, Option, none, some, Text, text_eq,
  text_eq_iff, Dict, lookup, insert, lookup-insert, ltb, leb, if◌then◌else◌, Bool-cases,
  Option-cases, inl, inr, if_rule, arith,
}
use home_assistant_apps.Weather.Loop.{earlier, earliest}

-- No key has two entries.
unfoldable pub Unique : Dict ℕ → Type 0
Unique [] = Unit
Unique ((k, t) ∷ d) = (lookup k d ≡ none) × Unique d

text_eq-sym : (j k : Text) → text_eq j k ≡ false → text_eq k j ≡ false
text_eq-sym j k other = ground (arith, text_eq_iff j k, text_eq_iff k j)

pub insert-Unique : (k : Text) (t : ℕ) (d : Dict ℕ) → Unique d → Unique (insert k t d)
unfolding Unique lookup insert
insert-Unique k t [] u = (refl, tt)
insert-Unique k t ((j, v) ∷ d) (free, u) = elim (Bool-cases (text_eq j k)) [
  | inl same ↦ rw (same, insert) (free, u)
  | inr other ↦
      rw (other, insert) (rw (lookup-insert, text_eq-sym j k other) free, insert-Unique k t d u)
]

pub earliest-lookup :
    (d : Dict ℕ) (k : Text) (t : ℕ) → Unique d → earliest d ≡ some (k, t) → lookup k d ≡ some t
unfolding Unique earliest lookup
earliest-lookup [] k t u e = cc
earliest-lookup ((j, v) ∷ d) k t (free, u) e =
    grind (arith, text_eq_iff j k, earliest-lookup d k t u)

pub earliest-some :
    (d : Dict ℕ) (j : Text) (v : ℕ) → lookup j d ≡ some v → (p : Text × ℕ) × (earliest d ≡ some p)
unfolding earliest lookup
earliest-some [] j v h = absurd (ground (arith, h))
earliest-some ((i, w) ∷ d) j v h = earlier_some (earliest d)
  where
    earlier_some : (o : Option (Text × ℕ)) → (p : Text × ℕ) × (earlier i w o ≡ some p)
    earlier_some none = ((i, w), refl)
    earlier_some (some (j', u)) =
        if_rule (λ o. (p : Text × ℕ) × (o ≡ some p)) (ltb u w) _ _ (λ e. ((j', u), refl))
          (λ e. ((i, w), refl))

pub earliest-least :
    (d : Dict ℕ) (k j : Text) (t v : ℕ) → earliest d ≡ some (k, t) → lookup j d ≡ some v → t ≤ v
unfolding earliest lookup
earliest-least [] k j t v e h = cc
earliest-least ((i, w) ∷ d) k j t v e h = elim (Option-cases (earliest d)) [
  | inl nothing ↦ elim (Option-cases (lookup j d)) [
    | inl absent ↦ grind (arith, nothing, absent)
    | inr (v', there) ↦
        let (p, found) = earliest-some d j v' there in absurd (ground (arith, nothing, found))
  ]
  | inr ((i', w'), there) ↦ grind (arith, there, earliest-least d i' j w' v there)
]

-- The number of entries that are due.
unfoldable pub due_count : ℕ → Dict ℕ → ℕ
due_count t [] = 0
due_count t ((k, v) ∷ d) = let rest = due_count t d in if leb v t then suc rest else rest

pub due_count-insert :
    (t u v : ℕ) (k : Text) (d : Dict ℕ)
    → lookup k d ≡ some u
    → u ≤ t
    → t < v
    → suc (due_count t (insert k v d)) ≡ due_count t d
unfolding due_count lookup insert
due_count-insert t u v k [] h le lt = cc
due_count-insert t u v k ((j, w) ∷ d) h le lt = ground (arith, due_count-insert t u v k d)

pub due_count-positive :
    (t u : ℕ) (k : Text) (d : Dict ℕ) → lookup k d ≡ some u → u ≤ t → 0 < due_count t d
unfolding due_count lookup
due_count-positive t u k [] h le = cc
due_count-positive t u k ((j, w) ∷ d) h le = ground (arith, due_count-positive t u k d)

pub due_count-length : (t : ℕ) (d : Dict ℕ) → due_count t d ≤ length d
unfolding due_count
due_count-length t [] = omega arith
due_count-length t ((k, v) ∷ d) = ground (arith, due_count-length t d)
