-- ===== src/Syslog/Storage/Space/Ring.antt =====
-- What the size guard of writer.py drops, and in which order.
use home_assistant_apps.Prelude.{
  ℕ, zero, suc, ◌≡◌, refl, sym, ap, ◌∙◌, [], ◌∷◌, Bool, true, false, not, Option, none, some,
  Bool-cases, inl, inr, arith,
}
use home_assistant_apps.Syslog.Storage.Files.{FileName, Content, Dir, get, name_eq, remove}
use home_assistant_apps.Syslog.Storage.Files.Laws.{name_eq→≡, get-remove}
use home_assistant_apps.Syslog.Storage.Archives.{Key, sort_key, key_lt, earlier, oldest_prunable}
use home_assistant_apps.Syslog.Storage.Space.{
  Volume, Limits, Guard, prune_victim, space_loop, enforce_space,
}
use home_assistant_apps.Syslog.Storage.Space.Steps.{loop_rule, enforce_rule}

-- From the second directory to the first by dropping the oldest archive again and again.
pub data Pruned (to : Dir) : Dir → Type 0 where
  stays : Pruned to to
  drops :
      {d : Dir} {f : FileName} {k : Key}
      → oldest_prunable d ≡ some (f, k)
      → Pruned to (remove f d)
      → Pruned to d

space_loop-Pruned :
    (v : Volume) (limits : Limits) (fuel total : ℕ) (g : Guard)
    → Pruned (space_loop v limits fuel total g).1.dir g.dir
unfolding space_loop prune_victim
space_loop-Pruned v limits zero total g = stays
space_loop-Pruned v limits (suc fuel) total g =
    loop_rule v limits (λ r. Pruned r.1.dir g.dir) total fuel g (λ _. stays) (λ _. stays)
      (λ _. stays)
      (λ f k e. drops e (space_loop-Pruned v limits fuel total (prune_victim v limits f g)))
      (λ f k e h. stays) (λ f k e h. drops e stays)

pub enforce_space-Pruned :
    (v : Volume) (limits : Limits) (fuel : ℕ) (g : Guard)
    → Pruned (enforce_space v limits fuel g).1.dir g.dir
enforce_space-Pruned v limits fuel g =
    enforce_rule v limits fuel g (λ r. Pruned r.1.dir g.dir) (λ _ _. stays) (λ _. stays)
      (λ total free e. space_loop-Pruned v limits fuel total g)

not_below : Key → Option (FileName × Key) → Bool
not_below l none = false
not_below l (some (f, k)) = not (key_lt l k)

not_below_head :
    (f : FileName) (l : Key) (rest : Option (FileName × Key))
    → not_below l (earlier f (some l) rest) ≡ true
unfolding not_below earlier
not_below_head f l rest = ground arith

not_below_tail :
    (f : FileName) (k : Option Key) (l : Key) (rest : Option (FileName × Key))
    → not_below l rest ≡ true
    → not_below l (earlier f k rest) ≡ true
unfolding not_below earlier
not_below_tail f k l rest h = ground arith

oldest-not_below :
    (g : FileName) (c : Content) (l : Key) (d : Dir)
    → get g d ≡ some c
    → sort_key g ≡ some l
    → not_below l (oldest_prunable d) ≡ true
unfolding oldest_prunable get
oldest-not_below g c l [] h e = cc
oldest-not_below g c l ((f, c') ∷ d) h e = elim (Bool-cases (name_eq f g)) [
  | inl same ↦ rw (name_eq→≡ f g same, e) (not_below_head g l (oldest_prunable d))
  | inr other ↦ not_below_tail f (sort_key f) l _ (oldest-not_below g c l d (rw other at h) e)
]

-- What is found is an archive, and none is older.
oldest-sort_key_step :
    (h f : FileName) (k : Key) (rest : Option (FileName × Key))
    → (rest ≡ some (f, k) → sort_key f ≡ some k)
    → earlier h (sort_key h) rest ≡ some (f, k)
    → sort_key f ≡ some k
unfolding earlier
oldest-sort_key_step h f k rest ih e = ground arith

oldest-sort_key :
    (d : Dir) (f : FileName) (k : Key) → oldest_prunable d ≡ some (f, k) → sort_key f ≡ some k
unfolding oldest_prunable
oldest-sort_key [] f k e = cc
oldest-sort_key ((h, c) ∷ d) f k e =
    oldest-sort_key_step h f k (oldest_prunable d) (oldest-sort_key d f k) e

not_below-some : (f : FileName) (l k : Key) → not_below l (some (f, k)) ≡ true → key_lt l k ≡ false
unfolding not_below
not_below-some f l k h = ground arith

some_inj : {x y : Key} → some x ≡ some y → x ≡ y
some_inj e = cc

oldest_first :
    (d : Dir) (w f g : FileName) (c : Content) (k l m : Key)
    → oldest_prunable d ≡ some (w, m)
    → w ≡ f
    → get g d ≡ some c
    → sort_key f ≡ some k
    → sort_key g ≡ some l
    → key_lt l k ≡ false
oldest_first d w f g c k l m e same there kf kg =
    let found = oldest-sort_key d w m e in
    let below : not_below l (some (w, m)) ≡ true = rw e at (oldest-not_below g c l d there kg) in
    let one : m ≡ k = some_inj (sym found ∙ (ap sort_key same ∙ kf)) in
    rw one at (not_below-some w l m below)

module _ {to : Dir} where
  kept-Pruned :
      {d : Dir} (g : FileName) (c : Content) → Pruned to d → get g to ≡ some c → get g d ≡ some c
  kept-Pruned g c stays h = h
  kept-Pruned g c (drops {d = d} {f = f} e p) h =
      let ih = kept-Pruned g c p h in ground (arith, get-remove f g d)

  -- Of two archives the one that is gone is not the newer one.
  pub newest-Pruned :
      {d : Dir} (f g : FileName) (c c' : Content) (k l : Key)
      → Pruned to d
      → get f d ≡ some c
      → get f to ≡ none
      → get g to ≡ some c'
      → sort_key f ≡ some k
      → sort_key g ≡ some l
      → key_lt l k ≡ false
  newest-Pruned f g c c' k l stays here gone there kf kg = cc
  newest-Pruned f g c c' k l (drops {d = d} {f = w} {k = kw} e p) here gone there kf kg =
      elim (Bool-cases (name_eq w f)) [
        | inl same ↦
            oldest_first d w f g c' k l kw e (name_eq→≡ w f same)
              (kept-Pruned g c' (drops e p) there) kf kg
        | inr other ↦ newest-Pruned f g c c' k l p (rw (get-remove, other) here) gone there kf kg
      ]

  pub others-Pruned :
      {d : Dir} (f : FileName) → Pruned to d → sort_key f ≡ none → get f to ≡ get f d
  others-Pruned f stays h = refl
  others-Pruned f (drops {d = d} {f = w} {k = k} e p) h =
      let found = oldest-sort_key d w k e in
      elim (Bool-cases (name_eq w f)) [
        | inl same ↦ let one = name_eq→≡ w f same in cc
        | inr other ↦ rw (others-Pruned f p h, get-remove, other) refl
      ]

-- If the guard has dropped an archive, then every archive that it has kept is at least as new by day
-- and sequence number; and every file that is no archive is there as before.
pub enforce_space-drops_oldest :
    (v : Volume) (limits : Limits) (fuel : ℕ) (g : Guard) (to : Dir)
    → (enforce_space v limits fuel g).1.dir ≡ to
    → ((f kept : FileName) (c c' : Content) (k l : Key)
        → get f g.dir ≡ some c
        → get f to ≡ none
        → get kept to ≡ some c'
        → sort_key f ≡ some k
        → sort_key kept ≡ some l
        → key_lt l k ≡ false)
      × ((f : FileName) → sort_key f ≡ none → get f to ≡ get f g.dir)
enforce_space-drops_oldest v limits fuel g to e =
    let p : Pruned to g.dir = rw e at (enforce_space-Pruned v limits fuel g) in
    (
      λ f kept c c' k l here gone there kf kg.
          newest-Pruned f kept c c' k l p here gone there kf kg,
      λ f h. others-Pruned f p h,
    )
