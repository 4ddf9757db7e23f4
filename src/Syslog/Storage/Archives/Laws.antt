-- ===== src/Syslog/Storage/Archives/Laws.antt =====
-- Which files the retention of writer.py keeps, and the numbers that segments have.
use home_assistant_apps.Prelude.{
  ℕ, ◌≤◌, ◌≡◌, [], ◌∷◌, Bool, true, none, some, if◌then◌else◌, Bool-cases, Option-cases, ap, inl,
  inr, arith,
}
use home_assistant_apps.Syslog.Storage.Files.{
  archive, FileName, segment, Content, Dir, get, name_eq,
}
use home_assistant_apps.Syslog.Storage.Files.Laws.{name_eq→≡}
use home_assistant_apps.Syslog.Storage.Archives.{
  sort_key, is_beyond, prune, seq_of, highest_seq, next_seq,
}

get-prune_step :
    (beyond_f beyond_g : Bool) (f g : FileName) (c : Content) (rest dir : Dir)
    → (name_eq f g ≡ true → beyond_f ≡ beyond_g)
    → get g rest ≡ (if beyond_g then none else get g dir)
    → get g (if beyond_f then rest else (f, c) ∷ rest)
      ≡ (if beyond_g then none else get g ((f, c) ∷ dir))
unfolding get
get-prune_step beyond_f beyond_g f g c rest dir same ih = ground arith

seq_of_self : (day seq : ℕ) → seq_of day (segment archive day seq) ≡ seq
seq_of_self day seq = ground arith

-- After pruning, a file is there if and only if it was there and is no archive whose day lies more
-- than the retention behind today.
pub get-prune :
    (retention_days cutoff : ℕ) (g : FileName) (dir : Dir)
    → get g (prune retention_days cutoff dir)
      ≡ (if is_beyond retention_days cutoff (sort_key g) then none else get g dir)
unfolding get prune
get-prune r cutoff g [] = ground arith
get-prune r cutoff g ((f, c) ∷ dir) =
    get-prune_step (is_beyond r cutoff (sort_key f)) (is_beyond r cutoff (sort_key g)) f g c _ dir
      (λ e. ap (λ h. is_beyond r cutoff (sort_key h)) (name_eq→≡ f g e)) (get-prune r cutoff g dir)

seq-le-highest :
    (day seq : ℕ) (c : Content) (dir : Dir)
    → get (segment archive day seq) dir ≡ some c
    → seq ≤ highest_seq day dir
unfolding get highest_seq
seq-le-highest day seq c [] h = cc
seq-le-highest day seq c ((f, c') ∷ dir) h =
    elim (Bool-cases (name_eq f (segment archive day seq))) [
      | inl same ↦ omega (arith, ap (seq_of day) (name_eq→≡ f _ same), seq_of_self day seq)
      | inr other ↦ omega (arith, seq-le-highest day seq c dir (rw (other, get) at h))
    ]

-- No segment of the day has the next sequence number or a greater one.
pub get-next_seq :
    (day seq : ℕ) (dir : Dir) → next_seq day dir ≤ seq → get (segment archive day seq) dir ≡ none
unfolding next_seq
get-next_seq day seq dir h = elim (Option-cases (get (segment archive day seq) dir)) [
  | inl free ↦ free
  | inr (c, taken) ↦ absurd (omega (arith, seq-le-highest day seq c dir taken))
]
