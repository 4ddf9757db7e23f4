-- ===== src/Syslog/Storage/Writer/Pruning.antt =====
-- The lines that the pruning of writer.py keeps.
use home_assistant_apps.Prelude.{
  ℕ, ◌≡◌, refl, ◌∙◌, ◌⊎◌, inl, inr, List, [], ◌∷◌, Text, Bool, true, false, not, ◌||◌, Option, none,
  ◌+◌, ◌≤◌, Bool-cases, arith,
}
use home_assistant_apps.Syslog.Storage.Files.{FileName, Content, Dir, get, remove, exists, name_eq}
use home_assistant_apps.Syslog.Storage.Files.Laws.{name_eq→≡, get-remove}
use home_assistant_apps.Syslog.Storage.Archives.{sort_key, is_beyond}
use home_assistant_apps.Syslog.Storage.Writer.{prune_names}
use home_assistant_apps.Syslog.Storage.Writer.Stored.{is_since, Stored}

-- What pruning leaves of a file.
abbrev Pruned : ℕ → ℕ → FileName → Option Content → Option Content → Type 0
Pruned retention_days cutoff f old new =
    (new ≡ old) ⊎ ((new ≡ none) × (is_beyond retention_days cutoff (sort_key f) ≡ true))

Pruned-remove :
    (retention_days cutoff : ℕ) (f g : FileName) (dir : Dir) (new : Option Content)
    → is_beyond retention_days cutoff (sort_key g) ≡ true
    → Pruned retention_days cutoff f (get f (remove g dir)) new
    → Pruned retention_days cutoff f (get f dir) new
Pruned-remove r cutoff f g dir new beyond (inr gone) = inr gone
Pruned-remove r cutoff f g dir new beyond (inl kept) = elim (Bool-cases (name_eq g f)) [
  | inl same ↦
      let e : g ≡ f = name_eq→≡ g f same in inr (kept ∙ rw (get-remove, same) refl, rw⁻¹ e beyond)
  | inr other ↦ inl (kept ∙ rw (get-remove, other) refl)
]

pub get-prune_names :
    (retention_days cutoff : ℕ) (unlink_fails : FileName → Bool) (names : List FileName)
    (f : FileName) (dir : Dir)
    → Pruned retention_days cutoff f
        (get f dir)
        (get f (prune_names retention_days cutoff unlink_fails names dir).1)
unfolding prune_names
get-prune_names r cutoff unlink_fails [] f dir = inl refl
get-prune_names r cutoff unlink_fails (g ∷ names) f dir =
    elim (Bool-cases (is_beyond r cutoff (sort_key g))) [
      | inr stays ↦ rw (stays, prune_names) (get-prune_names r cutoff unlink_fails names f dir)
      | inl beyond ↦ elim (Bool-cases (not (exists g dir) || unlink_fails g)) [
        | inl stopped ↦ rw (beyond, stopped, prune_names) (inl refl)
        | inr goes ↦
            rw (beyond, goes, prune_names)
              (Pruned-remove r cutoff f g dir _ beyond
                (get-prune_names r cutoff unlink_fails names f (remove g dir)))
      ]
    ]

-- An archive that is beyond retention is of no day since the first.
pub beyond-since :
    (first retention_days today : ℕ) (f : FileName)
    → today ≤ first + retention_days
    → is_beyond retention_days today (sort_key f) ≡ true
    → is_since first f ≡ false
beyond-since first r today f within beyond = ground arith

pub Stored-prune_names :
    (first retention_days today : ℕ) (t : Text) (unlink_fails : FileName → Bool)
    (names : List FileName) (dir : Dir)
    → today ≤ first + retention_days
    → Stored first t dir
    → Stored first t (prune_names retention_days today unlink_fails names dir).1
Stored-prune_names first r today t unlink_fails names dir within s =
    elim (get-prune_names r today unlink_fails names s.file dir) [
      | inl kept ↦ record {
        file = s.file;
        content = s.content;
        since = s.since;
        there = kept ∙ s.there;
        holds = s.holds;
      }
      | inr (gone, beyond) ↦
          let before : is_since first s.file ≡ false =
            beyond-since first r today s.file within beyond in
          let since : is_since first s.file ≡ true = s.since in cc
    ]
