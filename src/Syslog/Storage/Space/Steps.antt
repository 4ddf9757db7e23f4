-- ===== src/Syslog/Storage/Space/Steps.antt =====
-- One iteration of the guard's loop, by its ends.
use home_assistant_apps.Prelude.{
  ℕ, suc, ◌≡◌, refl, Bool, true, false, Option, none, some, if_rule, ◌&&◌, ◌==◌, arith,
}
use home_assistant_apps.Syslog.Storage.Files.{FileName, remove}
use home_assistant_apps.Syslog.Storage.Archives.{Key, oldest_prunable}
use home_assistant_apps.Syslog.Storage.Space.{
  Unlink, unlinked, fails_before, fails_after, Volume, Limits, statvfs, scandir, space_exhausted,
  unlink_error, Guard, End, disabled, within_budget, not_measured, exhausted, not_unlinked, warn,
  prune_victim, measure, space_loop, enforce_space,
}

module _ {κ} (v : Volume) (limits : Limits) (P : End × Guard → Type κ) (total fuel : ℕ) (g : Guard)
    (unmeasured : measure v limits total g.dir ≡ none → P (not_measured, warn scandir g))
    (within : measure v limits total g.dir ≡ some false → P (within_budget, g))
    (nothing : oldest_prunable g.dir ≡ none → P (exhausted, warn space_exhausted g))
    (goes_on : (f : FileName) (k : Key)
      → oldest_prunable g.dir ≡ some (f, k)
      → P (space_loop v limits fuel total (prune_victim v limits f g)))
    (kept : (f : FileName) (k : Key)
      → oldest_prunable g.dir ≡ some (f, k)
      → v.unlink f g.dir ≡ fails_before
      → P (not_unlinked, warn unlink_error g))
    (dropped : (f : FileName) (k : Key)
      → oldest_prunable g.dir ≡ some (f, k)
      → v.unlink f g.dir ≡ fails_after
      → P (not_unlinked, warn unlink_error (record g { dir = remove f g.dir }))) where
  unlink_case :
      (f : FileName) (k : Key) (u : Unlink)
      → oldest_prunable g.dir ≡ some (f, k)
      → v.unlink f g.dir ≡ u
      → P (elim u [
        | unlinked ↦ space_loop v limits fuel total (prune_victim v limits f g)
        | fails_before ↦ (not_unlinked, warn unlink_error g)
        | fails_after ↦ (not_unlinked, warn unlink_error (record g { dir = remove f g.dir }))
      ])
  unlink_case f k unlinked e h = goes_on f k e
  unlink_case f k fails_before e h = kept f k e h
  unlink_case f k fails_after e h = dropped f k e h

  -- An iteration ends in one of six ways.
  pub loop_rule : P (space_loop v limits (suc fuel) total g)
  unfolding space_loop
  loop_rule = measured (measure v limits total g.dir) refl
    where
      victim :
          (o : Option (FileName × Key))
          → oldest_prunable g.dir ≡ o
          → P (elim o [
            | none ↦ (exhausted, warn space_exhausted g)
            | some (f, k) ↦ elim (v.unlink f g.dir) [
              | unlinked ↦ space_loop v limits fuel total (prune_victim v limits f g)
              | fails_before ↦ (not_unlinked, warn unlink_error g)
              | fails_after ↦ (not_unlinked, warn unlink_error (record g { dir = remove f g.dir }))
            ]
          ])
      victim none e = nothing e
      victim (some (f, k)) e = unlink_case f k (v.unlink f g.dir) e refl

      measured :
          (o : Option Bool)
          → measure v limits total g.dir ≡ o
          → P (elim o [
            | none ↦ (not_measured, warn scandir g)
            | some over ↦ elim over [
              | false ↦ (within_budget, g)
              | true ↦ elim (oldest_prunable g.dir) [
                | none ↦ (exhausted, warn space_exhausted g)
                | some (f, k) ↦ elim (v.unlink f g.dir) [
                  | unlinked ↦ space_loop v limits fuel total (prune_victim v limits f g)
                  | fails_before ↦ (not_unlinked, warn unlink_error g)
                  | fails_after ↦
                      (not_unlinked, warn unlink_error (record g { dir = remove f g.dir }))
                ]
              ]
            ]
          ])
      measured none e = unmeasured e
      measured (some false) e = within e
      measured (some true) e = victim (oldest_prunable g.dir) refl

-- The whole of it: off, no measurement, or the loop.
pub enforce_rule {ℓ} :
    (v : Volume) (limits : Limits) (fuel : ℕ) (g : Guard) (P : End × Guard → Type ℓ)
    → (limits.min_free_percent ≡ 0 → limits.max_log_percent ≡ 0 → P (disabled, g))
    → (v.stats g.dir ≡ none → P (not_measured, warn statvfs g))
    → ((total free : ℕ) → v.stats g.dir ≡ some (total, free) → P (space_loop v limits fuel total g))
    → P (enforce_space v limits fuel g)
unfolding enforce_space
enforce_rule v limits fuel g P off unknown loops =
    if_rule P (limits.min_free_percent == 0 && limits.max_log_percent == 0) _ _
      (λ e. off (ground arith) (ground arith)) (λ _. measured (v.stats g.dir) refl)
  where
    measured :
        (o : Option (ℕ × ℕ))
        → v.stats g.dir ≡ o
        → P (elim o [
          | none ↦ (not_measured, warn statvfs g)
          | some (total, free) ↦ space_loop v limits fuel total g
        ])
    measured none e = unknown e
    measured (some (total, free)) e = loops total free e
