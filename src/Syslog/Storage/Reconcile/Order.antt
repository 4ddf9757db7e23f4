-- ===== src/Syslog/Storage/Reconcile/Order.antt =====
-- An orphan beside its own partial file. The names are visited in sorted order, so the orphan, whose
-- name is a prefix of the partial file's, comes first, and its gzip run takes the partial file away.
use home_assistant_apps.Prelude.{ℕ, ◌≡◌, false, none, some}
use home_assistant_apps.Syslog.Storage.Files.{
  source, partial, archive, FileName, daily, Content, Dir, get, name_eq,
}
use home_assistant_apps.Syslog.Storage.Gzip.{completes}
use home_assistant_apps.Syslog.Storage.Reconcile.{Faults}

module _ (faults : Faults) (run_completes : (f : FileName) → faults.run f ≡ completes) where
  module _ (day : ℕ) (c : Content) where
    -- The orphan waits to be compressed.
    record IsWaiting (dir : Dir) : Type 0 where
      orphan : get (daily source day) dir ≡ some c
      no_archive : get (daily archive day) dir ≡ none

    -- The names of a run are none of `g`.
    abbrev Spares : FileName → FileName → FileName → FileName → Type 0
    Spares f tmp final g =
        (name_eq f g ≡ false) × (name_eq tmp g ≡ false) × (name_eq final g ≡ false)

    -- The partial file is gone.
    abbrev IsGone : Dir → Type 0
    IsGone dir = get (daily partial day) dir ≡ none
