-- ===== src/Syslog/Storage/Reconcile/Restart.antt =====
-- The check of the base file at a restart, after a daily rotation that stopped anywhere.
use home_assistant_apps.Prelude.{ℕ, ◌<◌, ◌≡◌, refl, Bool, false, none, some, lt→ltb}
use home_assistant_apps.Syslog.Storage.Files.{
  partial, archive, FileName, base, daily, Content, Dir, get, name_eq,
}
use home_assistant_apps.Syslog.Storage.Files.Laws.{get-put, get-remove}
use home_assistant_apps.Syslog.Storage.Gzip.{
  GzipRun, completes, before_write, in_write, before_replace, before_unlink, after_unlink,
  gzip_steps, atomic_gzip, compress,
}
use home_assistant_apps.Syslog.Storage.Gzip.Crash.{
  AreApart, expected, get-gzip_steps, gzip_steps_again,
}
use home_assistant_apps.Syslog.Storage.Reconcile.{Faults, reconcile_stale_base}

base-AreApart : (day : ℕ) → AreApart base (daily partial day) (daily archive day)
unfolding name_eq
base-AreApart day = record { source_tmp = refl; source_final = refl; tmp_final = refl }

-- The base file's rotation stopped where `run` says; the process starts again on a later day.
unfoldable pub after_restart : Faults → GzipRun → ℕ → ℕ → Dir → Bool × Dir
after_restart faults run day today dir =
    reconcile_stale_base faults day today (compress run base day dir).1

module _ (faults : Faults) (day today : ℕ) (dir : Dir) (c : Content) (later : day < today)
    (base_there : get base dir ≡ some c) (run_completes : faults.run base ≡ completes) where
  -- With the base still there, the second run is made.
  again :
      (dir' : Dir)
      → get base dir' ≡ some c
      → reconcile_stale_base faults day today dir'
        ≡ (false, gzip_steps completes base (daily partial day) (daily archive day) c dir')
  unfolding reconcile_stale_base compress atomic_gzip
  again dir' h =
      rw (h, reconcile_stale_base)
        (rw (lt→ltb day today later) (rw (h, atomic_gzip) (rw run_completes)))

  -- Without it, there is nothing to do.
  nothing_left :
      (dir' : Dir)
      → get base dir' ≡ none
      → reconcile_stale_base faults day today dir' ≡ (false, dir')
  unfolding reconcile_stale_base
  nothing_left dir' h = rw (h, reconcile_stale_base)

  stopped-base :
      (run : GzipRun)
      → (compress run base day dir).1
        ≡ gzip_steps run base (daily partial day) (daily archive day) c dir
  unfolding compress atomic_gzip
  stopped-base run = rw (base_there, atomic_gzip)

  abbrev steps : GzipRun → Dir
  steps run = gzip_steps run base (daily partial day) (daily archive day) c dir

  -- The two ends: a second run, or none.
  abbrev Recovered : Bool × Dir → Type 0
  Recovered r =
      (r.0 ≡ false)
      × ((g : FileName) → get g r.1 ≡ expected base (daily partial day) (daily archive day) c dir g)

  run_again :
      (run : GzipRun)
      → get base (steps run) ≡ some c
      → Recovered (reconcile_stale_base faults day today (steps run))
  run_again run h = rw (again (steps run) h) (
    refl,
    gzip_steps_again base (daily partial day) (daily archive day) (base-AreApart day) c run dir,
  )

  no_run :
      (run : GzipRun)
      → steps run ≡ steps completes
      → Recovered (reconcile_stale_base faults day today (steps run))
  unfolding gzip_steps name_eq
  no_run run e = rw e (
      rw (nothing_left (steps completes) (simp get-remove)) (
        refl,
        get-gzip_steps base (daily partial day) (daily archive day) (base-AreApart day) c dir,
      ))

  -- Wherever the rotation of the base file stopped, the check of the base on a later day, whose own
  -- gzip run completes, leaves the directory as the rotation would have.
  pub stale_base_recovers :
      (run : GzipRun)
      → ((after_restart faults run day today dir).0 ≡ false)
        × ((g : FileName)
            → get g (after_restart faults run day today dir).1
              ≡ expected base (daily partial day) (daily archive day) c dir g)
  unfolding after_restart gzip_steps name_eq
  stale_base_recovers before_write = rw stopped-base (run_again before_write base_there)
  stale_base_recovers in_write = rw stopped-base (run_again in_write (simp get-put base_there))
  stale_base_recovers before_replace =
      rw stopped-base (run_again before_replace (simp get-put base_there))
  stale_base_recovers before_unlink =
      rw stopped-base (run_again before_unlink (simp (get-put, get-remove) base_there))
  stale_base_recovers after_unlink = rw stopped-base (no_run after_unlink refl)
  stale_base_recovers completes = rw stopped-base (no_run completes refl)
