-- ===== src/Syslog/Storage/Reconcile/Recovery.antt =====
-- The start of the writer of py-syslog/pysyslog/writer.py, after a rotation that stopped anywhere.
use home_assistant_apps.Prelude.{
  ℕ, ◌<◌, ◌≡◌, refl, ap, ◌∙◌, Option, inl, inr, List, [], ◌∷◌, All, Bool, true, false, none, some,
  if◌then◌else◌, Bool-cases,
}
use home_assistant_apps.Syslog.Storage.Files.{
  source, partial, archive, FileName, base, daily, segment, foreign, lines, Content, Dir, get, put,
  exists, name_eq,
}
use home_assistant_apps.Syslog.Storage.Files.Laws.{get-put}
use home_assistant_apps.Syslog.Storage.Archives.{sort_key, is_beyond}
use home_assistant_apps.Syslog.Storage.Gzip.{GzipRun, completes, compress}
use home_assistant_apps.Syslog.Storage.Gzip.Crash.{expected}
use home_assistant_apps.Syslog.Storage.Writer.{
  Sink, Outcome, and_then, with_dir, with_base, open_base, prune_names,
}
use home_assistant_apps.Syslog.Storage.Reconcile.{reconcile_orphans, reconcile_stale_base}
use home_assistant_apps.Syslog.Storage.Reconcile.Restart.{after_restart, stale_base_recovers}
use home_assistant_apps.Syslog.Storage.Reconcile.Start.{Startup, unopened, start}
use home_assistant_apps.Syslog.Storage.Reconcile.Listing.{
  is_leftover, is_in, IsListing, orphans_rest, prune_names-all, listed,
}

-- A leftover is neither the base nor an archive.
leftover_apart :
    (day : ℕ) (f : FileName)
    → is_leftover f ≡ true
    → (name_eq base f ≡ false) × (name_eq (daily archive day) f ≡ false)
unfolding name_eq
leftover_apart day (daily source d) h = (refl, refl)
leftover_apart day (daily partial d) h = (refl, refl)
leftover_apart day (segment source d n) h = (refl, refl)
leftover_apart day (segment partial d n) h = (refl, refl)
leftover_apart day base h = cc
leftover_apart day (foreign n) h = cc
leftover_apart day (daily archive d) h = cc
leftover_apart day (segment archive d n) h = cc

module _ (retention_days day : ℕ) (dir : Dir) (c : Content) (base_there : get base dir ≡ some c)
    (alone : (f : FileName)
      → is_leftover f ≡ true
      → name_eq (daily partial day) f ≡ false
      → get f dir ≡ none)
    (m : Startup) (its_day : m.mtime_day ≡ day) (later : day < m.today)
    (run_completes : m.faults.run base ≡ completes)
    (unlinks : (f : FileName) → m.unlink_fails f ≡ false) (opens : m.open_fails ≡ false) where
  -- The directory that the check of the base leaves.
  abbrev pub checked : GzipRun → Dir
  checked run = (after_restart m.faults run day m.today dir).1

  abbrev recovered : FileName → Option Content
  recovered g = expected base (daily partial day) (daily archive day) c dir g

  recovers :
      (run : GzipRun)
      → ((after_restart m.faults run day m.today dir).0 ≡ false)
        × ((g : FileName) → get g (checked run) ≡ recovered g)
  recovers run = stale_base_recovers m.faults day m.today dir c later base_there run_completes run

  no_leftover :
      (run : GzipRun) (f : FileName) → exists f (checked run) ≡ true → is_leftover f ≡ false
  no_leftover run f there = elim (Bool-cases (is_leftover f)) [
    | inr other ↦ other
    | inl left ↦
        let apart = leftover_apart day f left in
        let gone : recovered f ≡ none =
          rw (apart.0, apart.1)
            (elim (Bool-cases (name_eq (daily partial day) f)) [
              | inl tmp ↦ rw tmp refl
              | inr not_tmp ↦ rw not_tmp (alone f left not_tmp)
            ]) in
        let absent : get f (checked run) ≡ none = (recovers run).1 f ∙ gone in
        let no : exists f (checked run) ≡ false = rw absent refl in cc
  ]

  not_leftovers :
      (run : GzipRun) (names : List FileName)
      → All (λ f. exists f (checked run) ≡ true) names
      → All (λ f. is_leftover f ≡ false) names
  not_leftovers run [] h = tt
  not_leftovers run (f ∷ names) h = (no_leftover run f h.0, not_leftovers run names h.1)

  -- The start, with what is left of the base file's rotation.
  abbrev pub restarted : GzipRun → Outcome
  restarted run = start retention_days m (compress run base day dir).1

  pruned :
      (run : GzipRun)
      → IsListing m.archive_names (checked run)
      → ((prune_names retention_days m.day_at_prune m.unlink_fails m.archive_names (checked run)).0
          ≡ false)
        × ((g : FileName)
            → get g
                (prune_names retention_days m.day_at_prune m.unlink_fails m.archive_names
                  (checked run)).1
              ≡ (if is_beyond retention_days m.day_at_prune (sort_key g)
                  then none
                  else recovered g))
  pruned run archives =
      let all =
        prune_names-all retention_days m.day_at_prune m.unlink_fails unlinks m.archive_names
          (checked run) archives.distinct archives.all_there in
      (
        all.0,
        λ g.
            all.1 g
            ∙ listed (is_beyond retention_days m.day_at_prune (sort_key g))
                (is_in g m.archive_names) (get g (checked run)) (archives.complete g)
            ∙ ap (λ x. if is_beyond retention_days m.day_at_prune (sort_key g) then none else x)
                ((recovers run).1 g),
      )

  -- What follows the visit of the orphans.
  abbrev after_orphans : Sink → Outcome
  after_orphans s2 =
      and_then
        (with_dir s2
          (prune_names retention_days m.day_at_prune m.unlink_fails m.archive_names s2.dir))
        (open_base m.open_fails m.open_date)

  restarted_steps :
      (run : GzipRun)
      → IsListing m.orphan_names (checked run)
      → IsListing m.archive_names (checked run)
      → restarted run
        ≡ open_base false m.open_date (record (unopened m.open_date dir) {
          dir =
              (prune_names retention_days m.day_at_prune m.unlink_fails m.archive_names
                (checked run)).1;
        })
  unfolding start after_restart
  restarted_steps run orphans archives =
      let s = unopened m.open_date (compress run base day dir).1 in
      let after_check : Sink → Outcome = λ s1.
        and_then (with_dir s1 (reconcile_orphans m.faults m.orphan_names s1.dir)) after_orphans in
      let check : reconcile_stale_base m.faults m.mtime_day m.today (compress run base day dir).1
          ≡ (false, checked run) =
        rw its_day (ap (λ b. (b, checked run)) (recovers run).0) in
      let visit : reconcile_orphans m.faults m.orphan_names (checked run) ≡ (false, checked run) =
        orphans_rest m.faults m.orphan_names (checked run)
          (not_leftovers run m.orphan_names orphans.all_there) in
      let prune : prune_names retention_days m.day_at_prune m.unlink_fails m.archive_names
            (checked run)
          ≡ (
            false,
            (prune_names retention_days m.day_at_prune m.unlink_fails m.archive_names
                (checked run)).1,
          ) =
        ap
          (λ b. (
            b,
            (prune_names retention_days m.day_at_prune m.unlink_fails m.archive_names
                (checked run)).1,
          ))
          (pruned run archives).0 in
      ap (λ (r : Bool × Dir). and_then (with_dir s r) after_check) check
      ∙ ap
          (λ (r : Bool × Dir). and_then (with_dir (record s { dir = checked run }) r) after_orphans)
          visit
      ∙ ap
          (λ (r : Bool × Dir).
            and_then (with_dir (record s { dir = checked run }) r)
              (open_base m.open_fails m.open_date))
          prune
      ∙ rw opens refl

  -- Wherever the rotation of a base file stopped, a start on a later day recovers from it, if the time
  -- of change of the base lies on the day of the rotation, its own gzip run, its unlinks in the pruning and its open
  -- succeed, no other uncompressed or partial file lies in the directory, and each of the two listings
  -- has the names of the files, each once: nothing is raised; the base is open and empty for the day that the start has read; and every other
  -- file is as the completed rotation would have left it, except for the archives whose day lies more
  -- than the retention behind the day of the pruning, which are gone.
  pub restart_recovers :
      (run : GzipRun)
      → IsListing m.orphan_names (checked run)
      → IsListing m.archive_names (checked run)
      → ((restarted run).0 ≡ false)
        × ((restarted run).1.is_open ≡ true)
        × ((restarted run).1.open_date ≡ m.open_date)
        × (get base (restarted run).1.dir ≡ some (lines []))
        × ((g : FileName)
            → name_eq base g ≡ false
            → get g (restarted run).1.dir ≡ (
                if is_beyond retention_days m.day_at_prune (sort_key g)
                then none
                else expected base (daily partial day) (daily archive day) c dir g))
  unfolding open_base name_eq
  restart_recovers run orphans archives =
      let kept =
        (prune_names retention_days m.day_at_prune m.unlink_fails m.archive_names
          (checked run)).1 in
      let gone : get base kept ≡ none = (pruned run archives).1 base in
      let dir : with_base kept ≡ put base (lines []) kept = rw gone refl in
      rw (restarted_steps run orphans archives) (
        rw dir (
          refl,
          refl,
          refl,
          rw get-put refl,
          λ g other.
              get-put base g (lines []) kept
              ∙ ap (λ b. if b then some (lines []) else get g kept) other
              ∙ (pruned run archives).1 g,
        ))
