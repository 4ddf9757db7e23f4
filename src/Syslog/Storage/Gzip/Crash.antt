-- ===== src/Syslog/Storage/Gzip/Crash.antt =====
-- The directories that a gzip run of writer.py leaves where it stops.
use home_assistant_apps.Prelude.{
  ◌≡◌, ◌⊎◌, inl, inr, false, Option, none, some, if◌then◌else◌, arith,
}
use home_assistant_apps.Syslog.Storage.Files.{FileName, Content, gzipped, Dir, get, name_eq}
use home_assistant_apps.Syslog.Storage.Files.Laws.{name_eq_refl, get-put, get-remove}
use home_assistant_apps.Syslog.Storage.Gzip.{
  GzipRun, completes, before_write, in_write, before_replace, before_unlink, after_unlink,
  gzip_steps,
}

-- The three names of a run are different.
pub record AreApart (source tmp final : FileName) : Type 0 where
  pub source_tmp : name_eq tmp source ≡ false
  pub source_final : name_eq source final ≡ false
  pub tmp_final : name_eq tmp final ≡ false

-- A directory in which the run has been completed.
abbrev pub expected : FileName → FileName → FileName → Content → Dir → FileName → Option Content
expected source tmp final c dir g =
    if name_eq source g
    then none
    else if name_eq final g
    then some (gzipped c)
    else if name_eq tmp g
    then none
    else get g dir

module _ (source tmp final : FileName) (apart : AreApart source tmp final) (c : Content) where
  -- A run that stops leaves the source as it was, or the whole archive.
  pub gzip_steps_safe :
      (run : GzipRun) (dir : Dir)
      → get source dir ≡ some c
      → (get source (gzip_steps run source tmp final c dir) ≡ some c)
        ⊎ (get final (gzip_steps run source tmp final c dir) ≡ some (gzipped c))
  unfolding gzip_steps
  gzip_steps_safe before_write dir h = inl h
  gzip_steps_safe in_write dir h = inl (simp (get-put, apart.source_tmp) h)
  gzip_steps_safe before_replace dir h = inl (simp (get-put, apart.source_tmp) h)
  gzip_steps_safe before_unlink dir h = inr (simp (get-put, name_eq_refl))
  gzip_steps_safe after_unlink dir h =
      inr (simp (get-remove, get-put, name_eq_refl, apart.source_final))
  gzip_steps_safe completes dir h =
      inr (simp (get-remove, get-put, name_eq_refl, apart.source_final))

  pub get-gzip_steps :
      (dir : Dir) (g : FileName)
      → get g (gzip_steps completes source tmp final c dir) ≡ expected source tmp final c dir g
  unfolding gzip_steps
  get-gzip_steps dir g = simp (get-remove, get-put)

  -- A second run, over a directory that a first run left with its source, ends as if the first run
  -- had completed.
  pub gzip_steps_again :
      (run : GzipRun) (dir : Dir) (g : FileName)
      → get g (gzip_steps completes source tmp final c (gzip_steps run source tmp final c dir))
        ≡ expected source tmp final c dir g
  unfolding gzip_steps
  gzip_steps_again before_write dir g = simp (get-remove, get-put)
  gzip_steps_again in_write dir g = simp (get-remove, get-put) (ground arith)
  gzip_steps_again before_replace dir g = simp (get-remove, get-put) (ground arith)
  gzip_steps_again before_unlink dir g = simp (get-remove, get-put) (ground arith)
  gzip_steps_again after_unlink dir g = simp (get-remove, get-put) (ground arith)
  gzip_steps_again completes dir g = simp (get-remove, get-put) (ground arith)
