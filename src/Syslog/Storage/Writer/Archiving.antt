-- ===== src/Syslog/Storage/Writer/Archiving.antt =====
-- The lines that a gzip run of writer.py keeps, wherever it stops.
use home_assistant_apps.Prelude.{
  ℕ, ◌≡◌, refl, ◌⊎◌, inl, inr, Text, true, false, Option, none, some, Bool-cases,
}
use home_assistant_apps.Syslog.Storage.Files.{
  FileName, Content, gzipped, truncated, Dir, get, put, remove, name_eq,
}
use home_assistant_apps.Syslog.Storage.Files.Laws.{name_eq→≡, name_eq_refl, get-put, get-remove}
use home_assistant_apps.Syslog.Storage.Gzip.{
  GzipRun, completes, before_write, in_write, before_replace, before_unlink, after_unlink,
  gzip_steps,
}
use home_assistant_apps.Syslog.Storage.Gzip.Crash.{AreApart}
use home_assistant_apps.Syslog.Storage.Writer.Stored.{
  Holds, is_since, Stored, Stored-put, Stored-remove, Stored-put_aside, Stored-remove_copied,
}

name_eq-sym : (f g : FileName) → name_eq f g ≡ false → name_eq g f ≡ false
name_eq-sym f g apart = elim (Bool-cases (name_eq g f)) [
  | inl same ↦
      let e : g ≡ f = name_eq→≡ g f same in
      let r : name_eq f g ≡ true = rw (e, name_eq_refl) refl in cc
  | inr other ↦ other
]

Holds-gzipped :
    (t : Text) (c c' : Content) (at_final : Option Content)
    → (at_final ≡ none) ⊎ (at_final ≡ some (gzipped c))
    → at_final ≡ some c'
    → Holds t c'
    → Holds t (gzipped c)
Holds-gzipped t c c' at_final (inl e) there holds = cc
Holds-gzipped t c c' at_final (inr e) there holds =
    let same : c' ≡ gzipped c = cc in rw⁻¹ same holds

module _ (first : ℕ) (src tmp final : FileName) (c : Content) (dir : Dir)
    (apart : AreApart src tmp final) (tmp_aside : is_since first tmp ≡ false)
    (since_final : is_since first final ≡ true) (here : get src dir ≡ some c)
    (new : (get final dir ≡ none) ⊎ (get final dir ≡ some (gzipped c))) where
  Stored-replaced :
      (t : Text) → Stored first t dir → Stored first t (put final (gzipped c) (remove tmp dir))
  Stored-replaced t s =
      Stored-put first t final (gzipped c) (remove tmp dir)
        (λ c' there holds.
          Holds-gzipped t c c' _ new (rw (get-remove, apart.tmp_final) at there) holds)
        (Stored-remove first t tmp dir tmp_aside s)

  source_remains : get src (put final (gzipped c) (remove tmp dir)) ≡ some c
  source_remains =
      rw (get-put, name_eq-sym src final apart.source_final, get-remove, apart.source_tmp) here

  Stored-unlinked :
      (t : Text)
      → Stored first t dir
      → Stored first t (remove src (put final (gzipped c) (remove tmp dir)))
  Stored-unlinked t s =
      Stored-remove_copied first t src final c _ source_remains (rw (get-put, name_eq_refl) refl)
        apart.source_final since_final (Stored-replaced t s)

  -- A gzip run keeps the lines, wherever it stops, if the archive is new or of the same content.
  pub Stored-gzip :
      (t : Text) (run : GzipRun)
      → Stored first t dir
      → Stored first t (gzip_steps run src tmp final c dir)
  unfolding gzip_steps
  Stored-gzip t before_write s = s
  Stored-gzip t in_write s = Stored-put_aside first t tmp truncated dir tmp_aside s
  Stored-gzip t before_replace s = Stored-put_aside first t tmp (gzipped c) dir tmp_aside s
  Stored-gzip t before_unlink s = Stored-replaced t s
  Stored-gzip t after_unlink s = Stored-unlinked t s
  Stored-gzip t completes s = Stored-unlinked t s

  pub gzip_steps_others :
      (run : GzipRun) (f : FileName)
      → name_eq src f ≡ false
      → name_eq tmp f ≡ false
      → name_eq final f ≡ false
      → get f (gzip_steps run src tmp final c dir) ≡ get f dir
  unfolding gzip_steps
  gzip_steps_others before_write f s_f t_f f_f = refl
  gzip_steps_others in_write f s_f t_f f_f = rw (get-put, t_f) refl
  gzip_steps_others before_replace f s_f t_f f_f = rw (get-put, t_f) refl
  gzip_steps_others before_unlink f s_f t_f f_f = rw (get-put, f_f, get-remove, t_f) refl
  gzip_steps_others after_unlink f s_f t_f f_f =
      rw (get-remove, s_f, get-put, f_f, get-remove, t_f) refl
  gzip_steps_others completes f s_f t_f f_f =
      rw (get-remove, s_f, get-put, f_f, get-remove, t_f) refl

  -- The source is gone, or it is as it was and the archive is not there or has its content.
  pub gzip_steps_source :
      (run : GzipRun)
      → (get src (gzip_steps run src tmp final c dir) ≡ none)
        ⊎ ((get src (gzip_steps run src tmp final c dir) ≡ some c)
            × ((get final (gzip_steps run src tmp final c dir) ≡ none)
                ⊎ (get final (gzip_steps run src tmp final c dir) ≡ some (gzipped c))))
  unfolding gzip_steps
  gzip_steps_source before_write = inr (here, new)
  gzip_steps_source in_write =
      inr (rw (get-put, apart.source_tmp) here, rw (get-put, apart.tmp_final) new)
  gzip_steps_source before_replace =
      inr (rw (get-put, apart.source_tmp) here, rw (get-put, apart.tmp_final) new)
  gzip_steps_source before_unlink = inr (source_remains, inr (rw (get-put, name_eq_refl) refl))
  gzip_steps_source after_unlink = inl (rw (get-remove, name_eq_refl) refl)
  gzip_steps_source completes = inl (rw (get-remove, name_eq_refl) refl)
