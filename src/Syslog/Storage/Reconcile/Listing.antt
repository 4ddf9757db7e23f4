-- ===== src/Syslog/Storage/Reconcile/Listing.antt =====
-- What `_reconcile_orphans` and `_prune` of py-syslog/pysyslog/writer.py do with the names of a directory.
use home_assistant_apps.Prelude.{
  ℕ, ◌≡◌, refl, ap, ◌∙◌, Option, inl, inr, List, [], ◌∷◌, All, Bool, true, false, ◌&&◌, ◌||◌, none,
  some, if◌then◌else◌, Bool-cases, arith,
}
use home_assistant_apps.Syslog.Storage.Files.{
  source, partial, archive, FileName, base, daily, segment, foreign, Content, Dir, get, has_content,
  exists, remove, name_eq,
}
use home_assistant_apps.Syslog.Storage.Files.Laws.{name_eq→≡, get-remove}
use home_assistant_apps.Syslog.Storage.Archives.{sort_key, is_beyond}
use home_assistant_apps.Syslog.Storage.Writer.{prune_names}
use home_assistant_apps.Syslog.Storage.Reconcile.{Faults, reconcile_orphan, reconcile_orphans}

-- The files that `_reconcile_orphans` acts on.
abbrev pub is_leftover : FileName → Bool
is_leftover (daily source d) = true
is_leftover (daily partial d) = true
is_leftover (segment source d n) = true
is_leftover (segment partial d n) = true
is_leftover _ = false

abbrev pub is_in : FileName → List FileName → Bool
is_in f [] = false
is_in f (g ∷ names) = name_eq g f || is_in f names

unfoldable pub Distinct : List FileName → Type 0
Distinct [] = Unit
Distinct (f ∷ names) = All (λ g. name_eq f g ≡ false) names × Distinct names

-- The names are those of the files of the directory, each once.
pub record IsListing (names : List FileName) (dir : Dir) : Type 0 where
  pub all_there : All (λ f. exists f dir ≡ true) names
  pub distinct : Distinct names
  pub complete : (f : FileName) → exists f dir ≡ true → is_in f names ≡ true

module _ (faults : Faults) where
  orphan_rests :
      (f : FileName) (dir : Dir)
      → is_leftover f ≡ false
      → reconcile_orphan faults f dir ≡ (false, dir)
  unfolding reconcile_orphan
  orphan_rests base dir h = refl
  orphan_rests (foreign n) dir h = refl
  orphan_rests (daily archive d) dir h = refl
  orphan_rests (segment archive d n) dir h = refl
  orphan_rests (daily source d) dir h = cc
  orphan_rests (daily partial d) dir h = cc
  orphan_rests (segment source d n) dir h = cc
  orphan_rests (segment partial d n) dir h = cc

  -- Where no name is a leftover's, nothing is done.
  pub orphans_rest :
      (names : List FileName) (dir : Dir)
      → All (λ f. is_leftover f ≡ false) names
      → reconcile_orphans faults names dir ≡ (false, dir)
  unfolding reconcile_orphans
  orphans_rest [] dir h = refl
  orphans_rest (f ∷ names) dir h =
      ap
        (λ (r : Bool × Dir). elim r.0 [
          | true ↦ (true, r.1)
          | false ↦ reconcile_orphans faults names r.1
        ])
        (orphan_rests f dir h.0)
      ∙ orphans_rest names dir h.1

pruned_stays :
    (same found beyond_f beyond_g : Bool) (x : Option Content)
    → (same ≡ true → beyond_f ≡ beyond_g)
    → beyond_f ≡ false
    → (if found && beyond_g then none else x) ≡ (if (same || found) && beyond_g then none else x)
pruned_stays same found beyond_f beyond_g x h e = ground arith

pruned_goes :
    (same found beyond_f beyond_g : Bool) (x : Option Content)
    → (same ≡ true → beyond_f ≡ beyond_g)
    → beyond_f ≡ true
    → (if found && beyond_g then none else if same then none else x)
      ≡ (if (same || found) && beyond_g then none else x)
pruned_goes same found beyond_f beyond_g x h e = ground arith

module _ (retention_days cutoff : ℕ) (unlink_fails : FileName → Bool)
    (succeed : (f : FileName) → unlink_fails f ≡ false) where
  there-remove :
      (f : FileName) (names : List FileName) (dir : Dir)
      → All (λ g. name_eq f g ≡ false) names
      → All (λ g. exists g dir ≡ true) names
      → All (λ g. exists g (remove f dir) ≡ true) names
  there-remove f [] dir apart there = tt
  there-remove f (g ∷ names) dir apart there =
      (rw (get-remove, apart.0) there.0, there-remove f names dir apart.1 there.1)

  -- Each archive that is found and is beyond retention goes, and no other file.
  pub prune_names-all :
      (names : List FileName) (dir : Dir)
      → Distinct names
      → All (λ g. exists g dir ≡ true) names
      → ((prune_names retention_days cutoff unlink_fails names dir).0 ≡ false)
        × ((g : FileName)
            → get g (prune_names retention_days cutoff unlink_fails names dir).1 ≡ (
                if is_in g names && is_beyond retention_days cutoff (sort_key g)
                then none
                else get g dir))
  unfolding prune_names Distinct
  prune_names-all [] dir distinct there = (refl, λ g. refl)
  prune_names-all (f ∷ names) dir distinct there =
      let beyond_of : FileName → Bool = λ g. is_beyond retention_days cutoff (sort_key g) in
      elim (Bool-cases (is_beyond retention_days cutoff (sort_key f))) [
        | inr stays ↦
            let ih = prune_names-all names dir distinct.1 there.1 in
            rw (stays, prune_names)
              (
                ih.0,
                λ g.
                    ih.1 g
                    ∙ pruned_stays (name_eq f g) (is_in g names) (beyond_of f) (beyond_of g)
                        (get g dir) (λ e. ap beyond_of (name_eq→≡ f g e)) stays,
              )
        | inl beyond ↦
            let ih =
              prune_names-all names (remove f dir) distinct.1
                (there-remove f names dir distinct.0 there.1) in
            rw (beyond, there.0, succeed f, prune_names)
              (
                ih.0,
                λ g.
                    ih.1 g
                    ∙ (rw get-remove (
                        pruned_goes (name_eq f g) (is_in g names) (beyond_of f) (beyond_of g)
                          (get g dir) (λ e. ap beyond_of (name_eq→≡ f g e)) beyond)),
              )
      ]

-- A listing has the names that pruning asks for.
pub listed :
    (beyond found : Bool) (x : Option Content)
    → (has_content x ≡ true → found ≡ true)
    → (if found && beyond then none else x) ≡ (if beyond then none else x)
listed beyond found none h = ground arith
listed beyond found (some c) h = rw (h refl) refl
