-- ===== src/Syslog/Storage/Writer/Stored.antt =====
-- Which lines the log directory of writer.py keeps.
use home_assistant_apps.Prelude.{
  ℕ, ◌≡◌, refl, ◌⊎◌, inl, inr, List, [], ◌∷◌, ◌++◌, Text, Bool, true, false, Option, none, some,
  leb, Bool-cases,
}
use home_assistant_apps.Syslog.Storage.Files.{
  source, partial, archive, FileName, base, daily, segment, foreign, Content, lines, gzipped,
  truncated, Dir, get, put, remove, name_eq,
}
use home_assistant_apps.Syslog.Storage.Files.Laws.{name_eq→≡, get-put, get-remove}
use home_assistant_apps.Syslog.Storage.Writer.{extended}

-- A list has the line.
unfoldable pub Has : Text → List Text → Type 0
Has t [] = ⊥
Has t (x ∷ xs) = (x ≡ t) ⊎ Has t xs

unfoldable pub Holds : Text → Content → Type 0
unfolding Has
Holds t (lines ls) = Has t ls
Holds t (gzipped c) = Holds t c
Holds t truncated = ⊥

-- The base file, and the archives of a day and later.
abbrev pub is_since : ℕ → FileName → Bool
is_since first base = true
is_since first (daily archive d) = leb first d
is_since first (segment archive d n) = leb first d
is_since first (daily source d) = false
is_since first (daily partial d) = false
is_since first (segment source d n) = false
is_since first (segment partial d n) = false
is_since first (foreign n) = false

-- The line is in one of these.
pub record Stored (first : ℕ) (t : Text) (dir : Dir) : Type 0 where
  pub file : FileName
  pub content : Content
  pub since : is_since first file ≡ true
  pub there : get file dir ≡ some content
  pub holds : Holds t content

pub Has-append_left : (t : Text) (xs ys : List Text) → Has t xs → Has t (xs ++ ys)
unfolding Has
Has-append_left t [] ys h = absurd h
Has-append_left t (x ∷ xs) ys (inl e) = inl e
Has-append_left t (x ∷ xs) ys (inr h) = inr (Has-append_left t xs ys h)

pub Has-append_last : (t : Text) (xs ys : List Text) → Has t (xs ++ (ys ++ t ∷ []))
unfolding Has
Has-append_last t [] [] = inl refl
Has-append_last t [] (y ∷ ys) = inr (Has-append_last t [] ys)
Has-append_last t (x ∷ xs) ys = inr (Has-append_last t xs ys)

-- A step that keeps the lines of each of these files keeps the lines.
pub Stored-step :
    (first : ℕ) (t : Text) (dir dir' : Dir)
    → ((f : FileName) (c : Content)
        → is_since first f ≡ true
        → get f dir ≡ some c
        → Holds t c
        → Stored first t dir')
    → Stored first t dir
    → Stored first t dir'
Stored-step first t dir dir' k s = k s.file s.content s.since s.there s.holds

pub Stored-put :
    (first : ℕ) (t : Text) (g : FileName) (c : Content) (dir : Dir)
    → ((c' : Content) → get g dir ≡ some c' → Holds t c' → Holds t c)
    → Stored first t dir
    → Stored first t (put g c dir)
Stored-put first t g c dir keeps = Stored-step first t dir (put g c dir) (λ f c' since there holds.
    elim (Bool-cases (name_eq g f)) [
      | inl same ↦
          let e : g ≡ f = name_eq→≡ g f same in
          record {
            file = f;
            content = c;
            since = since;
            there = rw (get-put, same) refl;
            holds = keeps c' (rw e there) holds;
          }
      | inr other ↦ record {
        file = f;
        content = c';
        since = since;
        there = rw (get-put, other) there;
        holds = holds;
      }
    ])

pub Stored-remove :
    (first : ℕ) (t : Text) (g : FileName) (dir : Dir)
    → is_since first g ≡ false
    → Stored first t dir
    → Stored first t (remove g dir)
Stored-remove first t g dir not_since =
    Stored-step first t dir (remove g dir) (λ f c since there holds.
      elim (Bool-cases (name_eq g f)) [
        | inl same ↦
            let e : g ≡ f = name_eq→≡ g f same in
            let since_g : is_since first g ≡ true = rw e since in cc
        | inr other ↦ record {
          file = f;
          content = c;
          since = since;
          there = rw (get-remove, other) there;
          holds = holds;
        }
      ])

pub Stored-put_aside :
    (first : ℕ) (t : Text) (g : FileName) (c : Content) (dir : Dir)
    → is_since first g ≡ false
    → Stored first t dir
    → Stored first t (put g c dir)
Stored-put_aside first t g c dir not_since =
    Stored-step first t dir (put g c dir) (λ f c' since there holds.
      elim (Bool-cases (name_eq g f)) [
        | inl same ↦
            let e : g ≡ f = name_eq→≡ g f same in
            let since_g : is_since first g ≡ true = rw e since in cc
        | inr other ↦ record {
          file = f;
          content = c';
          since = since;
          there = rw (get-put, other) there;
          holds = holds;
        }
      ])

-- A file that has a copy in an archive may go.
pub Stored-remove_copied :
    (first : ℕ) (t : Text) (g copy : FileName) (c : Content) (dir : Dir)
    → get g dir ≡ some c
    → get copy dir ≡ some (gzipped c)
    → name_eq g copy ≡ false
    → is_since first copy ≡ true
    → Stored first t dir
    → Stored first t (remove g dir)
unfolding Holds
Stored-remove_copied first t g copy c dir here copied apart since_copy =
    Stored-step first t dir (remove g dir) (λ f c' since there holds.
      elim (Bool-cases (name_eq g f)) [
        | inl same ↦
            let e : g ≡ f = name_eq→≡ g f same in
            let c_is : c' ≡ c = let there' : get g dir ≡ some c' = rw e there in cc in
            record {
              file = copy;
              content = gzipped c;
              since = since_copy;
              there = rw (get-remove, apart) copied;
              holds = rw⁻¹ c_is holds;
            }
        | inr other ↦ record {
          file = f;
          content = c';
          since = since;
          there = rw (get-remove, other) there;
          holds = holds;
        }
      ])

-- Lines that are added to the base keep the others.
pub Stored-extended :
    (first : ℕ) (t : Text) (new : List Text) (dir : Dir)
    → Stored first t dir
    → Stored first t (put base (extended (get base dir) new) dir)
unfolding Holds
Stored-extended first t new dir s =
    Stored-put first t base (extended (get base dir) new) dir (Holds-extended t new (get base dir))
      s
  where
    Holds-extended :
        (t : Text) (new : List Text) (at_base : Option Content) (c : Content)
        → at_base ≡ some c
        → Holds t c
        → Holds t (extended at_base new)
    Holds-extended t new none c e h = cc
    Holds-extended t new (some (lines ls)) c e h =
        Has-append_left t ls new (let same : c ≡ lines ls = cc in rw same at h)
    Holds-extended t new (some (gzipped c0)) c e h = let same : c ≡ gzipped c0 = cc in rw same at h
    Holds-extended t new (some truncated) c e h = let same : c ≡ truncated = cc in rw same at h
