-- ===== src/Syslog/Storage/Files.antt =====
-- The log directory of py-syslog/pysyslog/writer.py: its file names, as the regular expressions of
-- that file tell them apart for one base name, and what the files hold. A day is its ordinal. A name that matches one of
-- the patterns with digits that are no date (such as month 13), on which `date.fromisoformat` raises,
-- is left out.
pub mod Laws
use home_assistant_apps.Prelude.{
  ℕ, Text, List, [], ◌∷◌, Bool, true, false, ◌&&◌, Option, none, some, ◌==◌, if◌then◌else◌,
}

-- The uncompressed source, the partial `.gz.tmp`, and the final `.gz`.
pub data Stage : Type 0 where
  source partial archive : Stage

pub data FileName : Type 0 where
  base : FileName
  daily : Stage → ℕ → FileName
  segment : Stage → ℕ → ℕ → FileName
  foreign : ℕ → FileName

-- What a file holds: lines of text, the gzip of a content, or a gzip file that stops too early.
pub data Content : Type 0 where
  lines : List Text → Content
  gzipped : Content → Content
  truncated : Content

abbrev pub stage_eq : Stage → Stage → Bool
stage_eq source source = true
stage_eq partial partial = true
stage_eq archive archive = true
stage_eq _ _ = false

unfoldable pub name_eq : FileName → FileName → Bool
name_eq base base = true
name_eq (daily s d) (daily t e) = stage_eq s t && d == e
name_eq (segment s d n) (segment t e m) = stage_eq s t && (d == e && n == m)
name_eq (foreign n) (foreign m) = n == m
name_eq _ _ = false

abbrev pub Dir : Type 0
Dir = List (FileName × Content)

unfoldable pub get : FileName → Dir → Option Content
get f [] = none
get f ((g, c) ∷ dir) = if name_eq g f then some c else get f dir

-- `unlink`.
unfoldable pub remove : FileName → Dir → Dir
remove f [] = []
remove f ((g, c) ∷ dir) = let rest = remove f dir in if name_eq g f then rest else (g, c) ∷ rest

-- Writing a file, `os.replace` onto a file.
unfoldable pub put : FileName → Content → Dir → Dir
put f c dir = (f, c) ∷ remove f dir

abbrev pub has_content : Option Content → Bool
has_content none = false
has_content (some c) = true

-- `path.exists()`.
abbrev pub exists : FileName → Dir → Bool
exists f dir = has_content (get f dir)
