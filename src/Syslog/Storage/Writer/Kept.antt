-- ===== src/Syslog/Storage/Writer/Kept.antt =====
-- What the log directory of writer.py has while lines are kept, and how calls that may raise follow
-- each other.
use home_assistant_apps.Prelude.{
  ℕ, ◌≤◌, ◌≡◌, refl, sym, ◌∙◌, ap, ◌⊎◌, inl, inr, List, [], Text, Bool, true, false, Option, none,
  some, Option-cases, arith,
}
use home_assistant_apps.Syslog.Storage.Files.{
  archive, FileName, base, daily, Content, lines, gzipped, truncated, Dir, get, put, name_eq,
}
use home_assistant_apps.Syslog.Storage.Files.Laws.{get-put}
use home_assistant_apps.Syslog.Storage.Gzip.{GzipRun, gzip_steps}
use home_assistant_apps.Syslog.Storage.Gzip.Crash.{AreApart}
use home_assistant_apps.Syslog.Storage.Writer.{Sink, Outcome, and_then, extended, with_base}
use home_assistant_apps.Syslog.Storage.Writer.Stored.{is_since, Stored, Stored-put, Stored-extended}
use home_assistant_apps.Syslog.Storage.Writer.Archiving.{
  Stored-gzip, gzip_steps_others, gzip_steps_source,
}

-- What a step that raised has left, and what another has left.
unfoldable pub Ends : (Sink → Type 0) → (Sink → Type 0) → Outcome → Type 0
Ends P Q (true, s) = P s
Ends P Q (false, s) = Q s

pub and_then-Ends :
    (P Q R : Sink → Type 0) (o : Outcome) (next : Sink → Outcome)
    → Ends P Q o
    → ((s : Sink) → Q s → Ends P R (next s))
    → Ends P R (and_then o next)
unfolding Ends
and_then-Ends P Q R (true, s) next e k = e
and_then-Ends P Q R (false, s) next e k = k s e

pub Ends-imp :
    (P Q P' Q' : Sink → Type 0) (o : Outcome)
    → ((s : Sink) → P s → P' s)
    → ((s : Sink) → Q s → Q' s)
    → Ends P Q o
    → Ends P' Q' o
unfolding Ends
Ends-imp P Q P' Q' (true, s) f g e = f s e
Ends-imp P Q P' Q' (false, s) f g e = g s e

abbrev pub is_text : Option Content → Bool
is_text none = true
is_text (some (lines ls)) = true
is_text (some (gzipped c)) = false
is_text (some truncated) = false

-- The line is stored, if there is one.
unfoldable pub Held : ℕ → Option Text → Dir → Type 0
Held first none dir = Unit
Held first (some t) dir = Stored first t dir

pub Held-imp :
    (first : ℕ) (t : Option Text) (dir dir' : Dir)
    → ((t : Text) → Stored first t dir → Stored first t dir')
    → Held first t dir
    → Held first t dir'
unfolding Held
Held-imp first none dir dir' k h = h
Held-imp first (some t) dir dir' k h = k t h

-- The line is stored, the base is text, and no day from that one on has a daily archive.
pub record Kept (first day : ℕ) (t : Option Text) (dir : Dir) : Type 0 where
  pub text : is_text (get base dir) ≡ true
  pub days_free : (d : ℕ) → day ≤ d → get (daily archive d) dir ≡ none
  pub stored : Held first t dir

pub Kept-extended :
    (first day : ℕ) (t : Option Text) (new : List Text) (dir : Dir)
    → Kept first day t dir
    → Kept first day t (put base (extended (get base dir) new) dir)
unfolding name_eq
Kept-extended first day t new dir k = record {
  text = rw get-put (still_text (get base dir) k.text);
  days_free = λ d le. rw get-put (k.days_free d le);
  stored = Held-imp first t dir _ (λ t s. Stored-extended first t new dir s) k.stored;
}
  where
    still_text : (o : Option Content) → is_text o ≡ true → is_text (some (extended o new)) ≡ true
    still_text o h = ground arith

-- Any file that opens is text.
pub Kept-with_base :
    (first day : ℕ) (t : Option Text) (dir : Dir)
    → Kept first day t dir
    → Kept first day t (with_base dir)
unfolding name_eq
Kept-with_base first day t dir k = elim (Option-cases (get base dir)) [
  | inr (c, e) ↦ rw (e, with_base) k
  | inl e ↦
      rw (e, with_base)
        (record {
          text = rw get-put refl;
          days_free = λ d le. rw get-put (k.days_free d le);
          stored =
              Held-imp first t dir _
                (λ t s. Stored-put first t base (lines []) dir (λ c there holds. cc) s) k.stored;
        })
]

-- A gzip run of the base keeps the lines, if its archive is new or has the content of the base.
pub Kept-gzip :
    (first day : ℕ) (t : Option Text) (run : GzipRun) (tmp final : FileName) (c : Content)
    (dir : Dir)
    → AreApart base tmp final
    → is_since first tmp ≡ false
    → is_since first final ≡ true
    → ((d : ℕ) → day ≤ d → name_eq tmp (daily archive d) ≡ false)
    → ((d : ℕ) → day ≤ d → name_eq final (daily archive d) ≡ false)
    → get base dir ≡ some c
    → (get final dir ≡ none) ⊎ (get final dir ≡ some (gzipped c))
    → Kept first day t dir
    → Kept first day t (gzip_steps run base tmp final c dir)
unfolding name_eq
Kept-gzip first day t run tmp final c dir apart aside since tmp_d final_d here new k = record {
  text = elim (gzip_steps_source first base tmp final c dir apart aside since here new run) [
    | inl gone ↦ rw gone refl
    | inr (same, n) ↦ ap is_text (same ∙ sym here) ∙ k.text
  ];
  days_free = λ d le.
      gzip_steps_others first base tmp final c dir apart aside since here new run (daily archive d)
        refl (tmp_d d le) (final_d d le)
      ∙ k.days_free d le;
  stored =
      Held-imp first t dir _
        (λ t s. Stored-gzip first base tmp final c dir apart aside since here new t run s) k.stored;
}

-- The archive of a day is new, its base is gone, or it has the content of the base.
unfoldable pub IsNew : ℕ → Dir → Type 0
IsNew day dir =
    (get (daily archive day) dir ≡ none)
    ⊎ ((get base dir ≡ none)
        ⊎ ((c : Content) × (get base dir ≡ some c)
            × (get (daily archive day) dir ≡ some (gzipped c))))

pub Kept-later :
    (first a b : ℕ) (t : Option Text) (dir : Dir) → a ≤ b → Kept first a t dir → Kept first b t dir
Kept-later first a b t dir le k = record {
  text = k.text;
  days_free = λ d le'. k.days_free d (omega (arith, le, le'));
  stored = k.stored;
}
