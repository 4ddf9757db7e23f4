-- ===== src/Wxverify/AccessHold/History.antt =====
-- The holds of access_hold.py as a history of answers describes them.
use home_assistant_apps.Prelude.{
  ℕ, ◌+◌, ◌≡◌, refl, ap, ◌∙◌, List, [], ◌∷◌, Bool, true, false, Option, none, some, Text, Dict,
  lookup, ltb, if◌then◌else◌, Bool-cases, inl, inr, arith,
}
use home_assistant_apps.Wxverify.AccessHold.{
  AccessKind, access_kinds, access_hold_key, AccessRecord, Formats, Verdict, refused, granted,
  hold_time, listed_time, whole_second, since_of, row_record, read_access_record, held_until,
  access_held, with_listed, refused_among, refused_kinds, record_access_refused, after_verdict,
  after_verdicts,
}
use home_assistant_apps.Wxverify.AccessHold.Rows.{
  kind_eq, IsCodec, refused_record, read-refused, read-cleared,
}

-- The refusals of a kind since it was last granted, the latest first: the status and the clock.
unfoldable pub refusals : AccessKind → List Verdict → List (ℕ × ℕ)
refusals k [] = []
refusals k (refused kind status clock ∷ older) =
    let rest = refusals k older in if kind_eq kind k then (status, clock) ∷ rest else rest
refusals k (granted kind ∷ older) =
    let rest = refusals k older in if kind_eq kind k then [] else rest

-- The clock of the first refusal.
unfoldable pub first_clock : ℕ → List (ℕ × ℕ) → ℕ
first_clock clock [] = clock
first_clock clock ((status, earlier) ∷ older) = first_clock earlier older

module _ (formats : Formats) (codec : IsCodec formats) where
  -- The record of a run of refusals.
  unfoldable pub described : AccessKind → List (ℕ × ℕ) → Option AccessRecord
  unfolding first_clock
  described k [] = none
  described k ((status, clock) ∷ older) =
      let first = whole_second (first_clock clock older) in
      some (
        refused_record formats codec k (formats.isoformat_utc first) first status
          (whole_second clock))

  since-described :
      (k : AccessKind) (clock : ℕ) (older : List (ℕ × ℕ))
      → since_of formats (whole_second clock) (described k older)
        ≡ formats.isoformat_utc (whole_second (first_clock clock older))
  unfolding described first_clock
  since-described k clock [] = refl
  since-described k clock ((status, earlier) ∷ older) = refl

  kind_eq→≡ : (a b : AccessKind) → kind_eq a b ≡ true → a ≡ b
  kind_eq→≡ a b h = ground (arith, h)

  read-refused_after :
      (older : List Verdict) (rows : Dict Text) (kind k : AccessKind) (status clock : ℕ)
      → ((j : AccessKind) → read_access_record formats rows j ≡ described j (refusals j older))
      → read_access_record formats (record_access_refused formats rows kind status clock).1 k
        ≡ described k (refusals k (refused kind status clock ∷ older))
  unfolding described refusals
  read-refused_after older rows kind k status clock before =
      let ks = refusals kind older in
      let since =
        ap (since_of formats (whole_second clock)) (before kind) ∙ since-described kind clock ks in
      let here =
        read-refused formats codec rows kind k status clock (whole_second (first_clock clock ks))
          (ap formats.parse_utc since ∙ codec.reads _) in
      elim (Bool-cases (kind_eq kind k)) [
        | inl same ↦ let e : kind ≡ k = kind_eq→≡ kind k same in here ∙ rw (same, since, e) refl
        | inr other ↦ here ∙ rw other (before k)
      ]

  pub read-after_verdicts :
      (replies : List Verdict) (rows : Dict Text) (k : AccessKind)
      → ((kind : AccessKind) → lookup (access_hold_key kind) rows ≡ none)
      → read_access_record formats (after_verdicts formats replies rows) k
        ≡ described k (refusals k replies)
  unfolding after_verdicts after_verdict described refusals read_access_record
  read-after_verdicts [] rows k free = ap (row_record formats k) (free k)
  read-after_verdicts (refused kind status clock ∷ older) rows k free =
      read-refused_after older (after_verdicts formats older rows) kind k status clock
        (λ j. read-after_verdicts older rows j free)
  read-after_verdicts (granted kind ∷ older) rows k free =
      read-cleared formats codec (after_verdicts formats older rows) kind k
      ∙ if_rule_cleared (kind_eq kind k) (read-after_verdicts older rows k free)
    where
      if_rule_cleared :
          (b : Bool)
          → read_access_record formats (after_verdicts formats older rows) k
            ≡ described k (refusals k older)
          → (if b then none else read_access_record formats (after_verdicts formats older rows) k)
            ≡ described k (if b then [] else refusals k older)
      if_rule_cleared true e = refl
      if_rule_cleared false e = e

  -- When the hold of a run ends.
  abbrev pub end_of : List (ℕ × ℕ) → Option ℕ
  end_of [] = none
  end_of ((status, clock) ∷ older) = some (whole_second clock + hold_time)

  abbrev pub text_before : ℕ → Option ℕ → Option Text
  text_before now none = none
  text_before now (some end) = if ltb now end then some (formats.isoformat_utc end) else none

  -- The record of a run whose latest refusal is less than 25 hours old.
  abbrev pub add_run : ℕ → AccessKind → List (ℕ × ℕ) → List AccessRecord → List AccessRecord
  add_run now k [] rest = rest
  add_run now k ((status, clock) ∷ older) rest =
      let first = whole_second (first_clock clock older) in
      if ltb now (whole_second clock + hold_time + listed_time)
      then refused_record formats codec k (formats.isoformat_utc first) first status
          (whole_second clock)
        ∷ rest
      else rest

  unfoldable pub listed : ℕ → List Verdict → List AccessKind → List AccessRecord
  unfolding refusals
  listed now replies [] = []
  listed now replies (k ∷ kinds) = add_run now k (refusals k replies) (listed now replies kinds)

  held-described :
      (now : ℕ) (k : AccessKind) (ks : List (ℕ × ℕ))
      → held_until formats now (described k ks) ≡ text_before now (end_of ks)
  unfolding described
  held-described now k [] = refl
  held-described now k ((status, clock) ∷ older) = refl

  refused_among-listed :
      (replies : List Verdict) (rows : Dict Text) (now : ℕ) (kinds : List AccessKind)
      → ((k : AccessKind) → read_access_record formats rows k ≡ described k (refusals k replies))
      → refused_among formats rows now kinds ≡ listed now replies kinds
  unfolding refused_among listed described
  refused_among-listed replies rows now [] e = refl
  refused_among-listed replies rows now (k ∷ kinds) e = rw e (
      with_run (refusals k replies) _
      ∙ ap (add_run now k (refusals k replies)) (refused_among-listed replies rows now kinds e))
    where
      with_run :
          (ks : List (ℕ × ℕ)) (rest : List AccessRecord)
          → with_listed formats now (described k ks) rest ≡ add_run now k ks rest
      with_run [] rest = refl
      with_run ((status, clock) ∷ older) rest = refl

  -- From a table without rows of the kinds, where stamps and JSON are read as they were written, and
  -- after any replies: a kind is held exactly if some refusal is behind its latest grant and less than
  -- 3600 seconds have passed since the whole second of the latest refusal, and the text is of that end;
  -- its row is there exactly if some refusal is behind its latest grant, and has the whole second of the
  -- first such refusal and the status of the latest; and the refused kinds are, in order, those with such
  -- a row whose latest refusal's whole second is less than 25 hours old.
  pub access_held-History :
      (replies : List Verdict) (rows : Dict Text) (k : AccessKind) (now : ℕ)
      → ((kind : AccessKind) → lookup (access_hold_key kind) rows ≡ none)
      → (access_held formats (after_verdicts formats replies rows) k now
          ≡ text_before now (end_of (refusals k replies)))
        × (read_access_record formats (after_verdicts formats replies rows) k
            ≡ described k (refusals k replies))
        × (refused_kinds formats (after_verdicts formats replies rows) now
            ≡ listed now replies access_kinds)
  unfolding access_held
  access_held-History replies rows k now free =
      let e = read-after_verdicts replies rows k free in
      (
        ap (held_until formats now) e ∙ held-described now k (refusals k replies),
        e,
        refused_among-listed replies _ now access_kinds
            (λ j. read-after_verdicts replies rows j free),
      )
