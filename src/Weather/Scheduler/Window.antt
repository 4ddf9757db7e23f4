-- ===== src/Weather/Scheduler/Window.antt =====
-- The windows that the polls of py-weather/pyweather/scheduler.py leave.
use home_assistant_apps.Prelude.{
  ℕ, zero, suc, ◌-◌, ◌≤◌, ◌<◌, ◌≡◌, refl, sym, subst, ◌∙◌, inl, inr, List, [], ◌∷◌, ◌++◌, length,
  length-append, drop, get_last?, All, All-append, false, Option, none, some, Text, text_eq,
  if_rule, Option-cases, arith,
}
use home_assistant_apps.Weather.Cadence.{Estimator, window_length}
use home_assistant_apps.Weather.Scheduler.{
  Config, Answers, StationState, Poll, is_seen, learn, after_read, poll,
}
use home_assistant_apps.Weather.Scheduler.Rules.{
  All-drop, IsParsed, All-IsReadable, poll_rule, read_rule, online_rule, OfPoll,
}

-- No event is the one before it.
unfoldable pub NoRepeat : List Text → Type 0
NoRepeat [] = Unit
NoRepeat (e ∷ []) = Unit
NoRepeat (e ∷ f ∷ es) = text_eq f e ≡ false × NoRepeat (f ∷ es)

NoRepeat-append :
    (es : List Text) (t : Text)
    → NoRepeat es
    → is_seen (get_last? es) t ≡ false
    → NoRepeat (es ++ t ∷ [])
unfolding NoRepeat
NoRepeat-append [] t n new = tt
NoRepeat-append (e ∷ []) t n new = (new, tt)
NoRepeat-append (e ∷ f ∷ es) t n new = (n.0, NoRepeat-append (f ∷ es) t n.1 new)

NoRepeat-drop : (k : ℕ) (es : List Text) → NoRepeat es → NoRepeat (drop k es)
unfolding NoRepeat
NoRepeat-drop zero es n = n
NoRepeat-drop (suc k) [] n = tt
NoRepeat-drop (suc k) (e ∷ []) n = NoRepeat-drop k [] tt
NoRepeat-drop (suc k) (e ∷ f ∷ es) n = NoRepeat-drop k (f ∷ es) n.1

length-drop : (k : ℕ) (es : List Text) → length (drop k es) ≡ length es - k
length-drop zero es = omega arith
length-drop (suc k) [] = omega arith
length-drop (suc k) (e ∷ es) = length-drop k es ∙ omega arith

pub get_last-append : (es : List Text) (t : Text) → get_last? (es ++ t ∷ []) ≡ some t
get_last-append [] t = refl
get_last-append (e ∷ []) t = refl
get_last-append (e ∷ f ∷ es) t = get_last-append (f ∷ es) t

pub get_last-drop : (k : ℕ) (es : List Text) → k < length es → get_last? (drop k es) ≡ get_last? es
get_last-drop zero es lt = refl
get_last-drop (suc k) [] lt = absurd (omega (arith, lt))
get_last-drop (suc k) (e ∷ []) lt = absurd (omega (arith, lt))
get_last-drop (suc k) (e ∷ f ∷ es) lt = get_last-drop k (f ∷ es) (omega (arith, lt))

module _ (strip_lower : Text → Text) (estimator : Estimator) where
  -- At most six events, all parseable, each other than the one before, and the last is the last seen.
  pub record IsWindow (s : StationState) : Type 0 where
    pub short : length s.events ≤ window_length
    pub parses : All (IsParsed strip_lower estimator) s.events
    pub changes : NoRepeat s.events
    pub last_seen : s.last_obstime ≡ get_last? s.events

  pub learn-IsWindow :
      (t : Text) (s : StationState)
      → IsParsed strip_lower estimator t
      → IsWindow s
      → IsWindow (learn (some t) s)
  unfolding learn
  learn-IsWindow t s reads w =
      let es = s.events ++ t ∷ [] in
      let k = length es - window_length in
      if_rule IsWindow (is_seen s.last_obstime t) _ _ (λ _. w)
        (λ new. record {
          short = omega (arith, length-drop k es);
          parses =
              All-drop (IsParsed strip_lower estimator) k es (
                All-append (IsParsed strip_lower estimator) s.events (t ∷ []) w.parses (reads, tt));
          changes =
              NoRepeat-drop k es (NoRepeat-append s.events t w.changes (rw⁻¹ w.last_seen new));
          last_seen = sym (
              get_last-drop k es (omega (arith, length-append s.events (t ∷ [])))
              ∙ get_last-append s.events t);
        })

  module _ (config : Config) where
    abbrev Kept : Option Poll → Type 0
    Kept = OfPoll strip_lower estimator config (λ p. IsWindow p.state)

    poll-IsWindow :
        (a : Answers) (s : StationState) → IsWindow s → Kept (poll strip_lower estimator config a s)
    unfolding after_read
    poll-IsWindow a s w =
        poll_rule strip_lower estimator config Kept a s (λ _. w) (λ _. w)
          (λ states f.
            read_rule strip_lower estimator config Kept a s states (λ _. tt) (λ _. w)
              (λ e there parsed.
                let next = learn-IsWindow e.state s parsed w in
                online_rule strip_lower estimator config Kept a s e.state
                  (All-IsReadable strip_lower estimator (learn (some e.state) s).events next.parses)
                  (λ base stale gaps based interval. next)))

    -- The polls of one station in turn. One that raises leaves the state, and ends the loop.
    unfoldable pub polls : List Answers → StationState → StationState
    polls [] s = s
    polls (a ∷ answers) s = elim (poll strip_lower estimator config a s) [
      | none ↦ s
      | some p ↦ polls answers p.state
    ]

    -- Whatever each poll meets, up to one that raises, the window stays one: at most six stamps, each parseable and other than
    -- the one before it, with the last seen stamp at its end.
    pub polls-IsWindow :
        (answers : List Answers) (s : StationState) → IsWindow s → IsWindow (polls answers s)
    unfolding polls
    polls-IsWindow [] s w = w
    polls-IsWindow (a ∷ answers) s w = elim (Option-cases (poll strip_lower estimator config a s)) [
      | inl raised ↦ rw (raised, polls) w
      | inr (p, e) ↦
          rw (e, polls) (polls-IsWindow answers p.state (subst Kept e (poll-IsWindow a s w)))
    ]
