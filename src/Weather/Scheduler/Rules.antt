-- ===== src/Weather/Scheduler/Rules.antt =====
-- How a poll of py-weather/pyweather/scheduler.py may end.
use home_assistant_apps.Prelude.{
  ℕ, zero, suc, ◌-◌, ◌≡◌, refl, ap, Bool, ◌∙◌, ◌⊎◌, inl, inr, List, [], ◌∷◌, ◌++◌, length, drop,
  get_last?, All, All-append, true, false, Option, none, some, Text, lookup, if_rule, Bool-cases,
  Option-cases, arith,
}
use home_assistant_apps.Weather.Cadence.{
  ObsTime, no_time, time, overflow, Estimator, parse_obstime, is_overflow, push, parsed,
  window_length, base_interval, interval_of, gaps, gaps_of, is_stale, is_older,
}
use home_assistant_apps.Weather.Health.{
  EntityState, HealthStatus, online, offline, obstimeutc, discover, evaluate, status_of, is_usable,
}
use home_assistant_apps.Weather.Health.Representative.{
  last_representative, representative-lookup, evaluate-Representative,
}
use home_assistant_apps.Weather.Scheduler.{
  Config, Answer, answered, terminal, transient, Answers, StationState, Poll, is_seen, learn,
  obstime_of, read_health, rest_unchanged, online_poll, after_read, poll,
}

pub All-drop : (P : Text → Type 0) (k : ℕ) (es : List Text) → All P es → All P (drop k es)
All-drop P zero es h = h
All-drop P (suc k) [] h = tt
All-drop P (suc k) (e ∷ es) h = All-drop P k es h.1

Answer-cases :
    {A : Type 0} (x : Answer A) → ((v : A) × (x ≡ answered v)) ⊎ ((x ≡ terminal) ⊎ (x ≡ transient))
Answer-cases (answered v) = inl (v, refl)
Answer-cases terminal = inr (inl refl)
Answer-cases transient = inr (inr refl)

Status-cases : (h : HealthStatus) → (h ≡ online) ⊎ (h ≡ offline)
Status-cases online = inl refl
Status-cases offline = inr refl

module _ (strip_lower : Text → Text) (estimator : Estimator) where
  abbrev pub IsParsed : Text → Type 0
  IsParsed e = (p : ℕ) × (parse_obstime estimator e ≡ time p)

  -- The last entity of the station's sensor has a stamp whose time leaves the range.
  pub record Overflows (o : Option EntityState) : Type 0 where
    pub entity : EntityState
    pub there : o ≡ some entity
    pub usable : is_usable strip_lower estimator entity.state ≡ true
    pub raises : parse_obstime estimator entity.state ≡ overflow

  -- A station's sensor that tells its health: online, with a stamp that parses, or raising, or offline.
  pub data Told (o : Option EntityState) : Option HealthStatus → Type 0 where
    is_online :
        (e : EntityState)
        → o ≡ some e
        → is_usable strip_lower estimator e.state ≡ true
        → IsParsed e.state
        → Told o (some online)
    is_offline : Told o (some offline)
    raises : Overflows o → Told o none

  usable-Told :
      (e : EntityState) (t : ObsTime)
      → is_usable strip_lower estimator e.state ≡ true
      → parse_obstime estimator e.state ≡ t
      → Told (some e) (status_of strip_lower estimator (some e))
  usable-Told e no_time k h = rw (k, h) is_offline
  usable-Told e (time p) k h = rw (k, h) (is_online e refl k (p, h))
  usable-Told e overflow k h =
      rw (k, h) (raises (record { entity = e; there = refl; usable = k; raises = h }))

  status_of-Told : (o : Option EntityState) → Told o (status_of strip_lower estimator o)
  status_of-Told none = is_offline
  status_of-Told (some e) = elim (Bool-cases (is_usable strip_lower estimator e.state)) [
    | inr k ↦ rw k is_offline
    | inl k ↦ usable-Told e (parse_obstime estimator e.state) k refl
  ]

  -- A stamp that raises nothing.
  abbrev pub IsReadable : Text → Type 0
  IsReadable e = is_overflow (parse_obstime estimator e) ≡ false

  pub IsParsed-IsReadable : (e : Text) → IsParsed e → IsReadable e
  IsParsed-IsReadable e (p, h) = rw h refl

  pub All-IsReadable : (events : List Text) → All IsParsed events → All IsReadable events
  All-IsReadable [] h = tt
  All-IsReadable (e ∷ events) h = (IsParsed-IsReadable e h.0, All-IsReadable events h.1)

  push-some :
      (t : ObsTime) (ps : List ℕ)
      → is_overflow t ≡ false
      → (qs : List ℕ) × (push t (some ps) ≡ some qs)
  push-some no_time ps h = (ps, refl)
  push-some (time p) ps h = (p ∷ ps, refl)
  push-some overflow ps h = absurd (ground (arith, h))

  parsed-IsReadable :
      (events : List Text)
      → All IsReadable events
      → (ps : List ℕ) × (parsed estimator events ≡ some ps)
  unfolding parsed
  parsed-IsReadable [] h = ([], refl)
  parsed-IsReadable (e ∷ events) h =
      let (ps, rest) = parsed-IsReadable events h.1 in
      let (qs, all) = push-some (parse_obstime estimator e) ps h.0 in
      (qs, ap (push (parse_obstime estimator e)) rest ∙ all)

  pub learn-IsReadable :
      (t : Text) (s : StationState)
      → IsReadable t
      → All IsReadable s.events
      → All IsReadable (learn (some t) s).events
  unfolding learn
  learn-IsReadable t s new h =
      let es = s.events ++ t ∷ [] in
      if_rule (λ (x : StationState). All IsReadable x.events) (is_seen s.last_obstime t) _ _
        (λ _. h)
        (λ _.
          All-drop IsReadable (length es - window_length) es
            (All-append IsReadable s.events (t ∷ []) h (new, tt)))

  module _ (config : Config) where
    -- The poll comes to the read of the snapshot.
    abbrev pub Reads : Answers → Type 0
    Reads a = a.update_entity ≡ answered tt × a.is_stopped ≡ false

    -- What follows the answer of a snapshot.
    unfoldable pub after_states : Answers → StationState → List EntityState → Option Poll
    after_states a s states = elim (evaluate strip_lower estimator s.key states) [
      | none ↦ none
      | some status ↦ after_read strip_lower estimator config a s (
        status,
        obstime_of strip_lower estimator config status (lookup obstimeutc (discover states s.key)),
      )
    ]

    -- A property of every end of a poll is one of the poll.
    pub poll_rule :
        (P : Option Poll → Type 0) (a : Answers) (s : StationState)
        → ((a.update_entity ≡ terminal) ⊎ (Reads a × a.get_states ≡ terminal)
            → P (some (rest_unchanged strip_lower estimator config config.max_backoff_seconds s)))
        → ((a.update_entity ≡ transient)
              ⊎ ((a.update_entity ≡ answered tt × a.is_stopped ≡ true)
                  ⊎ (Reads a × a.get_states ≡ transient))
            → P (some (rest_unchanged strip_lower estimator config config.min_interval_seconds s)))
        → ((states : List EntityState)
            → Reads a × a.get_states ≡ answered states
            → P (after_states a s states))
        → P (poll strip_lower estimator config a s)
    unfolding poll read_health after_states
    poll_rule P a s held retried read = elim (Answer-cases a.update_entity) [
      | inr (inl e) ↦ rw (e, poll) (held (inl e))
      | inr (inr e) ↦ rw (e, poll) (retried (inl e))
      | inl (v, e) ↦ elim (Bool-cases a.is_stopped) [
        | inl stop ↦ rw (e, poll, read_health, stop) (retried (inr (inl (e, stop))))
        | inr go_on ↦ elim (Answer-cases a.get_states) [
          | inr (inl f) ↦ rw (e, poll, read_health, go_on, f) (held (inr ((e, go_on), f)))
          | inr (inr f) ↦ rw (e, poll, read_health, go_on, f) (retried (inr (inr ((e, go_on), f))))
          | inl (states, f) ↦
              let r = read states ((e, go_on), f) in
              elim (Option-cases (evaluate strip_lower estimator s.key states)) [
                | inl raised ↦
                    rw (e, poll, read_health, go_on, f, raised) (rw (raised, after_states) at r)
                | inr (status, told) ↦
                    rw (e, poll, read_health, go_on, f, told) (rw (told, after_states) at r)
              ]
        ]
      ]
    ]

    -- What a snapshot's stamp leads to.
    pub read_rule :
        (P : Option Poll → Type 0) (a : Answers) (s : StationState) (states : List EntityState)
        → (Overflows (last_representative s.key none states) → P none)
        → (status_of strip_lower estimator (last_representative s.key none states) ≡ some offline
            → P (after_read strip_lower estimator config a s (offline, none)))
        → ((e : EntityState)
            → last_representative s.key none states ≡ some e
            → IsParsed e.state
            → P (after_read strip_lower estimator config a s (online, some e.state)))
        → P (after_states a s states)
    unfolding after_states
    read_rule P a s states raised off on =
        go (evaluate strip_lower estimator s.key states)
          (status_of strip_lower estimator (last_representative s.key none states)) refl
          (evaluate-Representative strip_lower estimator s.key states)
          (status_of-Told (last_representative s.key none states)) refl
      where
        go :
            (v w : Option HealthStatus)
            → evaluate strip_lower estimator s.key states ≡ v
            → v ≡ w
            → Told (last_representative s.key none states) w
            → status_of strip_lower estimator (last_representative s.key none states) ≡ w
            → P (after_states a s states)
        go v w e same (raises o) k = rw (e ∙ same, after_states) (raised o)
        go v w e same is_offline k = rw (e ∙ same, after_states) (off k)
        go v w e same (is_online x there usable p) k =
            rw (e ∙ same, after_states, representative-lookup s.key states ∙ there) (on x there p)

    -- What an online poll leaves where no stamp of its window raises.
    pub online_rule :
        (P : Option Poll → Type 0) (a : Answers) (s : StationState) (t : Text)
        → All IsReadable (learn (some t) s).events
        → ((base : ℕ) (stale : Bool) (gaps : List (ℕ × ℕ))
            → base_interval estimator (learn (some t) s).events config.min_interval_seconds
              ≡ some base
            → base ≡ interval_of estimator config.min_interval_seconds gaps
            → P (
                some (
                  online_poll strip_lower estimator config
                    (learn (some t) s)
                    (a.jitter base)
                    stale)))
        → P (after_read strip_lower estimator config a s (online, some t))
    unfolding after_read base_interval gaps is_stale
    online_rule P a s t all done =
        let (ps, e) = parsed-IsReadable (learn (some t) s).events all in
        let interval = interval_of estimator config.min_interval_seconds (gaps_of ps) in
        let based : base_interval estimator (learn (some t) s).events config.min_interval_seconds
            ≡ some interval =
          rw (e, base_interval, gaps) refl in
        let stale : is_stale estimator (learn (some t) s).events a.now interval
            ≡ some (is_older estimator a.now interval (get_last? ps)) =
          rw (e, is_stale) refl in
        rw (based, after_read, stale) (done interval _ (gaps_of ps) based refl)

    -- Of a poll that does not raise.
    abbrev pub OfPoll : (Poll → Type 0) → Option Poll → Type 0
    OfPoll P none = Unit
    OfPoll P (some p) = P p

    pub poll-IsReadable :
        (a : Answers) (s : StationState)
        → All IsReadable s.events
        → OfPoll (λ p. All IsReadable p.state.events) (poll strip_lower estimator config a s)
    unfolding after_read
    poll-IsReadable a s h =
        poll_rule (OfPoll (λ p. All IsReadable p.state.events)) a s (λ _. h) (λ _. h)
          (λ states f.
            read_rule (OfPoll (λ p. All IsReadable p.state.events)) a s states (λ _. tt) (λ _. h)
              (λ e there parsed.
                let next = learn-IsReadable e.state s (IsParsed-IsReadable e.state parsed) h in
                online_rule (OfPoll (λ p. All IsReadable p.state.events)) a s e.state next
                  (λ base stale gaps based interval. next)))
