-- ===== src/Weather/Scheduler/Rests.antt =====
-- The four rests of py-weather/pyweather/scheduler.py, in the words of its table.
use home_assistant_apps.Prelude.{
  ℕ, ◌-◌, ◌≤◌, ◌≡◌, refl, sym, ap, ◌∙◌, ◌⊎◌, List, [], ◌∷◌, ◌++◌, length, length-append, get_last?,
  true, false, Option, none, some, Text, text_eq→≡, if_rule, arith,
}
use home_assistant_apps.Weather.Cadence.{
  Estimator, window_length, offline_reprobe, max_interval, base_interval,
}
use home_assistant_apps.Weather.Cadence.Bounds.{interval_of-Within}
use home_assistant_apps.Weather.Health.{EntityState, offline, status_of}
use home_assistant_apps.Weather.Health.Representative.{last_representative}
use home_assistant_apps.Weather.Scheduler.{
  Config, answered, terminal, transient, Answers, StationState, Poll, is_seen, learn, after_read,
  poll,
}
use home_assistant_apps.Weather.Scheduler.Rules.{
  Reads, IsParsed, All-IsReadable, Overflows, online_rule, poll_rule, read_rule,
}
use home_assistant_apps.Weather.Scheduler.Window.{
  IsWindow, learn-IsWindow, get_last-append, get_last-drop,
}

module _ (strip_lower : Text → Text) (estimator : Estimator) (config : Config) where
  -- The row of the table that a poll follows, or the error of a stamp.
  pub data Rest (a : Answers) (s : StationState) : Option Poll → Type 0 where
    held :
        {p : Poll}
        → (a.update_entity ≡ terminal)
          ⊎ (Reads strip_lower estimator config a × a.get_states ≡ terminal)
        → p.delay ≡ config.max_backoff_seconds
        → p.state ≡ s
        → p.is_saved ≡ false
        → Rest a s (some p)
    retried :
        {p : Poll}
        → (a.update_entity ≡ transient)
          ⊎ ((a.update_entity ≡ answered tt × a.is_stopped ≡ true)
              ⊎ (Reads strip_lower estimator config a × a.get_states ≡ transient))
        → p.delay ≡ config.min_interval_seconds
        → p.state ≡ s
        → p.is_saved ≡ false
        → Rest a s (some p)
    is_offline :
        {p : Poll} (states : List EntityState)
        → Reads strip_lower estimator config a × a.get_states ≡ answered states
        → status_of strip_lower estimator (last_representative s.key none states) ≡ some offline
        → p.delay ≡ offline_reprobe
        → p.state ≡ s
        → p.is_saved ≡ true
        → Rest a s (some p)
    is_online :
        {p : Poll} (states : List EntityState) (e : EntityState) (base : ℕ)
        → Reads strip_lower estimator config a × a.get_states ≡ answered states
        → last_representative s.key none states ≡ some e
        → IsParsed strip_lower estimator e.state
        → get_last? p.state.events ≡ some e.state
        → base_interval estimator p.state.events config.min_interval_seconds ≡ some base
        → config.min_interval_seconds ≤ base
        → base ≤ max_interval
        → p.delay ≡ a.jitter base
        → p.is_saved ≡ true
        → Rest a s (some p)
    raises :
        (states : List EntityState)
        → Reads strip_lower estimator config a × a.get_states ≡ answered states
        → Overflows strip_lower estimator (last_representative s.key none states)
        → Rest a s none

  seen_text : (o : Option Text) (t : Text) → is_seen o t ≡ true → o ≡ some t
  seen_text none t h = grind arith
  seen_text (some u) t h = ap some (sym (text_eq→≡ t u h))

  learn-last :
      (t : Text) (s : StationState)
      → IsWindow strip_lower estimator s
      → get_last? (learn (some t) s).events ≡ some t
  unfolding learn
  learn-last t s w =
      let es = s.events ++ t ∷ [] in
      if_rule (λ (x : StationState). get_last? x.events ≡ some t) (is_seen s.last_obstime t) _ _
        (λ h. sym w.last_seen ∙ seen_text s.last_obstime t h)
        (λ h.
          get_last-drop (length es - window_length) es
            (omega (arith, length-append s.events (t ∷ [])))
          ∙ get_last-append s.events t)

  -- From a window of at most six parseable stamps that ends with the last seen one, every poll follows
  -- the table of the four rests, or raises: a terminal fault holds at the most backoff, and a transient
  -- one or a stop retries at the floor, both leaving the window; a snapshot without a usable stamp of
  -- the station that parses probes again after a day, leaving the window; with one, the stamp is at the
  -- window's end and the rest is the jittered interval of the window, between the floor and 1800 seconds
  -- before the jitter; and a poll raises only where the snapshot's stamp is usable and its time in UTC
  -- leaves datetime's range. The floor is at most 1800, as the options require.
  pub poll-Rest :
      (a : Answers) (s : StationState)
      → config.min_interval_seconds ≤ max_interval
      → IsWindow strip_lower estimator s
      → Rest a s (poll strip_lower estimator config a s)
  unfolding after_read
  poll-Rest a s le w =
      poll_rule strip_lower estimator config (Rest a s) a s (λ fault. held fault refl refl refl)
        (λ fault. retried fault refl refl refl)
        (λ states f.
          read_rule strip_lower estimator config (Rest a s) a s states (λ o. raises states f o)
            (λ off. is_offline states f off refl refl refl)
            (λ e there parsed.
              let next = learn-IsWindow strip_lower estimator e.state s parsed w in
              online_rule strip_lower estimator config (Rest a s) a s e.state
                (All-IsReadable strip_lower estimator (learn (some e.state) s).events next.parses)
                (λ base stale gaps based interval.
                  let within = interval_of-Within estimator gaps config.min_interval_seconds le in
                  is_online states e base f there parsed (learn-last e.state s w) based
                    (omega (arith, within, interval)) (omega (arith, within, interval)) refl refl)))
