-- ===== src/Weather/Loop/Fair.antt =====
-- A station that is due gets its turn in `run_loop` of py-weather/pyweather/scheduler.py.
use home_assistant_apps.Prelude.{
  ℕ, zero, suc, ◌≡◌, refl, ◌≤◌, ◌<◌, ◌+◌, ◌*◌, List, length, [], ◌∷◌, All, Option, none, true,
  false, some, Text, text_eq, Dict, lookup, lookup-insert, member, Bool-cases, inl, inr, arith,
}
use home_assistant_apps.Weather.Cadence.{Estimator, max_interval}
use home_assistant_apps.Weather.Cadence.Bounds.{interval_of-Within}
use home_assistant_apps.Weather.Scheduler.{
  Config, answered, StationState, Poll, poll, poll_station, after_read,
}
use home_assistant_apps.Weather.Scheduler.Rules.{
  IsReadable, IsParsed-IsReadable, learn-IsReadable, Overflows, poll_rule, read_rule, online_rule,
}
use home_assistant_apps.Weather.Health.{EntityState}
use home_assistant_apps.Weather.Health.Representative.{last_representative}
use home_assistant_apps.Weather.Loop.{Timing, Turn, Loop, earliest, rescheduled, run}
use home_assistant_apps.Weather.Loop.Table.{
  earliest-lookup, earliest-least, earliest-some, due_count, due_count-insert, due_count-positive,
}
use home_assistant_apps.Weather.Loop.Invariant.{
  AllInRange, IsLoop, is_some-some, polled, poll_station_rule, left_by, poll_station-keeps,
  run-IsLoop, start-IsLoop,
}

-- A turn that no stop ends and after which the clock is at the time or behind it. The jitter leaves
-- the interval positive, and in the snapshot no station's stamp has a time that leaves datetime's range.
pub record GoesOn (strip_lower : Text → Text) (estimator : Estimator) (t : ℕ) (turn : Turn)
    : Type 0 where
  pub sleeps : (wait : ℕ) → turn.sleeper wait ≡ false
  pub in_time : t ≤ turn.after
  pub spread : (n : ℕ) → 0 < n → 0 < turn.answers.jitter n
  pub in_range :
      (key : Text) (states : List EntityState)
      → turn.answers.get_states ≡ answered states
      → ¬ Overflows strip_lower estimator (last_representative key none states)

unfoldable pub AllGoOn : (Text → Text) → Estimator → ℕ → List Turn → Type 0
AllGoOn strip_lower estimator t [] = Unit
AllGoOn strip_lower estimator t (turn ∷ turns) =
    GoesOn strip_lower estimator t turn × AllGoOn strip_lower estimator t turns

mul-positive : (a b : ℕ) → 0 < a → 0 < b → 0 < a * b
mul-positive zero b h k = omega (arith, h)
mul-positive (suc a) b h k = omega (arith, k)

module _ (strip_lower : Text → Text) (estimator : Estimator) (config : Config) (timing : Timing)
    (backoff : 0 < config.max_backoff_seconds) (floor : 0 < config.min_interval_seconds)
    (floor_le : config.min_interval_seconds ≤ max_interval) (ticks : 0 < timing.second) where
  -- A poll that returns a positive rest.
  abbrev Rested : Option Poll → Type 0
  Rested o = (p : Poll) × (o ≡ some p × 0 < p.delay)

  poll-Rested :
      (t : ℕ) (turn : Turn) (s : StationState)
      → GoesOn strip_lower estimator t turn
      → All (IsReadable strip_lower estimator) s.events
      → Rested (poll strip_lower estimator config turn.answers s)
  unfolding after_read
  poll-Rested t turn s g h =
      let a = turn.answers in
      poll_rule strip_lower estimator config Rested a s (λ _. (_, (refl, backoff)))
        (λ _. (_, (refl, floor)))
        (λ states f.
          read_rule strip_lower estimator config Rested a s states
            (λ o. absurd (g.in_range s.key states f.1 o)) (λ _. (_, (refl, omega arith)))
            (λ e there parsed.
              online_rule strip_lower estimator config Rested a s e.state
                (learn-IsReadable strip_lower estimator e.state s
                  (IsParsed-IsReadable strip_lower estimator e.state parsed) h)
                (λ base stale gaps based interval.
                  let within =
                    interval_of-Within estimator gaps config.min_interval_seconds floor_le in
                  (_, (refl, g.spread base (omega (arith, within, interval, floor)))))))

  -- A turn over a loop that has a station.
  pub record Polled (turn : Turn) (l : Loop) (key : Text) (due : ℕ) (done : ℕ × Dict StationState)
      : Type 0 where
    pub found : earliest l.next_poll ≡ some (key, due)
    pub polled : poll_station strip_lower estimator config turn.answers key l.states ≡ some done
    pub later : 0 < done.0
    pub keeps :
        IsLoop strip_lower estimator
          (rescheduled strip_lower estimator config timing turn key done l.next_poll)

  polls-Polled :
      (t : ℕ) (turn : Turn) (l : Loop) (k : Text) (u : ℕ)
      → IsLoop strip_lower estimator l
      → GoesOn strip_lower estimator t turn
      → lookup k l.next_poll ≡ some u
      → (key : Text) × (due : ℕ) × (done : ℕ × Dict StationState) × Polled turn l key due done
  polls-Polled t turn l k u i g here =
      let ((key, due), found) = earliest-some l.next_poll k u here in
      let known = earliest-lookup l.next_poll key due i.unique found in
      let (s, state) = is_some-some (lookup key l.states) (i.covered key (rw known refl)) in
      let (p, (returns, positive)) = poll-Rested t turn s g (i.in_range key s state) in
      let done = polled strip_lower estimator config key l.states p in
      let polls =
        poll_station_rule strip_lower estimator config turn.answers key l.states s p state
          returns in
      (
        key,
        due,
        done,
        record {
          found = found;
          polled = polls;
          later = positive;
          keeps =
              poll_station-keeps strip_lower estimator config timing turn key due done l i known
                polls;
        },
      )

  run-polls_due :
      (t : ℕ) (turns : List Turn) (l : Loop) (k : Text) (u : ℕ)
      → IsLoop strip_lower estimator l
      → AllGoOn strip_lower estimator t turns
      → lookup k l.next_poll ≡ some u
      → u ≤ t
      → due_count t l.next_poll ≤ length turns
      → member k (run strip_lower estimator config timing turns l).0 ≡ true
  unfolding AllGoOn run member
  run-polls_due t [] l k u i g here due enough =
      absurd (omega (arith, enough, due_count-positive t u k l.next_poll here due))
  run-polls_due t (turn ∷ turns) l k u i (g, gs) here due enough =
      let (key, at, done, p) = polls-Polled t turn l k u i g here in
      let known = earliest-lookup l.next_poll key at i.unique p.found in
      let least = earliest-least l.next_poll key k at u p.found here in
      let fewer =
        due_count-insert t at (turn.after + done.0 * timing.second) key l.next_poll known
          (omega (arith, least, due))
          (omega (arith, mul-positive done.0 timing.second p.later ticks, g.in_time)) in
      rw (p.found, g.sleeps, p.polled, run, member)
        (elim (Bool-cases (text_eq key k)) [
          | inl same ↦ rw same refl
          | inr other ↦ rw (other) (
              run-polls_due t turns _ k u p.keeps gs (rw (lookup-insert, other) here) due
                (omega (arith, fewer, enough)))
        ])

  -- From the start of the scheduler, and after any turns, a station whose next poll is due by a time is
  -- polled within as many more turns as there are stations due by then, if no stop ends those turns, the
  -- clock behind each of them has reached that time, and neither a persisted window nor the snapshot of
  -- one of those turns holds a stamp whose time in UTC leaves datetime's range, where a poll raises. A
  -- second has some ticks, the two rests of faults are positive, the floor is at most 1800 and a
  -- jittered interval is positive.
  pub run-Fair :
      (keys : List Text) (persisted : Dict (List Text)) (now : ℕ) (before turns : List Turn) (t : ℕ)
      (k : Text) (u : ℕ)
      → AllInRange strip_lower estimator config timing persisted
      → AllGoOn strip_lower estimator t turns
      → lookup k (left_by strip_lower estimator config timing keys persisted now before).next_poll
        ≡ some u
      → u ≤ t
      → due_count t
          (left_by strip_lower estimator config timing keys persisted now before).next_poll
        ≤ length turns
      → member k
          (run strip_lower estimator config timing turns
            (left_by strip_lower estimator config timing keys persisted now before)).0
        ≡ true
  run-Fair keys persisted now before turns t k u safe go_on here due enough =
      run-polls_due t turns _ k u
        (run-IsLoop strip_lower estimator config timing before _
          (start-IsLoop strip_lower estimator config timing keys persisted now safe))
        go_on here due enough
