-- ===== src/Weather/Loop/Invariant.antt =====
-- What run_loop of py-weather/pyweather/scheduler.py keeps of its stations.
use home_assistant_apps.Prelude.{
  ℕ, ◌≡◌, refl, sym, subst, All, ◌∙◌, ◌+◌, ◌-◌, List, [], ◌∷◌, Bool, true, false, Option, none,
  some, Text, text_eq, Dict, lookup, insert, lookup-insert, if◌then◌else◌, Bool-cases, Option-cases,
  inl, inr, arith,
}
use home_assistant_apps.Weather.Cadence.{Estimator}
use home_assistant_apps.Weather.Scheduler.{
  Config, Answers, StationState, Poll, seeded, poll, poll_station,
}
use home_assistant_apps.Weather.Scheduler.Rules.{IsReadable, OfPoll, poll-IsReadable}
use home_assistant_apps.Weather.Loop.{
  Timing, Turn, Loop, earliest, init_states, first_polls, start, rescheduled, run,
}
use home_assistant_apps.Weather.Loop.Table.{Unique, insert-Unique, earliest-lookup}

abbrev pub is_some {ℓ} : {A : Type ℓ} → Option A → Bool
is_some none = false
is_some (some x) = true

-- Each key has one time, and a state, and no stamp of a state raises.
pub record IsLoop (strip_lower : Text → Text) (estimator : Estimator) (l : Loop) : Type 0 where
  pub unique : Unique l.next_poll
  pub covered :
      (k : Text) → is_some (lookup k l.next_poll) ≡ true → is_some (lookup k l.states) ≡ true
  pub in_range :
      (k : Text) (s : StationState)
      → lookup k l.states ≡ some s
      → All (IsReadable strip_lower estimator) s.events

pub is_some-some {ℓ} : {A : Type ℓ} → (o : Option A) → is_some o ≡ true → (x : A) × (o ≡ some x)
is_some-some none h = absurd (ground (arith, h))
is_some-some (some x) h = (x, refl)

covered_after :
    (b : Bool) (t : ℕ) (s : StationState) (o : Option ℕ) (o' : Option StationState)
    → (is_some o ≡ true → is_some o' ≡ true)
    → is_some (if b then some t else o) ≡ true
    → is_some (if b then some s else o') ≡ true
covered_after true t s o o' f h = refl
covered_after false t s o o' f h = f h

in_range_after :
    (P : StationState → Type 0) (b : Bool) (v s : StationState) (o : Option StationState)
    → P v
    → (o ≡ some s → P s)
    → (if b then some v else o) ≡ some s
    → P s
in_range_after P true v s o h f e = let same : v ≡ s = cc in subst P same h
in_range_after P false v s o h f e = f e

module _ (strip_lower : Text → Text) (estimator : Estimator) (config : Config) where
  abbrev pub polled : Text → Dict StationState → Poll → ℕ × Dict StationState
  polled key states p = (p.delay, insert key p.state states)

  pub poll_station_rule :
      (a : Answers) (key : Text) (states : Dict StationState) (s : StationState) (p : Poll)
      → lookup key states ≡ some s
      → poll strip_lower estimator config a s ≡ some p
      → poll_station strip_lower estimator config a key states ≡ some (polled key states p)
  unfolding poll_station
  poll_station_rule a key states s p state e = rw (state, poll_station) (rw e refl)

  -- A turn that goes on has a poll that did not raise.
  poll_station-poll :
      (a : Answers) (key : Text) (states : Dict StationState) (s : StationState)
      (done : ℕ × Dict StationState)
      → lookup key states ≡ some s
      → poll_station strip_lower estimator config a key states ≡ some done
      → (p : Poll) × (poll strip_lower estimator config a s ≡ some p × polled key states p ≡ done)
  unfolding poll_station
  poll_station-poll a key states s done state e =
      elim (Option-cases (poll strip_lower estimator config a s)) [
        | inl raised ↦
            let fails : poll_station strip_lower estimator config a key states ≡ none =
              rw (state, poll_station) (rw raised refl) in
            cc
        | inr (p, polls) ↦
            let r = poll_station_rule a key states s p state polls in
            let same : some (polled key states p) ≡ some done = sym r ∙ e in (p, (polls, cc))
      ]

module _ (strip_lower : Text → Text) (estimator : Estimator) (config : Config)
    (timing : Timing) where
  -- What turns from the start leave.
  abbrev pub left_by : List Text → Dict (List Text) → ℕ → List Turn → Loop
  left_by keys persisted now before =
      (run strip_lower estimator config timing before
        (start strip_lower estimator config timing keys persisted now)).1.1

  pub poll_station-keeps :
      (turn : Turn) (key : Text) (due : ℕ) (done : ℕ × Dict StationState) (l : Loop)
      → IsLoop strip_lower estimator l
      → lookup key l.next_poll ≡ some due
      → poll_station strip_lower estimator config turn.answers key l.states ≡ some done
      → IsLoop strip_lower estimator
          (rescheduled strip_lower estimator config timing turn key done l.next_poll)
  poll_station-keeps turn key due done l i known polls =
      let (s, state) = is_some-some (lookup key l.states) (i.covered key (rw known refl)) in
      let (p, (e, same)) =
        poll_station-poll strip_lower estimator config turn.answers key l.states s done state
          polls in
      let readable : All (IsReadable strip_lower estimator) p.state.events =
        subst
          (OfPoll strip_lower estimator config
            (λ p. All (IsReadable strip_lower estimator) p.state.events))
          e
          (poll-IsReadable strip_lower estimator config turn.answers s (i.in_range key s state)) in
      rw⁻¹ same (record {
        unique = insert-Unique key _ l.next_poll i.unique;
        covered = λ j h.
            rw lookup-insert
              (covered_after (text_eq key j) _ _ _ _ (i.covered j) (rw lookup-insert at h));
        in_range = λ j x h.
            in_range_after (λ x. All (IsReadable strip_lower estimator) x.events) (text_eq key j)
              p.state x (lookup j l.states) readable (i.in_range j x) (rw lookup-insert at h);
      })

  pub run-IsLoop :
      (turns : List Turn) (l : Loop)
      → IsLoop strip_lower estimator l
      → IsLoop strip_lower estimator (run strip_lower estimator config timing turns l).1.1
  unfolding run
  run-IsLoop [] l i = i
  run-IsLoop (turn ∷ turns) l i = elim (Option-cases (earliest l.next_poll)) [
    | inl nothing ↦ rw (nothing, run) i
    | inr ((key, due), found) ↦ elim (Bool-cases (turn.sleeper (due - turn.now))) [
      | inl stop ↦ rw (found, stop, run) i
      | inr slept ↦
          elim (Option-cases
            (poll_station strip_lower estimator config turn.answers key l.states)) [
              | inl failed ↦ rw (found, slept, failed, run) i
              | inr (done, polls) ↦
                  rw (found, slept, polls, run)
                    (run-IsLoop turns _ (
                      poll_station-keeps turn key due done l i
                        (earliest-lookup l.next_poll key due i.unique found) polls))
            ]
    ]
  ]

  -- The persisted windows hold no stamp that raises.
  abbrev pub AllInRange : Dict (List Text) → Type 0
  AllInRange persisted =
      (k : Text) (events : List Text)
      → lookup k persisted ≡ some events
      → All (IsReadable strip_lower estimator) events

  start_step :
      (keys : List Text) (persisted : Dict (List Text)) (stagger at : ℕ) (next_poll : Dict ℕ)
      (states : Dict StationState)
      → AllInRange persisted
      → IsLoop strip_lower estimator (record { next_poll = next_poll; states = states })
      → IsLoop strip_lower estimator (record {
        next_poll = first_polls stagger keys at next_poll;
        states = init_states keys persisted states;
      })
  unfolding first_polls init_states
  start_step [] persisted stagger at next_poll states safe i = i
  start_step (k ∷ keys) persisted stagger at next_poll states safe i =
      elim (Option-cases (lookup k persisted)) [
        | inl absent ↦
            rw (absent, init_states)
              (start_step keys persisted stagger (at + stagger) _ _ safe (added (seeded k []) tt))
        | inr (events, here) ↦
            rw (here, init_states)
              (start_step keys persisted stagger (at + stagger) _ _ safe
                (added (seeded k events) (safe k events here)))
      ]
    where
      added :
          (v : StationState)
          → All (IsReadable strip_lower estimator) v.events
          → IsLoop strip_lower estimator
              (record { next_poll = insert k at next_poll; states = insert k v states })
      added v h = record {
        unique = insert-Unique k at next_poll i.unique;
        covered = λ j there.
            rw lookup-insert
              (covered_after (text_eq k j) _ _ _ _ (i.covered j) (rw lookup-insert at there));
        in_range = λ j x there.
            in_range_after (λ x. All (IsReadable strip_lower estimator) x.events) (text_eq k j) v x
              (lookup j states) h (i.in_range j x) (rw lookup-insert at there);
      }

  pub start-IsLoop :
      (keys : List Text) (persisted : Dict (List Text)) (now : ℕ)
      → AllInRange persisted
      → IsLoop strip_lower estimator (start strip_lower estimator config timing keys persisted now)
  unfolding start Unique lookup
  start-IsLoop keys persisted now safe = start_step keys persisted _ now [] [] safe (record {
    unique = tt;
    covered = λ k h. absurd (ground (arith, h));
    in_range = λ k s h. absurd (ground (arith, h));
  })
