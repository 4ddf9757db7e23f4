-- ===== src/Ddns/Updater/Cases.antt =====
-- Cases of a reconcile cycle of updater.py, written out.
use home_assistant_apps.Prelude.{
  ◌≡◌, ◌⊎◌, inl, inr, refl, ap, List, ◌∷◌, Option, none, some, true, false, Bool-cases, arith,
}
use home_assistant_apps.Ddns.Models.{
  readable, Address, azure, url, wrote_known_ip, resolved, returns, Config, Event, detected,
  current, applied, looked_up, ticked, wrote, Env, State,
}
use home_assistant_apps.Ddns.Cycle.{
  continue, ◌>>=◌, pure, gets, modify, call, clock, read_stored, write_stored,
}
use home_assistant_apps.Ddns.Retry.{run_from, run}
use home_assistant_apps.Ddns.Updater.Confirmed.{same_address→≡}
use home_assistant_apps.Ddns.Updater.{
  same_address, drift_due, note_drift, read_current_with_retry, apply_api_with_retry, assert_read,
  api_with, cycle_api, is_unchanged, suppress_or_fire, steady, cycle_callback, cycle, run_once,
}

same_address_refl : (v : Address) → same_address (some v) (some v) ≡ true
same_address_refl v = ground arith

unchanged_lem :
    (env : Env) (config : Config) (ip : Option Address) (known : Address)
    → (ip ≡ none) ⊎ (ip ≡ some known)
    → is_unchanged env config ip known ≡ true
unchanged_lem env config none known h = refl
unchanged_lem env config (some ip) known h = ground arith

-- In a callback cycle that is not the first one, without the drift cadence, with a readable last-known
-- address, no other address detected, and a name that resolves to it, nothing is called but one
-- detection and one lookup: no fire, no write, and the state stays.
pub run_once-suppresses :
    (env : Env) (config : Config) (s : State) (known : Address) (ip : Option Address)
    → config.provider ≡ url
    → config.drift_reconcile_seconds ≡ 0
    → s.first_cycle ≡ false
    → s.stored ≡ some known
    → (ip ≡ none) ⊎ (ip ≡ some known)
    → env.detect s.events ≡ returns ip
    → ((l : List Event) → env.state_file l ≡ readable)
    → ((l : List Event)
        → env.resolve l ≡ returns (record { status = resolved; value = some known }))
    → run_once env config s ≡ record s {
      events =
          looked_up (returns (record { status = resolved; value = some known }))
          ∷ detected (returns ip)
          ∷ s.events;
    }
unfolding run_once cycle cycle_callback steady suppress_or_fire drift_due ◌>>=◌ call read_stored
    pure gets
run_once-suppresses env config s known ip p d first stored unchanged det file res =
    rw (p, cycle)
      (rw (det, continue)
        (rw (file, read_stored)
          (rw stored (
            rw d (
              rw first (
                rw (unchanged_lem env config ip known unchanged)
                  (rw res (rw (same_address_refl known) refl))))))))

abbrev before_write : Env → Address → List Event → List Event
before_write env ip l =
    let asked = detected (returns (some ip)) ∷ l in
    let read = current (env.read_current asked) ∷ asked in ticked (env.clock read) ∷ read

-- A first cycle of the API archetype, whatever is persisted: if an address is detected, the provider
-- answers the read, reports a write as done, and persisting does not fail, then the detected address
-- is persisted, and the provider had it already or has been told to write it by the last call but the
-- persisting.
pub run_once-heals :
    (env : Env) (config : Config) (s : State) (ip : Address) (found : Option Address)
    → config.provider ≡ azure
    → s.first_cycle ≡ true
    → env.detect s.events ≡ returns (some ip)
    → ((l : List Event) → env.read_current l ≡ returns found)
    → ((l : List Event) → env.apply (some ip) l ≡ returns wrote_known_ip)
    → ((l : List Event) → env.write_fails l ≡ false)
    → ((run_once env config s).stored ≡ some ip)
      × ((found ≡ some ip)
          ⊎ ((l : List Event) × ((run_once env config s).events
                ≡ wrote ip ∷ applied (some ip) (returns wrote_known_ip) ∷ l)))
unfolding run_once cycle cycle_api api_with assert_read read_current_with_retry note_drift
    apply_api_with_retry ◌>>=◌ call write_stored pure gets modify clock run run_from
run_once-heals env config s ip found p first det read apply writes =
    rw (p, cycle)
      (rw (det, continue)
        (rw first (
          rw read (elim (Bool-cases (same_address found (some ip))) [
            | inl same ↦ rw same (rw writes (refl, inl (same_address→≡ found ip same)))
            | inr other ↦ rw other (
                rw apply (
                  rw writes (
                    refl,
                    inr (
                      before_write env ip s.events,
                      ap (λ r. wrote ip ∷ applied (some ip) r ∷ before_write env ip s.events)
                          (apply _),
                    ),
                  )))
          ]))))
