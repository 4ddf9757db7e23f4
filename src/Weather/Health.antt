-- ===== src/Weather/Health.antt =====
-- py-weather/pyweather/health.py: the sensors of a station in a snapshot of `/states`, and its health.
-- `str.strip` with `str.lower` is a parameter.
pub mod Representative
use home_assistant_apps.Prelude.{
  ℕ, ◌+◌, ◌-◌, List, [], ◌∷◌, ◌++◌, length, take, drop, Bool, true, false, not, ◌&&◌, Option, none,
  some, Text, codes, text_eq, Dict, lookup, insert, member, if◌then◌else◌,
}
use home_assistant_apps.Weather.Cadence.{ObsTime, no_time, time, overflow, Estimator, parse_obstime}

pub record EntityState : Type 0 where
  pub entity_id : Text
  pub state : Text

pub data HealthStatus : Type 0 where
  online offline : HealthStatus

abbrev pub starts_with : Text → Text → Bool
starts_with prefix s = text_eq (take (length prefix) s) prefix

abbrev pub ends_with : Text → Text → Bool
ends_with suffix s = text_eq (drop (length s - length suffix) s) suffix

-- `s[i:j]`.
abbrev pub slice : ℕ → ℕ → Text → Text
slice i j s = take (j - i) (drop i s)

abbrev pub sensor_prefix : Text
sensor_prefix = codes "sensor.wu_"

abbrev pub key_suffix : Text → Text
key_suffix key = codes "_" ++ key

-- The metric in an entity's id; empty when the id is of no sensor of the station.
unfoldable pub metric_of : Text → Text → Text
metric_of key id =
    if starts_with sensor_prefix id && ends_with (key_suffix key) id
    then slice (length sensor_prefix) (length id - length (key_suffix key)) id
    else []

abbrev pub add_metric : Text → EntityState → Dict EntityState → Dict EntityState
add_metric [] entity found = found
add_metric (c ∷ metric) entity found = insert (c ∷ metric) entity found

unfoldable pub discover_from : Text → Dict EntityState → List EntityState → Dict EntityState
unfolding metric_of
discover_from key found [] = found
discover_from key found (entity ∷ states) =
    discover_from key (add_metric (metric_of key entity.entity_id) entity found) states

abbrev pub discover : List EntityState → Text → Dict EntityState
discover states key = discover_from key [] states

abbrev pub obstimeutc : Text
obstimeutc = codes "obstimeutc"

abbrev unusable_states : List Text
unusable_states = codes "unavailable" ∷ codes "unknown" ∷ codes "none" ∷ [] ∷ []

module _ (strip_lower : Text → Text) (estimator : Estimator) where
  abbrev pub is_usable : Text → Bool
  is_usable state = not (member (strip_lower state) unusable_states)

  abbrev status_of_time : ObsTime → Option HealthStatus
  status_of_time no_time = some offline
  status_of_time (time at) = some online
  status_of_time overflow = none

  -- `none` is the error of a stamp.
  abbrev pub status_of : Option EntityState → Option HealthStatus
  status_of none = some offline
  status_of (some representative) =
      if is_usable representative.state
      then status_of_time (parse_obstime estimator representative.state)
      else some offline

  unfoldable pub evaluate : Text → List EntityState → Option HealthStatus
  unfolding discover_from lookup parse_obstime
  evaluate key states = status_of (lookup obstimeutc (discover states key))
