-- ===== src/Weather/Cadence.antt =====
-- py-weather/pyweather/cadence.py. The parser of stamps, in microseconds, is a parameter, and so are the median of the gaps
-- scaled and rounded, which are floats there.
pub mod Bounds
use home_assistant_apps.Prelude.{
  ℕ, ◌+◌, ◌*◌, List, [], ◌∷◌, Bool, true, false, Option, none, some, ◌>>=◌, Text, min, max, ltb,
  if◌then◌else◌, get_last?,
}

-- `MAX`, `OFFLINE_REPROBE` and `N`.
abbrev pub max_interval : ℕ
max_interval = 1800

abbrev pub offline_reprobe : ℕ
offline_reprobe = 86400

abbrev pub window_length : ℕ
window_length = 6

-- An integer of the source; `negsuc n` is the negative of `n + 1`.
pub data ℤ : Type 0 where
  pos negsuc : ℕ → ℤ

-- `datetime.fromisoformat`: it raises `ValueError`, or the stamp has no offset, or it has one. The time
-- in UTC of one with an offset may be out of datetime's years, where `astimezone` raises
-- `OverflowError`.
pub data IsoStamp : Type 0 where
  invalid naive out_of_range : IsoStamp
  aware : ℕ → IsoStamp

-- What `parse_obstime` gives: None, a time, or the `OverflowError`, which no caller catches.
pub data ObsTime : Type 0 where
  no_time overflow : ObsTime
  time : ℕ → ObsTime

pub record Estimator : Type 0 where
  pub fromisoformat : Text → IsoStamp
  -- `round(median(gaps) * FACTOR)`, a gap being an event and the one after it.
  pub scaled_median : ℕ × ℕ → List (ℕ × ℕ) → ℤ

abbrev pub is_overflow : ObsTime → Bool
is_overflow overflow = true
is_overflow no_time = false
is_overflow (time at) = false

-- One more stamp before those that parse. `none` is the error.
abbrev pub push : ObsTime → Option (List ℕ) → Option (List ℕ)
push overflow rest = none
push no_time rest = rest
push (time p) none = none
push (time p) (some rest) = some (p ∷ rest)

unfoldable pub gaps_from : ℕ → List ℕ → List (ℕ × ℕ)
gaps_from p [] = []
gaps_from p (q ∷ parsed) = (p, q) ∷ gaps_from q parsed

unfoldable pub gaps_of : List ℕ → List (ℕ × ℕ)
unfolding gaps_from
gaps_of [] = []
gaps_of (p ∷ parsed) = gaps_from p parsed

-- The value into the range from `low` to `high`.
unfoldable pub clamp : ℤ → ℕ → ℕ → ℕ
clamp (pos n) low high = max low (min high n)
clamp (negsuc n) low high = low

module _ (estimator : Estimator) where
  unfoldable pub parse_obstime : Text → ObsTime
  parse_obstime value = elim (estimator.fromisoformat value) [
    | invalid ↦ no_time
    | naive ↦ no_time
    | out_of_range ↦ overflow
    | aware at ↦ time at
  ]

  -- The events that parse. In this and in what stands on it, `none` is the error of a stamp.
  unfoldable pub parsed : List Text → Option (List ℕ)
  unfolding parse_obstime
  parsed [] = some []
  parsed (e ∷ events) = push (parse_obstime e) (parsed events)

  unfoldable pub gaps : List Text → Option (List (ℕ × ℕ))
  unfolding parsed gaps_of
  gaps events = parsed events >>= λ ps. some (gaps_of ps)

  unfoldable pub interval_of : ℕ → List (ℕ × ℕ) → ℕ
  unfolding clamp
  interval_of min_interval [] = min_interval
  interval_of min_interval (g ∷ gs) = clamp (estimator.scaled_median g gs) min_interval max_interval

  unfoldable pub base_interval : List Text → ℕ → Option ℕ
  unfolding gaps interval_of
  base_interval events min_interval = gaps events >>= λ gs. some (interval_of min_interval gs)

  -- The jitter is rounded.
  abbrev pub jittered_interval : List Text → ℕ → (ℕ → ℕ) → Option ℕ
  jittered_interval events min_interval jitter =
      base_interval events min_interval >>= λ base. some (jitter base)

  -- `now - last > 3 * learned`, in microseconds.
  abbrev pub is_older : ℕ → ℕ → Option ℕ → Bool
  is_older now learned none = false
  is_older now learned (some last) = ltb (last + 3 * learned * 1000000) now

  unfoldable pub is_stale : List Text → ℕ → ℕ → Option Bool
  unfolding parsed
  is_stale events now learned = parsed events >>= λ ps. some (is_older now learned (get_last? ps))
