-- ===== src/Weather/Health/Representative.antt =====
-- The sensor by which py-weather/pyweather/health.py tells whether a station is online.
use home_assistant_apps.Prelude.{
  ℕ, zero, suc, ◌+◌, ◌-◌, ◌≤◌, ◌≡◌, refl, sym, ap, ◌∙◌, inl, inr, List, [], ◌∷◌, ◌++◌, length,
  length-append, take, drop, take-append-drop, take-append, drop-append, Bool, true, ◌&&◌, Option,
  none, some, Text, text_eq, text_eq_refl, text_eq→≡, Dict, lookup, lookup-insert, if◌then◌else◌,
  and_left, and_right, Bool-cases, arith,
}
use home_assistant_apps.Weather.Cadence.{Estimator}
use home_assistant_apps.Weather.Health.{
  evaluate, status_of, EntityState, starts_with, ends_with, slice, sensor_prefix, key_suffix,
  metric_of, add_metric, discover_from, discover, obstimeutc,
}

-- The id of the station's sensor of a metric.
abbrev pub sensor_id : Text → Text → Text
sensor_id metric key = sensor_prefix ++ (metric ++ key_suffix key)

drop-nil : (j : ℕ) → drop {A = ℕ} j [] ≡ []
drop-nil zero = refl
drop-nil (suc j) = refl

drop-drop : (i j : ℕ) (s : Text) → drop (i + j) s ≡ drop j (drop i s)
drop-drop zero j s = ap (λ n. drop n s) (omega arith)
drop-drop (suc i) j [] = drop-nil (suc i + j) ∙ sym (drop-nil j)
drop-drop (suc i) j (c ∷ s) =
    let e : suc i + j ≡ suc (i + j) = omega arith in ap (λ n. drop n (c ∷ s)) e ∙ drop-drop i j s

module _ (prefix suffix : Text) where
  abbrev middle : Text → Text
  middle s = slice (length prefix) (length s - length suffix) s

  -- A text with the prefix and the suffix is one with a middle between them.
  middle-join :
      (s : Text)
      → starts_with prefix s ≡ true
      → ends_with suffix s ≡ true
      → length prefix ≤ length s - length suffix
      → s ≡ prefix ++ (middle s ++ suffix)
  middle-join s starts ends le =
      let u = drop (length prefix) s in
      let k = length s - length suffix - length prefix in
      let e : length s - length suffix ≡ length prefix + k = omega (arith, le) in
      let tail : drop k u ≡ suffix =
        sym (ap (λ n. drop n s) e ∙ drop-drop (length prefix) k s) ∙ text_eq→≡ _ _ ends in
      sym (take-append-drop (length prefix) s)
      ∙ ap (λ t. t ++ u) (text_eq→≡ _ _ starts)
      ∙ ap (λ t. prefix ++ t) (sym (take-append-drop k u) ∙ ap (λ t. take k u ++ t) tail)

  join_length :
      (m : Text) → length (prefix ++ (m ++ suffix)) ≡ length prefix + (length m + length suffix)
  join_length m =
      length-append prefix (m ++ suffix) ∙ ap (λ n. length prefix + n) (length-append m suffix)

  join-middle : (m : Text) → middle (prefix ++ (m ++ suffix)) ≡ m
  join-middle m =
      let e : length (prefix ++ (m ++ suffix)) - length suffix - length prefix ≡ length m =
        omega (arith, join_length m) in
      ap (λ n. take n (drop (length prefix) (prefix ++ (m ++ suffix)))) e
      ∙ ap (take (length m)) (drop-append prefix (m ++ suffix))
      ∙ take-append m suffix

  join-starts : (m : Text) → starts_with prefix (prefix ++ (m ++ suffix)) ≡ true
  join-starts m = rw (take-append prefix (m ++ suffix)) (text_eq_refl prefix)

  join-ends : (m : Text) → ends_with suffix (prefix ++ (m ++ suffix)) ≡ true
  join-ends m =
      let e : length (prefix ++ (m ++ suffix)) - length suffix ≡ length prefix + length m =
        omega (arith, join_length m) in
      let tail : drop (length (prefix ++ (m ++ suffix)) - length suffix) (prefix ++ (m ++ suffix))
          ≡ suffix =
        ap (λ n. drop n (prefix ++ (m ++ suffix))) e
        ∙ drop-drop (length prefix) (length m) (prefix ++ (m ++ suffix))
        ∙ ap (drop (length m)) (drop-append prefix (m ++ suffix))
        ∙ drop-append m suffix in
      rw tail (text_eq_refl suffix)

-- Whether the entity is the station's sensor of the stamp.
abbrev pub is_representative : Text → EntityState → Bool
is_representative key entity = text_eq entity.entity_id (sensor_id obstimeutc key)

metric_of-sensor_id : (key : Text) → metric_of key (sensor_id obstimeutc key) ≡ obstimeutc
unfolding metric_of
metric_of-sensor_id key =
    rw
      (
        join-starts sensor_prefix (key_suffix key) obstimeutc,
        join-ends sensor_prefix (key_suffix key) obstimeutc,
      )
      (join-middle sensor_prefix (key_suffix key) obstimeutc)

take-nil : (n : ℕ) (s : Text) (c : ℕ) (m : Text) → take n s ≡ c ∷ m → 1 ≤ n
take-nil zero s c m e = cc
take-nil (suc n) s c m e = omega arith

-- An id whose metric is the stamp's is that of the station's sensor.
metric_of-only : (key id : Text) → metric_of key id ≡ obstimeutc → id ≡ sensor_id obstimeutc key
unfolding metric_of
metric_of-only key id e =
    elim (Bool-cases (starts_with sensor_prefix id && ends_with (key_suffix key) id)) [
      | inr h ↦ let empty : metric_of key id ≡ [] = rw (h, metric_of) refl in cc
      | inl h ↦
          let m : middle sensor_prefix (key_suffix key) id ≡ obstimeutc =
            sym (
              let there : metric_of key id ≡ middle sensor_prefix (key_suffix key) id =
                rw (h, metric_of) refl in
              there)
            ∙ e in
          middle-join sensor_prefix (key_suffix key) id (and_left _ _ h) (and_right _ _ h)
            (omega (arith, take-nil _ _ _ _ m))
          ∙ ap (λ t. sensor_prefix ++ (t ++ key_suffix key)) m
    ]

-- The last entity of the snapshot that is the representative.
unfoldable pub last_representative :
    Text → Option EntityState → List EntityState → Option EntityState
last_representative key o [] = o
last_representative key o (entity ∷ states) =
    last_representative key (if is_representative key entity then some entity else o) states

metric_of-is_representative :
    (key : Text) (entity : EntityState)
    → text_eq (metric_of key entity.entity_id) obstimeutc ≡ is_representative key entity
metric_of-is_representative key entity =
    elim (Bool-cases (text_eq (metric_of key entity.entity_id) obstimeutc)) [
      | inl e ↦
          let same : entity.entity_id ≡ sensor_id obstimeutc key =
            metric_of-only key entity.entity_id
              (text_eq→≡ (metric_of key entity.entity_id) obstimeutc e) in
          e ∙ sym (rw same (text_eq_refl (sensor_id obstimeutc key)))
      | inr e ↦ elim (Bool-cases (is_representative key entity)) [
        | inr k ↦ e ∙ sym k
        | inl k ↦
            let same : entity.entity_id ≡ sensor_id obstimeutc key = text_eq→≡ _ _ k in
            let metric : metric_of key entity.entity_id ≡ obstimeutc =
              ap (metric_of key) same ∙ metric_of-sensor_id key in
            let there : text_eq (metric_of key entity.entity_id) obstimeutc ≡ true =
              rw metric (text_eq_refl obstimeutc) in
            cc
      ]
    ]

lookup-add :
    (c : ℕ) (w metric : Text) (entity : EntityState) (found : Dict EntityState)
    → lookup (c ∷ w) (add_metric metric entity found)
      ≡ (if text_eq metric (c ∷ w) then some entity else lookup (c ∷ w) found)
unfolding text_eq
lookup-add c w [] entity found = refl
lookup-add c w (d ∷ metric) entity found = lookup-insert (d ∷ metric) (c ∷ w) entity found

lookup-discover_from :
    (key : Text) (states : List EntityState) (found : Dict EntityState)
    → lookup obstimeutc (discover_from key found states)
      ≡ last_representative key (lookup obstimeutc found) states
unfolding discover_from last_representative
lookup-discover_from key [] found = refl
lookup-discover_from key (entity ∷ states) found =
    lookup-discover_from key states (add_metric (metric_of key entity.entity_id) entity found)
    ∙ ap (λ o. last_representative key o states)
        (lookup-add _ _ (metric_of key entity.entity_id) entity found
          ∙ ap (λ b. if b then some entity else lookup obstimeutc found)
              (metric_of-is_representative key entity))

pub representative-lookup :
    (key : Text) (states : List EntityState)
    → lookup obstimeutc (discover states key) ≡ last_representative key none states
unfolding lookup
representative-lookup key states = lookup-discover_from key states []

module _ (strip_lower : Text → Text) (estimator : Estimator) where
  -- The health of a station, found by cutting every id of the snapshot into prefix, metric and suffix,
  -- is that of one sensor: the last entity whose id is `sensor.wu_obstimeutc_` with the station's key.
  pub evaluate-Representative :
      (key : Text) (states : List EntityState)
      → evaluate strip_lower estimator key states
        ≡ status_of strip_lower estimator (last_representative key none states)
  unfolding evaluate
  evaluate-Representative key states =
      ap (status_of strip_lower estimator) (representative-lookup key states)
