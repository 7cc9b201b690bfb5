-- ===== src/Cache/Defs.antt =====
-- internal/controllers/prediction_cache.go: the lifetime of a prediction, and
-- modelHasSufficientHistory and syncPeriodForInstance of controller.go. Validation bounds the
-- durations, so that no product of milliseconds overflows. Diagnostics and their check are a
-- parameter. A time that is missing in the stored cache is Go's zero time, 0.
use hpa_plus.Prelude.{
  ℤ, pos, ltb_ℤ, leb_ℤ, ◌==ℤ◌, ◌+ℤ◌, milliseconds, same_text, length, String, Bool, true, false,
  not, ◌&&◌, ◌||◌, List, ◌∷◌, Option, none, some, if◌then◌else◌, Result, ok, err, require, ◌>>◌,
}
use hpa_plus.Api.Types.{TimestampedSample}
use hpa_plus.Forecast.Types.{
  Clock, CpuForecastPoint, Model, ModelType, holt_winters, linear, arima, xgboost, light_gbm,
}
use hpa_plus.Forecast.History.{count_cpu_history, latest_timestamp}
use hpa_plus.Forecast.Requirements.{required_history_size}
use hpa_plus.Forecast.Trajectory.{time_of, sub_time, validate_trajectory, model_trajectory_expiry}
use hpa_plus.Retention.Window.{history_input_deadline, uses_cpu_history}

-- A model with the settings of its cache, and the sync period of its instance.
pub record CacheModel : Type 0 where
  pub base : Model
  pub prediction_max_age : Option ℤ
  pub history_max_age : Option ℤ
  pub reset_duration : Option ℤ
  pub sync_period : Option ℤ

pub record CachedResult : Type 0 where
  pub trajectory : List CpuForecastPoint
  pub replicas : ℤ
  pub fingerprint : String
  pub consumed_until : ℤ
  pub completed_at : ℤ
  pub expires_at : ℤ
  pub history_start : Option ℤ

-- `is_valid` is what the diagnostics' own check says.
pub record Diagnostics : Type 0 where
  pub is_valid : Bool
  pub model : ModelType
  pub history_end : String
  pub forecast_at : String

pub data CacheAvailability : Type 0 where
  unavailable expired usable : CacheAvailability

pub data CacheError : Type 0 where
  lacks_consumed invalid_trajectory invalid_diagnostics identity_mismatch : CacheError
  timestamp_mismatch invalid_target target_mismatch invalid_interval : CacheError

unfoldable pub sync_period_of : CacheModel → ℤ
sync_period_of m = elim m.sync_period [
  | none ↦ milliseconds (pos 15000)
  | some period ↦ milliseconds period
]

abbrev ahead {ℓ} : {A : Type ℓ} → (A → ℤ) → Option A → ℤ
ahead f none = pos 0
ahead f (some config) = milliseconds (f config)

unfoldable pub prediction_horizon : CacheModel → ℤ
prediction_horizon m = elim m.base.kind [
  | linear ↦ ahead (λ config. config.look_ahead) m.base.linear
  | arima ↦ ahead (λ config. config.look_ahead) m.base.arima
  | xgboost ↦ ahead (λ config. config.look_ahead) m.base.xgboost
  | light_gbm ↦ ahead (λ config. config.look_ahead) m.base.light_gbm
  | holt_winters ↦ elim m.base.holt_winters [
    | none ↦ sync_period_of m
    | some config ↦ elim config.look_ahead [
      | none ↦ sync_period_of m
      | some millis ↦ milliseconds millis
    ]
  ]
  | ModelType.other s ↦ pos 0
]

abbrev pub sooner : ℤ → ℤ → ℤ
sooner a b = if ltb_ℤ a b then a else b

unfoldable pub prediction_lifetime : CacheModel → ℤ
prediction_lifetime m = elim m.prediction_max_age [
  | none ↦ pos 0
  | some age ↦
      if m.base.has_predictive_policy
      then milliseconds age
      else sooner (prediction_horizon m) (milliseconds age)
]

abbrev pub is_present {ℓ} : {A : Type ℓ} → Option A → Bool
is_present none = false
is_present (some a) = true

unfoldable pub uses_timed_interval : CacheModel → Bool
uses_timed_interval m = m.base.has_predictive_policy && is_present m.prediction_max_age

unfoldable pub has_sufficient_history : CacheModel → List TimestampedSample → Bool
has_sufficient_history m rows =
    let required = required_history_size m.base in
    leb_ℤ required (pos 0)
    || (if uses_cpu_history m.base.kind
        then leb_ℤ required (pos (count_cpu_history rows))
        else leb_ℤ required (pos (length rows)))

-- What a cached prediction must say of itself.
unfoldable pub is_complete : CachedResult → String → ℤ → Bool
is_complete c fingerprint now =
    leb_ℤ (pos 0) c.replicas
    && same_text c.fingerprint fingerprint
    && not (same_text fingerprint "")
    && not (c.completed_at ==ℤ pos 0)
    && not (c.consumed_until ==ℤ pos 0)
    && not (c.expires_at ==ℤ pos 0)
    && leb_ℤ c.completed_at now
    && leb_ℤ c.consumed_until c.completed_at
    && ltb_ℤ c.consumed_until c.expires_at

-- The newest row is no older than what was consumed, and no older than a reset allows.
unfoldable pub is_current : CacheModel → List TimestampedSample → CachedResult → ℤ → Bool
is_current m rows c now = elim (latest_timestamp none rows) [
  | none ↦ false
  | some latest ↦
      leb_ℤ c.consumed_until latest
      && elim m.reset_duration [ none ↦ true | some reset ↦ leb_ℤ (sub_time now latest) reset ]
]

module _ (clock : Clock) where
  abbrev pub checked {ℓ} : {E : Type 0} {A : Type ℓ} → Result E A → CacheError → Result CacheError A
  checked (ok a) e = ok a
  checked (err x) e = err e

  unfoldable pub preserved_prefix : CachedResult → CpuForecastPoint → CpuForecastPoint → Bool
  preserved_prefix c first second =
      let until = time_of clock first.until in
      ltb_ℤ (time_of clock first.at) (c.completed_at +ℤ pos 1000000000)
      && ltb_ℤ c.completed_at until
      && leb_ℤ until (time_of clock second.at)

  -- The expiry without the one interval that a merge may have put in front.
  unfoldable pub prefixed_deadline :
      CacheModel → CachedResult → List CpuForecastPoint → Result CacheError ℤ
  prefixed_deadline m c (first ∷ (second ∷ rest)) =
      require (preserved_prefix c first second) invalid_interval
      >> checked (model_trajectory_expiry clock m.base (second ∷ rest) c.consumed_until)
          invalid_trajectory
  prefixed_deadline m c _ = err invalid_trajectory

  unfoldable pub cached_trajectory_deadline : CacheModel → CachedResult → Result CacheError ℤ
  cached_trajectory_deadline m c =
      checked (validate_trajectory clock c.trajectory) invalid_trajectory
      >> (elim (model_trajectory_expiry clock m.base c.trajectory c.consumed_until) [
        | ok end ↦ ok end
        | err e ↦ prefixed_deadline m c c.trajectory
      ])

  -- The age of the policy, cut at the end of the trajectory.
  unfoldable pub policy_deadline : CacheModel → CachedResult → Result CacheError ℤ
  policy_deadline m c =
      let age = c.consumed_until +ℤ prediction_lifetime m in
      if uses_timed_interval m
      then elim (cached_trajectory_deadline m c) [ err e ↦ err e | ok end ↦ ok (sooner end age) ]
      else ok age

  -- The age of the training data, where the history ages.
  unfoldable pub training_deadline : CacheModel → CachedResult → ℤ → Option ℤ
  training_deadline m c expires = elim m.history_max_age [
    | none ↦ some expires
    | some age ↦ elim c.history_start [
      | none ↦ none
      | some start ↦
          if (start ==ℤ pos 0) || ltb_ℤ c.consumed_until start
          then none
          else some (sooner (start +ℤ milliseconds age) expires)
    ]
  ]

  unfoldable pub cache_deadline : CacheModel → CachedResult → Option ℤ
  cache_deadline m c = elim (policy_deadline m c) [
    | err e ↦ none
    | ok policy ↦ training_deadline m c (sooner c.expires_at policy)
  ]

  unfoldable pub has_expired_rows : CacheModel → List TimestampedSample → ℤ → Bool
  has_expired_rows m rows now = elim (history_input_deadline m.history_max_age rows) [
    | none ↦ false
    | some deadline ↦ leb_ℤ deadline now
  ]

  unfoldable pub availability_at :
      CacheModel → List TimestampedSample → ℤ → ℤ → CacheAvailability × ℤ
  availability_at m rows now expires =
      if leb_ℤ expires now
      then (expired, expires)
      else if has_expired_rows m rows now
      then (unavailable, pos 0)
      else (usable, expires)

  unfoldable pub deadline_availability :
      CacheModel → List TimestampedSample → ℤ → Option ℤ → CacheAvailability × ℤ
  deadline_availability m rows now none = (unavailable, pos 0)
  deadline_availability m rows now (some expires) = availability_at m rows now expires

  unfoldable pub assess_cached_prediction :
      CacheModel → List TimestampedSample → Option CachedResult → String → ℤ → CacheAvailability × ℤ
  assess_cached_prediction m rows none fingerprint now = (unavailable, pos 0)
  assess_cached_prediction m rows (some c) fingerprint now =
      if is_present m.prediction_max_age
        && is_complete c fingerprint now
        && has_sufficient_history m rows
        && is_current m rows c now
        && ltb_ℤ (pos 0) (prediction_lifetime m)
      then deadline_availability m rows now (cache_deadline m c)
      else (unavailable, pos 0)
