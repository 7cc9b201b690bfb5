-- ===== src/Cache/Make.antt =====
-- makeCachedPrediction and freshForecastDeadline of internal/controllers/prediction_cache.go.
use hpa_plus.Prelude.{
  ℤ, pos, ltb_ℤ, ◌==ℤ◌, ◌+ℤ◌, ◌-ℤ◌, milliseconds, same_text, String, Bool, true, false, not, ◌&&◌,
  List, [], ◌∷◌, Option, none, some, if◌then◌else◌, Result, ok, err, require, ◌>>=◌, ◌>>◌,
}
use hpa_plus.Api.Types.{TimestampedSample}
use hpa_plus.Forecast.Types.{
  Clock, CpuForecastPoint, ModelType, Prediction, holt_winters, linear, arima, xgboost, light_gbm,
}
use hpa_plus.Forecast.Trajectory.{time_of, model_trajectory_expiry}
use hpa_plus.Forecast.Windows.{last_point}
use hpa_plus.Retention.Window.{history_input_deadline}
use hpa_plus.Cache.Defs.{
  CacheModel, CachedResult, Diagnostics, CacheError, lacks_consumed, invalid_trajectory,
  invalid_diagnostics, identity_mismatch, timestamp_mismatch, invalid_target, target_mismatch,
  checked, sooner, is_present, prediction_horizon, prediction_lifetime, uses_timed_interval,
}

abbrev pub same_model_type : ModelType → ModelType → Bool
same_model_type holt_winters holt_winters = true
same_model_type linear linear = true
same_model_type arima arima = true
same_model_type xgboost xgboost = true
same_model_type light_gbm light_gbm = true
same_model_type (ModelType.other s) (ModelType.other t) = same_text s t
same_model_type _ _ = false

-- Holt-Winters without a look-ahead forecasts one step.
unfoldable pub is_implicit_holt : CacheModel → Bool
is_implicit_holt m = elim m.base.kind [
  | holt_winters ↦ elim m.base.holt_winters [
    | none ↦ false
    | some config ↦ not (is_present config.look_ahead)
  ]
  | _ ↦ false
]

-- The end of a training age of `age` milliseconds, or `target` where that comes first.
abbrev aged : Option ℤ → ℤ → ℤ → ℤ
aged none consumed target = target
aged (some age) consumed target = sooner (consumed +ℤ milliseconds age) target

module _ (clock : Clock) where
  unfoldable pub interval_end : CacheModel → Prediction → Result CacheError (Option ℤ)
  interval_end m result =
      if uses_timed_interval m
      then elim result.consumed_until [
        | none ↦ err lacks_consumed
        | some consumed ↦
            checked clock (model_trajectory_expiry clock m.base result.trajectory consumed)
              invalid_trajectory
            >>= λ end. ok (some (aged m.prediction_max_age consumed end))
      ]
      else ok none

  unfoldable pub ends_at : List CpuForecastPoint → ℤ → Bool
  ends_at [] target = false
  ends_at (p ∷ rest) target = time_of clock (last_point p rest).at ==ℤ target

  -- The target of the forecast, cut at the end of its interval or at the requested horizon.
  unfoldable pub capped_target : CacheModel → Prediction → ℤ → Option ℤ → ℤ → Result CacheError ℤ
  capped_target m result consumed (some end) target =
      require (ends_at result.trajectory target) target_mismatch >> ok end
  capped_target m result consumed none target =
      let horizon = prediction_horizon m in
      if ltb_ℤ (pos 0) horizon && not (is_implicit_holt m)
      then ok (sooner (consumed +ℤ horizon) target)
      else ok target

  unfoldable pub diagnosed_deadline :
      CacheModel → Prediction → Diagnostics → ℤ → Option ℤ → Result CacheError (Option ℤ)
  diagnosed_deadline m result d consumed end = elim (clock.parse d.history_end) [
    | none ↦ err timestamp_mismatch
    | some history_end ↦
        require (history_end ==ℤ consumed) timestamp_mismatch >> (elim (clock.parse d.forecast_at) [
          | none ↦ err invalid_target
          | some target ↦ capped_target m result consumed end target >>= λ t.
              ok (some (aged m.prediction_max_age consumed t))
        ])
  ]

  unfoldable pub fresh_forecast_deadline :
      CacheModel → Prediction → Option Diagnostics → Result CacheError (Option ℤ)
  fresh_forecast_deadline m result none = interval_end m result
  fresh_forecast_deadline m result (some d) = interval_end m result >>= λ end.
      (require d.is_valid invalid_diagnostics >> (elim result.consumed_until [
        | none ↦ err identity_mismatch
        | some consumed ↦
            require (same_model_type d.model m.base.kind) identity_mismatch
            >> diagnosed_deadline m result d consumed end
      ]))

  -- An error leaves the deadline as it is.
  abbrev cut : ℤ → Result CacheError (Option ℤ) → ℤ
  cut expires (err e) = expires
  cut expires (ok none) = expires
  cut expires (ok (some t)) = sooner t expires

  abbrev cut_at : ℤ → Option ℤ → ℤ
  cut_at expires none = expires
  cut_at expires (some t) = sooner t expires

  -- The start of the history, from the deadline that its age sets.
  abbrev start_of : Option ℤ → Option ℤ → Option ℤ
  start_of (some age) (some deadline) = some (deadline -ℤ milliseconds age)
  start_of _ _ = none

  unfoldable pub cached_from :
      CacheModel
      → Prediction
      → Option Diagnostics
      → String
      → ℤ
      → List TimestampedSample
      → ℤ
      → CachedResult
  cached_from m result d fingerprint completed rows consumed =
      let deadline = history_input_deadline m.history_max_age rows in
      let lived = consumed +ℤ prediction_lifetime m in
      record {
        trajectory = result.trajectory;
        replicas = result.replicas;
        fingerprint = fingerprint;
        consumed_until = consumed;
        completed_at = completed;
        expires_at = cut_at (cut lived (fresh_forecast_deadline m result d)) deadline;
        history_start = start_of m.history_max_age deadline;
      }

  unfoldable pub make_cached_prediction :
      CacheModel
      → Prediction
      → Option Diagnostics
      → String
      → ℤ
      → List TimestampedSample
      → Option CachedResult
  make_cached_prediction m result d fingerprint completed rows =
      if is_present m.prediction_max_age
      then elim result.consumed_until [
        | none ↦ none
        | some consumed ↦ some (cached_from m result d fingerprint completed rows consumed)
      ]
      else none
