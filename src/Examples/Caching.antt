-- ===== src/Examples/Caching.antt =====
-- Cached predictions, with floats and times as in the other examples.
use hpa_plus.Prelude.{
  ℤ, pos, up, down, ◌≤ℤ◌, ◌+ℤ◌, ◌-ℤ◌, ◌*ℤ◌, quot, same_text, false, List, [], ◌∷◌, All, none, some,
  ◌≡◌, ◌↔◌, ◌⊎◌, refl,
}
use hpa_plus.Api.Types.{TimestampedSample}
use hpa_plus.Forecast.Types.{linear, Prediction}
use hpa_plus.Forecast.History.{latest_timestamp, later, count_cpu_history}
use hpa_plus.Forecast.Requirements.{required_history_size}
use hpa_plus.Forecast.Trajectory.{sub_time}
use hpa_plus.Retention.Window.{history_input_deadline, earliest_row, earlier_row, uses_cpu_history}
use hpa_plus.Validation.Checks.{one_of}
use hpa_plus.Cache.Defs.{
  CacheModel, CachedResult, sync_period_of, prediction_horizon, prediction_lifetime,
  uses_timed_interval, has_sufficient_history, is_complete, is_current, policy_deadline,
  training_deadline, cache_deadline, has_expired_rows, availability_at, deadline_availability,
  assess_cached_prediction,
}
use hpa_plus.Cache.Make.{interval_end, cached_from, fresh_forecast_deadline, make_cached_prediction}
use hpa_plus.Cache.Lifetime.{Honest, assess-Honest}
use hpa_plus.Cache.Reports.{
  ModelReport, earliest, earliest_expiry, prediction_inputs_deadline, has_passed, is_expired,
  expire_report, expire_reports, second, wake_for, timed_decision_requeue,
}
use hpa_plus.Cache.Expiry.{inputs_deadline_iff}
use hpa_plus.Cache.Requeue.{Wakes, timed_decision_requeue-Wakes}
use hpa_plus.Examples.Monitoring.{clock}

unfoldable cached : Unit {0}
unfolding up down ◌+ℤ◌ ◌-ℤ◌ ◌*ℤ◌ quot same_text latest_timestamp later count_cpu_history
    required_history_size sub_time history_input_deadline earliest_row earlier_row uses_cpu_history
    one_of sync_period_of prediction_horizon prediction_lifetime uses_timed_interval
    has_sufficient_history is_complete is_current policy_deadline training_deadline cache_deadline
    has_expired_rows availability_at deadline_availability assess_cached_prediction interval_end
    cached_from fresh_forecast_deadline make_cached_prediction earliest earliest_expiry
    prediction_inputs_deadline is_expired expire_report expire_reports wake_for
    timed_decision_requeue
cached = tt

abbrev model : CacheModel
model = record {
  base = record {
    kind = linear;
    linear = some (record { history_size = pos 2; look_ahead = pos 120000 });
    xgboost = none;
    light_gbm = none;
    arima = none;
    holt_winters = none;
    has_predictive_policy = false;
  };
  prediction_max_age = some (pos 90000);
  history_max_age = some (pos 100000);
  reset_duration = none;
  sync_period = none;
}

abbrev row : ℤ → TimestampedSample
row at = record {
  time = some at;
  replicas = pos 3;
  metric = none;
  total_cpu_usage_millicores = some (pos 900);
  request_per_pod_millicores = none;
  target_cpu_utilization_percentage = none;
}

abbrev rows : List TimestampedSample
rows = row (pos 60000000000) ∷ row (pos 100000000000) ∷ []

abbrev result : Prediction
result = record { trajectory = []; replicas = pos 4; consumed_until = some (pos 100000000000) }

-- The age of the training data, 160 s, is the first of the deadlines.
abbrev stored : CachedResult
stored = record {
  trajectory = [];
  replicas = pos 4;
  fingerprint = "f";
  consumed_until = pos 100000000000;
  completed_at = pos 101000000000;
  expires_at = pos 160000000000;
  history_start = some (pos 60000000000);
}

stored_test :
    make_cached_prediction clock model result none "f" (pos 101000000000) rows ≡ some stored
unfolding cached
stored_test = refl

assess-Honest_example : Honest clock model rows stored "f" (pos 120000000000) (pos 160000000000)
unfolding cached
assess-Honest_example =
    assess-Honest clock model rows stored "f" (pos 120000000000) (pos 160000000000) refl

abbrev reports : List ModelReport
reports =
    record {
      name = "timed";
      state = "Cached";
      forecast_replicas = some (pos 4);
      expires_at = some (pos 160000000000);
    }
    ∷ record {
      name = "other";
      state = "Ready";
      forecast_replicas = some (pos 5);
      expires_at = some (pos 120000000000);
    }
    ∷ []

inputs_deadline_iff_example :
    (has_passed (pos 119000000000) (prediction_inputs_deadline reports) ≡ false)
    ↔ ((expire_reports (pos 119000000000) reports).1 ≡ reports)
inputs_deadline_iff_example = inputs_deadline_iff (pos 119000000000) reports

requeue_test :
    timed_decision_requeue ("timed" ∷ []) reports (pos 150000000000) (pos 15000000000)
    ≡ pos 10000000000
unfolding cached
requeue_test = refl

timed_decision_requeue-Wakes_example :
    (pos 10000000000 ≤ℤ pos 15000000000)
    × All (Wakes ("timed" ∷ []) (pos 150000000000) (pos 10000000000)) reports
    × ((second ≤ℤ pos 10000000000) ⊎ (pos 15000000000 ≤ℤ pos 10000000000))
unfolding cached
timed_decision_requeue-Wakes_example =
    timed_decision_requeue-Wakes ("timed" ∷ []) (pos 150000000000) reports (pos 15000000000)
