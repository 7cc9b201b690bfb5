-- ===== src/Examples/Expiries.antt =====
-- Stored histories that are pruned by age and checked, on concrete rows.
use hpa_plus.Prelude.{
  ℤ, pos, up, down, ◌+ℤ◌, ◌-ℤ◌, ◌*ℤ◌, same_text, ◌≡◌, refl, true, false, none, some, List, [], ◌∷◌,
  ok, err,
}
use hpa_plus.Api.Types.{TimestampedSample}
use hpa_plus.Scaling.Windows.{is_after, keep_after}
use hpa_plus.Forecast.Types.{linear}
use hpa_plus.Retention.Window.{
  ModelHistory, Decoders, earlier_row, earliest_row, history_input_deadline, has_expired_training,
  expire_rows, prune_aged_history, check_marker, check_row, check_rows, is_consumed,
  check_cpu_window, validate_window, uses_cpu_history, reset_window, not_chronological,
}
use hpa_plus.Retention.Expiry.{prune_aged_history_unexpired}

unfoldable retained : Unit {0}
unfolding up down ◌+ℤ◌ ◌-ℤ◌ ◌*ℤ◌ same_text is_after keep_after earlier_row earliest_row
    history_input_deadline has_expired_training expire_rows prune_aged_history check_marker
    check_row check_rows is_consumed check_cpu_window validate_window uses_cpu_history reset_window
retained = tt

abbrev row : ℤ → TimestampedSample
row t = record {
  time = some t;
  replicas = pos 1;
  metric = none;
  total_cpu_usage_millicores = some (pos 100);
  request_per_pod_millicores = none;
  target_cpu_utilization_percentage = none;
}

abbrev history_of : List TimestampedSample → ℤ → ModelHistory
history_of rows epoch = record {
  kind = linear;
  last_observation_id = "";
  last_observation_time = "";
  history_epoch = epoch;
  last_sample_time = none;
  sync_periods_passed = pos 0;
  replica_history = rows;
  last_model_run_time = none;
  cached_prediction = none;
  failure_state = none;
  has_reliability = false;
}

abbrev rows : List TimestampedSample
rows = row (pos 1000000) ∷ row (pos 2000000) ∷ row (pos 3000000) ∷ []

-- At an age of 1 ms, one of three rows is left, and the epoch grows.
prune_test :
    prune_aged_history (some (pos 1)) (history_of rows (pos 4)) (pos 3000000)
    ≡ ok (true, history_of (row (pos 3000000) ∷ []) (pos 5))
unfolding retained
prune_test = refl

prune_aged_history_unexpired_example :
    has_expired_training (some (pos 1)) (history_of (row (pos 3000000) ∷ []) (pos 5)) (pos 3000000)
    ≡ false
prune_aged_history_unexpired_example =
    prune_aged_history_unexpired (some (pos 1)) (history_of rows (pos 4))
      (history_of (row (pos 3000000) ∷ []) (pos 5)) (pos 3000000) true prune_test

abbrev decoders : Decoders
decoders = record { hex_bytes = λ s. none; parse = λ s. none; is_invalid_metric = λ m. false }

valid_test : validate_window decoders (pos 3000000) (history_of rows (pos 4)) ≡ ok tt
unfolding retained
valid_test = refl

disorder_test :
    validate_window decoders
      (pos 3000000)
      (history_of (row (pos 2000000) ∷ row (pos 1000000) ∷ []) (pos 4))
    ≡ err not_chronological
unfolding retained
disorder_test = refl

reset_test : reset_window (history_of rows (pos 4)) ≡ ok (history_of [] (pos 5))
unfolding retained
reset_test = refl
