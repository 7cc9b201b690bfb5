-- ===== src/Examples/Sampling.antt =====
-- Slots and samples on a concrete history.
use hpa_plus.Prelude.{
  ℤ, pos, up, down, ◌≤ℤ◌, ◌<ℤ◌, ◌+ℤ◌, ◌-ℤ◌, ◌*ℤ◌, ◌++◌, same_text, true, false, [], ◌∷◌, none, some,
  ok, ◌≡◌, ◌⊎◌, refl,
}
use hpa_plus.Scaling.Windows.{is_after, keep_after}
use hpa_plus.Forecast.Types.{linear}
use hpa_plus.Forecast.History.{filter_cpu_history, later, latest_timestamp}
use hpa_plus.Forecast.Trajectory.{sub_time}
use hpa_plus.Retention.Window.{
  expire_rows, prune_aged_history, check_marker, check_row, check_rows, is_consumed,
  check_cpu_window, validate_window, uses_cpu_history, reset_window,
}
use hpa_plus.Sampler.Slots.{
  second, truncate, sampling_slot, align_up, next_sampling, next_sampling_delay,
}
use hpa_plus.Sampler.Progress.{next_sampling_delay-later}
use hpa_plus.Sampler.Apply.{
  CpuSnapshot, SampledModel, StoredHistory, Sample, SamplerRuntime, fresh_history, stored_or_fresh,
  reset_training, validated, aged_history, slot_taken, skip_slot, lacks_cpu, is_repeated,
  is_unusable, sample_row, append_row, sample_source, sample_slot, reset_due, reset_or_sample,
  started, apply_sample,
}
use hpa_plus.Sampler.Prepare.{
  prepare_sampling, check_start, reset_or_check, reduce_history, reduce_rows,
}
use hpa_plus.Sampler.Once.{IsObserved, sample_slot_once}

unfoldable sampled : Unit {0}
unfolding up down ◌+ℤ◌ ◌-ℤ◌ ◌*ℤ◌ same_text is_after keep_after later latest_timestamp sub_time
    expire_rows prune_aged_history check_marker check_row check_rows is_consumed check_cpu_window
    validate_window uses_cpu_history reset_window truncate sampling_slot align_up next_sampling
    next_sampling_delay fresh_history stored_or_fresh reset_training validated aged_history
    slot_taken skip_slot lacks_cpu is_repeated is_unusable sample_row append_row sample_source
    sample_slot reset_due reset_or_sample started apply_sample
sampled = tt

-- A period of 300 ms: the sampling that follows second 10 is at 11.1 s.
delay_test : next_sampling_delay (pos 10250000000) (pos 300000000) ≡ pos 850000000
unfolding sampled
delay_test = refl

next_sampling_delay-later_example :
    (pos 0 <ℤ next_sampling_delay (pos 10250000000) (pos 300000000))
    × (sampling_slot (pos 10250000000) (pos 300000000) +ℤ second
        ≤ℤ sampling_slot
            (pos 10250000000 +ℤ next_sampling_delay (pos 10250000000) (pos 300000000))
            (pos 300000000))
next_sampling_delay-later_example = next_sampling_delay-later 10250000000 299999999

abbrev runtime : SamplerRuntime
runtime = record {
  decoders = record { hex_bytes = λ s. some 16; parse = λ s. none; is_invalid_metric = λ n. false };
  format = λ t. "time";
  prune = λ rows. some rows;
}

abbrev model : SampledModel
model = record {
  kind = linear;
  start_interval = none;
  reset_duration = none;
  history_max_age = none;
}

abbrev snapshot : CpuSnapshot
snapshot = record {
  source_id = "";
  source_time = pos 0;
  utilization = none;
  total_usage_millicores = some (pos 700);
  request_per_pod_millicores = some (pos 100);
  target_utilization_percentage = some (pos 70);
}

abbrev first : Sample
first = record {
  now = pos 30500000000;
  slot_time = pos 30000000000;
  replicas = pos 3;
  snapshot = snapshot;
  retry_cpu = false;
}

abbrev again : Sample
again = record first { now = pos 31000000000; replicas = pos 4 }

abbrev recorded : StoredHistory
recorded = record {
  history = record (fresh_history linear).history {
    last_sample_time = some (pos 30000000000);
    replica_history = sample_row first (pos 30000000000) ∷ [];
  };
  start_time = none;
}

recorded_test : apply_sample runtime model first none ≡ ok recorded
unfolding sampled
recorded_test = refl

repeated_test : apply_sample runtime model again (some recorded) ≡ ok recorded
unfolding sampled
repeated_test = refl

sample_slot_once_example :
    (recorded.history.replica_history ≡ (fresh_history linear).history.replica_history)
    ⊎ ((observed : ℤ) × IsObserved runtime model first none observed
        × (runtime.prune
              ((fresh_history linear).history.replica_history ++ (sample_row first observed ∷ []))
            ≡ some recorded.history.replica_history)
        × (sample_slot runtime model again none recorded ≡ ok (false, recorded)))
unfolding sampled
sample_slot_once_example =
    sample_slot_once runtime model first again none none (fresh_history linear) recorded true refl
      refl

prepare_test :
    prepare_sampling runtime model (pos 2) (pos 31000000000) (pos 30000000000) (some recorded)
    ≡ ok (false, recorded)
unfolding sampled prepare_sampling check_start reset_or_check reduce_history reduce_rows
    filter_cpu_history
prepare_test = refl
