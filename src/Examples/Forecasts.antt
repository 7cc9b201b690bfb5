-- ===== src/Examples/Forecasts.antt =====
-- Forecasts that are turned into replicas, and histories that are pruned, on concrete inputs.
use mathlib.Core.List.{Memᴰ}
use hpa_plus.Prelude.{
  ℤ, pos, up, down, ◌≤ℤ◌, max_int32, ◌+ℤ◌, ◌-ℤ◌, ◌*ℤ◌, ℕ, ◌+◌, ◌*◌, ◌≤◌, ◌<◌, leb, leb_ℤ, same_text,
  String, ◌≡◌, refl, ◌⊎◌, Option, none, some, List, [], ◌∷◌, ok, if◌then◌else◌,
}
use hpa_plus.Api.Types.{TimestampedSample}
use hpa_plus.Forecast.Types.{
  Clock, CpuForecastPoint, Capacity, Observation, DemandResult, Prediction,
}
use hpa_plus.Forecast.Demand.{
  cpu_kind, same_kind, quotient_up, is_same_identity, is_capacity, check_demand, replicas_for,
  resolve_demand,
}
use hpa_plus.Forecast.Trajectory.{
  sub_time, valid_times, time_of, parses, valid_point, validate_points, validate_trajectory,
}
use hpa_plus.Forecast.Windows.{
  Tolerances, PredictivePolicy, consider, max_demand, scan_point, scan_points, no_scan,
  effective_tolerance, valid_policy, hold_unknown, suppress_small, check_capacity,
  timed_window_replicas,
}
use hpa_plus.Forecast.History.{
  count_cpu_history, prune_cpu_history, newest_rows, sort_rows, insert_row, is_older,
}
use hpa_plus.Forecast.Exact.{unit_of, resolve_demand_exact}
use hpa_plus.Forecast.Timed.{timed_window_replicas_serves, timed_window_replicas_holds}
use hpa_plus.Forecast.Pruning.{prune_cpu_history_count}

unfoldable resolved : Unit {0}
unfolding up down ◌+ℤ◌ ◌-ℤ◌ ◌*ℤ◌ same_text cpu_kind same_kind quotient_up is_same_identity
    is_capacity check_demand replicas_for resolve_demand sub_time valid_times time_of parses
    valid_point validate_points validate_trajectory consider max_demand scan_point scan_points
    no_scan effective_tolerance valid_policy hold_unknown suppress_small check_capacity
    timed_window_replicas count_cpu_history prune_cpu_history newest_rows sort_rows insert_row
    is_older
resolved = tt

-- 200 millicores a pod at 50 percent.
abbrev capacity : Capacity
capacity = record {
  kind = cpu_kind;
  policy = "cpu-request-utilization";
  request_per_pod = pos 200;
  target_percentage = pos 50;
}

abbrev observation : Observation
observation = record { kind = cpu_kind; target = "web"; capacity = capacity }

abbrev result : DemandResult
result = record {
  trajectory = [];
  demand = record { kind = cpu_kind; target = "web"; value = pos 701 };
  consumed_until = none;
}

abbrev prediction : Prediction
prediction = record { trajectory = []; replicas = pos 8; consumed_until = none }

resolve_test : resolve_demand result observation ≡ ok prediction
unfolding resolved
resolve_test = refl

resolve_demand_exact_example :
    (up (pos 701) * 100 ≤ up (pos 8) * unit_of capacity)
    × (up (pos 8) * unit_of capacity < up (pos 701) * 100 + unit_of capacity)
    × (pos 0 ≤ℤ pos 8)
    × (pos 8 ≤ℤ max_int32)
resolve_demand_exact_example = resolve_demand_exact result observation prediction resolve_test

-- Three texts that are times.
abbrev parse : String → Option ℤ
parse s =
    if same_text s "t1"
    then some (pos 1000000000)
    else if same_text s "t2"
    then some (pos 2000000000)
    else if same_text s "t3"
    then some (pos 3000000000)
    else none

abbrev clock : Clock
clock = record { parse = parse; format = λ t. "" }

-- Tolerances in tenths.
abbrev tenths : Tolerances
tenths = record {
  T = ℕ;
  default = 1;
  is_valid = λ t. leb t 2;
  is_positive = λ t. leb 1 t;
  within = λ a b t. leb_ℤ (a *ℤ pos 10) (b *ℤ pos (10 + t));
}

abbrev policy : PredictivePolicy tenths
policy = record { scale_up_lead_seconds = pos 0; tolerance = none }

abbrev early : CpuForecastPoint
early = record { at = "t1"; until = "t2"; cpu = pos 701 }

abbrev late : CpuForecastPoint
late = record { at = "t2"; until = "t3"; cpu = pos 100 }

abbrev points : List CpuForecastPoint
points = early ∷ late ∷ []

serves_test :
    timed_window_replicas clock tenths points policy capacity (pos 4) (pos 1500000000)
    ≡ ok (pos 8, pos 2000000000)
unfolding resolved
serves_test = refl

timed_window_replicas_serves_example :
    (pos 8 ≡ pos 4) ⊎ (up (pos 701) * 100 ≤ up (pos 8) * unit_of capacity)
unfolding resolved
timed_window_replicas_serves_example =
    timed_window_replicas_serves clock tenths points policy capacity (pos 4) (pos 1500000000)
      (pos 8) (pos 2000000000) early (Memᴰ.head refl) refl serves_test

holds_test :
    timed_window_replicas clock tenths points policy capacity (pos 4) (pos 500000000)
    ≡ ok (pos 4, pos 1000000000)
unfolding resolved
holds_test = refl

timed_window_replicas_holds_example : pos 4 ≤ℤ pos 4
unfolding resolved
timed_window_replicas_holds_example =
    timed_window_replicas_holds clock tenths points policy capacity (pos 4) (pos 500000000) (pos 4)
      (pos 1000000000) (refl, (refl, tt)) holds_test

abbrev row : Option ℤ → Option ℤ → TimestampedSample
row t cpu = record {
  time = t;
  replicas = pos 1;
  metric = none;
  total_cpu_usage_millicores = cpu;
  request_per_pod_millicores = none;
  target_cpu_utilization_percentage = none;
}

abbrev rows : List TimestampedSample
rows =
    row (some (pos 30)) (some (pos 3))
    ∷ row (some (pos 20)) (some (pos 2))
    ∷ row none (some (pos 1))
    ∷ []

prune_test :
    prune_cpu_history rows (pos 2)
    ≡ row (some (pos 20)) (some (pos 2)) ∷ row (some (pos 30)) (some (pos 3)) ∷ []
unfolding resolved
prune_test = refl

prune_cpu_history_count_example :
    count_cpu_history (prune_cpu_history rows (pos 2))
    ≡ (if leb (count_cpu_history rows) (up (pos 2)) then count_cpu_history rows else up (pos 2))
prune_cpu_history_count_example = prune_cpu_history_count rows (pos 2)
