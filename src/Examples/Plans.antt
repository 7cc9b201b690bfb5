-- ===== src/Examples/Plans.antt =====
-- Plans of whole cycles on concrete inputs.
use hpa_plus.Prelude.{
  ℤ, pos, up, down, ◌≤ℤ◌, true, false, [], ◌∷◌, All, none, some, ok, ◌≡◌, refl, ◌↔◌, arith, ◌⊎◌,
  ◌+ℤ◌, seconds, false,
}
use hpa_plus.Api.Types.{
  TimestampedSample, HpaBehavior, maximum, observe, control, hold_current, HpaPlusStatus,
}
use hpa_plus.Scaling.Choice.{IsKnown}
use hpa_plus.Decision.Steps.{window_of}
use hpa_plus.Api.Defaults.{default_behavior}
use hpa_plus.Scaling.Windows.{is_after, neg_int32}
use hpa_plus.Decision.Defs.{Spec, Input, PlanResult, plan, plan_cycle, ignore_error}
use hpa_plus.Decision.Success.{IsValid, plan_succeeds}
use hpa_plus.Decision.Safety.{plan_bounds, plan_incomplete_metrics, plan_scale_down_justified}
use hpa_plus.Decision.Hold.{plan_hold}
use hpa_plus.Decision.Modes.{
  Ranged, in_mode, plan_cycle_dry_run, plan_cycle_bounds, plan_cycle_counterfactuals,
}
use hpa_plus.Examples.Arithmetic.{int_floats, int_floats-laws}
use hpa_plus.Examples.Behaviors.{sample}
use hpa_plus.Examples.Evaluation.{evaluated}

abbrev now : ℤ
now = pos 600000000000

abbrev old_high : TimestampedSample
old_high = sample (pos 590000000000) (pos 8)

abbrev steady : HpaBehavior
steady = record {
  scale_up = none;
  scale_down = some (record {
    stabilization_window_seconds = some (pos 60);
    select_policy = none;
    policies = none;
  });
}

abbrev spec : Spec
spec = record {
  mode = none;
  min_replicas = some (pos 2);
  max_replicas = pos 20;
  decision_type = none;
  include_hpa = some true;
  prediction_failure_policy = hold_current;
  models = [];
  behavior = some steady;
}

abbrev pub status : HpaPlusStatus
status = record {
  last_scale_decision_id = "";
  last_scale_time = none;
  scale_up_replica_history = [];
  scale_down_replica_history = old_high ∷ [];
  scale_up_event_history = [];
  scale_down_event_history = [];
  current_replicas = pos 10;
  desired_replicas = pos 10;
}

abbrev input : Input
input = record {
  spec = spec;
  status = status;
  now = now;
  requested = pos 10;
  baseline = pos 4;
  predictions = pos 3 ∷ [];
  metrics_incomplete = false;
}

abbrev plan_of : Input → PlanResult
plan_of i = ignore_error (plan int_floats i false)

-- The target is 4, and the recommendation of 8 ten seconds ago holds the count there.
plan_test : (plan_of input).desired ≡ pos 8
unfolding evaluated
plan_test = refl

input-IsValid : IsValid input
unfolding up down
input-IsValid = record {
  has_clock = refl;
  requested_nonneg = omega arith;
  baseline_nonneg = omega arith;
  min_nonneg = omega arith;
  min-le-max = omega arith;
}

plan_succeeds_example :
    ((r : PlanResult) × (plan int_floats input false ≡ ok r))
    ↔ (IsValid input × All (λ (x : ℤ). pos 0 ≤ℤ x) (pos 3 ∷ []) × IsKnown maximum)
plan_succeeds_example = plan_succeeds int_floats input false

plan_bounds_example : (pos 2 ≤ℤ pos 8) × (pos 8 ≤ℤ pos 20)
unfolding evaluated
plan_bounds_example = plan_bounds int_floats input false (plan_of input) refl

abbrev partial : Input
partial = record input { metrics_incomplete = true }

plan_incomplete_metrics_example : pos 10 ≤ℤ (plan_of partial).desired
unfolding evaluated
plan_incomplete_metrics_example =
    plan_incomplete_metrics int_floats partial false (plan_of partial) refl refl (omega arith)

plan_scale_down_justified_example :
    (pos 4 ≤ℤ pos 8)
    × ((window : ℤ) × (window_of (default_behavior input.spec.behavior).scale_down ≡ some window)
        × All
            (λ s.
              (s.replicas ≤ℤ pos 8)
              ⊎ (is_after s.time (input.now +ℤ seconds (neg_int32 window)) ≡ false))
            input.status.scale_down_replica_history)
unfolding evaluated
plan_scale_down_justified_example =
    plan_scale_down_justified int_floats input false (plan_of input) refl (omega arith)
      (omega arith)

abbrev assisted_plan : PlanResult
assisted_plan = ignore_error (plan int_floats input true)

abbrev unpredicted : Input
unpredicted = record input { predictions = [] }

plan_hold_example :
    ((plan_of unpredicted).selected ≡ pos 10) × ((plan_of unpredicted).desired ≡ pos 10)
unfolding evaluated
plan_hold_example =
    plan_hold int_floats int_floats-laws unpredicted 10 (plan_of unpredicted) refl refl refl
      (omega arith) (omega arith) (omega arith) refl

abbrev cycle_of : Input → PlanResult
cycle_of i = ignore_error (plan_cycle int_floats i)

plan_cycle_dry_run_example :
    let r = cycle_of (in_mode observe input) in
    (t : PlanResult) × (plan_cycle int_floats (in_mode control input) ≡ ok t)
    × (r.control_desired ≡ t.desired)
    × (r.baseline_desired ≡ t.baseline_desired)
    × (r.selected ≡ t.selected)
    × (r.guarded ≡ t.guarded)
    × (r.constraints ≡ t.constraints)
    × (r.desired ≡ pos 10)
    × (r.scale_up_recommendations ≡ [])
    × (r.scale_down_recommendations ≡ [])
unfolding evaluated
plan_cycle_dry_run_example =
    plan_cycle_dry_run int_floats input (cycle_of (in_mode observe input)) refl

plan_cycle_bounds_example : Ranged input (cycle_of input).desired
unfolding evaluated
plan_cycle_bounds_example = plan_cycle_bounds int_floats input (cycle_of input) (λ e. cc) refl

plan_cycle_counterfactuals_example :
    Ranged input (cycle_of input).control_desired × Ranged input (cycle_of input).baseline_desired
unfolding evaluated
plan_cycle_counterfactuals_example =
    plan_cycle_counterfactuals int_floats input (cycle_of input) refl
