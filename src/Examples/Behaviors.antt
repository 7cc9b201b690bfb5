-- ===== src/Examples/Behaviors.antt =====
-- The scaling behavior on concrete inputs.
use mathlib.Core.List.{Memᴰ, Permᴰ}
use hpa_plus.Prelude.{
  ℤ, pos, ◌≤ℤ◌, ◌+ℤ◌, ◌-ℤ◌, List, [], ◌∷◌, All, none, some, ok, ◌≡◌, refl, arith,
}
use hpa_plus.Api.Types.{
  TimestampedSample, HpaBehavior, HpaScalingRules, HpaScalingPolicy, mean, median, pods, min_change,
  max_change, disabled,
}
use hpa_plus.Api.Defaults.{default_behavior}
use hpa_plus.Api.Filled.{default_behavior-IsFilled}
use hpa_plus.Scaling.Strategy.{decide_by_strategy}
use hpa_plus.Scaling.Limits.{period_start}
use hpa_plus.Scaling.Behavior.{BehaviorResult, decide_by_behavior, limit_rate, stabilize}
use hpa_plus.Scaling.Stabilization.{stabilize_lowers}
use hpa_plus.Scaling.RateLimit.{
  Between, limit_rate-Between, decide_by_behavior_bounds, decide_by_behavior_up_justified,
  decide_by_behavior_down_justified, decide_by_behavior_total,
}
use hpa_plus.Scaling.Budget.{scale_up_budget, scale_down_budget}
use hpa_plus.Scaling.Choice.{decide_by_strategy-perm}
use hpa_plus.Scaling.ChoiceBounds.{decide_by_strategy_minimum, decide_by_strategy_bounds, InRange}
use hpa_plus.Examples.Evaluation.{evaluated}
use hpa_plus.Examples.Arithmetic.{int_floats, int_floats-laws}

abbrev pub sample : ℤ → ℤ → TimestampedSample
sample time replicas = record {
  time = some time;
  replicas = replicas;
  metric = none;
  total_cpu_usage_millicores = none;
  request_per_pod_millicores = none;
  target_cpu_utilization_percentage = none;
}

abbrev minute : ℤ
minute = pos 60000000000

abbrev four_pods : HpaScalingPolicy
four_pods = record { kind = pods; value = pos 4; period_seconds = pos 15 }

abbrev narrow : HpaScalingRules
narrow = record {
  stabilization_window_seconds = some (pos 0);
  select_policy = some min_change;
  policies = some (four_pods ∷ []);
}

abbrev wide : HpaScalingRules
wide = record narrow { select_policy = some max_change }

abbrev off : HpaScalingRules
off = record narrow { select_policy = some disabled }

abbrev behavior_of : HpaScalingRules → HpaBehavior
behavior_of r = record { scale_up = some r; scale_down = some r }

median_even : decide_by_strategy int_floats median (pos 9 ∷ pos 2 ∷ pos 4 ∷ pos 5 ∷ []) ≡ ok (pos 4)
unfolding evaluated
median_even = refl

-- Two pods were added ten seconds ago, so two more are allowed.
abbrev added_two : List TimestampedSample
added_two = sample (pos 50000000000) (pos 2) ∷ []

scale_up_limit_test :
    limit_rate int_floats (behavior_of narrow) (pos 10) (pos 50) added_two [] minute ≡ ok (pos 12)
unfolding evaluated
scale_up_limit_test = refl

decide_by_strategy-perm_example :
    decide_by_strategy int_floats mean (pos 1 ∷ pos 5 ∷ [])
    ≡ decide_by_strategy int_floats mean (pos 5 ∷ pos 1 ∷ [])
decide_by_strategy-perm_example = decide_by_strategy-perm int_floats mean (Permᴰ.swap refl refl)

abbrev three_counts : List ℤ
three_counts = pos 4 ∷ pos 9 ∷ pos 2 ∷ []

decide_by_strategy_minimum_example : Memᴰ (pos 2) three_counts × All (λ x. pos 2 ≤ℤ x) three_counts
unfolding evaluated
decide_by_strategy_minimum_example = decide_by_strategy_minimum int_floats three_counts (pos 2) refl

decide_by_strategy_bounds_example : InRange 2 9 (pos 5)
unfolding evaluated
decide_by_strategy_bounds_example =
    decide_by_strategy_bounds int_floats int_floats-laws mean 2 9 three_counts (pos 5) (omega arith)
      (omega arith) (omega arith) refl

abbrev ups : List TimestampedSample
ups = sample minute (pos 5) ∷ []

abbrev downs : List TimestampedSample
downs = sample minute (pos 2) ∷ []

stabilize_lowers_example : stabilize (pos 9) (pos 1) ups downs ≤ℤ pos 2
unfolding evaluated
stabilize_lowers_example =
    stabilize_lowers (pos 9) (pos 1) (pos 2) ups downs (omega arith) (omega arith)

limit_rate-Between_example : Between (pos 10) (pos 50) (pos 12)
limit_rate-Between_example =
    limit_rate-Between int_floats (behavior_of narrow) (pos 10) (pos 50) added_two [] minute
      (pos 12) scale_up_limit_test

scale_up_budget_example : pos 12 ≤ℤ period_start (pos 10) added_two [] (pos 15) minute +ℤ pos 4
unfolding evaluated
scale_up_budget_example =
    scale_up_budget int_floats (behavior_of narrow) narrow (pos 10) (pos 50) (pos 12) added_two []
      minute refl refl refl (omega arith) (omega arith) four_pods (Memᴰ.head refl) refl

scale_down_budget_example : period_start (pos 10) [] [] (pos 15) minute -ℤ pos 4 ≤ℤ pos 6
unfolding evaluated
scale_down_budget_example =
    scale_down_budget int_floats (behavior_of narrow) narrow (pos 10) (pos 1) (pos 6) [] [] minute
      refl refl refl (omega arith) (omega arith) four_pods (Memᴰ.head refl) refl

abbrev decided : BehaviorResult
decided = record { stabilized = pos 50; rate_limited = pos 12; desired = pos 11 }

decide_by_behavior_bounds_example : (pos 1 ≤ℤ pos 11) × (pos 11 ≤ℤ pos 11)
unfolding evaluated
decide_by_behavior_bounds_example =
    decide_by_behavior_bounds int_floats (behavior_of narrow) (pos 10) (pos 50) (pos 1) (pos 11) []
      [] added_two [] minute decided (omega arith) refl

decide_by_behavior_up_justified_example :
    (pos 11 ≤ℤ pos 50) × All (λ s. pos 11 ≤ℤ s.replicas) (sample minute (pos 60) ∷ [])
unfolding evaluated
decide_by_behavior_up_justified_example =
    decide_by_behavior_up_justified int_floats (behavior_of narrow) (pos 10) (pos 50) (pos 1)
      (pos 11) (sample minute (pos 60) ∷ []) [] added_two [] minute decided refl (omega arith)
      (omega arith)

abbrev lowered : BehaviorResult
lowered = record { stabilized = pos 2; rate_limited = pos 6; desired = pos 6 }

decide_by_behavior_down_justified_example : (pos 1 ≤ℤ pos 6) × All (λ s. s.replicas ≤ℤ pos 6) downs
unfolding evaluated
decide_by_behavior_down_justified_example =
    decide_by_behavior_down_justified int_floats (behavior_of narrow) (pos 10) (pos 1) (pos 1)
      (pos 20) [] downs [] [] minute lowered refl (omega arith) (omega arith) (omega arith)

decide_by_behavior_total_example :
    (r : BehaviorResult) × (decide_by_behavior int_floats
        (default_behavior none)
        (pos 3)
        (pos 9)
        (pos 1)
        (pos 10)
        []
        []
        []
        []
        minute
      ≡ ok r)
decide_by_behavior_total_example =
    decide_by_behavior_total int_floats (default_behavior none) (pos 3) (pos 9) (pos 1) (pos 10) []
      [] [] [] minute (default_behavior-IsFilled none)
