-- ===== src/Examples/Evaluation.antt =====
-- The definitions that a test evaluates, named once: a test says `unfolding evaluated`.
use hpa_plus.Prelude.{◌+ℤ◌, ◌-ℤ◌, ◌*ℤ◌, quot, up, down}
use hpa_plus.Api.Defaults.{default_behavior, copy_scaling_rules, default_upscale, default_downscale}
use hpa_plus.Scaling.Strategy.{
  decide_by_strategy, check_candidates, select_by_type, median_of, mean_of, sum_loop, max_loop,
  min_loop, sort_replicas, insert_sorted,
}
use hpa_plus.Scaling.Windows.{
  is_after, neg_int32, longest_loop, get_longest_policy_period, keep_after, prune_to_window,
  changes_after, get_replica_changes,
}
use hpa_plus.Scaling.Limits.{
  bounded_replicas, max64, max_i32, min_i32, period_start, propose_up, propose_down, limit_loop,
  up_limit_by, down_limit_by, scale_up_limit, scale_down_limit,
}
use hpa_plus.Scaling.Behavior.{
  lowest_replicas, highest_replicas, stabilize, apply_up_limit, apply_down_limit, clamp_replicas,
  limit_rate, decide_by_behavior,
}
use hpa_plus.Decision.Defs.{
  effective_mode, any_requests_demand, hold_failure, valid_inputs, baseline_joins, candidates_of,
  candidate_mode_of, assisted, guard_metrics, sample_at, recommendations, rate_constraint,
  constraints_of, assemble, zero_result, baseline_input, plan_from, plan, chosen_plan, withhold,
  publish, plan_cycle,
}

unfoldable pub evaluated : Unit {0}
unfolding ◌+ℤ◌ ◌-ℤ◌ ◌*ℤ◌ quot up down default_behavior copy_scaling_rules default_upscale
    default_downscale decide_by_strategy check_candidates select_by_type median_of mean_of sum_loop
    max_loop min_loop sort_replicas insert_sorted is_after neg_int32 longest_loop
    get_longest_policy_period keep_after prune_to_window changes_after get_replica_changes
    bounded_replicas max64 max_i32 min_i32 period_start propose_up propose_down limit_loop
    up_limit_by down_limit_by scale_up_limit scale_down_limit lowest_replicas highest_replicas
    stabilize apply_up_limit apply_down_limit clamp_replicas limit_rate decide_by_behavior
    effective_mode any_requests_demand hold_failure valid_inputs baseline_joins candidates_of
    candidate_mode_of assisted guard_metrics sample_at recommendations rate_constraint
    constraints_of assemble zero_result baseline_input plan_from plan chosen_plan withhold publish
    plan_cycle
evaluated = tt
