-- ===== src/Decision/Defs.antt =====
-- internal/decision/decision.go and defaults.go, and EffectiveMode of api/v1alpha1/rollout.go.
-- The part of a specification that a plan reads is the record Spec.
use hpa_plus.Prelude.{
  ℤ, pos, ltb_ℤ, ◌==ℤ◌, Bool, true, false, not, ◌&&◌, ◌||◌, List, [], ◌∷◌, ◌++◌, Option, none, some,
  if◌then◌else◌, Result, ok, err, Floats, ◌>>=◌, ◌>>◌,
}
use hpa_plus.Api.Types.{
  DecisionType, maximum, Mode, observe, assist, control, FailurePolicy, reactive, hold_current,
  SelectPolicy, disabled, HpaScalingRules, HpaBehavior, TimestampedSample, HpaPlusStatus,
}
use hpa_plus.Api.Defaults.{default_behavior, default_min_replicas}
use hpa_plus.Scaling.Errors.{Error, invalid_mode, invalid_inputs}
use hpa_plus.Scaling.Strategy.{decide_by_strategy}
use hpa_plus.Scaling.Windows.{get_longest_policy_period, prune_to_window}
use hpa_plus.Scaling.Limits.{deref}
use hpa_plus.Scaling.Behavior.{BehaviorResult, decide_by_behavior}

-- A model of the specification, as far as a plan reads it.
pub record PlanModel : Type 0 where
  pub requests_demand : Bool

pub record Spec : Type 0 where
  pub mode : Option Mode
  pub min_replicas : Option ℤ
  pub max_replicas : ℤ
  pub decision_type : Option DecisionType
  pub include_hpa : Option Bool
  pub prediction_failure_policy : FailurePolicy
  pub models : List PlanModel
  pub behavior : Option HpaBehavior

pub record Input : Type 0 where
  pub spec : Spec
  pub status : HpaPlusStatus
  pub now : ℤ
  pub requested : ℤ
  pub baseline : ℤ
  pub predictions : List ℤ
  pub metrics_incomplete : Bool

-- Result.Mode.
pub data CandidateMode : Type 0 where
  baseline_mode hold_mode predictive_mode mixed_mode no_mode : CandidateMode

-- The texts of Result.Constraints.
pub data Constraint : Type 0 where
  prediction_unavailable_hold assist_baseline partial_metrics stabilization : Constraint
  rate_limit disabled_rate minimum_bound maximum_bound : Constraint

pub record PlanResult : Type 0 where
  pub rollout_mode : Mode
  pub baseline_desired : ℤ
  pub control_desired : ℤ
  pub constraints : List Constraint
  pub candidate_mode : CandidateMode
  pub baseline_included : Bool
  pub metrics_held : Bool
  pub selected : ℤ
  pub guarded : ℤ
  pub desired : ℤ
  pub scale_up_recommendations : List TimestampedSample
  pub scale_down_recommendations : List TimestampedSample

unfoldable pub effective_mode : Spec → Mode
effective_mode s = elim s.mode [ none ↦ control | some m ↦ m ]

abbrev pub or_default {ℓ} : {A : Type ℓ} → Option A → A → A
or_default none d = d
or_default (some a) d = a

abbrev pub is_empty {ℓ} : {A : Type ℓ} → List A → Bool
is_empty [] = true
is_empty (x ∷ xs) = false

abbrev pub is_hold : FailurePolicy → Bool
is_hold hold_current = true
is_hold _ = false

unfoldable pub any_requests_demand : List PlanModel → Bool
any_requests_demand [] = false
any_requests_demand (m ∷ ms) = m.requests_demand || any_requests_demand ms

abbrev pub min_of : Spec → ℤ
min_of s = or_default s.min_replicas default_min_replicas

unfoldable pub hold_failure : Spec → Bool
hold_failure s = is_hold s.prediction_failure_policy || any_requests_demand s.models

unfoldable pub valid_inputs : Input → Bool
valid_inputs i = not (
    i.now ==ℤ pos 0
    || ltb_ℤ i.requested (pos 0)
    || ltb_ℤ i.baseline (pos 0)
    || ltb_ℤ (min_of i.spec) (pos 0)
    || ltb_ℤ i.spec.max_replicas (min_of i.spec))

unfoldable pub baseline_joins : Input → Bool
baseline_joins i =
    (is_empty i.predictions && not (hold_failure i.spec))
    || (not (is_empty i.predictions) && or_default i.spec.include_hpa false)

unfoldable pub candidates_of : Input → List ℤ
candidates_of i =
    let held =
      if is_empty i.predictions && hold_failure i.spec then i.requested ∷ [] else i.predictions in
    if baseline_joins i then held ++ (i.baseline ∷ []) else held

unfoldable pub candidate_mode_of : Input → Bool → CandidateMode
candidate_mode_of i assisting =
    if is_empty i.predictions
    then (if hold_failure i.spec then hold_mode else baseline_mode)
    else (if baseline_joins i || assisting then mixed_mode else predictive_mode)

-- The constraint `name` where the test holds.
abbrev pub when : Bool → Constraint → List Constraint
when true c = c ∷ []
when false c = []

abbrev pub is_disabled : SelectPolicy → Bool
is_disabled disabled = true
is_disabled _ = false

-- The count that assist mode raises to the baseline.
unfoldable pub assisted : Input → Bool → ℤ → ℤ
assisted i assisting selected =
    if assisting && ltb_ℤ selected i.baseline then i.baseline else selected

unfoldable pub guard_metrics : Input → ℤ → ℤ
guard_metrics i selected =
    if i.metrics_incomplete && ltb_ℤ selected i.requested then i.requested else selected

-- A recommendation of this cycle.
unfoldable pub sample_at : ℤ → ℤ → TimestampedSample
sample_at now replicas = record {
  time = some now;
  replicas = replicas;
  metric = none;
  total_cpu_usage_millicores = none;
  request_per_pod_millicores = none;
  target_cpu_utilization_percentage = none;
}

-- The recommendations in a window, with this cycle's.
unfoldable pub recommendations : List TimestampedSample → ℤ → ℤ → ℤ → List TimestampedSample
recommendations history window now guarded =
    prune_to_window history window now ++ (sample_at now guarded ∷ [])

abbrev pub rate_reason : Bool → Constraint
rate_reason true = disabled_rate
rate_reason false = rate_limit

-- `*rules.SelectPolicy == DisabledPolicySelect`.
abbrev pub is_off : Option HpaScalingRules → Result Error Bool
is_off rules = do r ← deref rules; select ← deref r.select_policy; ok (is_disabled select)

-- Why the rate limit changed the stabilized count, if it did.
unfoldable pub rate_constraint : HpaBehavior → ℤ → BehaviorResult → Result Error (List Constraint)
rate_constraint behavior requested d =
    if d.rate_limited ==ℤ d.stabilized
    then ok []
    else if ltb_ℤ requested d.stabilized
    then (is_off behavior.scale_up >>= λ off. ok (rate_reason off ∷ []))
    else if ltb_ℤ d.stabilized requested
    then (is_off behavior.scale_down >>= λ off. ok (rate_reason off ∷ []))
    else ok (rate_limit ∷ [])

unfoldable pub constraints_of :
    Input → Bool → (selected guarded : ℤ) → BehaviorResult → List Constraint → List Constraint
constraints_of i assisting selected guarded d rate =
    when (is_empty i.predictions && hold_failure i.spec) prediction_unavailable_hold
    ++ when (assisting && ltb_ℤ selected i.baseline) assist_baseline
    ++ when (i.metrics_incomplete && ltb_ℤ (assisted i assisting selected) i.requested)
        partial_metrics
    ++ when (not (d.stabilized ==ℤ guarded)) stabilization
    ++ rate
    ++ when (ltb_ℤ d.rate_limited (min_of i.spec)) minimum_bound
    ++ when (ltb_ℤ i.spec.max_replicas d.rate_limited) maximum_bound

-- The result of `plan`, whose rollout fields the cycle sets.
unfoldable pub assemble :
    Input
    → Bool
    → ℤ
    → (ups downs : List TimestampedSample) → BehaviorResult
    → List Constraint
    → PlanResult
assemble i assisting selected ups downs details rate =
    let chosen = assisted i assisting selected in
    record {
      rollout_mode = Mode.other "";
      baseline_desired = pos 0;
      control_desired = pos 0;
      constraints = constraints_of i assisting selected (guard_metrics i chosen) details rate;
      candidate_mode = candidate_mode_of i assisting;
      baseline_included = baseline_joins i || assisting;
      metrics_held = i.metrics_incomplete && ltb_ℤ chosen i.requested;
      selected = chosen;
      guarded = guard_metrics i chosen;
      desired = details.desired;
      scale_up_recommendations = ups;
      scale_down_recommendations = downs;
    }

abbrev pub check_mode : Mode → Result Error (Unit {0})
check_mode (Mode.other s) = err invalid_mode
check_mode _ = ok tt

-- What Go leaves in `x, _ := f()` where f fails: the zero value.
unfoldable pub zero_result : PlanResult
zero_result = record {
  rollout_mode = Mode.other "";
  baseline_desired = pos 0;
  control_desired = pos 0;
  constraints = [];
  candidate_mode = no_mode;
  baseline_included = false;
  metrics_held = false;
  selected = pos 0;
  guarded = pos 0;
  desired = pos 0;
  scale_up_recommendations = [];
  scale_down_recommendations = [];
}

abbrev pub ignore_error : Result Error PlanResult → PlanResult
ignore_error (ok r) = r
ignore_error (err e) = zero_result

-- The input of the reactive counterfactual.
unfoldable pub baseline_input : Input → Input
baseline_input i = record i {
  predictions = [];
  spec = record (i.spec) { models = []; prediction_failure_policy = reactive };
}

module _ (fl : Floats) where
  -- `plan(in, assist)` from the selected count on.
  unfoldable pub plan_from : Input → Bool → ℤ → Result Error PlanResult
  plan_from i assisting selected = do
    let chosen = assisted i assisting selected
    let guarded = guard_metrics i chosen
    let behavior = default_behavior i.spec.behavior
    up ← deref behavior.scale_up
    down ← deref behavior.scale_down
    up_window ← deref up.stabilization_window_seconds
    down_window ← deref down.stabilization_window_seconds
    let ups = recommendations i.status.scale_up_replica_history up_window i.now guarded
    let downs = recommendations i.status.scale_down_replica_history down_window i.now guarded
    let up_period = get_longest_policy_period behavior.scale_up
    let down_period = get_longest_policy_period behavior.scale_down
    let up_events = prune_to_window i.status.scale_up_event_history up_period i.now
    let down_events = prune_to_window i.status.scale_down_event_history down_period i.now
    details ←
        decide_by_behavior fl behavior i.requested guarded (min_of i.spec) i.spec.max_replicas ups
          downs up_events down_events i.now
    rate ← rate_constraint behavior i.requested details
    ok (assemble i assisting selected ups downs details rate)

  unfoldable pub plan : Input → Bool → Result Error PlanResult
  plan i assisting = do
    if valid_inputs i then ok tt else err invalid_inputs
    selected ← decide_by_strategy fl (or_default i.spec.decision_type maximum) (candidates_of i)
    plan_from i assisting selected

  -- Assist mode plans again, with the baseline as a floor.
  unfoldable pub chosen_plan : Input → Mode → PlanResult → PlanResult
  chosen_plan i assist control_plan = ignore_error (plan i true)
  chosen_plan i _ control_plan = control_plan

  -- Observe mode keeps the requested count and withholds the recommendations.
  unfoldable pub withhold : Input → Mode → PlanResult → PlanResult
  withhold i observe r = record r {
    desired = i.requested;
    scale_up_recommendations = [];
    scale_down_recommendations = [];
  }
  withhold i _ r = r

  unfoldable pub publish : Input → Mode → PlanResult → PlanResult → PlanResult
  publish i mode control_plan baseline_plan =
      let chosen = chosen_plan i mode control_plan in
      withhold i mode (record chosen {
        rollout_mode = mode;
        baseline_desired = baseline_plan.desired;
        control_desired = control_plan.desired;
      })

  unfoldable pub plan_cycle : Input → Result Error PlanResult
  plan_cycle i = do
    check_mode (effective_mode i.spec)
    control_plan ← plan i false
    let baseline_plan = ignore_error (plan (baseline_input i) false)
    ok (publish i (effective_mode i.spec) control_plan baseline_plan)
