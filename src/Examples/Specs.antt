-- ===== src/Examples/Specs.antt =====
-- Validation of a specification with one Holt-Winters model, with floats in thousandths.
use hpa_plus.Prelude.{
  ℤ, pos, up, down, ◌≤ℤ◌, ◌*ℤ◌, ◌+ℤ◌, ◌-ℤ◌, ◌*◌, ◌^◌, ltb_ℤ, leb_ℤ, quot, max_int64, same_text,
  false, true, [], ◌∷◌, none, some, ok, err, ◌≡◌, refl, arith,
}
use hpa_plus.Api.Types.{reactive, observe}
use hpa_plus.Forecast.Types.{holt_winters}
use hpa_plus.Decision.Defs.{Input, PlanResult, plan_cycle}
use hpa_plus.Validation.Types.{
  FloatTests, HoltWintersSpec, ModelSpec, MetricSpec, HpaPlusSpec, resource_source,
  utilization_target,
}
use hpa_plus.Validation.Checks.{Externals}
use hpa_plus.Validation.Checks.{all_of, one_of, valid_duration, finite_nonnegative}
use hpa_plus.Validation.Demand.{
  valid_interval, check_forecast_target, scope_labels, valid_semantics, valid_counters,
  valid_labels, valid_additional, valid_extra_name, valid_extra_metric, check_extra_metrics,
  validate_config, check_demand_model, check_model_demand, validate_request_demand,
}
use hpa_plus.Validation.Kubernetes.{
  valid_url, valid_policy_rule, validate_rules, has_positive, valid_target_type, check_target,
  check_http, validate_hook, valid_group_version, validate_reference, check_identifier,
  check_source, validate_metric, check_behavior, validate_kubernetes_spec,
}
use hpa_plus.Validation.Basics.{
  effective_reliability, valid_reliability, policy_tolerance, valid_predictive_policy, check_policy,
  count_configs, check_durations, check_aft, valid_quantile, check_xgboost_basics,
  check_light_gbm_basics, numeric_of, validate_model_basics,
}
use hpa_plus.Validation.Models.{
  within, is_seasonal, valid_trend_degree, check_arima_order, check_arima_season,
  check_arima_selection, check_arima, check_linear, check_xgboost, check_light_gbm, check_initial,
  validate_initialization, check_holt_winters, check_type,
}
use hpa_plus.Validation.Spec.{
  nominal_period, initialization_minimum, valid_seasons, check_factor, retained_seasons,
  retained_history, exceeds_cadence, check_retained, validate_model_history, has_cpu_utilization,
  validate_model, validate_models, validate_spec, validate_min_max, validate,
}
use hpa_plus.Retention.Window.{uses_cpu_history}
use hpa_plus.Validation.Sound.{plan_spec, validate-plan_cycle}
use hpa_plus.Validation.Window.{valid_seasons-no_overflow, validate_model_history-fits}
use hpa_plus.Examples.Arithmetic.{int_floats}
use hpa_plus.Examples.Plans.{status}

unfoldable validated : Unit {0}
unfolding up down ◌+ℤ◌ ◌-ℤ◌ ◌*ℤ◌ quot same_text uses_cpu_history plan_spec all_of one_of
    valid_duration finite_nonnegative valid_interval check_forecast_target scope_labels
    valid_semantics valid_counters valid_labels valid_additional valid_extra_name valid_extra_metric
    check_extra_metrics validate_config check_demand_model check_model_demand
    validate_request_demand valid_url valid_policy_rule validate_rules has_positive
    valid_target_type check_target check_http validate_hook valid_group_version validate_reference
    check_identifier check_source validate_metric check_behavior validate_kubernetes_spec
    effective_reliability valid_reliability policy_tolerance valid_predictive_policy check_policy
    count_configs check_durations check_aft valid_quantile check_xgboost_basics
    check_light_gbm_basics numeric_of validate_model_basics within is_seasonal valid_trend_degree
    check_arima_order check_arima_season check_arima_selection check_arima check_linear
    check_xgboost check_light_gbm check_initial validate_initialization check_holt_winters
    check_type nominal_period initialization_minimum valid_seasons check_factor retained_seasons
    retained_history exceeds_cadence check_retained validate_model_history has_cpu_utilization
    validate_model validate_models validate_spec validate_min_max validate
validated = tt

abbrev pub thousandths : FloatTests
thousandths = record {
  F = ℤ;
  is_nan = λ x. false;
  is_inf = λ x. false;
  lt = ltb_ℤ;
  le = leb_ℤ;
  lit = λ n k. quot (pos (n * 1000)) (pos (10 ^ k));
}

abbrev accepting : Externals
accepting = record {
  is_blank = λ s. same_text s "";
  is_path_segment = λ s. true;
  parse_group_version = λ s. some ("apps", "v1");
  is_dns1035_label = λ s. true;
  is_dns1123_subdomain = λ s. true;
  is_qualified_name = λ s. true;
  is_selector = λ s. true;
  is_metric_name = λ s. true;
  is_label_name = λ s. true;
  parse_url = λ s. none;
  is_header_name = λ s. true;
  is_header_value = λ s. true;
}

abbrev seasons : HoltWintersSpec ℤ
seasons = record {
  look_ahead = some (pos 60000);
  alpha = some (pos 500);
  beta = some (pos 100);
  gamma = some (pos 300);
  trend = "add";
  seasonal = "additive";
  seasonal_periods = pos 60;
  stored_seasons = pos 3;
  initialization_method = none;
  initial_level = none;
  initial_trend = none;
  initial_seasonal = none;
  runtime_tuning_fetch_hook = none;
}

abbrev model : ModelSpec ℤ
model = record {
  name = "seasonal";
  kind = holt_winters;
  request_demand = none;
  forecast_reliability = none;
  predictive_policy = some (record {
    scale_up_lead_seconds = pos 30;
    tolerance = none;
    scale_up_lead_from_startup = false;
  });
  start_interval = none;
  reset_duration = none;
  calculation_timeout = some (pos 1000);
  per_sync_period = some (pos 4);
  prediction_max_age = some (pos 120000);
  history_max_age = some (pos 3600000);
  linear = none;
  holt_winters = some seasons;
  arima = none;
  xgboost = none;
  light_gbm = none;
}

abbrev cpu_metric : MetricSpec
cpu_metric = record {
  kind = resource_source;
  resource = some (record {
    name = "cpu";
    target = record {
      kind = utilization_target;
      value = none;
      average_value = none;
      average_utilization = some (pos 70);
    };
  });
  has_container_resource = false;
  pods = none;
  object = none;
  external = none;
}

abbrev spec : HpaPlusSpec ℤ
spec = record {
  mode = some observe;
  scale_target_ref = record { kind = "Deployment"; name = "web"; api_version = "apps/v1" };
  min_replicas = some (pos 2);
  max_replicas = pos 20;
  metrics = cpu_metric ∷ [];
  behavior = none;
  cpu_initialization_period = none;
  initial_readiness_delay = none;
  tolerance = some (pos 100);
  sync_period = some (pos 15000);
  metric_max_age = none;
  models = model ∷ [];
  decision_type = none;
  include_hpa = none;
  prediction_failure_policy = reactive;
}

accepted_test : validate thousandths accepting (some spec) ≡ ok tt
unfolding validated
accepted_test = refl

-- A second model of the same name.
duplicate_test :
    validate thousandths accepting (some (record spec { models = model ∷ model ∷ [] }))
    ≡ err "model names must be non-empty and unique"
unfolding validated
duplicate_test = refl

-- No object or external metric.
zero_test :
    validate thousandths accepting (some (record spec { min_replicas = some (pos 0) }))
    ≡ err "spec.minReplicas can only be 0 with an object or external metric"
unfolding validated
zero_test = refl

abbrev input : Input
input = record {
  spec = plan_spec thousandths accepting spec;
  status = status;
  now = pos 600000000000;
  requested = pos 10;
  baseline = pos 6;
  predictions = pos 12 ∷ [];
  metrics_incomplete = false;
}

validate-plan_cycle_example : (r : PlanResult) × (plan_cycle int_floats input ≡ ok r)
unfolding validated
validate-plan_cycle_example =
    validate-plan_cycle thousandths accepting spec int_floats input refl refl refl (omega arith)
      (omega arith) (omega arith, tt)

valid_seasons-no_overflow_example :
    (pos 2 ≤ℤ pos 60 *ℤ pos 3)
    × (pos 60 *ℤ pos 3 ≤ℤ max_int64)
    × (pos 0 ≤ℤ initialization_minimum (pos 60))
    × (initialization_minimum (pos 60) ≤ℤ max_int64)
unfolding validated
valid_seasons-no_overflow_example = valid_seasons-no_overflow thousandths seasons refl

validate_model_history-fits_example :
    (nominal_period (some (pos 15000)) *ℤ pos 180 ≤ℤ pos 3600000)
    × (pos 15000 ≤ℤ nominal_period (some (pos 15000)))
    × (pos 1000 ≤ℤ nominal_period (some (pos 15000)))
unfolding validated
validate_model_history-fits_example =
    validate_model_history-fits thousandths model (some (pos 15000)) (pos 180) (pos 3600000) refl
      refl refl (omega arith) (omega arith)
