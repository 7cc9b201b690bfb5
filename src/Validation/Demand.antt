-- ===== src/Validation/Demand.antt =====
-- internal/validation/request_demand.go, and ValidateConfig of internal/workloaddemand/traffic.go.
use Prim.Native.String.{len}
use text.Mathlib.Text.{starts_with}
use hpa_plus.Prelude.{
  ℤ, pos, leb_ℤ, ◌==ℤ◌, leb, length, same_text, String, Bool, true, false, not, ◌&&◌, ◌||◌, List,
  [], ◌∷◌, Option, none, some, if◌then◌else◌, ok, err, require, ◌>>◌,
}
use hpa_plus.Api.Types.{FailurePolicy, hold_current, Mode, assist}
use hpa_plus.Forecast.Types.{ModelType, xgboost}
use hpa_plus.Validation.Types.{
  DemandExtraMetric, TrafficProviderConfig, RequestDemandConfig, XgboostSpec, ModelSpec,
  HpaPlusSpec,
}
use hpa_plus.Validation.Checks.{Verdict, all_of, for_each, is_given, every, one_of, Externals}

unfoldable pub valid_interval : ℤ → Bool
valid_interval n = n ==ℤ pos 0 || n ==ℤ pos 5 || n ==ℤ pos 10 || n ==ℤ pos 15 || n ==ℤ pos 30

unfoldable pub check_forecast_target : RequestDemandConfig → Verdict
check_forecast_target config =
    if one_of config.forecast_target ("" ∷ "arrivals" ∷ [])
    then ok tt
    else if same_text config.forecast_target "reconstructedCPU"
    then require
        (config.forecast_interval_seconds ==ℤ pos 0 || config.forecast_interval_seconds ==ℤ pos 30)
        "reconstructedCPU forecasts use the thirty-second grid"
    else err "request forecast target must be arrivals or reconstructedCPU"

abbrev pub or_text : String → String → String
or_text text default = if same_text text "" then default else text

-- The labels of the namespace, the pod and its UID.
unfoldable pub scope_labels : TrafficProviderConfig → String × String × String
scope_labels t = (
  or_text t.namespace_label "namespace",
  or_text t.pod_label "pod",
  or_text t.pod_uid_label "pod_uid",
)

unfoldable pub valid_semantics : TrafficProviderConfig → Bool
valid_semantics t =
    same_text t.provider "prometheus"
    && same_text t.arrival_semantics "started"
    && same_text t.completion_semantics "finished"
    && one_of t.retry_semantics ("attempts" ∷ "original" ∷ [])

abbrev pub reserved_names : List String
reserved_names =
    "cpu_usage" ∷ "memory_usage" ∷ "cpu_throttled" ∷ "cpu_pressure" ∷ "requested_replicas"
    ∷ "ready_replicas" ∷ "running_replicas" ∷ "cpu_request_per_pod" ∷ []

module _ (x : Externals) where
  unfoldable pub valid_counters : TrafficProviderConfig → Bool
  valid_counters t =
      x.is_metric_name t.arrivals_metric
      && x.is_metric_name t.completions_metric
      && every (λ m. same_text m "" || x.is_metric_name m)
          (t.errors_metric ∷ t.outcomes_metric ∷ t.latency_bucket_metric ∷ [])

  unfoldable pub valid_labels : TrafficProviderConfig → Bool
  valid_labels t =
      let (ns, pod, uid) = scope_labels t in
      x.is_label_name ns
      && x.is_label_name pod
      && x.is_label_name uid
      && not (same_text ns pod)
      && not (same_text ns uid)
      && not (same_text pod uid)

  unfoldable pub valid_additional : TrafficProviderConfig → String × String → Bool
  valid_additional t label =
      let (ns, pod, uid) = scope_labels t in
      leb (len label.1) 256
      && x.is_label_name label.0
      && not (one_of label.0 (ns ∷ pod ∷ uid ∷ "le" ∷ []))

  unfoldable pub valid_extra_name : List String → DemandExtraMetric → Bool
  valid_extra_name names m =
      x.is_label_name m.name && not (one_of m.name names) && not (starts_with m.name "traffic_")

  unfoldable pub valid_extra_metric : DemandExtraMetric → Bool
  valid_extra_metric m =
      x.is_metric_name m.metric
      && not (same_text m.unit "")
      && leb (len m.unit) 64
      && one_of m.kind ("gauge" ∷ "counter" ∷ [])
      && leb_ℤ (pos 0) m.max_age_seconds
      && leb_ℤ m.max_age_seconds (pos 120)

  -- The names that were met so far are taken.
  unfoldable pub check_extra_metrics : List String → List DemandExtraMetric → Verdict
  check_extra_metrics names [] = ok tt
  check_extra_metrics names (m ∷ rest) =
      require (valid_extra_name names m) "extra metric names must be unique valid names"
      >> require (valid_extra_metric m) "extra metrics require a metric name, unit, kind and age"
      >> check_extra_metrics (m.name ∷ names) rest

  unfoldable pub validate_config : RequestDemandConfig → Verdict
  validate_config config =
      let t = config.traffic in
      require (valid_interval config.forecast_interval_seconds) "request forecast interval"
      >> check_forecast_target config
      >> all_of (
          (valid_semantics t, "requestDemand requires prometheus and explicit semantics")
          ∷ (not (same_text t.arrivals_metric t.completions_metric), "counters must be distinct")
          ∷ (valid_counters t, "invalid metric name")
          ∷ (valid_labels t, "labels must be distinct valid label names")
          ∷ (leb (length t.additional_labels) 16, "at most sixteen additional labels")
          ∷ (every (valid_additional t) t.additional_labels, "invalid additional label")
          ∷ (
            leb_ℤ (pos 0) t.max_age_seconds && leb_ℤ t.max_age_seconds (pos 30),
            "traffic maxAgeSeconds must be between 1 and 30, or omitted",
          )
          ∷ (leb (length config.extra_metrics) 16, "at most sixteen optional metrics")
          ∷ [])
      >> check_extra_metrics reserved_names config.extra_metrics

  module _ (F : Type 0) where
    abbrev pub is_explicit_sync : Option ℤ → Bool
    is_explicit_sync none = false
    is_explicit_sync (some period) = period ==ℤ pos 30000

    abbrev pub is_xgboost : ModelType → Bool
    is_xgboost xgboost = true
    is_xgboost _ = false

    abbrev pub is_direct : Option (XgboostSpec F) → Bool
    is_direct none = false
    is_direct (some b) = same_text b.forecast_strategy "direct"

    abbrev pub is_hold : FailurePolicy → Bool
    is_hold hold_current = true
    is_hold _ = false

    -- A mode that is left out is control.
    abbrev pub is_assist : Option Mode → Bool
    is_assist none = false
    is_assist (some assist) = true
    is_assist (some _) = false

    abbrev pub excludes_hpa : Option Bool → Bool
    excludes_hpa none = false
    excludes_hpa (some b) = not b

    abbrev pub known_failure_policy : FailurePolicy → Bool
    known_failure_policy (FailurePolicy.other s) = same_text s ""
    known_failure_policy _ = true

    unfoldable pub check_demand_model : HpaPlusSpec F → ModelSpec F → RequestDemandConfig → Verdict
    check_demand_model spec model config =
        all_of (
          (is_explicit_sync spec.sync_period, "requestDemand requires an explicit syncPeriod")
          ∷ (is_xgboost model.kind && is_given model.xgboost, "requestDemand is for XGBoost only")
          ∷ (is_direct model.xgboost, "requestDemand requires direct forecast strategy")
          ∷ (
            is_given model.predictive_policy && is_given model.prediction_max_age,
            "requestDemand requires predictivePolicy and predictionMaxAge",
          )
          ∷ (is_hold spec.prediction_failure_policy, "requestDemand requires HoldCurrent")
          ∷ (
            excludes_hpa spec.include_hpa && not (is_assist spec.mode),
            "requestDemand requires explicit includeHPA false",
          )
          ∷ [])
        >> validate_config config

    unfoldable pub check_model_demand : HpaPlusSpec F → ModelSpec F → Verdict
    check_model_demand spec model = elim model.request_demand [
      | none ↦ ok tt
      | some config ↦ check_demand_model spec model config
    ]

    unfoldable pub validate_request_demand : HpaPlusSpec F → Verdict
    validate_request_demand spec =
        require (known_failure_policy spec.prediction_failure_policy)
          "predictionFailurePolicy must be HoldCurrent or Reactive"
        >> for_each (check_model_demand spec) spec.models
