-- ===== src/Validation/Types.antt =====
-- The specification of an HPAPlus in api/v1alpha1/hpaplus_types.go, request_demand.go and
-- forecast_reliability.go, over the type of its floats. A text that validation compares with the
-- constants of an enumeration of Api.Types is that type; a map is an association list; each
-- character of a text is one of its bytes.
use hpa_plus.Prelude.{ℤ, ℕ, String, Bool, List, Option}
use hpa_plus.Api.Types.{Mode, DecisionType, FailurePolicy, HpaBehavior}
use hpa_plus.Forecast.Types.{ModelType}
use hpa_plus.Journal.Types.{TargetRef}

-- float64, with the tests that validation makes; `lit n k` is the literal n / 10 ^ k.
pub record FloatTests : Type 1 where
  pub F : Type 0
  pub is_nan : F → Bool
  pub is_inf : F → Bool
  pub lt : F → F → Bool
  pub le : F → F → Bool
  pub lit : ℕ → ℕ → F

pub record DemandExtraMetric : Type 0 where
  pub name : String
  pub metric : String
  pub unit : String
  pub kind : String
  pub max_age_seconds : ℤ

pub record TrafficProviderConfig : Type 0 where
  pub provider : String
  pub namespace_label : String
  pub pod_label : String
  pub pod_uid_label : String
  pub arrivals_metric : String
  pub completions_metric : String
  pub arrival_semantics : String
  pub completion_semantics : String
  pub retry_semantics : String
  pub additional_labels : List (String × String)
  pub errors_metric : String
  pub outcomes_metric : String
  pub latency_bucket_metric : String
  pub max_age_seconds : ℤ

pub record RequestDemandConfig : Type 0 where
  pub traffic : TrafficProviderConfig
  pub forecast_interval_seconds : ℤ
  pub forecast_target : String
  pub extra_metrics : List DemandExtraMetric

pub record HttpHook : Type 0 where
  pub method : String
  pub url : String
  pub headers : List (String × String)
  pub success_codes : List ℤ
  pub parameter_mode : String

pub record HookDefinition : Type 0 where
  pub kind : String
  pub timeout : ℤ
  pub http : Option HttpHook

pub record LinearSpec : Type 0 where
  pub history_size : ℤ
  pub look_ahead : ℤ

pub record ArimaSpec : Type 0 where
  pub order : List ℤ
  pub look_ahead : ℤ
  pub trend : Option String
  pub auto_arima : Option Bool
  pub information_criterion : Option String
  pub max_order : Option (List ℤ)
  pub use_sarima : Option Bool
  pub seasonal_order : Option (List ℤ)
  pub seasonal_periods : Option ℤ
  pub history_size : Option ℤ
  pub incremental_updates : Option Bool
  pub refit_every : Option ℤ

module _ (F : Type 0) where
  pub record ForecastReliabilityPolicy : Type 0 where
    pub calibration_samples : ℤ
    pub window : ℤ
    pub breaches : ℤ
    pub minimum_relative_error : F

  pub record PolicySpec : Type 0 where
    pub scale_up_lead_seconds : ℤ
    pub tolerance : Option F
    pub scale_up_lead_from_startup : Bool

  pub record HoltWintersSpec : Type 0 where
    pub look_ahead : Option ℤ
    pub alpha : Option F
    pub beta : Option F
    pub gamma : Option F
    pub trend : String
    pub seasonal : String
    pub seasonal_periods : ℤ
    pub stored_seasons : ℤ
    pub initialization_method : Option String
    pub initial_level : Option F
    pub initial_trend : Option F
    pub initial_seasonal : Option F
    pub runtime_tuning_fetch_hook : Option HookDefinition

  pub record XgboostSpec : Type 0 where
    pub use_utilization_features : Option Bool
    pub forecast_aggregation : String
    pub forecast_strategy : String
    pub history_size : ℤ
    pub look_ahead : ℤ
    pub lags : ℤ
    pub window_size : Option ℤ
    pub max_depth : Option ℤ
    pub n_estimators : Option ℤ
    pub learning_rate : Option F
    pub subsample : Option F
    pub colsample_bytree : Option F
    pub objective : Option String
    pub quantile_alpha : Option F
    pub cpu_demand_weight_exponent : Option F
    pub aft_loss_distribution_scale : Option F
    pub cpu_censoring_utilization_threshold : Option F
    pub min_child_weight : Option F
    pub gamma : Option F
    pub reg_lambda : Option F
    pub reg_alpha : Option F

  pub record LightGbmSpec : Type 0 where
    pub history_size : ℤ
    pub look_ahead : ℤ
    pub lags : ℤ
    pub window_size : Option ℤ
    pub max_depth : Option ℤ
    pub n_estimators : Option ℤ
    pub learning_rate : Option F
    pub subsample : Option F
    pub colsample_bytree : Option F
    pub objective : Option String
    pub num_leaves : Option ℤ
    pub min_child_samples : Option ℤ
    pub reg_lambda : Option F
    pub reg_alpha : Option F

  pub record ModelSpec : Type 0 where
    pub name : String
    pub kind : ModelType
    pub request_demand : Option RequestDemandConfig
    pub forecast_reliability : Option ForecastReliabilityPolicy
    pub predictive_policy : Option PolicySpec
    pub start_interval : Option ℤ
    pub reset_duration : Option ℤ
    pub calculation_timeout : Option ℤ
    pub per_sync_period : Option ℤ
    pub prediction_max_age : Option ℤ
    pub history_max_age : Option ℤ
    pub linear : Option LinearSpec
    pub holt_winters : Option HoltWintersSpec
    pub arima : Option ArimaSpec
    pub xgboost : Option XgboostSpec
    pub light_gbm : Option LightGbmSpec

-- The metrics of autoscaling/v2. A quantity is its sign.
pub data SourceType : Type 0 where
  resource_source container_source pods_source object_source external_source : SourceType
  other_source : String → SourceType

pub data TargetType : Type 0 where
  value_target average_target utilization_target : TargetType
  other_target : String → TargetType

pub record MetricTarget : Type 0 where
  pub kind : TargetType
  pub value : Option ℤ
  pub average_value : Option ℤ
  pub average_utilization : Option ℤ

-- The selector's text, which LabelSelectorAsSelector reads.
pub record MetricIdentifier : Type 0 where
  pub name : String
  pub selector : String

pub record ResourceMetric : Type 0 where
  pub name : String
  pub target : MetricTarget

pub record NamedMetric : Type 0 where
  pub metric : MetricIdentifier
  pub target : MetricTarget

pub record ObjectMetric : Type 0 where
  pub described_object : TargetRef
  pub metric : MetricIdentifier
  pub target : MetricTarget

pub record MetricSpec : Type 0 where
  pub kind : SourceType
  pub resource : Option ResourceMetric
  pub has_container_resource : Bool
  pub pods : Option NamedMetric
  pub object : Option ObjectMetric
  pub external : Option NamedMetric

pub record HpaPlusSpec (F : Type 0) : Type 0 where
  pub mode : Option Mode
  pub scale_target_ref : TargetRef
  pub min_replicas : Option ℤ
  pub max_replicas : ℤ
  pub metrics : List MetricSpec
  pub behavior : Option HpaBehavior
  pub cpu_initialization_period : Option ℤ
  pub initial_readiness_delay : Option ℤ
  pub tolerance : Option F
  pub sync_period : Option ℤ
  pub metric_max_age : Option ℤ
  pub models : List (ModelSpec F)
  pub decision_type : Option DecisionType
  pub include_hpa : Option Bool
  pub prediction_failure_policy : FailurePolicy
