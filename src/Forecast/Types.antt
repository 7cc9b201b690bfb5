-- ===== src/Forecast/Types.antt =====
-- The types of internal/prediction/demand.go, and of a forecast and a model in
-- api/v1alpha1/hpaplus_types.go, as far as the conversion of a forecast reads them.
use hpa_plus.Prelude.{ℤ, String, Bool, Option, List}

-- time.Parse and Time.Format with time.RFC3339Nano.
pub record Clock : Type 0 where
  pub parse : String → Option ℤ
  pub format : ℤ → String

pub record CpuForecastPoint : Type 0 where
  pub at : String
  pub until : String
  pub cpu : ℤ

pub record MetricKind : Type 0 where
  pub source : String
  pub unit : String

pub record Capacity : Type 0 where
  pub kind : MetricKind
  pub policy : String
  pub request_per_pod : ℤ
  pub target_percentage : ℤ

pub record Observation : Type 0 where
  pub kind : MetricKind
  pub target : String
  pub capacity : Capacity

pub record Demand : Type 0 where
  pub kind : MetricKind
  pub target : String
  pub value : ℤ

pub record DemandResult : Type 0 where
  pub trajectory : List CpuForecastPoint
  pub demand : Demand
  pub consumed_until : Option ℤ

-- The Result of internal/prediction/prediction.go.
pub record Prediction : Type 0 where
  pub trajectory : List CpuForecastPoint
  pub replicas : ℤ
  pub consumed_until : Option ℤ

pub data ForecastError : Type 0 where
  identity_mismatch unsupported_conversion invalid_capacity exceeds_int32 : ForecastError
  invalid_length invalid_point invalid_policy invalid_fresh invalid_cadence : ForecastError
  uncovered_horizon invalid_grid invalid_horizon missing_consumed stale_trajectory : ForecastError

-- Linear, XGBoost and LightGBM.
pub record GridConfig : Type 0 where
  pub history_size : ℤ
  pub look_ahead : ℤ

pub record ArimaConfig : Type 0 where
  pub history_size : Option ℤ
  pub look_ahead : ℤ

pub record HoltWintersConfig : Type 0 where
  pub look_ahead : Option ℤ
  pub seasonal_periods : ℤ
  pub stored_seasons : ℤ

pub data ModelType : Type 0 where
  holt_winters linear arima xgboost light_gbm : ModelType
  other : String → ModelType

pub record Model : Type 0 where
  pub kind : ModelType
  pub linear : Option GridConfig
  pub xgboost : Option GridConfig
  pub light_gbm : Option GridConfig
  pub arima : Option ArimaConfig
  pub holt_winters : Option HoltWintersConfig
  pub has_predictive_policy : Bool
