-- ===== src/Quality/Types.antt =====
-- The state of internal/forecastquality/quality.go: ForecastReliabilityState and what it holds, of
-- api/v1alpha1/forecast_reliability.go.
use hpa_plus.Prelude.{ℤ, String, Bool, List}
use hpa_plus.Validation.Types.{FloatTests}

-- float64 with the functions of package math that the monitor calls.
pub record ErrorFloats : Type 1 where
  pub tests : FloatTests
  pub of_int : ℤ → tests.F
  pub sub : tests.F → tests.F → tests.F
  pub mul : tests.F → tests.F → tests.F
  pub div : tests.F → tests.F → tests.F
  pub fmax : tests.F → tests.F → tests.F
  pub abs : tests.F → tests.F
  pub neg : tests.F → tests.F
  pub ceil : tests.F → tests.F
  pub to_int : tests.F → ℤ

pub record ForecastVerification : Type 0 where
  pub at : String
  pub until : String
  pub issued_at : String
  pub cpu : ℤ
  pub lead_milliseconds : ℤ

pub record ReliabilityState (F : Type 0) : Type 0 where
  pub fingerprint : String
  pub lead_milliseconds : ℤ
  pub pending : List ForecastVerification
  pub baseline : List F
  pub recent : List F
  pub last_observation_time : String
  pub last_evaluation_time : String
  pub last_interval_end : String
  pub error_bound : F
  pub degraded : Bool
  pub adaptation_pending : Bool
  pub adaptation : String

pub record ReliabilityStatus (F : Type 0) : Type 0 where
  pub state : String
  pub calibration_samples : ℤ
  pub recent_samples : ℤ
  pub underpredictions : ℤ
  pub overpredictions : ℤ
  pub error_bound : F
  pub adaptation_pending : Bool
  pub adaptation : String
