-- ===== src/Validation/Basics.antt =====
-- validateModelBasics of internal/validation/validation.go, Effective of
-- api/v1alpha1/forecast_reliability.go and EffectiveTolerance of api/v1alpha1/defaults.go.
use hpa_plus.Prelude.{
  ℤ, pos, ltb_ℤ, leb_ℤ, ◌==ℤ◌, ◌*ℤ◌, leb, same_text, String, Bool, false, not, ◌&&◌, ◌||◌, List, [],
  ◌∷◌, Option, none, some, if◌then◌else◌, ok, ◌>>◌,
}
use hpa_plus.Retention.Window.{uses_cpu_history}
use hpa_plus.Validation.Types.{
  FloatTests, ForecastReliabilityPolicy, PolicySpec, XgboostSpec, LightGbmSpec, ModelSpec,
}
use hpa_plus.Validation.Checks.{
  Verdict, all_of, is_given, if_given, every, count_true, one_of, valid_duration, millisecond,
  is_finite,
}

abbrev pub is_text : String → Option String → Bool
is_text s none = false
is_text s (some t) = same_text t s

abbrev pub xgboost_objectives : List String
xgboost_objectives =
    "reg:squarederror" ∷ "reg:squaredlogerror" ∷ "reg:absoluteerror" ∷ "reg:pseudohubererror"
    ∷ "count:poisson" ∷ "reg:gamma" ∷ "reg:tweedie" ∷ "reg:quantileerror" ∷ "survival:aft" ∷ []

abbrev pub light_gbm_objectives : List String
light_gbm_objectives =
    "regression" ∷ "regression_l2" ∷ "l2" ∷ "mean_squared_error" ∷ "mse" ∷ "regression_l1" ∷ "l1"
    ∷ "mean_absolute_error" ∷ "mae" ∷ "huber" ∷ "fair" ∷ "poisson" ∷ "quantile" ∷ "mape"
    ∷ "mean_absolute_percentage_error" ∷ "gamma" ∷ "tweedie" ∷ []

module _ (fl : FloatTests) where
  abbrev is_zero : fl.F → Bool
  is_zero x = fl.le x (fl.lit 0 0) && fl.le (fl.lit 0 0) x

  abbrev or_int : ℤ → ℤ → ℤ
  or_int n default = if n ==ℤ pos 0 then default else n

  -- Finite, and from the first bound to the second.
  abbrev pub finite_within : fl.F → fl.F → fl.F → Bool
  finite_within low high x = is_finite fl x && not (fl.lt x low) && not (fl.lt high x)

  unfoldable pub effective_reliability :
      ForecastReliabilityPolicy fl.F → ForecastReliabilityPolicy fl.F
  effective_reliability p = record {
    calibration_samples = or_int p.calibration_samples (pos 20);
    window = or_int p.window (pos 5);
    breaches = or_int p.breaches (pos 4);
    minimum_relative_error =
        if is_zero p.minimum_relative_error then fl.lit 1 1 else p.minimum_relative_error;
  }

  unfoldable pub valid_reliability : ForecastReliabilityPolicy fl.F → Bool
  valid_reliability p =
      leb_ℤ (pos 10) p.calibration_samples
      && leb_ℤ p.calibration_samples (pos 100)
      && leb_ℤ (pos 2) p.window
      && leb_ℤ p.window (pos 20)
      && leb_ℤ (pos 2) p.breaches
      && leb_ℤ p.breaches p.window
      && ltb_ℤ p.window (p.breaches *ℤ pos 2)
      && finite_within (fl.lit 1 3) (fl.lit 1 0) p.minimum_relative_error

  -- The tolerance that is left out is 0.1.
  unfoldable pub policy_tolerance : PolicySpec fl.F → fl.F
  policy_tolerance p = elim p.tolerance [ none ↦ fl.lit 1 1 | some t ↦ t ]

  unfoldable pub valid_predictive_policy : PolicySpec fl.F → Bool
  valid_predictive_policy p =
      leb_ℤ (pos 0) p.scale_up_lead_seconds
      && leb_ℤ p.scale_up_lead_seconds (pos 3600)
      && finite_within (fl.lit 0 0) (fl.lit 2 1) (policy_tolerance p)

  unfoldable pub check_policy : ModelSpec fl.F → PolicySpec fl.F → Verdict
  check_policy m p = all_of (
      (
        uses_cpu_history m.kind && is_given m.prediction_max_age,
        "predictivePolicy requires a supported model and predictionMaxAge",
      )
      ∷ (
        valid_predictive_policy p,
        "predictivePolicy requires lead time 0..3600 and tolerance 0..0.2",
      )
      ∷ (
        not p.scale_up_lead_from_startup || is_given m.request_demand,
        "scaleUpLeadFromStartup requires requestDemand",
      )
      ∷ [])

  unfoldable pub count_configs : ModelSpec fl.F → List Bool
  count_configs m =
      is_given m.linear
      ∷ is_given m.holt_winters
      ∷ is_given m.arima
      ∷ is_given m.xgboost
      ∷ is_given m.light_gbm
      ∷ []

  abbrev positive_millis : Option ℤ → Bool
  positive_millis value = if_given (λ v. valid_duration v millisecond (pos 1)) value

  unfoldable pub check_durations : ModelSpec fl.F → Verdict
  check_durations m = all_of (
      (positive_millis m.calculation_timeout, "calculationTimeout must be positive")
      ∷ (if_given (leb_ℤ (pos 1)) m.per_sync_period, "perSyncPeriod must be >= 1")
      ∷ (positive_millis m.prediction_max_age, "predictionMaxAge must be positive")
      ∷ (positive_millis m.history_max_age, "historyMaxAge must be positive")
      ∷ (if_given (ltb_ℤ (pos 0)) m.start_interval, "startInterval must be positive")
      ∷ (if_given (ltb_ℤ (pos 0)) m.reset_duration, "resetDuration must be positive")
      ∷ [])

  -- The parameters of survival:aft where that is the objective, and none otherwise.
  unfoldable pub check_aft : XgboostSpec fl.F → Verdict
  check_aft b =
      if is_text "survival:aft" b.objective
      then all_of (
          (
            if_given (λ u. u) b.use_utilization_features,
            "survival:aft requires utilization features",
          )
          ∷ (
            same_text b.forecast_strategy "direct"
                && is_given b.aft_loss_distribution_scale
                && is_given b.cpu_censoring_utilization_threshold,
            "survival:aft requires direct forecasting, a scale and a threshold",
          )
          ∷ (
            if_given (finite_within (fl.lit 5 2) (fl.lit 2 0)) b.aft_loss_distribution_scale,
            "aftLossDistributionScale must be finite and in [0.05, 2]",
          )
          ∷ (
            if_given (finite_within (fl.lit 90 0) (fl.lit 10000 0))
                b.cpu_censoring_utilization_threshold,
            "cpuCensoringUtilizationThreshold must be finite and in [90, 10000]",
          )
          ∷ [])
      else all_of (
          (
            not (is_given b.aft_loss_distribution_scale)
                && not (is_given b.cpu_censoring_utilization_threshold),
            "AFT parameters require objective survival:aft",
          )
          ∷ [])

  -- Strictly between 0 and 1, where the objective is reg:quantileerror, and left out otherwise.
  unfoldable pub valid_quantile : XgboostSpec fl.F → Bool
  valid_quantile b = elim b.quantile_alpha [
    | none ↦ not (is_text "reg:quantileerror" b.objective)
    | some q ↦
        is_text "reg:quantileerror" b.objective
        && is_finite fl q
        && not (fl.le q (fl.lit 0 0))
        && not (fl.le (fl.lit 1 0) q)
  ]

  unfoldable pub check_xgboost_basics : XgboostSpec fl.F → Verdict
  check_xgboost_basics b =
      all_of (
        (
          if_given (finite_within (fl.lit 0 0) (fl.lit 2 0)) b.cpu_demand_weight_exponent,
          "cpuDemandWeightExponent must be finite and in [0, 2]",
        )
        ∷ (
          one_of b.forecast_strategy ("" ∷ "recursive" ∷ "direct" ∷ []),
          "forecastStrategy must be recursive or direct",
        )
        ∷ (
          one_of b.forecast_aggregation ("" ∷ "last" ∷ "maximum" ∷ []),
          "forecastAggregation must be last or maximum",
        )
        ∷ (
          if_given (λ o. one_of o xgboost_objectives) b.objective,
          "XGBoost objective must predict CPU demand",
        )
        ∷ [])
      >> check_aft b
      >> all_of ((valid_quantile b, "reg:quantileerror requires one finite quantileAlpha") ∷ [])

  unfoldable pub check_light_gbm_basics : LightGbmSpec fl.F → Verdict
  check_light_gbm_basics b = all_of (
      (
        if_given (λ o. one_of o light_gbm_objectives) b.objective,
        "LightGBM objective must predict CPU demand",
      )
      ∷ [])

  -- The block that is tested last is the one whose numbers are tested.
  unfoldable pub numeric_of : ModelSpec fl.F → List (Option fl.F)
  numeric_of m = elim m.light_gbm [
    | some b ↦ b.learning_rate ∷ b.subsample ∷ b.colsample_bytree ∷ b.reg_lambda ∷ b.reg_alpha ∷ []
    | none ↦ elim m.xgboost [
      | none ↦ []
      | some b ↦
          b.learning_rate ∷ b.subsample ∷ b.colsample_bytree ∷ b.min_child_weight ∷ b.gamma
          ∷ b.reg_lambda ∷ b.reg_alpha ∷ []
    ]
  ]

  abbrev nonnegative_tree : XgboostSpec fl.F → Bool
  nonnegative_tree b =
      every (λ v. if_given (λ x. not (fl.lt x (fl.lit 0 0))) v) (b.min_child_weight ∷ b.gamma ∷ [])

  abbrev on_given {ℓ} : {A : Type ℓ} → (A → Verdict) → Option A → Verdict
  on_given check none = ok tt
  on_given check (some a) = check a

  unfoldable pub validate_model_basics : ModelSpec fl.F → Verdict
  validate_model_basics m =
      all_of (
        (
          if_given (λ p. valid_reliability (effective_reliability p)) m.forecast_reliability,
          "forecastReliability requires a strict majority of at least two breaches",
        )
        ∷ [])
      >> on_given (check_policy m) m.predictive_policy
      >> all_of (
          (uses_cpu_history m.kind, "unknown model type")
          ∷ (leb (count_true (count_configs m)) 1, "only one model configuration block is allowed")
          ∷ [])
      >> check_durations m
      >> on_given check_xgboost_basics m.xgboost
      >> on_given check_light_gbm_basics m.light_gbm
      >> all_of (
          (every (if_given (is_finite fl)) (numeric_of m), "numeric parameters must be finite")
          ∷ (if_given nonnegative_tree m.xgboost, "XGBoost minChildWeight and gamma must be >= 0")
          ∷ [])
