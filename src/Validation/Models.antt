-- ===== src/Validation/Models.antt =====
-- The model blocks of validateModels in internal/validation/validation.go, and
-- validateInitialization of internal/validation/nested.go.
use hpa_plus.Prelude.{
  ℤ, pos, negsuc, ltb_ℤ, leb_ℤ, ◌==ℤ◌, ◌==◌, length, String, Bool, true, not, ◌&&◌, ◌||◌, List, [],
  ◌∷◌, Option, none, some, ok, err, ◌>>◌,
}
use hpa_plus.Forecast.Types.{ModelType, holt_winters, linear, arima, xgboost, light_gbm}
use hpa_plus.Validation.Types.{
  FloatTests, HoltWintersSpec, LinearSpec, ArimaSpec, XgboostSpec, LightGbmSpec, ModelSpec,
}
use hpa_plus.Validation.Checks.{
  Verdict, all_of, is_given, if_given, is_set, every, one_of, valid_duration, millisecond,
  is_finite, Externals,
}
use hpa_plus.Validation.Basics.{is_text}
use hpa_plus.Validation.Kubernetes.{validate_hook}

abbrev is_nonneg : ℤ → Bool
is_nonneg = leb_ℤ (pos 0)

abbrev at_least : ℤ → Option ℤ → Bool
at_least n = if_given (leb_ℤ n)

-- Each number is at most the one at its place in the second list.
unfoldable pub within : List ℤ → List ℤ → Bool
within (a ∷ xs) (b ∷ ys) = leb_ℤ a b && within xs ys
within _ _ = true

-- The second number of an order [p, d, q].
abbrev pub differencing : List ℤ → ℤ
differencing (p ∷ d ∷ rest) = d
differencing _ = pos 0

unfoldable pub is_seasonal : ArimaSpec → Bool
is_seasonal a = is_set a.use_sarima || is_given a.seasonal_order || is_given a.seasonal_periods

abbrev has_length_three : List ℤ → Bool
has_length_three xs = length xs == 3

unfoldable pub valid_trend_degree : ArimaSpec → Bool
valid_trend_degree a =
    let d = differencing a.order in
    not (
      (ltb_ℤ (pos 0) d && (is_text "c" a.trend || is_text "ct" a.trend))
      || (ltb_ℤ (pos 1) d && is_text "t" a.trend))

unfoldable pub check_arima_order : ArimaSpec → Verdict
check_arima_order a = all_of (
    (has_length_three a.order, "ARIMA order must have exactly 3 parameters [p, d, q]")
    ∷ (every is_nonneg a.order, "ARIMA order parameter must be non-negative")
    ∷ (
      if_given (λ c. one_of c ("aic" ∷ "bic" ∷ [])) a.information_criterion,
      "ARIMA information criterion must be 'aic' or 'bic'",
    )
    ∷ (
      if_given (λ o. length o == 0 || has_length_three o) a.seasonal_order,
      "ARIMA seasonal order must have exactly 3 parameters [P, D, Q]",
    )
    ∷ (if_given (every is_nonneg) a.seasonal_order, "seasonal order must be non-negative")
    ∷ [])

unfoldable pub check_arima_season : ArimaSpec → Verdict
check_arima_season a = all_of (
    (
      not (is_seasonal a)
          || (is_given a.seasonal_order && if_given has_length_three a.seasonal_order),
      "SARIMA enabled but seasonalOrder is missing or invalid",
    )
    ∷ (
      not (is_seasonal a) || (is_given a.seasonal_periods && at_least (pos 2) a.seasonal_periods),
      "SARIMA enabled but seasonalPeriods is missing or invalid",
    )
    ∷ (
      leb_ℤ (pos 1) a.look_ahead && at_least (pos 3) a.history_size,
      "ARIMA requires lookAhead >= 1 and historySize >= 3",
    )
    ∷ (
      if_given (λ o. has_length_three o && every is_nonneg o) a.max_order,
      "ARIMA maxOrder must contain 3 non-negative parameters",
    )
    ∷ (
      if_given (λ t. one_of t ("n" ∷ "c" ∷ "t" ∷ "ct" ∷ [])) a.trend,
      "ARIMA trend must be n, c, t, or ct",
    )
    ∷ [])

unfoldable pub check_arima_selection : ArimaSpec → Verdict
check_arima_selection a = all_of (
    (
      not (is_set a.auto_arima && is_set a.incremental_updates),
      "autoArima is not supported with incrementalUpdates",
    )
    ∷ (not (is_set a.auto_arima && is_seasonal a), "autoArima supports non-seasonal ARIMA only")
    ∷ (
      not (is_set a.auto_arima) || if_given (within a.order) a.max_order,
      "ARIMA order must not exceed explicit maxOrder during auto selection",
    )
    ∷ (
      is_seasonal a || is_set a.auto_arima || valid_trend_degree a,
      "ARIMA trend degree must be at least the differencing order",
    )
    ∷ (at_least (pos 1) a.refit_every, "ARIMA refitEvery must be greater than 0 when provided")
    ∷ [])

unfoldable pub check_arima : ArimaSpec → Verdict
check_arima a = check_arima_order a >> check_arima_season a >> check_arima_selection a

unfoldable pub check_linear : LinearSpec → Verdict
check_linear l = all_of (
    (
      leb_ℤ (pos 2) l.history_size && leb_ℤ (pos 1) l.look_ahead,
      "Linear historySize must be >= 2 and lookAhead must be >= 1",
    )
    ∷ [])

module _ (fl : FloatTests) where
  abbrev is_positive : Option fl.F → Bool
  is_positive = if_given (λ v. not (fl.le v (fl.lit 0 0)))

  abbrev is_share : Option fl.F → Bool
  is_share = if_given (λ v. not (fl.le v (fl.lit 0 0)) && not (fl.lt (fl.lit 1 0) v))

  abbrev is_unsigned : Option fl.F → Bool
  is_unsigned = if_given (λ v. not (fl.lt v (fl.lit 0 0)))

  unfoldable pub check_xgboost : XgboostSpec fl.F → Verdict
  check_xgboost b = all_of (
      (leb_ℤ (pos 1) b.history_size, "XGBoost historySize must be >= 1")
      ∷ (leb_ℤ (pos 1) b.look_ahead, "XGBoost lookAhead must be >= 1")
      ∷ (leb_ℤ (pos 1) b.lags, "XGBoost lags must be >= 1")
      ∷ (ltb_ℤ b.lags b.history_size, "XGBoost lags must be less than historySize")
      ∷ (at_least (pos 1) b.window_size, "XGBoost windowSize must be >= 1")
      ∷ (if_given (λ w. leb_ℤ w b.lags) b.window_size, "XGBoost windowSize cannot exceed lags")
      ∷ (at_least (pos 1) b.max_depth, "XGBoost maxDepth must be >= 1")
      ∷ (at_least (pos 1) b.n_estimators, "XGBoost nEstimators must be >= 1")
      ∷ (is_positive b.learning_rate, "XGBoost learningRate must be > 0")
      ∷ (is_share b.subsample, "XGBoost subsample must be in (0, 1]")
      ∷ (is_share b.colsample_bytree, "XGBoost colsampleBytree must be in (0, 1]")
      ∷ (is_unsigned b.reg_lambda, "XGBoost regLambda must be >= 0")
      ∷ (is_unsigned b.reg_alpha, "XGBoost regAlpha must be >= 0")
      ∷ [])

  unfoldable pub check_light_gbm : LightGbmSpec fl.F → Verdict
  check_light_gbm b = all_of (
      (leb_ℤ (pos 1) b.history_size, "LightGBM historySize must be >= 1")
      ∷ (leb_ℤ (pos 1) b.look_ahead, "LightGBM lookAhead must be >= 1")
      ∷ (leb_ℤ (pos 1) b.lags, "LightGBM lags must be >= 1")
      ∷ (ltb_ℤ b.lags b.history_size, "LightGBM lags must be less than historySize")
      ∷ (at_least (pos 1) b.window_size, "LightGBM windowSize must be >= 1")
      ∷ (if_given (λ w. leb_ℤ w b.lags) b.window_size, "LightGBM windowSize cannot exceed lags")
      ∷ (
        if_given (λ d. d ==ℤ negsuc 0 || leb_ℤ (pos 1) d) b.max_depth,
        "LightGBM maxDepth must be -1 or >= 1",
      )
      ∷ (at_least (pos 1) b.n_estimators, "LightGBM nEstimators must be >= 1")
      ∷ (is_positive b.learning_rate, "LightGBM learningRate must be > 0")
      ∷ (is_share b.subsample, "LightGBM subsample must be in (0, 1]")
      ∷ (is_share b.colsample_bytree, "LightGBM colsampleBytree must be in (0, 1]")
      ∷ (at_least (pos 2) b.num_leaves, "LightGBM numLeaves must be >= 2")
      ∷ (at_least (pos 1) b.min_child_samples, "LightGBM minChildSamples must be >= 1")
      ∷ (is_unsigned b.reg_lambda, "LightGBM regLambda must be >= 0")
      ∷ (is_unsigned b.reg_alpha, "LightGBM regAlpha must be >= 0")
      ∷ [])

  -- Of one initial value: `known` is whether the method is.
  unfoldable pub check_initial : Bool → Option fl.F → Verdict
  check_initial known value = all_of (
      (not known || is_given value, "known initialization requires initial values")
      ∷ (known || not (is_given value), "initial values require initializationMethod known")
      ∷ (if_given (is_finite fl) value, "Holt-Winters initial values must be finite")
      ∷ [])

  abbrev pub initialization_methods : List String
  initialization_methods = "estimated" ∷ "heuristic" ∷ "known" ∷ "legacy-heuristic" ∷ []

  unfoldable pub validate_initialization : HoltWintersSpec fl.F → Verdict
  validate_initialization hw =
      let known = is_text "known" hw.initialization_method in
      all_of (
        (
          if_given (λ m. one_of m initialization_methods) hw.initialization_method,
          "invalid Holt-Winters initializationMethod",
        )
        ∷ [])
      >> check_initial known hw.initial_level
      >> check_initial known hw.initial_trend
      >> check_initial known hw.initial_seasonal

  module _ (x : Externals) (has_cpu : Bool) where
    abbrev check_hook : HoltWintersSpec fl.F → Verdict
    check_hook hw = elim hw.runtime_tuning_fetch_hook [
      | none ↦ ok tt
      | some hook ↦ validate_hook x hook
    ]

    unfoldable pub check_holt_winters : HoltWintersSpec fl.F → Verdict
    check_holt_winters hw =
        all_of (
          (has_cpu, "Holt-Winters CPU-history prediction requires a CPU resource metric")
          ∷ (
            if_given (λ l. valid_duration l millisecond (pos 1)) hw.look_ahead,
            "Holt-Winters lookAhead must be a positive millisecond duration",
          )
          ∷ [])
        >> check_hook hw
        >> validate_initialization hw

    -- The block of the model's own type.
    unfoldable pub check_type : ModelSpec fl.F → Verdict
    check_type m = elim m.kind [
      | holt_winters ↦ elim m.holt_winters [
        | none ↦ err "no Holt Winters configuration provided"
        | some hw ↦ check_holt_winters hw
      ]
      | linear ↦ elim m.linear [
        | none ↦ err "no Linear Regression configuration provided"
        | some l ↦
            all_of ((has_cpu, "Linear prediction requires a CPU resource metric") ∷ [])
            >> check_linear l
      ]
      | arima ↦ elim m.arima [
        | none ↦ err "no ARIMA configuration provided"
        | some a ↦ check_arima a
      ]
      | xgboost ↦ elim m.xgboost [
        | none ↦ err "no XGBoost configuration provided"
        | some b ↦ check_xgboost b
      ]
      | light_gbm ↦ elim m.light_gbm [
        | none ↦ err "no LightGBM configuration provided"
        | some b ↦ check_light_gbm b
      ]
      | ModelType.other s ↦ ok tt
    ]
