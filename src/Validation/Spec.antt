-- ===== src/Validation/Spec.antt =====
-- Validate of internal/validation/validation.go: validateModelHistory, validateModels,
-- validateSpec and validateMinMax. An int has 64 bits.
use hpa_plus.Prelude.{
  ℤ, pos, ltb_ℤ, leb_ℤ, ◌==ℤ◌, quot, ◌+ℤ◌, ◌-ℤ◌, ◌*ℤ◌, max_int64, same_text, String, Bool, true,
  false, not, ◌&&◌, ◌||◌, List, [], ◌∷◌, Option, none, some, if◌then◌else◌, Result, ok, err,
  require, ◌>>=◌, ◌>>◌,
}
use hpa_plus.Api.Types.{Mode, DecisionType}
use hpa_plus.Forecast.Types.{ModelType, holt_winters, linear, arima, xgboost, light_gbm}
use hpa_plus.Retention.Window.{uses_cpu_history}
use hpa_plus.Validation.Types.{
  FloatTests, HoltWintersSpec, ModelSpec, MetricSpec, SourceType, TargetType, resource_source,
  object_source, external_source, utilization_target, HpaPlusSpec,
}
use hpa_plus.Validation.Checks.{
  Check, Verdict, all_of, for_each, is_given, if_given, every, one_of, valid_duration, millisecond,
  finite_nonnegative, Externals,
}
use hpa_plus.Validation.Demand.{validate_request_demand}
use hpa_plus.Validation.Kubernetes.{validate_kubernetes_spec}
use hpa_plus.Validation.Basics.{validate_model_basics}
use hpa_plus.Validation.Models.{check_type}

abbrev pub default_sync_period : ℤ
default_sync_period = pos 15000

abbrev pub or_value : Option ℤ → ℤ → ℤ
or_value none default = default
or_value (some v) default = v

-- The sampler wakes at most once per second, and a slot is whole seconds.
unfoldable pub nominal_period : Option ℤ → ℤ
nominal_period sync_period =
    let period = or_value sync_period default_sync_period in
    let period = if ltb_ℤ period (pos 1000) then pos 1000 else period in
    quot (period +ℤ pos 999) (pos 1000) *ℤ pos 1000

abbrev pub max_seasonal_periods : ℤ
max_seasonal_periods = quot max_int64 (pos 2) -ℤ pos 10

abbrev pub smoothing_kinds : List String
smoothing_kinds = "add" ∷ "additive" ∷ "mul" ∷ "multiplicative" ∷ []

-- The samples that an initialization of Holt-Winters needs.
unfoldable pub initialization_minimum : ℤ → ℤ
initialization_minimum periods =
    let heuristic = pos 10 +ℤ pos 2 *ℤ quot periods (pos 2) in
    if ltb_ℤ (pos 2 *ℤ periods) heuristic then heuristic else pos 2 *ℤ periods

abbrev pub is_known_mode : Mode → Bool
is_known_mode (Mode.other s) = false
is_known_mode _ = true

abbrev pub is_known_decision : DecisionType → Bool
is_known_decision (DecisionType.other s) = false
is_known_decision _ = true

abbrev is_scaled_by_others : MetricSpec → Bool
is_scaled_by_others m = elim m.kind [ object_source ↦ true | external_source ↦ true | _ ↦ false ]

abbrev any_object_or_external : List MetricSpec → Bool
any_object_or_external ms = not (every (λ m. not (is_scaled_by_others m)) ms)

abbrev is_utilization : TargetType → Bool
is_utilization utilization_target = true
is_utilization _ = false

abbrev is_resource : SourceType → Bool
is_resource resource_source = true
is_resource _ = false

module _ (fl : FloatTests) where
  unfoldable pub valid_seasons : HoltWintersSpec fl.F → Bool
  valid_seasons hw =
      leb_ℤ (pos 2) hw.seasonal_periods
      && leb_ℤ (pos 1) hw.stored_seasons
      && leb_ℤ hw.seasonal_periods max_seasonal_periods
      && leb_ℤ hw.stored_seasons (quot max_int64 hw.seasonal_periods)

  -- A smoothing factor, which the hook may give where it is left out.
  unfoldable pub check_factor : HoltWintersSpec fl.F → Option fl.F → Verdict
  check_factor hw none =
      require (is_given hw.runtime_tuning_fetch_hook) "Holt-Winters requires alpha, beta, and gamma"
  check_factor hw (some v) =
      require (finite_nonnegative fl v && not (fl.lt (fl.lit 1 0) v))
        "Holt-Winters alpha, beta, and gamma must be finite and in [0, 1]"

  unfoldable pub retained_seasons : HoltWintersSpec fl.F → Result String ℤ
  retained_seasons hw =
      let retained = hw.seasonal_periods *ℤ hw.stored_seasons in
      all_of (
        (valid_seasons hw, "Holt-Winters requires non-overflowing storedSeasons")
        ∷ (
          leb_ℤ (initialization_minimum hw.seasonal_periods) retained,
          "Holt-Winters retained history must be >= initialization minimum",
        )
        ∷ (
          one_of hw.trend smoothing_kinds && one_of hw.seasonal smoothing_kinds,
          "Holt-Winters trend and seasonal must be add/additive or mul/multiplicative",
        )
        ∷ [])
      >> for_each (check_factor hw) (hw.alpha ∷ hw.beta ∷ hw.gamma ∷ [])
      >> ok retained

  -- A block that is missing has been refused before.
  unfoldable pub retained_history : ModelSpec fl.F → Result String ℤ
  retained_history m = elim m.kind [
    | linear ↦ elim m.linear [ none ↦ err "nil pointer" | some l ↦ ok l.history_size ]
    | xgboost ↦ elim m.xgboost [ none ↦ err "nil pointer" | some b ↦ ok b.history_size ]
    | light_gbm ↦ elim m.light_gbm [ none ↦ err "nil pointer" | some b ↦ ok b.history_size ]
    | arima ↦ elim m.arima [
      | none ↦ err "nil pointer"
      | some a ↦ ok (or_value a.history_size (pos 50))
    ]
    | holt_winters ↦ elim m.holt_winters [
      | none ↦ err "nil pointer"
      | some hw ↦ retained_seasons hw
    ]
    | ModelType.other s ↦ ok (pos 0)
  ]

  unfoldable pub exceeds_cadence : ModelSpec fl.F → Option ℤ → Bool
  exceeds_cadence m sync_period =
      not (is_given m.predictive_policy)
      || if_given (ltb_ℤ (or_value sync_period default_sync_period)) m.prediction_max_age

  unfoldable pub check_retained : ModelSpec fl.F → Option ℤ → ℤ → Verdict
  check_retained m sync_period retained = all_of (
      (
        if_given (λ n. leb_ℤ n retained) m.per_sync_period,
        "perSyncPeriod cannot exceed retained history",
      )
      ∷ (
        if_given (λ age. leb_ℤ retained (quot age (nominal_period sync_period))) m.history_max_age,
        "historyMaxAge must retain the samples at a nominal sampling interval",
      )
      ∷ [])

  unfoldable pub validate_model_history : ModelSpec fl.F → Option ℤ → Verdict
  validate_model_history m sync_period =
      require (exceeds_cadence m sync_period) "predictionMaxAge must exceed the sampling cadence"
      >> (retained_history m >>= check_retained m sync_period)

  unfoldable pub has_cpu_utilization : List MetricSpec → Bool
  has_cpu_utilization [] = false
  has_cpu_utilization (m ∷ rest) =
      elim m.resource [
        | none ↦ false
        | some r ↦
            is_resource m.kind
            && same_text r.name "cpu"
            && is_utilization r.target.kind
            && is_given r.target.average_utilization
            && if_given (ltb_ℤ (pos 0)) r.target.average_utilization
      ]
      || has_cpu_utilization rest

  module _ (x : Externals) where
    unfoldable pub validate_model : HpaPlusSpec fl.F → ModelSpec fl.F → Verdict
    validate_model spec m =
        let has_cpu = has_cpu_utilization spec.metrics in
        validate_model_basics fl m
        >> check_type fl x has_cpu m
        >> require (not (uses_cpu_history m.kind) || has_cpu)
            "CPU-history prediction requires a CPU resource metric"
        >> validate_model_history m spec.sync_period

    -- The names that were met so far are taken.
    unfoldable pub validate_models :
        HpaPlusSpec fl.F → List String → List (ModelSpec fl.F) → Verdict
    validate_models spec names [] = ok tt
    validate_models spec names (m ∷ rest) =
        require (not (x.is_blank m.name || one_of m.name names))
          "model names must be non-empty and unique"
        >> validate_model spec m
        >> validate_models spec (m.name ∷ names) rest

    abbrev pub spec_checks : HpaPlusSpec fl.F → List Check
    spec_checks spec =
        ((if_given is_known_mode spec.mode, "spec.mode must be observe, assist or control")
          ∷ (
            leb_ℤ (pos 1) spec.max_replicas && if_given (leb_ℤ (pos 0)) spec.min_replicas,
            "maxReplicas must be >= 1 and minReplicas must be >= 0",
          )
          ∷ (if_given (finite_nonnegative fl) spec.tolerance, "tolerance must be finite and >= 0")
          ∷ (
            if_given (λ v. valid_duration v millisecond (pos 1)) spec.sync_period,
            "syncPeriod must be a positive representable duration in milliseconds",
          )
          ∷ (
            if_given (λ v. valid_duration v millisecond (pos 1)) spec.metric_max_age,
            "metricMaxAge must be a positive representable duration in milliseconds",
          )
          ∷ (
            every (if_given (λ v. valid_duration v (pos 1000000000) (pos 0)))
                (spec.cpu_initialization_period ∷ spec.initial_readiness_delay ∷ []),
            "CPU initialization and readiness delays must be non-negative",
          )
          ∷ (
            if_given is_known_decision spec.decision_type,
            "decisionType must be maximum, minimum, mean, or median",
          )
          ∷ [])

    unfoldable pub validate_spec : HpaPlusSpec fl.F → Verdict
    validate_spec spec = validate_request_demand x fl.F spec >> all_of (spec_checks spec)

    unfoldable pub validate_min_max : HpaPlusSpec fl.F → Verdict
    validate_min_max spec = all_of (
        (
          if_given (λ n. leb_ℤ n spec.max_replicas) spec.min_replicas,
          "spec.maxReplicas cannot be less than spec.minReplicas",
        )
        ∷ (
          if_given (λ n. not (n ==ℤ pos 0)) spec.min_replicas
              || any_object_or_external spec.metrics,
          "spec.minReplicas can only be 0 with an object or external metric",
        )
        ∷ [])

    unfoldable pub validate : Option (HpaPlusSpec fl.F) → Verdict
    validate none = err "HPAPlus must not be nil"
    validate (some spec) =
        validate_spec spec
        >> validate_min_max spec
        >> validate_models spec [] spec.models
        >> validate_kubernetes_spec x spec
