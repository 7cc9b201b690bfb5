-- ===== src/Validation/Sound.antt =====
-- What a specification that Validate accepts gives the planner.
use hpa_plus.Prelude.{
  ℤ, pos, ◌≤ℤ◌, leb_ℤ, up, down, Bool, true, false, Option, none, some, All, map, Result, ok, err,
  Floats, ◌>>◌, >>=-ok, ◌≡◌, refl, sym, subst, arith, ◌==ℤ◌, ◌&&◌,
}
use hpa_plus.Api.Types.{
  Mode, DecisionType, observe, assist, control, maximum, minimum, mean, median,
}
use hpa_plus.Api.Defaults.{default_min_replicas}
use hpa_plus.Scaling.Choice.{IsKnown}
use hpa_plus.Decision.Defs.{
  Spec, Input, PlanResult, plan, plan_cycle, min_of, or_default, effective_mode, check_mode,
}
use hpa_plus.Decision.Success.{plan_succeeds}
use hpa_plus.Validation.Types.{FloatTests, HpaPlusSpec, ModelSpec}
use hpa_plus.Validation.Checks.{all_of-ok, Externals, is_given, if_given}
use hpa_plus.Validation.Demand.{validate_request_demand}
use hpa_plus.Validation.Spec.{
  validate, validate_spec, validate_min_max, spec_checks, is_known_mode, is_known_decision,
}

-- The two parts of a check that runs after another.
pub >>-ok : {E : Type 0} (a b : Result E (Unit {0})) → (a >> b) ≡ ok tt → (a ≡ ok tt) × (b ≡ ok tt)
>>-ok (err e) b h = cc
>>-ok (ok t) b h = (refl, h)

module _ (fl : FloatTests) (x : Externals) (spec : HpaPlusSpec fl.F) where
  -- What a plan reads of a specification.
  unfoldable pub plan_spec : Spec
  plan_spec = record {
    mode = spec.mode;
    min_replicas = spec.min_replicas;
    max_replicas = spec.max_replicas;
    decision_type = spec.decision_type;
    include_hpa = spec.include_hpa;
    prediction_failure_policy = spec.prediction_failure_policy;
    models =
        map (λ (m : ModelSpec fl.F). record { requests_demand = is_given m.request_demand })
          spec.models;
    behavior = spec.behavior;
  }

  validate_parts :
      validate fl x (some spec) ≡ ok tt
      → (validate_spec fl x spec ≡ ok tt) × (validate_min_max fl x spec ≡ ok tt)
  unfolding validate
  validate_parts h =
      let (before_kubernetes, k) = >>-ok _ _ h in
      let (before_models, m) = >>-ok _ _ before_kubernetes in >>-ok _ _ before_models

  checks_hold :
      validate_spec fl x spec ≡ ok tt
      → (if_given is_known_mode spec.mode ≡ true)
        × (leb_ℤ (pos 1) spec.max_replicas ≡ true)
        × (if_given (leb_ℤ (pos 0)) spec.min_replicas ≡ true)
        × (if_given is_known_decision spec.decision_type ≡ true)
  unfolding validate_spec
  checks_hold h =
      let checks =
        all_of-ok (spec_checks fl x spec) (>>-ok (validate_request_demand x fl.F spec) _ h).1 in
      let (upper, lower) = and_parts _ _ checks.1.0 in
      (checks.0, upper, lower, checks.1.1.1.1.1.1.0)
    where
      and_parts : (a b : Bool) → (a && b) ≡ true → (a ≡ true) × (b ≡ true)
      and_parts true b e = (refl, e)
      and_parts false b e = cc

  min-below-max :
      validate_min_max fl x spec ≡ ok tt
      → if_given (λ n. leb_ℤ n spec.max_replicas) spec.min_replicas ≡ true
  unfolding validate_min_max
  min-below-max h = (all_of-ok _ h).0

  known_decision :
      (d : Option DecisionType)
      → if_given is_known_decision d ≡ true
      → IsKnown (or_default d maximum)
  known_decision none h = tt
  known_decision (some maximum) h = tt
  known_decision (some minimum) h = tt
  known_decision (some mean) h = tt
  known_decision (some median) h = tt
  known_decision (some (DecisionType.other s)) h = cc

  known_mode :
      (m : Option Mode)
      → if_given is_known_mode m ≡ true
      → check_mode (elim m [ none ↦ control | some n ↦ n ]) ≡ ok tt
  known_mode none h = refl
  known_mode (some observe) h = refl
  known_mode (some assist) h = refl
  known_mode (some control) h = refl
  known_mode (some (Mode.other s)) h = cc

  abbrev Range : Type 0
  Range = (pos 0 ≤ℤ min_of plan_spec) × (min_of plan_spec ≤ℤ spec.max_replicas)

  range_of :
      (o : Option ℤ)
      → leb_ℤ (pos 1) spec.max_replicas ≡ true
      → if_given (leb_ℤ (pos 0)) o ≡ true
      → if_given (λ n. leb_ℤ n spec.max_replicas) o ≡ true
      → (pos 0 ≤ℤ or_default o default_min_replicas)
        × (or_default o default_min_replicas ≤ℤ spec.max_replicas)
  unfolding up down
  range_of none u l m = (ground arith, ground arith)
  range_of (some n) u l m = (ground arith, ground arith)

  -- The bounds of the replica count of an accepted specification are in order.
  accepted_range : validate fl x (some spec) ≡ ok tt → Range
  unfolding plan_spec
  accepted_range h =
      let (s, m) = validate_parts h in
      let (k, u, l, d) = checks_hold s in range_of spec.min_replicas u l (min-below-max m)

  module _ (fp : Floats) (i : Input) where
    -- Where Validate accepts a specification, a cycle that reads it makes a plan, whatever the
    -- status is: with a clock that is set, a requested count and a baseline that are not negative
    -- and no negative prediction, it never reports an invalid mode, invalid inputs or an unknown
    -- type of decision.
    pub validate-plan_cycle :
        validate fl x (some spec) ≡ ok tt
        → i.spec ≡ plan_spec
        → (i.now ==ℤ pos 0) ≡ false
        → pos 0 ≤ℤ i.requested
        → pos 0 ≤ℤ i.baseline
        → All (λ p. pos 0 ≤ℤ p) i.predictions
        → (r : PlanResult) × (plan_cycle fp i ≡ ok r)
    unfolding plan_spec effective_mode plan_cycle
    validate-plan_cycle h same clock requested baseline predictions =
        let (s, m) = validate_parts h in
        let (k, u, l, d) = checks_hold s in
        let (low, high) = accepted_range h in
        let mode =
          subst (λ (y : Spec). check_mode (effective_mode y) ≡ ok tt) (sym same)
            (known_mode spec.mode k) in
        let (c, p) = (plan_succeeds fp i false).1 (
          record {
            has_clock = clock;
            requested_nonneg = requested;
            baseline_nonneg = baseline;
            min_nonneg = subst (λ (y : Spec). pos 0 ≤ℤ min_of y) (sym same) low;
            min-le-max = subst (λ (y : Spec). min_of y ≤ℤ y.max_replicas) (sym same) high;
          },
          predictions,
          subst (λ (y : Spec). IsKnown (or_default y.decision_type maximum)) (sym same)
              (known_decision spec.decision_type d),
        ) in
        (_, >>=-ok (check_mode (effective_mode i.spec)) _ mode (>>=-ok (plan fp i false) _ p refl))
