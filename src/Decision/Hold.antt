-- ===== src/Decision/Hold.antt =====
-- A failed forecast under HoldCurrent, or with a request-demand model: the count stays.
use hpa_plus.Prelude.{
  ℤ, pos, ℕ, ◌≤ℤ◌, ◌*◌, ◌^◌, ◌≤◌, true, false, List, [], ◌∷◌, ok, Floats, FloatLaws, ◌≡◌, ◌∙◌, refl,
  ap, subst, arith, eq_of_parts,
}
use native.Mathlib.Nat.{le_refl}
use hpa_plus.Api.Types.{TimestampedSample, HpaBehavior, maximum}
use hpa_plus.Scaling.Behavior.{
  BehaviorResult, decide_by_behavior, limit_rate, stabilize, clamp_replicas,
}
use hpa_plus.Scaling.Stabilization.{lowest-le_start, start-le-highest}
use hpa_plus.Scaling.Strategy.{decide_by_strategy}
use hpa_plus.Scaling.ChoiceBounds.{decide_by_strategy_bounds}
use hpa_plus.Decision.Defs.{
  assisted, or_default, Input, PlanResult, plan, guard_metrics, min_of, hold_failure, candidates_of,
  baseline_joins,
}
use hpa_plus.Decision.Success.{plan_inv}

-- With the target at the current count, stabilization and the rate limit keep it.
unchanged :
    (fl : Floats) (b : HpaBehavior) (current target low high : ℤ)
    (ups downs ue de : List TimestampedSample) (now : ℤ) (d : BehaviorResult)
    → target ≡ current
    → low ≤ℤ current
    → current ≤ℤ high
    → decide_by_behavior fl b current target low high ups downs ue de now ≡ ok d
    → d.desired ≡ current
unfolding decide_by_behavior limit_rate stabilize clamp_replicas
unchanged fl b current target low high ups downs ue de now d t l h e =
    ground (arith, lowest-le_start target ups, start-le-highest target downs)

unassisted : (i : Input) (c : ℤ) → assisted i false c ≡ c
unfolding assisted
unassisted i c = refl

held_candidates :
    (i : Input)
    → i.predictions ≡ []
    → hold_failure i.spec ≡ true
    → candidates_of i ≡ i.requested ∷ []
unfolding candidates_of baseline_joins
held_candidates i p h = ground arith

guard_same : (i : Input) → guard_metrics i i.requested ≡ i.requested
unfolding guard_metrics
guard_same i = ground arith

module _ (fl : Floats) (laws : FloatLaws fl) (i : Input) (n : ℕ) (r : PlanResult) where
  -- With no prediction and a failure that holds, a control plan leaves a requested count that is
  -- in range as it is, if floats obey the laws of IEEE 754.
  pub plan_hold :
      i.predictions ≡ []
      → hold_failure i.spec ≡ true
      → i.requested ≡ pos n
      → n * 1 ≤ 2 ^ 53
      → min_of i.spec ≤ℤ i.requested
      → i.requested ≤ℤ i.spec.max_replicas
      → plan fl i false ≡ ok r
      → (r.selected ≡ i.requested) × (r.desired ≡ i.requested)
  plan_hold p h q big low high e =
      let (v, (c, d, parts)) = plan_inv fl i false r e in
      let (below, above) =
        decide_by_strategy_bounds fl laws _ n n (i.requested ∷ []) c (le_refl n) big
          ((rw q (le_refl _), rw q (le_refl _)), tt)
          (subst (λ l. decide_by_strategy fl (or_default i.spec.decision_type maximum) l ≡ ok c)
            (held_candidates i p h) d) in
      let same : c ≡ i.requested = eq_of_parts c i.requested (ground (arith, q, below, above)) in
      let kept : r.selected ≡ i.requested = parts.selected_eq ∙ unassisted i c ∙ same in
      let guarded : r.guarded ≡ i.requested =
        parts.guarded_eq ∙ ap (guard_metrics i) kept ∙ guard_same i in
      (
        kept,
        parts.desired_eq
            ∙ unchanged fl _ _ _ _ _ _ _ _ _ _ parts.details guarded low high parts.details_eq,
      )
