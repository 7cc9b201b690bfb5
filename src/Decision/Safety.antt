-- ===== src/Decision/Safety.antt =====
-- What every plan guarantees: the range, no scale-down on incomplete metrics, no scale-down that a
-- recent recommendation forbids, and no change where a failed forecast holds the count.
use hpa_plus.Prelude.{
  ℤ, ◌≤ℤ◌, ◌<ℤ◌, ◌+ℤ◌, Bool, true, List, [], ◌∷◌, ◌++◌, All, some, ok, Floats, ◌≡◌, inl, inr, ◌⊎◌,
  false, if◌then◌else◌, sym, subst, arith, Bool-cases, ltb_ℤ, seconds,
}
use hpa_plus.Api.Types.{TimestampedSample}
use hpa_plus.Api.Defaults.{default_behavior}
use hpa_plus.Scaling.Windows.{is_after, keep_after, prune_to_window, neg_int32}
use hpa_plus.Scaling.RateLimit.{decide_by_behavior_bounds, decide_by_behavior_down_justified}
use hpa_plus.Decision.Defs.{
  Input, PlanResult, plan, min_of, guard_metrics, assisted, recommendations,
}
use hpa_plus.Decision.Steps.{window_of}
use hpa_plus.Decision.Success.{plan_inv}

All-append_left {ℓ} : {A : Type ℓ} (P : A → Type 0) (xs ys : List A) → All P (xs ++ ys) → All P xs
All-append_left P [] ys h = tt
All-append_left P (x ∷ xs) ys h = (h.0, All-append_left P xs ys h.1)

-- What every sample that is kept satisfies, every sample satisfies that is not before the cutoff.
keep_after-All :
    (P : TimestampedSample → Type 0) (cutoff : ℤ) (xs : List TimestampedSample)
    → All P (keep_after cutoff xs)
    → All (λ s. P s ⊎ (is_after s.time cutoff ≡ false)) xs
unfolding keep_after
keep_after-All P cutoff [] h = tt
keep_after-All P cutoff (x ∷ xs) h =
    let kept : All P
        (if is_after x.time cutoff then x ∷ keep_after cutoff xs else keep_after cutoff xs) =
      h in
    elim (Bool-cases (is_after x.time cutoff)) [
      | inl after ↦
          let (p, rest) : P x × All P (keep_after cutoff xs) =
            subst (λ b. All P (if b then x ∷ keep_after cutoff xs else keep_after cutoff xs)) after
              kept in
          (inl p, keep_after-All P cutoff xs rest)
      | inr before ↦ (
        inr before,
        keep_after-All P cutoff xs (
            subst (λ b. All P (if b then x ∷ keep_after cutoff xs else keep_after cutoff xs)) before
              kept),
      )
    ]

module _ (fl : Floats) (i : Input) (assisting : Bool) (r : PlanResult) where
  -- Every plan's desired count is between the minimum and the maximum.
  pub plan_bounds :
      plan fl i assisting ≡ ok r → (min_of i.spec ≤ℤ r.desired) × (r.desired ≤ℤ i.spec.max_replicas)
  plan_bounds e =
      let (v, (c, d, parts)) = plan_inv fl i assisting r e in
      let b =
        decide_by_behavior_bounds fl _ _ _ _ _ _ _ _ _ _ parts.details v.min-le-max
          parts.details_eq in
      (
        subst (λ (x : ℤ). min_of i.spec ≤ℤ x) (sym parts.desired_eq) b.0,
        subst (λ (x : ℤ). x ≤ℤ i.spec.max_replicas) (sym parts.desired_eq) b.1,
      )

  justified :
      plan fl i assisting ≡ ok r
      → i.requested ≤ℤ i.spec.max_replicas
      → r.desired <ℤ i.requested
      → (r.guarded ≤ℤ r.desired) × All (λ s. s.replicas ≤ℤ r.desired) r.scale_down_recommendations
  justified e m h =
      let (v, (c, d, parts)) = plan_inv fl i assisting r e in
      let (g, a) =
        decide_by_behavior_down_justified fl _ _ _ _ _ _ _ _ _ _ parts.details parts.details_eq
          v.min-le-max m (subst (λ (x : ℤ). x <ℤ i.requested) parts.desired_eq h) in
      (
        subst (λ (x : ℤ). r.guarded ≤ℤ x) (sym parts.desired_eq) g,
        subst
            (λ (x : ℤ).
              All (λ (s : TimestampedSample). s.replicas ≤ℤ x) r.scale_down_recommendations)
            (sym parts.desired_eq) a,
      )

  -- With incomplete metrics no plan goes below a requested count that the maximum allows.
  pub plan_incomplete_metrics :
      plan fl i assisting ≡ ok r
      → i.metrics_incomplete ≡ true
      → i.requested ≤ℤ i.spec.max_replicas
      → i.requested ≤ℤ r.desired
  unfolding guard_metrics
  plan_incomplete_metrics e t m =
      let (v, (c, d, parts)) = plan_inv fl i assisting r e in
      elim (Bool-cases (ltb_ℤ r.desired i.requested)) [
        | inl below ↦
            let (g, a) = justified e m (ground arith) in ground (arith, g, parts.guarded_eq)
        | inr above ↦ ground arith
      ]

  -- A plan below a requested count that the maximum allows is at least this cycle's guarded count;
  -- and the behavior has a scale-down stabilization window, of which the plan is at least every
  -- recommendation: each of the scale-down history is at most the plan, or is older than the window.
  pub plan_scale_down_justified :
      plan fl i assisting ≡ ok r
      → i.requested ≤ℤ i.spec.max_replicas
      → r.desired <ℤ i.requested
      → (r.guarded ≤ℤ r.desired)
        × ((window : ℤ) × (window_of (default_behavior i.spec.behavior).scale_down ≡ some window)
            × All
                (λ s.
                  (s.replicas ≤ℤ r.desired)
                  ⊎ (is_after s.time (i.now +ℤ seconds (neg_int32 window)) ≡ false))
                i.status.scale_down_replica_history)
  unfolding recommendations prune_to_window
  plan_scale_down_justified e m h =
      let (v, (c, d, parts)) = plan_inv fl i assisting r e in
      let (g, a) = justified e m h in
      let within = λ (s : TimestampedSample). s.replicas ≤ℤ r.desired in
      (
        g,
        (
          parts.down_window,
          parts.down_window_eq,
          keep_after-All within _ _
              (All-append_left within _ _ (subst (All within) parts.downs_eq a)),
        ),
      )

module _ (fl : Floats) (i : Input) (r : PlanResult) where
  -- An assisted plan selects at least the baseline, and guards at least what it selects.
  pub plan_assist_floor :
      plan fl i true ≡ ok r → (i.baseline ≤ℤ r.selected) × (r.selected ≤ℤ r.guarded)
  unfolding assisted guard_metrics
  plan_assist_floor e =
      let (v, (c, d, parts)) = plan_inv fl i true r e in
      (ground (arith, parts.selected_eq), ground (arith, parts.guarded_eq))
