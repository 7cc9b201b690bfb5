-- ===== src/Decision/Modes.antt =====
-- The rollout modes and the held failure: what a cycle publishes.
use hpa_plus.Prelude.{
  ℤ, ◌≤ℤ◌, Bool, true, false, [], some, ok, Floats, >>=-eq-ok, >>=-ok, ok_inj, ◌≡◌, ◌≢◌, ◌∙◌, refl,
  sym, ap, subst,
}
use hpa_plus.Api.Types.{Mode, observe, assist, control}
use hpa_plus.Decision.Defs.{
  Input, PlanResult, plan, plan_cycle, publish, chosen_plan, withhold, check_mode, ignore_error,
  baseline_input, effective_mode, min_of, plan_from, valid_inputs, candidates_of, baseline_joins,
  hold_failure, assemble, candidate_mode_of, constraints_of, assisted, guard_metrics,
}
use hpa_plus.Decision.Success.{plan_ignored_errors}
use hpa_plus.Decision.Safety.{plan_bounds}

abbrev pub Ranged : Input → ℤ → Type 0
Ranged i x = (min_of i.spec ≤ℤ x) × (x ≤ℤ i.spec.max_replicas)

module _ (fl : Floats) (i : Input) (r : PlanResult) where
  cycle_inv :
      plan_cycle fl i ≡ ok r
      → (check_mode (effective_mode i.spec) ≡ ok tt)
        × ((c b : PlanResult) × (plan fl i false ≡ ok c)
            × (plan fl (baseline_input i) false ≡ ok b)
            × (r ≡ publish fl i (effective_mode i.spec) c b))
  unfolding plan_cycle
  cycle_inv e =
      let (u, m, f) = >>=-eq-ok (check_mode (effective_mode i.spec)) _ e in
      let (c, p, g) = >>=-eq-ok (plan fl i false) _ f in
      let (b, q) = (plan_ignored_errors fl i c p).1 in
      (
        m,
        (
          c,
          b,
          p,
          q,
          sym (ok_inj g) ∙ ap (λ x. publish fl i (effective_mode i.spec) c (ignore_error x)) q,
        ),
      )

  published-Ranged :
      (m : Mode) (c b : PlanResult)
      → plan fl i false ≡ ok c
      → m ≢ observe
      → Ranged i (publish fl i m c b).desired
  unfolding publish withhold chosen_plan
  published-Ranged observe c b e n = absurd (n refl)
  published-Ranged control c b e n = plan_bounds fl i false c e
  published-Ranged (Mode.other s) c b e n = plan_bounds fl i false c e
  published-Ranged assist c b e n =
      let (a, q) = (plan_ignored_errors fl i c e).0 in
      subst (λ (x : PlanResult). Ranged i x.desired) (sym (ap ignore_error q))
        (plan_bounds fl i true a q)

  published_counts :
      (m : Mode) (c b : PlanResult)
      → ((publish fl i m c b).control_desired ≡ c.desired)
        × ((publish fl i m c b).baseline_desired ≡ b.desired)
  unfolding publish withhold
  published_counts observe c b = (refl, refl)
  published_counts assist c b = (refl, refl)
  published_counts control c b = (refl, refl)
  published_counts (Mode.other s) c b = (refl, refl)

  baseline-Ranged : (b : PlanResult) → plan fl (baseline_input i) false ≡ ok b → Ranged i b.desired
  unfolding baseline_input
  baseline-Ranged b q = plan_bounds fl (baseline_input i) false b q

  -- In the other modes the desired count of a cycle is between the minimum and the maximum.
  pub plan_cycle_bounds :
      effective_mode i.spec ≢ observe → plan_cycle fl i ≡ ok r → Ranged i r.desired
  plan_cycle_bounds n e =
      let (m, (c, b, p, q, f)) = cycle_inv e in
      subst (λ (x : PlanResult). Ranged i x.desired) (sym f)
        (published-Ranged (effective_mode i.spec) c b p n)

  -- In every mode the counts of the control plan and of the reactive counterfactual are in range.
  pub plan_cycle_counterfactuals :
      plan_cycle fl i ≡ ok r → Ranged i r.control_desired × Ranged i r.baseline_desired
  plan_cycle_counterfactuals e =
      let (m, (c, b, p, q, f)) = cycle_inv e in
      let (k, l) = published_counts (effective_mode i.spec) c b in
      (
        subst (Ranged i) (sym (ap (λ x. x.control_desired) f ∙ k)) (plan_bounds fl i false c p),
        subst (Ranged i) (sym (ap (λ x. x.baseline_desired) f ∙ l)) (baseline-Ranged b q),
      )

-- The input of the same cycle in another rollout mode.
abbrev pub in_mode : Mode → Input → Input
in_mode m i = record i { spec = record (i.spec) { mode = some m } }

module _ (fl : Floats) (i : Input) where
  -- The plan does not read the rollout mode.
  plan-in_mode :
      (m : Mode) (assisting : Bool) → plan fl (in_mode m i) assisting ≡ plan fl i assisting
  unfolding plan plan_from valid_inputs candidates_of baseline_joins hold_failure assemble
      candidate_mode_of constraints_of assisted guard_metrics
  plan-in_mode m assisting = refl

  baseline-in_mode :
      (m : Mode) → plan fl (baseline_input (in_mode m i)) false ≡ plan fl (baseline_input i) false
  unfolding plan plan_from valid_inputs candidates_of baseline_joins hold_failure assemble
      candidate_mode_of constraints_of assisted guard_metrics baseline_input
  baseline-in_mode m = refl

  -- A cycle in observe mode is a dry run of the control mode: the same input in control mode plans
  -- too, and the observe cycle reports the count that the control cycle sets, the count of the same
  -- reactive counterfactual, and the same selected and guarded counts and constraints, while the
  -- count that it sets itself is the requested one and it publishes no recommendation.
  pub plan_cycle_dry_run :
      (r : PlanResult)
      → plan_cycle fl (in_mode observe i) ≡ ok r
      → (t : PlanResult) × (plan_cycle fl (in_mode control i) ≡ ok t)
        × (r.control_desired ≡ t.desired)
        × (r.baseline_desired ≡ t.baseline_desired)
        × (r.selected ≡ t.selected)
        × (r.guarded ≡ t.guarded)
        × (r.constraints ≡ t.constraints)
        × (r.desired ≡ i.requested)
        × (r.scale_up_recommendations ≡ [])
        × (r.scale_down_recommendations ≡ [])
  unfolding publish withhold chosen_plan plan_cycle effective_mode
  plan_cycle_dry_run r e =
      let (m, (c, b, p, q, f)) = cycle_inv fl (in_mode observe i) r e in
      let same = plan-in_mode control false ∙ sym (plan-in_mode observe false) ∙ p in
      let reactive = ignore_error (plan fl (baseline_input (in_mode control i)) false) in
      let again : reactive ≡ b =
        ap ignore_error (baseline-in_mode control ∙ sym (baseline-in_mode observe) ∙ q) in
      (
        publish fl (in_mode control i) control c reactive,
        >>=-ok (plan fl (in_mode control i) false) _ same refl,
        ap (λ x. x.control_desired) f,
        ap (λ x. x.baseline_desired) f ∙ sym (ap (λ x. x.desired) again),
        ap (λ x. x.selected) f,
        ap (λ x. x.guarded) f,
        ap (λ x. x.constraints) f,
        ap (λ x. x.desired) f,
        ap (λ x. x.scale_up_recommendations) f,
        ap (λ x. x.scale_down_recommendations) f,
      )
