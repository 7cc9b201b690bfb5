-- ===== src/Decision/Steps.antt =====
-- When a plan is made, and what it is made of.
use hpa_plus.Prelude.{
  ℤ, Bool, List, [], ◌∷◌, Option, none, some, ok, Floats, >>=-ok, ltb_ℤ, ◌==ℤ◌, ◌≡◌, refl, inl, inr,
  Bool-cases,
}
use hpa_plus.Api.Types.{HpaBehavior, HpaScalingRules}
use hpa_plus.Api.Defaults.{default_behavior}
use hpa_plus.Api.Filled.{IsFilled, FilledRules, default_behavior-IsFilled}
use hpa_plus.Scaling.Windows.{get_longest_policy_period, prune_to_window}
use hpa_plus.Scaling.Limits.{deref}
use hpa_plus.Scaling.Behavior.{BehaviorResult, decide_by_behavior}
use hpa_plus.Scaling.RateLimit.{decide_by_behavior_total}
use hpa_plus.Decision.Defs.{
  Input, PlanResult, Constraint, plan_from, is_off, rate_constraint, rate_reason, rate_limit,
  is_disabled, assemble, assisted, guard_metrics, recommendations, min_of,
}

-- The stabilization window of rules, if they have one.
abbrev pub window_of : Option HpaScalingRules → Option ℤ
window_of none = none
window_of (some rules) = rules.stabilization_window_seconds

-- The parts of a plan: the details of the scaling behavior that give its desired count.
pub record PlanParts (fl : Floats) (i : Input) (assisting : Bool) (chosen : ℤ) (r : PlanResult)
    : Type 0 where
  pub details : BehaviorResult
  pub up_window : ℤ
  pub down_window : ℤ
  pub up_window_eq : window_of (default_behavior i.spec.behavior).scale_up ≡ some up_window
  pub down_window_eq : window_of (default_behavior i.spec.behavior).scale_down ≡ some down_window
  pub details_eq :
      let behavior = default_behavior i.spec.behavior in
      decide_by_behavior fl behavior i.requested r.guarded
        (min_of i.spec)
        i.spec.max_replicas
        r.scale_up_recommendations
        r.scale_down_recommendations
        (prune_to_window i.status.scale_up_event_history
          (get_longest_policy_period behavior.scale_up)
          i.now)
        (prune_to_window i.status.scale_down_event_history
          (get_longest_policy_period behavior.scale_down)
          i.now)
        i.now
      ≡ ok details
  pub ups_eq :
      r.scale_up_recommendations
      ≡ recommendations i.status.scale_up_replica_history up_window i.now r.guarded
  pub downs_eq :
      r.scale_down_recommendations
      ≡ recommendations i.status.scale_down_replica_history down_window i.now r.guarded
  pub selected_eq : r.selected ≡ assisted i assisting chosen
  pub guarded_eq : r.guarded ≡ guard_metrics i r.selected
  pub desired_eq : r.desired ≡ details.desired

deref-some {ℓ} : {A : Type ℓ} {o : Option A} {a : A} → o ≡ some a → deref o ≡ ok a
deref-some e = rw e

module _ (fl : Floats) (i : Input) (assisting : Bool) where
  is_off_total :
      (rules : Option HpaScalingRules) → FilledRules rules → (x : Bool) × (is_off rules ≡ ok x)
  is_off_total rules f = (is_disabled f.select, rw (f.value_eq, f.select_eq))

  rate_constraint_total :
      (b : HpaBehavior)
      → IsFilled b
      → (d : BehaviorResult) → (x : List Constraint) × (rate_constraint b i.requested d ≡ ok x)
  unfolding rate_constraint
  rate_constraint_total b f d =
      let (u, p) = is_off_total b.scale_up f.up_rules in
      let (v, q) = is_off_total b.scale_down f.down_rules in
      elim (Bool-cases (d.rate_limited ==ℤ d.stabilized)) [
        | inl a ↦ ([], rw a)
        | inr a ↦ elim (Bool-cases (ltb_ℤ i.requested d.stabilized)) [
          | inl c ↦ (rate_reason u ∷ [], rw (a, c, p))
          | inr c ↦ elim (Bool-cases (ltb_ℤ d.stabilized i.requested)) [
            | inl e ↦ (rate_reason v ∷ [], rw (a, c, e, q))
            | inr e ↦ (rate_limit ∷ [], rw (a, c, e))
          ]
        ]
      ]

  pub plan_from_total :
      (chosen : ℤ)
      → (r : PlanResult) × (plan_from fl i assisting chosen ≡ ok r)
        × PlanParts fl i assisting chosen r
  unfolding plan_from assemble
  plan_from_total chosen =
      let b = default_behavior i.spec.behavior in
      let f = default_behavior-IsFilled i.spec.behavior in
      let guarded = guard_metrics i (assisted i assisting chosen) in
      let ups = recommendations i.status.scale_up_replica_history f.up_rules.window i.now guarded in
      let downs =
        recommendations i.status.scale_down_replica_history f.down_rules.window i.now guarded in
      let up_events =
        prune_to_window i.status.scale_up_event_history (get_longest_policy_period b.scale_up)
          i.now in
      let down_events =
        prune_to_window i.status.scale_down_event_history (get_longest_policy_period b.scale_down)
          i.now in
      let (d, e) =
        decide_by_behavior_total fl b i.requested guarded (min_of i.spec) i.spec.max_replicas ups
          downs up_events down_events i.now f in
      let (c, g) = rate_constraint_total b f d in
      (
        assemble i assisting chosen ups downs d c,
        >>=-ok _ _ (deref-some f.up_rules.value_eq) (
            >>=-ok _ _ (deref-some f.down_rules.value_eq) (
              >>=-ok _ _ (deref-some f.up_rules.window_eq) (
                >>=-ok _ _ (deref-some f.down_rules.window_eq)
                  (>>=-ok _ _ e (>>=-ok _ _ g refl))))),
        record {
          details = d;
          up_window = f.up_rules.window;
          down_window = f.down_rules.window;
          up_window_eq = rw (f.up_rules.value_eq) f.up_rules.window_eq;
          down_window_eq = rw (f.down_rules.value_eq) f.down_rules.window_eq;
          details_eq = e;
          ups_eq = refl;
          downs_eq = refl;
          selected_eq = refl;
          guarded_eq = refl;
          desired_eq = refl;
        },
      )
