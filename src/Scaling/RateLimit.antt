-- ===== src/Scaling/RateLimit.antt =====
-- The rate limit: direction, the policy that is obeyed, and the final range.
use hpa_plus.Prelude.{
  ℤ, ltb_ℤ, ◌≤ℤ◌, ◌<ℤ◌, ◌≡◌, ◌⊎◌, inl, inr, List, All, All-imp, some, arith, ok, Floats, Bool-cases,
  >>=-eq-ok,
}
use hpa_plus.Api.Types.{TimestampedSample, HpaBehavior, disabled, HpaScalingRules}
use hpa_plus.Scaling.Windows.{policy_list}
use hpa_plus.Api.Filled.{IsFilled}
use hpa_plus.Scaling.Limits.{scale_up_limit, scale_down_limit, up_limit_by, down_limit_by}
use hpa_plus.Scaling.Stabilization.{stabilize_bounded}
use hpa_plus.Scaling.Behavior.{
  BehaviorResult, limit_rate, decide_by_behavior, apply_up_limit, apply_down_limit, clamp_replicas,
  stabilize,
}

-- Between two counts, in either order.
abbrev pub Between : ℤ → ℤ → ℤ → Type 0
Between a b r = ((a ≤ℤ r) × (r ≤ℤ b)) ⊎ ((b ≤ℤ r) × (r ≤ℤ a))

module _ (fl : Floats) (behavior : HpaBehavior) (current target : ℤ)
    (up_events down_events : List TimestampedSample) (now : ℤ) where
  -- A rate limited count never passes the target and never moves away from it.
  pub limit_rate-Between :
      (r : ℤ)
      → limit_rate fl behavior current target up_events down_events now ≡ ok r
      → Between current target r
  unfolding limit_rate apply_up_limit apply_down_limit
  limit_rate-Between r h = ground arith

  -- Rules that disable the scale-up leave no count above the current one.
  pub limit_rate_up_disabled :
      (rules : HpaScalingRules) (r : ℤ)
      → behavior.scale_up ≡ some rules
      → rules.select_policy ≡ some disabled
      → limit_rate fl behavior current target up_events down_events now ≡ ok r
      → r ≤ℤ current
  unfolding limit_rate apply_up_limit apply_down_limit scale_up_limit up_limit_by
  limit_rate_up_disabled rules r e d h = ground arith

  -- Rules that disable the scale-down leave no count below the current one.
  pub limit_rate_down_disabled :
      (rules : HpaScalingRules) (r : ℤ)
      → behavior.scale_down ≡ some rules
      → rules.select_policy ≡ some disabled
      → limit_rate fl behavior current target up_events down_events now ≡ ok r
      → current ≤ℤ r
  unfolding limit_rate apply_up_limit apply_down_limit scale_down_limit down_limit_by
  limit_rate_down_disabled rules r e d h = ground arith

module _ (fl : Floats) (behavior : HpaBehavior) (current target low high : ℤ)
    (ups downs up_events down_events : List TimestampedSample) (now : ℤ) where
  -- With a minimum at most the maximum, the desired count is in their range.
  pub decide_by_behavior_bounds :
      (r : BehaviorResult)
      → low ≤ℤ high
      → decide_by_behavior fl behavior current target low high ups downs up_events down_events now
        ≡ ok r
      → (low ≤ℤ r.desired) × (r.desired ≤ℤ high)
  unfolding decide_by_behavior clamp_replicas
  decide_by_behavior_bounds r h e = ground arith

  parts :
      (r : BehaviorResult)
      → decide_by_behavior fl behavior current target low high ups downs up_events down_events now
        ≡ ok r
      → (limit_rate fl behavior current
            (stabilize current target ups downs)
            up_events
            down_events
            now
          ≡ ok r.rate_limited)
        × (r.stabilized ≡ stabilize current target ups downs)
        × (r.desired ≡ clamp_replicas low high r.rate_limited)
  unfolding decide_by_behavior
  parts r e =
      let (a, p, q) =
        >>=-eq-ok
          (limit_rate fl behavior current (stabilize current target ups downs) up_events down_events
            now)
          _ e in
      (ground (arith, p, q), ground (arith, q), ground (arith, q))

  -- A desired count above a current one that the minimum allows is at most the target and every
  -- recommendation of the scale-up window.
  pub decide_by_behavior_up_justified :
      (r : BehaviorResult)
      → decide_by_behavior fl behavior current target low high ups downs up_events down_events now
        ≡ ok r
      → low ≤ℤ current
      → current <ℤ r.desired
      → (r.desired ≤ℤ target) × All (λ s. r.desired ≤ℤ s.replicas) ups
  unfolding clamp_replicas
  decide_by_behavior_up_justified r e h k =
      let (p, q, d) = parts r e in
      let between =
        limit_rate-Between fl behavior current (stabilize current target ups downs) up_events
          down_events now r.rate_limited p in
      let sound = stabilize_bounded current target ups downs in
      let over : current <ℤ stabilize current target ups downs = ground (arith, d, between) in
      let below : r.desired ≤ℤ stabilize current target ups downs = ground (arith, d, between) in
      (
        omega (arith, (sound.0 over).0, below),
        All-imp (λ s (m : stabilize current target ups downs ≤ℤ s.replicas). omega arith) ups
            (sound.0 over).1,
      )

  -- A desired count below a current one that the maximum allows is at least the target and every
  -- recommendation of the scale-down window.
  pub decide_by_behavior_down_justified :
      (r : BehaviorResult)
      → decide_by_behavior fl behavior current target low high ups downs up_events down_events now
        ≡ ok r
      → low ≤ℤ high
      → current ≤ℤ high
      → r.desired <ℤ current
      → (target ≤ℤ r.desired) × All (λ s. s.replicas ≤ℤ r.desired) downs
  unfolding clamp_replicas
  decide_by_behavior_down_justified r e b h k =
      let (p, q, d) = parts r e in
      let between =
        limit_rate-Between fl behavior current (stabilize current target ups downs) up_events
          down_events now r.rate_limited p in
      let sound = stabilize_bounded current target ups downs in
      let under : stabilize current target ups downs <ℤ current = ground (arith, d, between) in
      let above : stabilize current target ups downs ≤ℤ r.desired = ground (arith, d, between) in
      (
        omega (arith, (sound.1 under).0, above),
        All-imp (λ s (m : s.replicas ≤ℤ stabilize current target ups downs). omega arith) downs
            (sound.1 under).1,
      )

  up_limit_total :
      IsFilled behavior
      → (x : ℤ) × (scale_up_limit fl current up_events down_events now behavior.scale_up ≡ ok x)
  unfolding scale_up_limit
  up_limit_total f =
      let r = f.up_rules in
      (
        up_limit_by fl current up_events down_events now r.select (policy_list r.value.policies),
        rw (r.value_eq, r.select_eq),
      )

  down_limit_total :
      IsFilled behavior
      → (x : ℤ) × (scale_down_limit fl current up_events down_events now behavior.scale_down ≡ ok x)
  unfolding scale_down_limit
  down_limit_total f =
      let r = f.down_rules in
      (
        down_limit_by fl current up_events down_events now r.select (policy_list r.value.policies),
        rw (r.value_eq, r.select_eq),
      )

  limit_rate_total :
      IsFilled behavior
      → (t : ℤ) → (x : ℤ) × (limit_rate fl behavior current t up_events down_events now ≡ ok x)
  unfolding limit_rate
  limit_rate_total f t =
      let (u, p) = up_limit_total f in
      let (d, q) = down_limit_total f in
      elim (Bool-cases (ltb_ℤ current t)) [
        | inl a ↦ (apply_up_limit current t u, rw (a, p))
        | inr a ↦ elim (Bool-cases (ltb_ℤ t current)) [
          | inl b ↦ (apply_down_limit current t d, rw (a, b, q))
          | inr b ↦ (t, rw (a, b))
        ]
      ]

  -- With filled rules a decision is always made: no nil pointer is read.
  pub decide_by_behavior_total :
      IsFilled behavior
      → (r : BehaviorResult) × (decide_by_behavior fl behavior current target low high ups downs
            up_events down_events now
          ≡ ok r)
  unfolding decide_by_behavior
  decide_by_behavior_total f =
      let t = stabilize current target ups downs in
      let (x, p) = limit_rate_total f t in
      (record { stabilized = t; rate_limited = x; desired = clamp_replicas low high x }, rw p)
