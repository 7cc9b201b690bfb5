-- ===== src/Scaling/Behavior.antt =====
-- internal/scalebehavior/scalebehavior.go: DecideTargetReplicasByBehaviorDetails and the rate
-- limit that it applies.
use hpa_plus.Prelude.{ℤ, ltb_ℤ, List, [], ◌∷◌, if◌then◌else◌, Result, ok, Floats, ◌>>=◌}
use hpa_plus.Api.Types.{TimestampedSample, HpaBehavior}
use hpa_plus.Scaling.Errors.{Error}
use hpa_plus.Scaling.Limits.{scale_up_limit, scale_down_limit}

unfoldable pub lowest_replicas : ℤ → List TimestampedSample → ℤ
lowest_replicas low [] = low
lowest_replicas low (s ∷ rest) =
    lowest_replicas (if ltb_ℤ s.replicas low then s.replicas else low) rest

unfoldable pub highest_replicas : ℤ → List TimestampedSample → ℤ
highest_replicas high [] = high
highest_replicas high (s ∷ rest) =
    highest_replicas (if ltb_ℤ high s.replicas then s.replicas else high) rest

-- The recommended count nearest to the current one.
unfoldable pub stabilize : ℤ → ℤ → List TimestampedSample → List TimestampedSample → ℤ
stabilize current target up_history down_history =
    let up_min = lowest_replicas target up_history in
    let down_max = highest_replicas target down_history in
    let raised = if ltb_ℤ current up_min then up_min else current in
    if ltb_ℤ down_max raised then down_max else raised

-- What a limit above the current count leaves of a target above it.
unfoldable pub apply_up_limit : ℤ → ℤ → ℤ → ℤ
apply_up_limit current target limit =
    let limit' = if ltb_ℤ limit current then current else limit in
    if ltb_ℤ limit' target then limit' else target

unfoldable pub apply_down_limit : ℤ → ℤ → ℤ → ℤ
apply_down_limit current target limit =
    let limit' = if ltb_ℤ current limit then current else limit in
    if ltb_ℤ target limit' then limit' else target

unfoldable pub clamp_replicas : ℤ → ℤ → ℤ → ℤ
clamp_replicas low high target =
    let raised = if ltb_ℤ target low then low else target in
    if ltb_ℤ high raised then high else raised

pub record BehaviorResult : Type 0 where
  pub stabilized : ℤ
  pub rate_limited : ℤ
  pub desired : ℤ

module _ (fl : Floats) (behavior : HpaBehavior) (current : ℤ) where
  unfoldable pub limit_rate :
      ℤ → List TimestampedSample → List TimestampedSample → ℤ → Result Error ℤ
  limit_rate target up_events down_events now =
      if ltb_ℤ current target
      then (do
        limit ← scale_up_limit fl current up_events down_events now behavior.scale_up
        ok (apply_up_limit current target limit))
      else if ltb_ℤ target current
      then (do
        limit ← scale_down_limit fl current up_events down_events now behavior.scale_down
        ok (apply_down_limit current target limit))
      else ok target

  unfoldable pub decide_by_behavior :
      (target low high : ℤ) (up_history down_history up_events down_events : List TimestampedSample)
      (now : ℤ)
      → Result Error BehaviorResult
  decide_by_behavior target low high up_history down_history up_events down_events now = do
    let stabilized = stabilize current target up_history down_history
    limited ← limit_rate stabilized up_events down_events now
    ok (record {
      stabilized = stabilized;
      rate_limited = limited;
      desired = clamp_replicas low high limited;
    })
