-- ===== src/Scaling/Limits.antt =====
-- internal/scalebehavior/scalebehavior.go: the limits that the scaling policies set.
use hpa_plus.Prelude.{
  ℤ, pos, ltb_ℤ, leb_ℤ, ◌+ℤ◌, ◌-ℤ◌, max_int32, min_int32, List, [], ◌∷◌, Option, none, some,
  if◌then◌else◌, Result, ok, err, Floats, ◌>>=◌,
}
use hpa_plus.Api.Types.{
  TimestampedSample, HpaScalingRules, HpaScalingPolicy, SelectPolicy, max_change, min_change,
  disabled, PolicyType, pods, percent,
}
use hpa_plus.Scaling.Errors.{Error, nil_dereference}
use hpa_plus.Scaling.Windows.{get_replica_changes, policy_list}

unfoldable pub bounded_replicas : ℤ → ℤ
bounded_replicas value =
    if leb_ℤ value (pos 0) then pos 0 else if leb_ℤ max_int32 value then max_int32 else value

unfoldable pub max64 : ℤ → ℤ → ℤ
max64 a b = if ltb_ℤ b a then a else b

unfoldable pub max_i32 : ℤ → ℤ → ℤ
max_i32 a b = if leb_ℤ b a then a else b

unfoldable pub min_i32 : ℤ → ℤ → ℤ
min_i32 a b = if leb_ℤ a b then a else b

-- Reading through a pointer.
abbrev pub deref {ℓ} : {A : Type ℓ} → Option A → Result Error A
deref none = err nil_dereference
deref (some a) = ok a

-- The replica count at the start of a policy's period.
unfoldable pub period_start : ℤ → List TimestampedSample → List TimestampedSample → ℤ → ℤ → ℤ
period_start current up_events down_events period now = max64 (pos 0) (
    current
    -ℤ get_replica_changes up_events period now
    +ℤ get_replica_changes down_events period now)

module _ (fl : Floats) where
  -- float64(v) / 100.
  abbrev pub fraction : ℤ → fl.F
  fraction v = fl.div (fl.of_int v) (fl.of_int (pos 100))

  -- A type of policy that is neither keeps the proposal of the policy before it.
  unfoldable pub propose_up : PolicyType → ℤ → ℤ → ℤ → ℤ
  propose_up pods start value proposed = bounded_replicas (start +ℤ value)
  propose_up percent start value proposed = bounded_replicas (
      fl.to_int (
        fl.ceil (
          fl.fmin (fl.of_int max_int32)
            (fl.mul (fl.of_int start) (fl.add (fl.of_int (pos 1)) (fraction value))))))
  propose_up (PolicyType.other s) start value proposed = proposed

  unfoldable pub propose_down : PolicyType → ℤ → ℤ → ℤ → ℤ
  propose_down pods start value proposed = bounded_replicas (start -ℤ value)
  propose_down percent start value proposed = bounded_replicas (
      fl.to_int (
        fl.fmax (fl.of_int (pos 0)) (
          fl.fmin (fl.of_int max_int32)
            (fl.mul (fl.of_int start) (fl.sub (fl.of_int (pos 1)) (fraction value))))))
  propose_down (PolicyType.other s) start value proposed = proposed

  module _ (current : ℤ) (up_events down_events : List TimestampedSample) (now : ℤ) where
    -- The loop over the policies, with `selectPolicyFn`, and what each policy proposes.
    unfoldable pub limit_loop :
        (ℤ → ℤ → ℤ) → (PolicyType → ℤ → ℤ → ℤ → ℤ) → ℤ → ℤ → List HpaScalingPolicy → ℤ
    limit_loop select propose result proposed [] = result
    limit_loop select propose result proposed (p ∷ rest) =
        let start = period_start current up_events down_events p.period_seconds now in
        let proposed' = propose p.kind start p.value proposed in
        limit_loop select propose (select result proposed') proposed' rest

    unfoldable pub up_limit_by : SelectPolicy → List HpaScalingPolicy → ℤ
    up_limit_by disabled ps = current
    up_limit_by min_change ps = limit_loop min_i32 propose_up max_int32 (pos 0) ps
    up_limit_by max_change ps = limit_loop max_i32 propose_up min_int32 (pos 0) ps
    up_limit_by (SelectPolicy.other s) ps = limit_loop max_i32 propose_up min_int32 (pos 0) ps

    unfoldable pub down_limit_by : SelectPolicy → List HpaScalingPolicy → ℤ
    down_limit_by disabled ps = current
    down_limit_by min_change ps = limit_loop max_i32 propose_down min_int32 (pos 0) ps
    down_limit_by max_change ps = limit_loop min_i32 propose_down max_int32 (pos 0) ps
    down_limit_by (SelectPolicy.other s) ps = limit_loop min_i32 propose_down max_int32 (pos 0) ps

    unfoldable pub scale_up_limit : Option HpaScalingRules → Result Error ℤ
    scale_up_limit scaling_rules = do
      rules ← deref scaling_rules
      select ← deref rules.select_policy
      ok (up_limit_by select (policy_list rules.policies))

    unfoldable pub scale_down_limit : Option HpaScalingRules → Result Error ℤ
    scale_down_limit scaling_rules = do
      rules ← deref scaling_rules
      select ← deref rules.select_policy
      ok (down_limit_by select (policy_list rules.policies))
