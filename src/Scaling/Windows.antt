-- ===== src/Scaling/Windows.antt =====
-- internal/scalebehavior/scalebehavior.go: samples and events within a time window.
use hpa_plus.Prelude.{
  ℤ, pos, ltb_ℤ, ◌==ℤ◌, ◌+ℤ◌, ◌-ℤ◌, min_int32, seconds, Bool, false, List, [], ◌∷◌, Option, none,
  some, if◌then◌else◌,
}
use hpa_plus.Api.Types.{TimestampedSample, HpaScalingRules, HpaScalingPolicy}

-- `t != nil && t.After(cutoff)`.
unfoldable pub is_after : Option ℤ → ℤ → Bool
is_after none cutoff = false
is_after (some t) cutoff = ltb_ℤ cutoff t

-- int32 negation, which wraps at the least value.
unfoldable pub neg_int32 : ℤ → ℤ
neg_int32 w = if w ==ℤ min_int32 then min_int32 else pos 0 -ℤ w

unfoldable pub longest_loop : ℤ → List HpaScalingPolicy → ℤ
longest_loop longest [] = longest
longest_loop longest (p ∷ rest) =
    longest_loop (if ltb_ℤ longest p.period_seconds then p.period_seconds else longest) rest

-- Ranging over a nil slice does nothing.
abbrev pub policy_list : Option (List HpaScalingPolicy) → List HpaScalingPolicy
policy_list none = []
policy_list (some ps) = ps

unfoldable pub get_longest_policy_period : Option HpaScalingRules → ℤ
get_longest_policy_period none = pos 0
get_longest_policy_period (some rules) = longest_loop (pos 0) (policy_list rules.policies)

unfoldable pub keep_after : ℤ → List TimestampedSample → List TimestampedSample
keep_after cutoff [] = []
keep_after cutoff (s ∷ rest) =
    if is_after s.time cutoff then s ∷ keep_after cutoff rest else keep_after cutoff rest

unfoldable pub prune_to_window : List TimestampedSample → ℤ → ℤ → List TimestampedSample
prune_to_window samples window now = keep_after (now +ℤ seconds (neg_int32 window)) samples

unfoldable pub changes_after : ℤ → ℤ → List TimestampedSample → ℤ
changes_after cutoff replicas [] = replicas
changes_after cutoff replicas (e ∷ rest) =
    changes_after cutoff (if is_after e.time cutoff then replicas +ℤ e.replicas else replicas) rest

unfoldable pub get_replica_changes : List TimestampedSample → ℤ → ℤ → ℤ
get_replica_changes events period_seconds now =
    changes_after (now -ℤ seconds period_seconds) (pos 0) events
