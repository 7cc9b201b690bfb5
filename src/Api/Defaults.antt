-- ===== src/Api/Defaults.antt =====
-- api/v1alpha1/defaults.go: the defaults of the scaling behavior.
use hpa_plus.Prelude.{ℤ, pos, [], ◌∷◌, Option, none, some}
use hpa_plus.Api.Types.{HpaBehavior, HpaScalingRules, max_change, pods, percent}

abbrev pub default_min_replicas : ℤ
default_min_replicas = pos 1

unfoldable pub default_downscale : HpaScalingRules
default_downscale = record {
  stabilization_window_seconds = some (pos 0);
  select_policy = some max_change;
  policies = some (record { kind = percent; value = pos 100; period_seconds = pos 60 } ∷ []);
}

unfoldable pub default_upscale : HpaScalingRules
default_upscale = record {
  stabilization_window_seconds = some (pos 0);
  select_policy = some max_change;
  policies = some (
      record { kind = percent; value = pos 100; period_seconds = pos 15 }
      ∷ record { kind = pods; value = pos 4; period_seconds = pos 15 }
      ∷ []);
}

-- `if from.x != nil { to.x = from.x }`.
abbrev pub or_else {ℓ} : {A : Type ℓ} → Option A → Option A → Option A
or_else none to = to
or_else (some a) to = some a

unfoldable pub copy_scaling_rules : Option HpaScalingRules → HpaScalingRules → HpaScalingRules
copy_scaling_rules none to = to
copy_scaling_rules (some from) to = record {
  stabilization_window_seconds =
      or_else from.stabilization_window_seconds to.stabilization_window_seconds;
  select_policy = or_else from.select_policy to.select_policy;
  policies = or_else from.policies to.policies;
}

unfoldable pub default_behavior : Option HpaBehavior → HpaBehavior
default_behavior none = record {
  scale_down = some default_downscale;
  scale_up = some default_upscale;
}
default_behavior (some behavior) = record {
  scale_up = some (copy_scaling_rules behavior.scale_up default_upscale);
  scale_down = some (copy_scaling_rules behavior.scale_down default_downscale);
}
