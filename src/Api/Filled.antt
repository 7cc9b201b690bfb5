-- ===== src/Api/Filled.antt =====
-- The defaults leave no pointer of the scaling behavior nil, and keep what is given.
use hpa_plus.Prelude.{ℤ, Option, none, some, ◌≡◌, refl, arith}
use hpa_plus.Api.Types.{HpaBehavior, HpaScalingRules, SelectPolicy}
use hpa_plus.Api.Defaults.{
  default_behavior, copy_scaling_rules, default_upscale, default_downscale, or_else,
}

-- Rules with a window and a select policy.
pub record FilledRules (rules : Option HpaScalingRules) : Type 0 where
  pub value : HpaScalingRules
  pub value_eq : rules ≡ some value
  pub window : ℤ
  pub window_eq : value.stabilization_window_seconds ≡ some window
  pub select : SelectPolicy
  pub select_eq : value.select_policy ≡ some select

or_else-some {ℓ} : {A : Type ℓ} (o : Option A) (a : A) → (b : A) × (or_else o (some a) ≡ some b)
or_else-some none a = (a, refl)
or_else-some (some b) a = (b, refl)

copy-FilledRules :
    (from : Option HpaScalingRules) (to : HpaScalingRules)
    → FilledRules (some to)
    → FilledRules (some (copy_scaling_rules from to))
unfolding copy_scaling_rules
copy-FilledRules none to f = f
copy-FilledRules (some from) to f =
    let to_value : to ≡ f.value = cc (f.value_eq) in
    let (w, p) = or_else-some from.stabilization_window_seconds f.window in
    let (s, q) = or_else-some from.select_policy f.select in
    record {
      value = copy_scaling_rules (some from) to;
      value_eq = refl;
      window = w;
      window_eq = ground (arith, p, to_value);
      select = s;
      select_eq = ground (arith, q, to_value);
    }

upscale-FilledRules : FilledRules (some default_upscale)
unfolding default_upscale
upscale-FilledRules = record {
  value = _;
  value_eq = refl;
  window = _;
  window_eq = refl;
  select = _;
  select_eq = refl;
}

downscale-FilledRules : FilledRules (some default_downscale)
unfolding default_downscale
downscale-FilledRules = record {
  value = _;
  value_eq = refl;
  window = _;
  window_eq = refl;
  select = _;
  select_eq = refl;
}

-- A behavior with such rules in both directions.
pub record IsFilled (behavior : HpaBehavior) : Type 0 where
  pub up_rules : FilledRules behavior.scale_up
  pub down_rules : FilledRules behavior.scale_down

pub default_behavior-IsFilled : (b : Option HpaBehavior) → IsFilled (default_behavior b)
unfolding default_behavior
default_behavior-IsFilled none = record {
  up_rules = upscale-FilledRules;
  down_rules = downscale-FilledRules;
}
default_behavior-IsFilled (some b) = record {
  up_rules = copy-FilledRules b.scale_up default_upscale upscale-FilledRules;
  down_rules = copy-FilledRules b.scale_down default_downscale downscale-FilledRules;
}

rules_eq :
    (a b : HpaScalingRules)
    → a.stabilization_window_seconds ≡ b.stabilization_window_seconds
    → a.select_policy ≡ b.select_policy
    → a.policies ≡ b.policies
    → a ≡ b
rules_eq a b p q r =
    λ i. record { stabilization_window_seconds = p i; select_policy = q i; policies = r i }

or_else_again {ℓ} : {A : Type ℓ} (a b : Option A) → or_else (or_else a b) b ≡ or_else a b
or_else_again none none = refl
or_else_again none (some b) = refl
or_else_again (some a) b = refl

or_else_same {ℓ} : {A : Type ℓ} (a : Option A) → or_else a a ≡ a
or_else_same none = refl
or_else_same (some a) = refl

copy_same : (to : HpaScalingRules) → copy_scaling_rules (some to) to ≡ to
unfolding copy_scaling_rules
copy_same to = rules_eq _ _ (or_else_same _) (or_else_same _) (or_else_same _)

copy_again :
    (from : Option HpaScalingRules) (to : HpaScalingRules)
    → copy_scaling_rules (some (copy_scaling_rules from to)) to ≡ copy_scaling_rules from to
unfolding copy_scaling_rules
copy_again none to = rules_eq _ _ (or_else_same _) (or_else_same _) (or_else_same _)
copy_again (some from) to =
    rules_eq _ _ (or_else_again from.stabilization_window_seconds to.stabilization_window_seconds)
      (or_else_again from.select_policy to.select_policy) (or_else_again from.policies to.policies)

-- Defaulting a second time changes nothing.
pub default_behavior_idem :
    (b : Option HpaBehavior) → default_behavior (some (default_behavior b)) ≡ default_behavior b
unfolding default_behavior
default_behavior_idem none = rw (copy_same default_upscale, copy_same default_downscale)
default_behavior_idem (some b) =
    rw (copy_again b.scale_up default_upscale, copy_again b.scale_down default_downscale)
