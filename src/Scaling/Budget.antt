-- ===== src/Scaling/Budget.antt =====
-- The policies' budgets: what a rate limited count may differ by from the count at the start of
-- a policy's period.
use hpa_plus.Prelude.{
  ℤ, pos, leb_ℤ, ◌≤ℤ◌, ◌<ℤ◌, ◌+ℤ◌, ◌-ℤ◌, ◌≡◌, refl, ◌⊎◌, inl, inr, List, All, All-Mem, [], ◌∷◌,
  some, arith, ok, Floats, Bool-cases, max_int32, min_int32, up-pos, down-pos, up-negsuc,
  down-negsuc,
}
use mathlib.Core.List.{Memᴰ}
use hpa_plus.Api.Types.{
  TimestampedSample, HpaBehavior, min_change, max_change, pods, PolicyType, HpaScalingPolicy,
  HpaScalingRules,
}
use hpa_plus.Scaling.Limits.{
  scale_up_limit, scale_down_limit, up_limit_by, down_limit_by, limit_loop, bounded_replicas,
  period_start, max_i32, min_i32, propose_up, propose_down,
}
use hpa_plus.Scaling.Windows.{policy_list}
use hpa_plus.Scaling.Behavior.{limit_rate, apply_up_limit, apply_down_limit}

pos-bounded : (v r : ℤ) → pos 0 <ℤ r → r ≤ℤ bounded_replicas v → r ≤ℤ v
unfolding bounded_replicas
pos-bounded v r h e = ground arith

bounded-below : (v r : ℤ) → r <ℤ max_int32 → bounded_replicas v ≤ℤ r → v ≤ℤ r
unfolding bounded_replicas
bounded-below v r h e = ground arith

≤ℤ_trans : (a b c : ℤ) → a ≤ℤ b → b ≤ℤ c → a ≤ℤ c
≤ℤ_trans a b c h k = omega arith

propose_up-pods :
    (fl : Floats) (k : PolicyType) (start value q : ℤ)
    → k ≡ pods
    → propose_up fl k start value q ≡ bounded_replicas (start +ℤ value)
unfolding propose_up
propose_up-pods fl k start value q e = rw e

propose_down-pods :
    (fl : Floats) (k : PolicyType) (start value q : ℤ)
    → k ≡ pods
    → propose_down fl k start value q ≡ bounded_replicas (start -ℤ value)
unfolding propose_down
propose_down-pods fl k start value q e = rw e

module _ (fl : Floats) (current : ℤ) (ups downs : List TimestampedSample) (now : ℤ) where
  -- The count that a policy of type Pods allows.
  abbrev pub start_of : HpaScalingPolicy → ℤ
  start_of p = period_start current ups downs p.period_seconds now

  abbrev Propose : Type 0
  Propose = PolicyType → ℤ → ℤ → ℤ → ℤ

  min_loop-le_start :
      (propose : Propose) (r q : ℤ) (ps : List HpaScalingPolicy)
      → limit_loop fl current ups downs now min_i32 propose r q ps ≤ℤ r
  unfolding limit_loop min_i32
  min_loop-le_start propose r q [] = omega arith
  min_loop-le_start propose r q (p ∷ ps) =
      let next = propose p.kind (start_of p) p.value q in
      ground (arith, min_loop-le_start propose (min_i32 r next) next ps)

  max_loop-ge_start :
      (propose : Propose) (r q : ℤ) (ps : List HpaScalingPolicy)
      → r ≤ℤ limit_loop fl current ups downs now max_i32 propose r q ps
  unfolding limit_loop max_i32
  max_loop-ge_start propose r q [] = omega arith
  max_loop-ge_start propose r q (p ∷ ps) =
      let next = propose p.kind (start_of p) p.value q in
      ground (arith, max_loop-ge_start propose (max_i32 r next) next ps)

  min_loop-le_pods :
      (r q : ℤ) (ps : List HpaScalingPolicy)
      → All
          (λ p.
            p.kind ≡ pods
            → limit_loop fl current ups downs now min_i32 (propose_up fl) r q ps
              ≤ℤ bounded_replicas (start_of p +ℤ p.value))
          ps
  unfolding limit_loop min_i32
  min_loop-le_pods r q [] = tt
  min_loop-le_pods r q (p ∷ ps) =
      let next = propose_up fl p.kind (start_of p) p.value q in
      let bound = min_loop-le_start (propose_up fl) (min_i32 r next) next ps in
      (
        λ e. ground (arith, bound, propose_up-pods fl p.kind (start_of p) p.value q e),
        min_loop-le_pods (min_i32 r next) next ps,
      )

  max_loop-ge_pods :
      (r q : ℤ) (ps : List HpaScalingPolicy)
      → All
          (λ p.
            p.kind ≡ pods
            → bounded_replicas (start_of p -ℤ p.value)
              ≤ℤ limit_loop fl current ups downs now max_i32 (propose_down fl) r q ps)
          ps
  unfolding limit_loop max_i32
  max_loop-ge_pods r q [] = tt
  max_loop-ge_pods r q (p ∷ ps) =
      let next = propose_down fl p.kind (start_of p) p.value q in
      let bound = max_loop-ge_start (propose_down fl) (max_i32 r next) next ps in
      (
        λ e. ground (arith, bound, propose_down-pods fl p.kind (start_of p) p.value q e),
        max_loop-ge_pods (max_i32 r next) next ps,
      )

  -- The greatest limit is that of one of the policies.
  max_loop_attained :
      (r q : ℤ) (ps : List HpaScalingPolicy)
      → All (λ p. p.kind ≡ pods) ps
      → let limit = limit_loop fl current ups downs now max_i32 (propose_up fl) r q ps in
        (limit ≤ℤ r)
        ⊎ ((p : HpaScalingPolicy) × Memᴰ p ps × (limit ≤ℤ bounded_replicas (start_of p +ℤ p.value)))
  unfolding limit_loop max_i32
  max_loop_attained r q [] h = inl (omega arith)
  max_loop_attained r q (p ∷ ps) h =
      let next = propose_up fl p.kind (start_of p) p.value q in
      elim (max_loop_attained (max_i32 r next) next ps h.1) [
        | inr (p', m, b) ↦ inr (p', Memᴰ.tail m, b)
        | inl b ↦ elim (Bool-cases (leb_ℤ next r)) [
          | inl l ↦ inl (ground (arith, b))
          | inr l ↦ inr (
            p,
            Memᴰ.head refl,
            ground (arith, b, propose_up-pods fl p.kind (start_of p) p.value q h.0),
          )
        ]
      ]

module _ (fl : Floats) (behavior : HpaBehavior) (rules : HpaScalingRules) (current target r : ℤ)
    (ups downs : List TimestampedSample) (now : ℤ) where
  within_up_limit :
      behavior.scale_up ≡ some rules
      → rules.select_policy ≡ some min_change
      → limit_rate fl behavior current target ups downs now ≡ ok r
      → current <ℤ r
      → r
        ≤ℤ limit_loop fl current ups downs now min_i32
            (propose_up fl)
            max_int32
            (pos 0)
            (policy_list rules.policies)
  unfolding limit_rate apply_up_limit apply_down_limit scale_up_limit up_limit_by
  within_up_limit b s e h = ground arith

  above_down_limit :
      behavior.scale_down ≡ some rules
      → rules.select_policy ≡ some min_change
      → limit_rate fl behavior current target ups downs now ≡ ok r
      → r <ℤ current
      → limit_loop fl current ups downs now max_i32
          (propose_down fl)
          min_int32
          (pos 0)
          (policy_list rules.policies)
        ≤ℤ r
  unfolding limit_rate apply_up_limit apply_down_limit scale_down_limit down_limit_by
  above_down_limit b s e h = ground arith

  within_widest_limit :
      behavior.scale_up ≡ some rules
      → rules.select_policy ≡ some max_change
      → limit_rate fl behavior current target ups downs now ≡ ok r
      → current <ℤ r
      → r
        ≤ℤ limit_loop fl current ups downs now max_i32
            (propose_up fl)
            min_int32
            (pos 0)
            (policy_list rules.policies)
  unfolding limit_rate apply_up_limit apply_down_limit scale_up_limit up_limit_by
  within_widest_limit b s e h = ground arith

  -- Under the select policy Min a scale-up from a count that is not negative stays within the budget
  -- of each Pods policy: the count at the start of its period, plus its value.
  pub scale_up_budget :
      behavior.scale_up ≡ some rules
      → rules.select_policy ≡ some min_change
      → limit_rate fl behavior current target ups downs now ≡ ok r
      → pos 0 ≤ℤ current
      → current <ℤ r
      → (p : HpaScalingPolicy) → Memᴰ p (policy_list rules.policies)
      → p.kind ≡ pods
      → r ≤ℤ period_start current ups downs p.period_seconds now +ℤ p.value
  scale_up_budget b s e z h p m k = pos-bounded _ r (omega arith) (
      ≤ℤ_trans _ _ _ (within_up_limit b s e h) (
        All-Mem _ m
          (min_loop-le_pods fl current ups downs now max_int32 (pos 0) (policy_list rules.policies))
          k))

  -- Under the select policy Min a scale-down keeps at least what each Pods policy keeps: the count
  -- at the start of its period, less its value.
  pub scale_down_budget :
      behavior.scale_down ≡ some rules
      → rules.select_policy ≡ some min_change
      → limit_rate fl behavior current target ups downs now ≡ ok r
      → r <ℤ max_int32
      → r <ℤ current
      → (p : HpaScalingPolicy) → Memᴰ p (policy_list rules.policies)
      → p.kind ≡ pods
      → period_start current ups downs p.period_seconds now -ℤ p.value ≤ℤ r
  scale_down_budget b s e z h p m k = bounded-below _ r z (
      ≤ℤ_trans _ _ _
        (All-Mem _ m
          (max_loop-ge_pods fl current ups downs now min_int32 (pos 0) (policy_list rules.policies))
          k)
        (above_down_limit b s e h))

  -- Under the select policy Max, with Pods policies only, a scale-up from a count that is not
  -- negative stays within the budget of some policy.
  pub scale_up_widest_budget :
      behavior.scale_up ≡ some rules
      → rules.select_policy ≡ some max_change
      → limit_rate fl behavior current target ups downs now ≡ ok r
      → pos 0 ≤ℤ current
      → current <ℤ r
      → All (λ p. p.kind ≡ pods) (policy_list rules.policies)
      → (p : HpaScalingPolicy) × Memᴰ p (policy_list rules.policies)
        × (r ≤ℤ period_start current ups downs p.period_seconds now +ℤ p.value)
  scale_up_widest_budget b s e z h a =
      let limit = within_widest_limit b s e h in
      elim (max_loop_attained fl current ups downs now min_int32 (pos 0)
        (policy_list rules.policies) a) [
          | inl l ↦ absurd (
              omega (
                arith,
                limit,
                l,
                up-negsuc 2147483647,
                down-negsuc 2147483647,
                up-pos 0,
                down-pos 0,
              ))
          | inr (p, m, l) ↦ (p, m, pos-bounded _ r (omega arith) (≤ℤ_trans _ _ _ limit l))
        ]
