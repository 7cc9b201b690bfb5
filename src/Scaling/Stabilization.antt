-- ===== src/Scaling/Stabilization.antt =====
-- The stabilization of a recommendation over the two windows.
use hpa_plus.Prelude.{
  ℤ, ltb_ℤ, ◌≤ℤ◌, ◌<ℤ◌, ◌≡◌, ◌⊎◌, inl, inr, Bool-cases, eq_of_parts, List, [], ◌∷◌, All, All-imp,
  arith, if◌then◌else◌,
}
use hpa_plus.Api.Types.{TimestampedSample}
use hpa_plus.Scaling.Behavior.{lowest_replicas, highest_replicas, stabilize}

pub lowest-le_start : (low : ℤ) (h : List TimestampedSample) → lowest_replicas low h ≤ℤ low
unfolding lowest_replicas
lowest-le_start low [] = omega arith
lowest-le_start low (s ∷ h) =
    ground (arith, lowest-le_start (if ltb_ℤ s.replicas low then s.replicas else low) h)

pub lowest-le-All :
    (low : ℤ) (h : List TimestampedSample) → All (λ s. lowest_replicas low h ≤ℤ s.replicas) h
unfolding lowest_replicas
lowest-le-All low [] = tt
lowest-le-All low (s ∷ h) =
    let next : ℤ = if ltb_ℤ s.replicas low then s.replicas else low in
    (ground (arith, lowest-le_start next h), lowest-le-All next h)

pub start-le-highest : (high : ℤ) (h : List TimestampedSample) → high ≤ℤ highest_replicas high h
unfolding highest_replicas
start-le-highest high [] = omega arith
start-le-highest high (s ∷ h) =
    ground (arith, start-le-highest (if ltb_ℤ high s.replicas then s.replicas else high) h)

pub All-le-highest :
    (high : ℤ) (h : List TimestampedSample) → All (λ s. s.replicas ≤ℤ highest_replicas high h) h
unfolding highest_replicas
All-le-highest high [] = tt
All-le-highest high (s ∷ h) =
    let next : ℤ = if ltb_ℤ high s.replicas then s.replicas else high in
    (ground (arith, start-le-highest next h), All-le-highest next h)

pub stabilize_bounded :
    (current target : ℤ) (up_history down_history : List TimestampedSample)
    → let r = stabilize current target up_history down_history in
      (current <ℤ r → (r ≤ℤ target) × All (λ s. r ≤ℤ s.replicas) up_history)
      × (r <ℤ current → (target ≤ℤ r) × All (λ s. s.replicas ≤ℤ r) down_history)
unfolding stabilize
stabilize_bounded current target ups downs = (
  λ h. (
    ground (arith, lowest-le_start target ups, start-le-highest target downs),
    All-imp
        (λ s (e : lowest_replicas target ups ≤ℤ s.replicas).
          ground (arith, lowest-le_start target ups, start-le-highest target downs))
        ups (lowest-le-All target ups),
  ),
  λ h. (
    ground (arith, lowest-le_start target ups, start-le-highest target downs),
    All-imp
        (λ s (e : s.replicas ≤ℤ highest_replicas target downs).
          ground (arith, lowest-le_start target ups, start-le-highest target downs))
        downs (All-le-highest target downs),
  ),
)

lowest-greatest :
    (v low : ℤ) (h : List TimestampedSample)
    → v ≤ℤ low
    → All (λ s. v ≤ℤ s.replicas) h
    → v ≤ℤ lowest_replicas low h
unfolding lowest_replicas
lowest-greatest v low [] e a = e
lowest-greatest v low (s ∷ h) e a =
    lowest-greatest v (if ltb_ℤ s.replicas low then s.replicas else low) h (ground arith) a.1

highest-least :
    (v high : ℤ) (h : List TimestampedSample)
    → high ≤ℤ v
    → All (λ s. s.replicas ≤ℤ v) h
    → highest_replicas high h ≤ℤ v
unfolding highest_replicas
highest-least v high [] e a = e
highest-least v high (s ∷ h) e a =
    highest-least v (if ltb_ℤ high s.replicas then s.replicas else high) h (ground arith) a.1

-- The stabilized count is the current one; or it is above, and at most the target and every
-- recommendation of the scale-up window; or it is below, and at least the target and every
-- recommendation of the scale-down window.
pub stabilize_sound :
    (current target : ℤ) (up_history down_history : List TimestampedSample)
    → let r = stabilize current target up_history down_history in
      (r ≡ current)
      ⊎ ((current <ℤ r) × (r ≤ℤ target) × All (λ s. r ≤ℤ s.replicas) up_history)
      ⊎ ((r <ℤ current) × (target ≤ℤ r) × All (λ s. s.replicas ≤ℤ r) down_history)
stabilize_sound current target ups downs =
    let r = stabilize current target ups downs in
    let (above, below) = stabilize_bounded current target ups downs in
    elim (Bool-cases (ltb_ℤ current r)) [
      | inl e ↦ let h : current <ℤ r = ground arith in inr (inl (h, (above h).0, (above h).1))
      | inr e ↦ elim (Bool-cases (ltb_ℤ r current)) [
        | inl f ↦ let h : r <ℤ current = ground arith in inr (inr (h, (below h).0, (below h).1))
        | inr f ↦ inl (eq_of_parts r current (ground arith))
      ]
    ]

-- Where the target and the whole scale-up window are at least v, so is the stabilized count.
pub stabilize_raises :
    (current target v : ℤ) (up_history down_history : List TimestampedSample)
    → v ≤ℤ target
    → All (λ s. v ≤ℤ s.replicas) up_history
    → v ≤ℤ stabilize current target up_history down_history
unfolding stabilize
stabilize_raises current target v ups downs e a =
    ground (arith, lowest-greatest v target ups e a, start-le-highest target downs)

-- Where the target and the whole scale-down window are at most v, so is the stabilized count.
pub stabilize_lowers :
    (current target v : ℤ) (up_history down_history : List TimestampedSample)
    → target ≤ℤ v
    → All (λ s. s.replicas ≤ℤ v) down_history
    → stabilize current target up_history down_history ≤ℤ v
unfolding stabilize
stabilize_lowers current target v ups downs e a =
    ground (arith, highest-least v target downs e a, lowest-le_start target ups)
