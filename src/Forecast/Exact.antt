-- ===== src/Forecast/Exact.antt =====
-- ResolveDemand of internal/prediction/demand.go: its rounding.
use hpa_plus.Prelude.{
  ℤ, pos, negsuc, subst, up, down, ◌≤ℤ◌, max_int32, ltb, leb_ℤ, ltb_ℤ, ℕ, ◌+◌, ◌*◌, ◌/◌, ◌≤◌, ◌<◌,
  ◌≡◌, refl, sym, inl, inr, arith, true, ok, Bool-cases, Result-cases,
}
use native.Mathlib.Omega.{div_any}
use native.Mathlib.Nat.{mul-pos, mod-lt, add-mul, mul_comm, lt_of_mul-lt-mul_right}
use hpa_plus.Forecast.Types.{Capacity, Observation, Demand, DemandResult, Prediction}
use hpa_plus.Forecast.Demand.{quotient_up, replicas_for, is_capacity, check_demand, resolve_demand}

-- What a pod can serve, in hundredths of a millicore.
abbrev pub unit_of : Capacity → ℕ
unit_of c = up c.request_per_pod * up c.target_percentage

quotient_up_le : (a b : ℕ) → 0 < b → a ≤ quotient_up a b * b
unfolding quotient_up
quotient_up_le a b h =
    let whole = div_any a b in
    let below = mod-lt a h in
    let spread = add-mul (a / b) 1 b in let turned = mul_comm b (a / b) in ground arith

quotient_up_lt : (a b : ℕ) → 0 < b → quotient_up a b * b < a + b
unfolding quotient_up
quotient_up_lt a b h =
    let whole = div_any a b in
    let below = mod-lt a h in
    let spread = add-mul (a / b) 1 b in let turned = mul_comm b (a / b) in ground arith

quotient_up_least : (a b n : ℕ) → 0 < b → a ≤ n * b → quotient_up a b ≤ n
quotient_up_least a b n h le =
    let above = quotient_up_lt a b h in
    let spread = add-mul n 1 b in
    let below = lt_of_mul-lt-mul_right b {m = quotient_up a b} {n = n + 1} (omega arith) in
    omega arith

-- `n` replicas serve a demand, and one less would not.
abbrev pub Covers : ℤ → Capacity → ℤ → Type 0
Covers value c n =
    (up value * 100 ≤ up n * unit_of c)
    × (up n * unit_of c < up value * 100 + unit_of c)
    × (pos 0 ≤ℤ n)
    × (n ≤ℤ max_int32)

pub up_zero : (value : ℤ) → leb_ℤ value (pos 0) ≡ true → up value ≡ 0
unfolding up down
up_zero (pos k) h = ground arith
up_zero (negsuc k) h = refl

Covers-none : (value : ℤ) (c : Capacity) → 0 < unit_of c → up value ≡ 0 → Covers value c (pos 0)
unfolding up down
Covers-none value c h e = (ground arith, ground arith, omega arith, omega arith)

Covers-some :
    (value : ℤ) (c : Capacity) (q : ℕ)
    → up value * 100 ≤ q * unit_of c
    → q * unit_of c < up value * 100 + unit_of c
    → q ≤ 2147483647
    → Covers value c (pos q)
unfolding up down
Covers-some value c q le lt small = (le, lt, omega arith, omega arith)

pub replicas_for-Covers :
    (value : ℤ) (c : Capacity) (n : ℤ)
    → 0 < unit_of c
    → replicas_for value c ≡ ok n
    → Covers value c n
unfolding replicas_for
replicas_for-Covers value c n h e = elim (Bool-cases (leb_ℤ value (pos 0))) [
  | inl none_needed ↦
      let zero_up = up_zero value none_needed in
      let is_zero : n ≡ pos 0 = ground arith in
      subst (Covers value c) (sym is_zero) (Covers-none value c h zero_up)
  | inr some_needed ↦
      let q = quotient_up (up value * 100) (unit_of c) in
      let le = quotient_up_le (up value * 100) (unit_of c) h in
      let lt = quotient_up_lt (up value * 100) (unit_of c) h in
      elim (Bool-cases (ltb 2147483647 q)) [
        | inl large ↦ ground arith
        | inr small ↦
            let is_q : n ≡ pos q = ground arith in
            subst (Covers value c) (sym is_q) (Covers-some value c q le lt (ground arith))
      ]
]

above_zero : (a : ℤ) → ltb_ℤ (pos 0) a ≡ true → 0 < up a
unfolding up down
above_zero (pos k) h = ground arith
above_zero (negsuc k) h = ground arith

capacity_unit : (c : Capacity) → is_capacity c ≡ true → 0 < unit_of c
unfolding is_capacity
capacity_unit c h = elim (Bool-cases (ltb_ℤ (pos 0) c.request_per_pod)) [
  | inr h1 ↦ ground arith
  | inl h1 ↦ elim (Bool-cases (ltb_ℤ (pos 0) c.target_percentage)) [
    | inr h2 ↦ ground arith
    | inl h2 ↦ mul-pos (above_zero c.request_per_pod h1) (above_zero c.target_percentage h2)
  ]
]

pub check_unit : (d : Demand) (o : Observation) → check_demand d o ≡ ok tt → 0 < unit_of o.capacity
unfolding check_demand
check_unit d o h = elim (Bool-cases (is_capacity o.capacity)) [
  | inl good ↦ capacity_unit o.capacity good
  | inr bad ↦ ground arith
]

-- The replicas of a resolved demand serve it, one less would not, and their number is in int32; for
-- demand, request and target percentage as a pod is measured.
pub resolve_demand_exact :
    (result : DemandResult) (o : Observation) (r : Prediction)
    → resolve_demand result o ≡ ok r
    → (up result.demand.value * 100 ≤ up r.replicas * unit_of o.capacity)
      × (up r.replicas * unit_of o.capacity < up result.demand.value * 100 + unit_of o.capacity)
      × (pos 0 ≤ℤ r.replicas)
      × (r.replicas ≤ℤ max_int32)
unfolding resolve_demand
resolve_demand_exact result o r h = elim (Result-cases (check_demand result.demand o)) [
  | inl (e, h1) ↦ ground arith
  | inr (u, h1) ↦ elim (Result-cases (replicas_for result.demand.value o.capacity)) [
    | inl (e, h2) ↦ ground arith
    | inr (n, h2) ↦
        let same : n ≡ r.replicas = ground arith in
        subst (Covers result.demand.value o.capacity) same
          (replicas_for-Covers result.demand.value o.capacity n (check_unit result.demand o h1) h2)
  ]
]
