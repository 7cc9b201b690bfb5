-- ===== src/Forecast/Timed.antt =====
-- TimedWindowReplicas: what the replicas of a trajectory serve, and when they may fall.
use mathlib.Core.List.{Memᴰ}
use hpa_plus.Prelude.{
  ℤ, pos, negsuc, up, down, ◌≤ℤ◌, seconds, ◌*◌, ◌≤◌, ◌<◌, ◌≡◌, refl, sym, subst, ap, ◌⊎◌, inl, inr,
  arith, Bool, true, false, ◌||◌, List, [], ◌∷◌, All, ok, Bool-cases, Result-cases,
}
use native.Mathlib.Nat.{mul-le-mul_right}
use hpa_plus.Forecast.Types.{Clock, CpuForecastPoint, Capacity}
use hpa_plus.Forecast.Demand.{replicas_for}
use hpa_plus.Forecast.Trajectory.{time_of, validate_trajectory}
use hpa_plus.Forecast.Exact.{unit_of, check_unit, replicas_for-Covers}
use hpa_plus.Forecast.Windows.{
  Tolerances, PredictivePolicy, Scan, max_demand, covers, impends, scan_point, scan_points, no_scan,
  hold_unknown, suppress_small, check_capacity, valid_policy, timed_window_replicas,
}

max_demand-le : (counts : Bool) (cpu demand : ℤ) → demand ≤ℤ max_demand counts cpu demand
unfolding max_demand
max_demand-le counts cpu demand = ground arith

max_demand-counts : (cpu demand : ℤ) → cpu ≤ℤ max_demand true cpu demand
unfolding max_demand
max_demand-counts cpu demand = ground arith

up_mono : (a b : ℤ) → a ≤ℤ b → up a ≤ up b
unfolding up down
up_mono (pos m) (pos n) h = ground arith
up_mono (pos m) (negsuc n) h = ground arith
up_mono (negsuc m) b h = ground arith

module _ (c : Clock) (now lead : ℤ) where
  -- The point covers now, or starts within the lead.
  abbrev pub Counts : CpuForecastPoint → Type 0
  Counts p =
      (covers now (time_of c p.at) (time_of c p.until) || impends now lead (time_of c p.at)) ≡ true

  scan_point-le : (p : CpuForecastPoint) (s : Scan) → s.demand ≤ℤ (scan_point c now lead p s).demand
  unfolding scan_point
  scan_point-le p s =
      let a = max_demand-le (covers now (time_of c p.at) (time_of c p.until)) p.cpu s.demand in
      let b =
        max_demand-le (impends now lead (time_of c p.at)) p.cpu
          (max_demand (covers now (time_of c p.at) (time_of c p.until)) p.cpu s.demand) in
      omega (arith, a, b)

  scan_point-counts :
      (p : CpuForecastPoint) (s : Scan) → Counts p → p.cpu ≤ℤ (scan_point c now lead p s).demand
  unfolding scan_point max_demand
  scan_point-counts p s h = ground arith

  scan_points-le :
      (points : List CpuForecastPoint) (s : Scan)
      → s.demand ≤ℤ (scan_points c now lead points s).demand
  unfolding scan_points
  scan_points-le [] s = omega arith
  scan_points-le (p ∷ rest) s =
      let a = scan_point-le p s in
      let b = scan_points-le rest (scan_point c now lead p s) in omega (arith, a, b)

  scan_points-counts :
      (points : List CpuForecastPoint) (p : CpuForecastPoint) (s : Scan)
      → Memᴰ p points
      → Counts p
      → p.cpu ≤ℤ (scan_points c now lead points s).demand
  unfolding scan_points
  scan_points-counts [] p s mem h = elim mem [ ]
  scan_points-counts (q ∷ rest) p s (Memᴰ.head e) h =
      let a = scan_point-counts q s (subst Counts e h) in
      let b = scan_points-le rest (scan_point c now lead q s) in
      let same = ap (λ p. p.cpu) e in
      subst (λ x. x ≤ℤ (scan_points c now lead rest (scan_point c now lead q s)).demand) (sym same)
        (omega (arith, a, b))
  scan_points-counts (q ∷ rest) p s (Memᴰ.tail mem) h =
      scan_points-counts rest p (scan_point c now lead q s) mem h

  scan_unknown :
      (points : List CpuForecastPoint) (s : Scan)
      → s.current_known ≡ false
      → All (λ p. covers now (time_of c p.at) (time_of c p.until) ≡ false) points
      → (scan_points c now lead points s).current_known ≡ false
  unfolding scan_points scan_point
  scan_unknown [] s h none = h
  scan_unknown (p ∷ rest) s h none =
      scan_unknown rest (scan_point c now lead p s) (rw h none.0) none.1

module _ (c : Clock) (ts : Tolerances) (points : List CpuForecastPoint)
    (policy : PredictivePolicy ts) (capacity : Capacity) (requested now n boundary : ℤ) where
  abbrev scanned : Scan
  scanned = scan_points c now (seconds policy.scale_up_lead_seconds) points (no_scan c)

  -- The parts of a call that succeeds: the count for the demand gathered, and what is made of it.
  timed_parts :
      timed_window_replicas c ts points policy capacity requested now ≡ ok (n, boundary)
      → (0 < unit_of capacity)
        × ((m : ℤ) × (replicas_for scanned.demand capacity ≡ ok m)
            × (n
                ≡ suppress_small c ts policy capacity requested scanned.demand
                    (hold_unknown c ts scanned.current_known requested m)))
  unfolding timed_window_replicas check_capacity
  timed_parts h = elim (Result-cases (validate_trajectory c points)) [
    | inl (e, h1) ↦ ground arith
    | inr (u1, h1) ↦ elim (Bool-cases (valid_policy c ts policy requested)) [
      | inr h2 ↦ ground arith
      | inl h2 ↦ elim (Result-cases (check_capacity c ts capacity)) [
        | inl (e, h3) ↦ ground arith
        | inr (u3, h3) ↦ elim (Result-cases (replicas_for scanned.demand capacity)) [
          | inl (e, h4) ↦ ground arith
          | inr (m, h4) ↦ (check_unit _ _ h3, (m, h4, ground arith))
        ]
      ]
    ]
  ]

  either :
      (m : ℤ)
      → n
        ≡ suppress_small c ts policy capacity requested scanned.demand
            (hold_unknown c ts scanned.current_known requested m)
      → (n ≡ requested) ⊎ (n ≡ m)
  unfolding suppress_small hold_unknown
  either m is_n = ground arith

  held :
      (m : ℤ)
      → n
        ≡ suppress_small c ts policy capacity requested scanned.demand
            (hold_unknown c ts scanned.current_known requested m)
      → scanned.current_known ≡ false
      → requested ≤ℤ n
  unfolding suppress_small hold_unknown
  held m is_n unknown = ground arith

  -- The count is the one asked for, or enough for every point that covers now or starts within the
  -- lead: no later point can take capacity away.
  pub timed_window_replicas_serves :
      (p : CpuForecastPoint)
      → Memᴰ p points
      → Counts c now (seconds policy.scale_up_lead_seconds) p
      → timed_window_replicas c ts points policy capacity requested now ≡ ok (n, boundary)
      → (n ≡ requested) ⊎ (up p.cpu * 100 ≤ up n * unit_of capacity)
  unfolding suppress_small hold_unknown
  timed_window_replicas_serves p mem counts h =
      let (unit, (m, h1, is_n)) = timed_parts h in
      let (serves, least, low, high) = replicas_for-Covers scanned.demand capacity m unit h1 in
      let top =
        scan_points-counts c now (seconds policy.scale_up_lead_seconds) points p (no_scan c) mem
          counts in
      let more = mul-le-mul_right 100 (up_mono p.cpu scanned.demand top) in
      elim (either m is_n) [
        | inl same ↦ inl same
        | inr is_m ↦
            inr (subst (λ n. up p.cpu * 100 ≤ up n * unit_of capacity) (sym is_m) (omega arith))
      ]

  -- Where no point covers now, the count does not fall below the one asked for.
  pub timed_window_replicas_holds :
      All (λ p. covers now (time_of c p.at) (time_of c p.until) ≡ false) points
      → timed_window_replicas c ts points policy capacity requested now ≡ ok (n, boundary)
      → requested ≤ℤ n
  unfolding suppress_small hold_unknown no_scan
  timed_window_replicas_holds uncovered h =
      let (unit, (m, h1, is_n)) = timed_parts h in
      let unknown =
        scan_unknown c now (seconds policy.scale_up_lead_seconds) points (no_scan c) refl
          uncovered in
      held m is_n unknown
