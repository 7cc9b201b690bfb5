-- ===== src/Forecast/Windows.antt =====
-- internal/prediction/timed.go: the windows of a trajectory, the replicas for the current one, and
-- the estimate kept when a new trajectory comes. The tolerance is a float64, and big.Rat's
-- comparison with it is a parameter.
use hpa_plus.Prelude.{
  ℤ, pos, ltb_ℤ, leb_ℤ, ◌==ℤ◌, ◌+ℤ◌, ◌-ℤ◌, ◌*ℤ◌, seconds, same_text, String, Bool, true, false, not,
  ◌&&◌, ◌||◌, List, [], ◌∷◌, ◌++◌, map, Option, none, some, if◌then◌else◌, Result, ok, err, require,
  ◌>>=◌, ◌>>◌,
}
use hpa_plus.Forecast.Types.{Clock, CpuForecastPoint, Capacity, ForecastError, invalid_policy}
use hpa_plus.Forecast.Demand.{replicas_for, check_demand, cpu_kind}
use hpa_plus.Forecast.Trajectory.{time_of, sub_time, validate_trajectory}

-- The fields of a cached prediction that a merge reads.
pub record CachedPrediction : Type 0 where
  pub trajectory : List CpuForecastPoint
  pub fingerprint : String
  pub expires_at : ℤ

abbrev pub succeeds {ℓ} : {A : Type ℓ} → Result ForecastError A → Bool
succeeds (ok a) = true
succeeds (err e) = false

-- What the code asks of a tolerance: `IsNaN`, `IsInf`, `< 0` or `> .2`; `> 0`; and whether the
-- fraction of two integers is at most 1 + tolerance.
pub record Tolerances : Type 1 where
  pub T : Type 0
  pub default : T
  pub is_valid : T → Bool
  pub is_positive : T → Bool
  pub within : ℤ → ℤ → T → Bool

pub record PredictivePolicy (ts : Tolerances) : Type 0 where
  pub scale_up_lead_seconds : ℤ
  pub tolerance : Option ts.T

unfoldable pub last_point : CpuForecastPoint → List CpuForecastPoint → CpuForecastPoint
last_point p [] = p
last_point p (q ∷ rest) = last_point q rest

-- What the loop over the points gathers.
pub record Scan : Type 0 where
  pub current_known : Bool
  pub demand : ℤ
  pub boundary : ℤ

-- `consider`.
unfoldable pub consider : ℤ → ℤ → ℤ → ℤ
consider now boundary t =
    if ltb_ℤ now t && (boundary ==ℤ pos 0 || ltb_ℤ t boundary) then t else boundary

unfoldable pub max_demand : Bool → ℤ → ℤ → ℤ
max_demand counts cpu demand = if counts && ltb_ℤ demand cpu then cpu else demand

abbrev pub covers : ℤ → ℤ → ℤ → Bool
covers now at until = leb_ℤ at now && ltb_ℤ now until

abbrev pub impends : ℤ → ℤ → ℤ → Bool
impends now lead at = ltb_ℤ now at && leb_ℤ at (now +ℤ lead)

module _ (c : Clock) where
  -- A point moved back by one step.
  unfoldable pub shift_point : ℤ → CpuForecastPoint → CpuForecastPoint
  shift_point step p = record p {
    at = c.format (time_of c p.at -ℤ step);
    until = c.format (time_of c p.until -ℤ step);
  }

  unfoldable pub forecast_windows : List CpuForecastPoint → List CpuForecastPoint
  forecast_windows [] = []
  forecast_windows (p ∷ rest) =
      let last = last_point p rest in
      map (shift_point (sub_time (time_of c last.until) (time_of c last.at))) (p ∷ rest)

  unfoldable pub scan_point : ℤ → ℤ → CpuForecastPoint → Scan → Scan
  scan_point now lead p s =
      let at = time_of c p.at in
      let until = time_of c p.until in
      record {
        current_known = s.current_known || covers now at until;
        demand =
            max_demand (impends now lead at) p.cpu
              (max_demand (covers now at until) p.cpu s.demand);
        boundary = consider now (consider now (consider now s.boundary at) until) (at -ℤ lead);
      }

  unfoldable pub scan_points : ℤ → ℤ → List CpuForecastPoint → Scan → Scan
  scan_points now lead [] s = s
  scan_points now lead (p ∷ rest) s = scan_points now lead rest (scan_point now lead p s)

  unfoldable pub no_scan : Scan
  no_scan = record { current_known = false; demand = pos 0; boundary = pos 0 }

  module _ (ts : Tolerances) where
    unfoldable pub effective_tolerance : PredictivePolicy ts → ts.T
    effective_tolerance policy = elim policy.tolerance [ none ↦ ts.default | some t ↦ t ]

    unfoldable pub valid_policy : PredictivePolicy ts → ℤ → Bool
    valid_policy policy requested =
        leb_ℤ (pos 0) requested
        && leb_ℤ (pos 0) policy.scale_up_lead_seconds
        && leb_ℤ policy.scale_up_lead_seconds (pos 3600)
        && ts.is_valid (effective_tolerance policy)

    -- Without a current window, the requested count stands at least.
    unfoldable pub hold_unknown : Bool → ℤ → ℤ → ℤ
    hold_unknown known requested replicas =
        if not known && ltb_ℤ replicas requested then requested else replicas

    -- A small scale-up is within the tolerance.
    unfoldable pub suppress_small : PredictivePolicy ts → Capacity → ℤ → ℤ → ℤ → ℤ
    suppress_small policy capacity requested demand replicas =
        let t = effective_tolerance policy in
        let numerator = demand *ℤ pos 100 in
        let denominator = capacity.request_per_pod *ℤ capacity.target_percentage *ℤ requested in
        if ltb_ℤ requested replicas
          && ltb_ℤ (pos 0) requested
          && ts.is_positive t
          && ts.within numerator denominator t
        then requested
        else replicas

    unfoldable pub check_capacity : Capacity → Result ForecastError (Unit {0})
    check_capacity capacity =
        check_demand (record { kind = cpu_kind; target = ""; value = pos 0 })
          (record { kind = cpu_kind; target = ""; capacity = capacity })

    unfoldable pub timed_window_replicas :
        List CpuForecastPoint
        → PredictivePolicy ts
        → Capacity
        → (requested now : ℤ) → Result ForecastError (ℤ × ℤ)
    timed_window_replicas points policy capacity requested now = do
      validate_trajectory c points
      require (valid_policy policy requested) invalid_policy
      let s = scan_points now (seconds policy.scale_up_lead_seconds) points no_scan
      check_capacity capacity
      n ← replicas_for s.demand capacity
      let held = hold_unknown s.current_known requested n
      ok (suppress_small policy capacity requested s.demand held, s.boundary)

  abbrev pub earlier : ℤ → ℤ → ℤ
  earlier a b = if ltb_ℤ b a then b else a

  -- The first old point that still covers now, cut at the first new point and at its expiry.
  unfoldable pub current_interval : ℤ → ℤ → ℤ → List CpuForecastPoint → List CpuForecastPoint
  current_interval first expires now [] = []
  current_interval first expires now (p ∷ rest) =
      let until = earlier (earlier (time_of c p.until) first) expires in
      let found = covers now (time_of c p.at) until in
      let others = current_interval first expires now rest in
      if found then record p { until = c.format until } ∷ [] else others

  unfoldable pub is_usable : CachedPrediction → String → ℤ → Bool
  is_usable old fingerprint now =
      same_text old.fingerprint fingerprint
      && ltb_ℤ now old.expires_at
      && succeeds (validate_trajectory c old.trajectory)

  unfoldable pub merge_current_interval :
      List CpuForecastPoint → Option CachedPrediction → String → ℤ → List CpuForecastPoint
  merge_current_interval [] old fingerprint now = []
  merge_current_interval (p ∷ rest) none fingerprint now = p ∷ rest
  merge_current_interval (p ∷ rest) (some old) fingerprint now =
      if is_usable old fingerprint now
      then current_interval (time_of c p.at) old.expires_at now old.trajectory ++ (p ∷ rest)
      else p ∷ rest
