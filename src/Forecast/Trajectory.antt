-- ===== src/Forecast/Trajectory.antt =====
-- internal/algorithm/forecast_trajectory.go (ValidateForecastTrajectory), and the horizon of a
-- trajectory in internal/prediction/timed.go and trajectory.go.
use Prim.Native.String.{len}
use hpa_plus.Prelude.{
  ℤ, pos, ℕ, suc, ◌+◌, ltb, leb, ltb_ℤ, leb_ℤ, ◌==ℤ◌, ◌+ℤ◌, ◌-ℤ◌, ◌*ℤ◌, quot, max_int64, min_int64,
  milliseconds, String, Bool, true, false, not, ◌&&◌, ◌||◌, List, [], ◌∷◌, length, Option, none,
  some, if◌then◌else◌, Result, ok, err, require, ◌>>=◌, ◌>>◌,
}
use hpa_plus.Forecast.Types.{
  Clock, CpuForecastPoint, DemandResult, Model, ForecastError, invalid_length, invalid_point,
  invalid_fresh, invalid_cadence, uncovered_horizon, invalid_grid, invalid_horizon,
  missing_consumed, stale_trajectory, holt_winters, linear, arima, xgboost, light_gbm, ModelType,
}

abbrev pub max_trajectory_points : ℕ
max_trajectory_points = 32

abbrev pub day : ℤ
day = pos 86400000000000

-- Time.Sub, which stays in the range of a Duration.
unfoldable pub sub_time : ℤ → ℤ → ℤ
sub_time a b =
    let d = a -ℤ b in
    if ltb_ℤ max_int64 d then max_int64 else if ltb_ℤ d min_int64 then min_int64 else d

abbrev pub not_before : ℤ → Option ℤ → Bool
not_before at none = true
not_before at (some previous) = leb_ℤ previous at

-- A point's times once they are parsed, its length and its order after the previous point.
unfoldable pub valid_times : ℤ → ℤ → Option ℤ → Bool
valid_times at until previous =
    not (at ==ℤ pos 0) && ltb_ℤ at until && leb_ℤ (sub_time until at) day && not_before at previous

unfoldable pub is_fresh : List CpuForecastPoint → ℤ → ℤ → Bool
is_fresh points consumed horizon =
    leb (length points) max_trajectory_points && not (consumed ==ℤ pos 0) && ltb_ℤ (pos 0) horizon

-- `count := (horizon-1)/step + 1` is the number of points.
unfoldable pub covers_horizon : List CpuForecastPoint → ℤ → ℤ → Bool
covers_horizon points horizon step = (quot (horizon -ℤ pos 1) step +ℤ pos 1) ==ℤ pos (length points)

module _ (c : Clock) where
  -- `t, _ := time.Parse(…)`: the zero time where the text is no time.
  unfoldable pub time_of : String → ℤ
  time_of s = elim (c.parse s) [ none ↦ pos 0 | some t ↦ t ]

  unfoldable pub parses : String → Bool
  parses s = elim (c.parse s) [ none ↦ false | some t ↦ true ]

  unfoldable pub valid_point : CpuForecastPoint → Option ℤ → Bool
  valid_point p previous =
      parses p.at
      && parses p.until
      && valid_times (time_of p.at) (time_of p.until) previous
      && leb (len p.at) 40
      && leb (len p.until) 40
      && leb_ℤ (pos 0) p.cpu

  unfoldable pub validate_points :
      Option ℤ → List CpuForecastPoint → Result ForecastError (Unit {0})
  validate_points previous [] = ok tt
  validate_points previous (p ∷ rest) =
      if valid_point p previous
      then validate_points (some (time_of p.until)) rest
      else err invalid_point

  unfoldable pub validate_trajectory : List CpuForecastPoint → Result ForecastError (Unit {0})
  validate_trajectory points =
      if ltb (length points) 1 || ltb (max_trajectory_points + 1) (length points)
      then err invalid_length
      else validate_points none points

  -- The loop over the grid: point `i` is `i + 1` steps after the consumed history.
  unfoldable pub grid_end : ℕ → ℤ → ℤ → ℤ → List CpuForecastPoint → Result ForecastError ℤ
  grid_end i consumed step end_ [] = ok end_
  grid_end i consumed step end_ (p ∷ rest) =
      if (time_of p.at ==ℤ consumed +ℤ pos (suc i) *ℤ step)
        && (time_of p.until ==ℤ time_of p.at +ℤ step)
      then grid_end (suc i) consumed step (time_of p.until) rest
      else err invalid_grid

  -- The parsed start of the first point.
  unfoldable pub first_at : List CpuForecastPoint → ℤ
  first_at [] = pos 0
  first_at (p ∷ rest) = time_of p.at

  unfoldable pub trajectory_expiry : List CpuForecastPoint → ℤ → ℤ → Result ForecastError ℤ
  trajectory_expiry points consumed horizon = do
    validate_trajectory points
    require (is_fresh points consumed horizon) invalid_fresh
    let step = sub_time (first_at points) consumed
    require (ltb_ℤ (pos 0) step && leb_ℤ step day) invalid_cadence
    require (covers_horizon points horizon step) uncovered_horizon
    grid_end 0 consumed step (pos 0) points

  unfoldable pub horizon_expiry : List CpuForecastPoint → ℤ → ℤ → Result ForecastError ℤ
  horizon_expiry points consumed millis =
      if leb_ℤ millis (pos 0) || ltb_ℤ (quot max_int64 (pos 1000000)) millis
      then err invalid_horizon
      else trajectory_expiry points consumed (milliseconds millis)

  -- Holt-Winters without a horizon means one observed cadence.
  unfoldable pub cadence_expiry : List CpuForecastPoint → ℤ → Result ForecastError ℤ
  cadence_expiry points consumed = do
    validate_trajectory points
    trajectory_expiry points consumed (sub_time (first_at points) consumed)

  -- The look-ahead of a configuration that may be missing.
  abbrev pub look_ahead_or_zero {ℓ} : {A : Type ℓ} → (A → ℤ) → Option A → ℤ
  look_ahead_or_zero f none = pos 0
  look_ahead_or_zero f (some config) = f config

  unfoldable pub model_trajectory_expiry :
      Model → List CpuForecastPoint → ℤ → Result ForecastError ℤ
  model_trajectory_expiry model points consumed = elim model.kind [
    | linear ↦
        horizon_expiry points consumed
          (look_ahead_or_zero (λ config. config.look_ahead) model.linear)
    | arima ↦
        horizon_expiry points consumed
          (look_ahead_or_zero (λ config. config.look_ahead) model.arima)
    | xgboost ↦
        horizon_expiry points consumed
          (look_ahead_or_zero (λ config. config.look_ahead) model.xgboost)
    | light_gbm ↦
        horizon_expiry points consumed
          (look_ahead_or_zero (λ config. config.look_ahead) model.light_gbm)
    | holt_winters ↦ elim model.holt_winters [
      | none ↦ horizon_expiry points consumed (pos 0)
      | some config ↦ elim config.look_ahead [
        | none ↦ cadence_expiry points consumed
        | some millis ↦ horizon_expiry points consumed millis
      ]
    ]
    | ModelType.other s ↦ horizon_expiry points consumed (pos 0)
  ]

  unfoldable pub validate_from :
      Model → List CpuForecastPoint → Option ℤ → Result ForecastError (Unit {0})
  validate_from model points none = err missing_consumed
  validate_from model points (some consumed) = do
    validate_trajectory points
    require (ltb_ℤ consumed (first_at points)) stale_trajectory
    expires ← model_trajectory_expiry model points consumed
    ok tt

  unfoldable pub validate_timed_demand : Model → DemandResult → Result ForecastError (Unit {0})
  validate_timed_demand model result =
      if model.has_predictive_policy
      then validate_from model result.trajectory result.consumed_until
      else ok tt
