-- ===== src/Forecast/Requirements.antt =====
-- internal/prediction/requirements.go. `int` has 64 bits, and wraps around.
use hpa_plus.Prelude.{
  ℤ, pos, negsuc, up, down, ◌+◌, ◌-◌, ◌%◌, ◌^◌, ltb, ltb_ℤ, ◌+ℤ◌, ◌*ℤ◌, quot, Option, none, some,
  if◌then◌else◌,
}
use hpa_plus.Forecast.Types.{
  Model, ModelType, holt_winters, linear, arima, xgboost, light_gbm, HoltWintersConfig, GridConfig,
}

-- Two's complement in 64 bits.
unfoldable pub wrap_int64 : ℤ → ℤ
wrap_int64 a =
    let n = (up a + (2 ^ 64 - down a % 2 ^ 64)) % 2 ^ 64 in
    if ltb n (2 ^ 63) then pos n else negsuc (2 ^ 64 - n - 1)

abbrev pub default_arima_history_size : ℤ
default_arima_history_size = pos 50

abbrev pub larger : ℤ → ℤ → ℤ
larger a b = if ltb_ℤ b a then a else b

-- What statsmodels needs, where it is more than what the model keeps.
unfoldable pub holt_winters_size : HoltWintersConfig → ℤ
holt_winters_size config =
    let kept = wrap_int64 (config.seasonal_periods *ℤ config.stored_seasons) in
    let two_seasons = wrap_int64 (pos 2 *ℤ config.seasonal_periods) in
    let heuristic =
      wrap_int64 (pos 10 +ℤ wrap_int64 (pos 2 *ℤ quot config.seasonal_periods (pos 2))) in
    larger heuristic (larger two_seasons kept)

abbrev pub grid_size : Option GridConfig → ℤ
grid_size none = pos 0
grid_size (some config) = config.history_size

unfoldable pub required_history_size : Model → ℤ
required_history_size model = elim model.kind [
  | linear ↦ grid_size model.linear
  | xgboost ↦ grid_size model.xgboost
  | light_gbm ↦ grid_size model.light_gbm
  | arima ↦ elim model.arima [
    | none ↦ default_arima_history_size
    | some config ↦ elim config.history_size [
      | none ↦ default_arima_history_size
      | some size ↦ size
    ]
  ]
  | holt_winters ↦ elim model.holt_winters [ none ↦ pos 0 | some config ↦ holt_winters_size config ]
  | ModelType.other s ↦ pos 0
]
