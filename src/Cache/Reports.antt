-- ===== src/Cache/Reports.antt =====
-- The reports of the models in internal/controllers/prediction_cache.go: the first expiry of the
-- inputs of a decision, the expiry of reports, and the delay to the next reconciliation.
use hpa_plus.Prelude.{
  ℤ, pos, ltb_ℤ, leb_ℤ, String, Bool, false, ◌&&◌, ◌||◌, List, [], ◌∷◌, Option, none, some,
  if◌then◌else◌,
}
use hpa_plus.Forecast.Trajectory.{sub_time}
use hpa_plus.Validation.Checks.{one_of}
use hpa_plus.Cache.Defs.{is_present}

-- The fields of a ModelStatus that these functions read and write.
pub record ModelReport : Type 0 where
  pub name : String
  pub state : String
  pub forecast_replicas : Option ℤ
  pub expires_at : Option ℤ

unfoldable pub earliest : Option ℤ → ModelReport → Option ℤ
earliest first r = elim r.expires_at [
  | none ↦ first
  | some t ↦
      if is_present r.forecast_replicas
      then elim first [ none ↦ some t | some f ↦ if ltb_ℤ t f then some t else some f ]
      else first
]

unfoldable pub earliest_expiry : Option ℤ → List ModelReport → Option ℤ
earliest_expiry first [] = first
earliest_expiry first (r ∷ rest) = earliest_expiry (earliest first r) rest

unfoldable pub prediction_inputs_deadline : List ModelReport → Option ℤ
prediction_inputs_deadline reports = earliest_expiry none reports

abbrev pub has_passed : ℤ → Option ℤ → Bool
has_passed now none = false
has_passed now (some t) = leb_ℤ t now

unfoldable pub is_expired : ℤ → ModelReport → Bool
is_expired now r = is_present r.forecast_replicas && has_passed now r.expires_at

unfoldable pub expire_report : ℤ → ModelReport → ModelReport
expire_report now r =
    if is_expired now r then record r { state = "Expired"; forecast_replicas = none } else r

-- Whether a forecast is left, and the reports.
unfoldable pub expire_reports : ℤ → List ModelReport → Bool × List ModelReport
expire_reports now [] = (false, [])
expire_reports now (r ∷ rest) =
    let r' = expire_report now r in
    let others = expire_reports now rest in
    (is_present r'.forecast_replicas || others.0, r' ∷ others.1)

abbrev pub second : ℤ
second = pos 1000000000

-- The delay to one report's expiry, of a second at least.
unfoldable pub wake_for : List String → ℤ → ℤ → ModelReport → ℤ
wake_for names now regular r = elim r.expires_at [
  | none ↦ regular
  | some t ↦
      if one_of r.name names && is_present r.forecast_replicas
      then (let delay = sub_time t now in
          let delay = if ltb_ℤ delay second then second else delay in
          if ltb_ℤ delay regular then delay else regular)
      else regular
]

-- `names` are the models with a predictive policy.
unfoldable pub timed_decision_requeue : List String → List ModelReport → ℤ → ℤ → ℤ
timed_decision_requeue names [] now regular = regular
timed_decision_requeue names (r ∷ rest) now regular =
    timed_decision_requeue names rest now (wake_for names now regular r)
