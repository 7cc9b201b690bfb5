-- ===== src/Forecast/Demand.antt =====
-- internal/prediction/demand.go: ResolveDemand, and the observation that a CPU model makes.
use hpa_plus.Prelude.{
  ℤ, pos, up, ℕ, ◌+◌, ◌*◌, ◌/◌, ◌%◌, ltb, leb_ℤ, ltb_ℤ, require, ◌==◌, same_text, String, Bool,
  ◌&&◌, if◌then◌else◌, Result, ok, err, ◌>>=◌, ◌>>◌,
}
use hpa_plus.Forecast.Types.{
  MetricKind, Capacity, Observation, Demand, DemandResult, Prediction, ForecastError,
  identity_mismatch, unsupported_conversion, invalid_capacity, exceeds_int32,
}

unfoldable pub cpu_kind : MetricKind
cpu_kind = record { source = "resource.cpu"; unit = "millicores" }

abbrev pub cpu_policy : String
cpu_policy = "cpu-request-utilization"

unfoldable pub same_kind : MetricKind → MetricKind → Bool
same_kind a b = same_text a.source b.source && same_text a.unit b.unit

-- The quotient of two positive numbers, rounded up.
unfoldable pub quotient_up : ℕ → ℕ → ℕ
quotient_up a b = a / b + (if a % b == 0 then 0 else 1)

unfoldable pub is_same_identity : Demand → Observation → Bool
is_same_identity d o =
    same_kind d.kind o.kind && same_kind d.kind o.capacity.kind && same_text d.target o.target

unfoldable pub is_capacity : Capacity → Bool
is_capacity c = ltb_ℤ (pos 0) c.request_per_pod && ltb_ℤ (pos 0) c.target_percentage

unfoldable pub check_demand : Demand → Observation → Result ForecastError (Unit {0})
check_demand d o = do
  require (is_same_identity d o) identity_mismatch
  require (same_kind d.kind cpu_kind && same_text o.capacity.policy cpu_policy)
      unsupported_conversion
  require (is_capacity o.capacity) invalid_capacity

-- The replicas for a demand, whose capacity has been checked.
unfoldable pub replicas_for : ℤ → Capacity → Result ForecastError ℤ
replicas_for value c =
    if leb_ℤ value (pos 0)
    then ok (pos 0)
    else let n = quotient_up (up value * 100) (up c.request_per_pod * up c.target_percentage) in
      if ltb 2147483647 n then err exceeds_int32 else ok (pos n)

unfoldable pub resolve_demand : DemandResult → Observation → Result ForecastError Prediction
resolve_demand result o = do
  check_demand result.demand o
  n ← replicas_for result.demand.value o.capacity
  ok (record {
    trajectory = result.trajectory;
    replicas = n;
    consumed_until = result.consumed_until;
  })
