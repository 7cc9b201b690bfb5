-- ===== src/Lib.antt =====
-- HPA+, a Kubernetes controller that scales a workload ahead of predicted demand.
--
-- A reconciliation (internal/controllers/controller.go) measures a workload, asks its models for
-- forecasts, plans a replica count (internal/decision, over internal/scalebehavior and the
-- defaults of api/v1alpha1), and applies the plan through a write-ahead journal
-- (internal/controllers/scale_decision.go). A sampler beside it records the history that the models
-- are fitted to. This library models the validation of a specification, the sampling of the
-- history, the planning and the journal, and the conversion of a forecast into replicas, the cache
-- of forecasts and the check of their quality, the backoff of failing models and the retention of
-- their histories. Paths are from the repository's root.
--
-- Prelude: Boolean tests, lists, signed integers, results and floats that the modules share.
--   An int32 or int64 is an integer of Prelude.Int: the sums of scalebehavior.go are int64 sums of
--   int32 values, which cannot overflow for a list that fits in memory, and the conversions back to
--   int32 are bounded by boundedReplicas or stand between int32 values. Where the code wraps at the
--   edge (the negated window, neg_int32) the model says so. Prelude.Ieee holds float64 as a
--   parameter, a record of the operations that are called (Floats), with laws of IEEE 754 as
--   hypotheses (FloatLaws).
-- Api.Types, Api.Defaults: api/v1alpha1/hpaplus_types.go, rollout.go and defaults.go. A string that
--   the code compares with constants is a data type with these constants and `other`; a pointer is
--   an Option; a time is its nanoseconds since Go's zero time. HpaPlusStatus holds the fields of
--   the status that scaling reads and writes.
-- Scaling: internal/scalebehavior/scalebehavior.go. Strategy is
--   DecideTargetReplicasByScalingStrategy, Windows the pruning of samples and the sums over events,
--   Limits the limits of the scaling policies, Behavior DecideTargetReplicasByBehaviorDetails.
--   sort.Slice is a sort by insertion: the sorted values do not depend on the algorithm.
-- Decision.Defs: internal/decision/decision.go, plan and Plan; the record Spec holds the fields of
--   the specification that they read.
-- Journal: internal/controllers/scale_decision.go, with mutateHistoryChecked of history_store.go,
--   mutateStatusChecked of status.go, checkStatusBudget of status_budget.go and
--   internal/history/decision.go. A World is the durable state, with the list of updates sent to
--   the Scale. What the API server and the clock answer is an argument of every operation; a crash
--   is the case where every later call fails. Journal.Store
--   has the loops with their retries: 5 attempts for the history, the attempts of
--   retry.DefaultBackoff for the status, which is a parameter. The answers are numbered by the
--   attempts that are left. The journal has one writer, the elected leader; the status that
--   recovery reads from the instance is the one in the World.
-- Forecast: internal/prediction/demand.go, timed.go, trajectory.go, history.go and requirements.go, and
--   ValidateForecastTrajectory of internal/algorithm/forecast_trajectory.go. time.Parse and
--   Time.Format are parameters (Forecast.Types.Clock).
-- Retry: internal/controllers/model_backoff.go, the delay after failed fits and the failure state
--   that is kept. The instance's sync period is an argument.
-- Retention: internal/controllers/history_retention.go and internal/history/validation.go. An age
--   in milliseconds is exact: the specification's greatest age fits a time.Duration.
-- Validation: internal/validation (validation.go, nested.go, request_demand.go) and ValidateConfig of
--   internal/workloaddemand/traffic.go, over the type of the specification's floats
--   (Validation.Types.FloatTests). A check is a test with what it reports, and the checks run in the
--   source's order. Regular expressions, net/url, httpguts and the validators of apimachinery are
--   the record Validation.Checks.Externals. Sound connects Validate with Decision: plan_spec is the
--   part of a specification that a plan reads.
-- Quality: internal/forecastquality/quality.go. Pending has the intervals that wait for their
--   observation, Monitor the operations; Invariant.Reached lists the states that the operations
--   reach in any order, Disjoint.Follows those that follow a state while the lead of the forecasts
--   stays. An index out of range is none.
-- Cache: internal/controllers/prediction_cache.go, with syncPeriodForInstance and
--   modelHasSufficientHistory of controller.go. Defs has the use of a cached prediction, Make its
--   making, Reports what a decision does with the models' reports.
-- Sampler: the slots of internal/controllers/history_sampler.go, and its prepareSamplingState,
--   nextHistoryCheck and applySample for one model (Prepare, Apply), over Retention's history with
--   its start time (Sampler.Apply.StoredHistory). Pruning by the
--   model's runtime is a parameter, and so is whether the source may be read again.
-- Budget: internal/controllers/history_budget.go; the sizes of encodings are a parameter
--   (Budget.Check.Codec).
-- Examples: tests, and the theorems at concrete inputs.
--
-- Every loop is a recursion on the list that it ranges over, on the attempts that are left, or, for
-- the doubling of a retry delay, on the failures; no definition runs on fuel of another kind.
-- Durations that validation bounds are exact products.
--
-- Not modelled: the measuring of a workload (internal/metrics, internal/cgroup), the models and
-- their processes (algorithms, internal/algorithm, internal/worker, internal/prediction's
-- adapters), the learning of request demand (internal/workloaddemand), the reconciliation's own
-- order of calls and its status reports, the sampler's loop over the models and its timers, the fingerprint of a
-- cached prediction, the encoding of the history, the user interface, events and telemetry. Package context's deadlines appear as
-- answers that fail.
pub mod Prelude
pub mod Api
pub mod Scaling
pub mod Decision
pub mod Journal
pub mod Forecast
pub mod Retry
pub mod Retention
pub mod Validation
pub mod Quality
pub mod Cache
pub mod Sampler
pub mod Budget
mod Examples
