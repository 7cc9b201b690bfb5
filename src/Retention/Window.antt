-- ===== src/Retention/Window.antt =====
-- internal/controllers/history_retention.go and internal/history/validation.go: a model's stored
-- history. hex.DecodeString and time.Parse are parameters, as are math.IsNaN and math.IsInf of the
-- auxiliary metric, whose bits a row carries.
use hpa_plus.Prelude.{
  ℤ, pos, ltb_ℤ, leb_ℤ, ◌==ℤ◌, ◌+ℤ◌, ◌-ℤ◌, max_int64, milliseconds, ℕ, ◌==◌, same_text, String,
  Bool, true, false, not, ◌&&◌, ◌||◌, List, [], ◌∷◌, length, Option, none, some, if◌then◌else◌,
  Result, ok, err, require, ◌>>=◌, ◌>>◌,
}
use hpa_plus.Api.Types.{TimestampedSample}
use hpa_plus.Scaling.Windows.{keep_after}
use hpa_plus.Forecast.Types.{ModelType}
use hpa_plus.Forecast.History.{has_value}
use hpa_plus.Forecast.Windows.{CachedPrediction}
use hpa_plus.Retry.Policy.{ModelFailureState}

pub record ModelHistory : Type 0 where
  pub kind : ModelType
  pub last_observation_id : String
  pub last_observation_time : String
  pub history_epoch : ℤ
  pub last_sample_time : Option ℤ
  pub sync_periods_passed : ℤ
  pub replica_history : List TimestampedSample
  pub last_model_run_time : Option ℤ
  pub cached_prediction : Option CachedPrediction
  pub failure_state : Option ModelFailureState
  -- the forecast reliability, which is only dropped here
  pub has_reliability : Bool

pub data HistoryError : Type 0 where
  invalid_marker negative_epoch negative_progress missing_time not_chronological : HistoryError
  negative_cpu invalid_capacity invalid_metric zero_sample_time outside_history : HistoryError
  future_window epoch_exhausted : HistoryError

-- The earlier of a row's time and the first time so far, for a row with CPU usage.
unfoldable pub earlier_row : Option ℤ → TimestampedSample → Option ℤ
earlier_row first row =
    if has_value row.total_cpu_usage_millicores
    then (elim row.time [
      | none ↦ first
      | some t ↦ elim first [ none ↦ some t | some f ↦ if ltb_ℤ t f then some t else some f ]
    ])
    else first

unfoldable pub earliest_row : Option ℤ → List TimestampedSample → Option ℤ
earliest_row first [] = first
earliest_row first (row ∷ rest) = earliest_row (earlier_row first row) rest

-- `max_age` is the model's historyMaxAge, in milliseconds.
unfoldable pub history_input_deadline : Option ℤ → List TimestampedSample → Option ℤ
history_input_deadline none rows = none
history_input_deadline (some max_age) rows = elim (earliest_row none rows) [
  | none ↦ none
  | some first ↦ some (first +ℤ milliseconds max_age)
]

unfoldable pub has_expired_training : Option ℤ → ModelHistory → ℤ → Bool
has_expired_training max_age history now =
    elim (history_input_deadline max_age history.replica_history) [
      | none ↦ false
      | some deadline ↦ leb_ℤ deadline now
    ]

-- What an expiry leaves of a history.
unfoldable pub expire_rows : ModelHistory → List TimestampedSample → ModelHistory
expire_rows history kept = record history {
  replica_history = kept;
  history_epoch = history.history_epoch +ℤ pos 1;
  cached_prediction = none;
  failure_state = none;
  has_reliability = false;
  last_model_run_time = none;
  sync_periods_passed = pos 0;
}

-- Whether rows were dropped, and the history.
unfoldable pub prune_aged_history :
    Option ℤ → ModelHistory → ℤ → Result HistoryError (Bool × ModelHistory)
prune_aged_history none history now = ok (false, history)
prune_aged_history (some max_age) history now =
    let kept = keep_after (now -ℤ milliseconds max_age) history.replica_history in
    if length kept == length history.replica_history
    then ok (false, history)
    else if history.history_epoch ==ℤ max_int64
    then err epoch_exhausted
    else ok (true, expire_rows history kept)

unfoldable pub reset_window : ModelHistory → Result HistoryError ModelHistory
reset_window history = do
  require (leb_ℤ (pos 0) history.history_epoch) negative_epoch
  require (not (history.history_epoch ==ℤ max_int64)) epoch_exhausted
  ok (record history {
    replica_history = [];
    history_epoch = history.history_epoch +ℤ pos 1;
    sync_periods_passed = pos 0;
    last_model_run_time = none;
    last_sample_time = none;
    last_observation_id = "";
    last_observation_time = "";
    has_reliability = false;
    cached_prediction = none;
    failure_state = none;
  })

unfoldable pub uses_cpu_history : ModelType → Bool
uses_cpu_history (ModelType.other s) = false
uses_cpu_history _ = true

pub record Decoders : Type 0 where
  -- hex.DecodeString: the number of bytes
  pub hex_bytes : String → Option ℕ
  -- time.Parse with time.RFC3339Nano
  pub parse : String → Option ℤ
  -- `math.IsNaN(m) || math.IsInf(m, 0) || m < 0`
  pub is_invalid_metric : ℕ → Bool

abbrev pub not_positive : Option ℤ → Bool
not_positive none = false
not_positive (some a) = leb_ℤ a (pos 0)

abbrev pub is_later : Option ℤ → ℤ → Bool
is_later none now = false
is_later (some t) now = ltb_ℤ now t

module _ (dec : Decoders) (now : ℤ) where
  -- The marker of the last observation: whether it is in the future.
  unfoldable pub check_marker : ModelHistory → Result HistoryError Bool
  check_marker history =
      if same_text history.last_observation_id "" && same_text history.last_observation_time ""
      then ok false
      else elim (dec.hex_bytes history.last_observation_id) [
        | none ↦ err invalid_marker
        | some size ↦ elim (dec.parse history.last_observation_time) [
          | none ↦ err invalid_marker
          | some stamp ↦
              if not (size == 32) || stamp ==ℤ pos 0
              then err invalid_marker
              else ok (ltb_ℤ now stamp)
        ]
      ]

  abbrev pub is_after_previous : Option ℤ → ℤ → Bool
  is_after_previous none t = true
  is_after_previous (some previous) t = ltb_ℤ previous t

  abbrev pub bad_metric : Option ℕ → Bool
  bad_metric none = false
  bad_metric (some m) = dec.is_invalid_metric m

  -- A row with CPU usage: its time.
  unfoldable pub check_row : Option ℤ → TimestampedSample → ℤ → Result HistoryError ℤ
  check_row previous row cpu = elim row.time [
    | none ↦ err missing_time
    | some t ↦
        require (not (t ==ℤ pos 0)) missing_time
        >> require (is_after_previous previous t) not_chronological
        >> require (leb_ℤ (pos 0) cpu) negative_cpu
        >> require
            (leb_ℤ (pos 0) row.replicas
              && not (not_positive row.request_per_pod_millicores)
              && not (not_positive row.target_cpu_utilization_percentage))
            invalid_capacity
        >> require (not (bad_metric row.metric)) invalid_metric
        >> ok t
  ]

  -- The loop over the rows: whether one is in the future, and the last time.
  unfoldable pub check_rows :
      Bool → Option ℤ → List TimestampedSample → Result HistoryError (Bool × Option ℤ)
  check_rows future previous [] = ok (future, previous)
  check_rows future previous (row ∷ rest) = elim row.total_cpu_usage_millicores [
    | none ↦ check_rows future previous rest
    | some cpu ↦
        check_row previous row cpu >>= λ t. check_rows (future || ltb_ℤ now t) (some t) rest
  ]

  abbrev pub is_zero_time : Option ℤ → Bool
  is_zero_time none = false
  is_zero_time (some t) = t ==ℤ pos 0

  -- The consumed time is within the rows.
  unfoldable pub is_consumed : Option ℤ → Option ℤ → Bool
  is_consumed previous none = true
  is_consumed none (some run) = false
  is_consumed (some previous) (some run) = not (run ==ℤ pos 0) && leb_ℤ run previous

  unfoldable pub check_cpu_window : ModelHistory → Bool → Result HistoryError (Unit {0})
  check_cpu_window history marker_future = do
    checked ← check_rows marker_future none history.replica_history
    require (not (is_zero_time history.last_sample_time)) zero_sample_time
    require (is_consumed checked.1 history.last_model_run_time) outside_history
    require (not (checked.0 || is_later history.last_sample_time now)) future_window

  unfoldable pub validate_window : ModelHistory → Result HistoryError (Unit {0})
  validate_window history = do
    marker_future ← check_marker history
    require (leb_ℤ (pos 0) history.history_epoch) negative_epoch
    require (leb_ℤ (pos 0) history.sync_periods_passed) negative_progress
    if uses_cpu_history history.kind
        then check_cpu_window history marker_future
        else require (not marker_future) future_window
