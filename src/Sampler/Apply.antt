-- ===== src/Sampler/Apply.antt =====
-- applySample of internal/controllers/history_sampler.go, for one model: what one sample does to
-- its stored history. Pruning by the model's runtime, and the format of times, are parameters. The
-- other fields of the history are those of Retention.
use hpa_plus.Prelude.{
  ℤ, pos, ltb_ℤ, leb_ℤ, ◌==ℤ◌, ◌+ℤ◌, milliseconds, ℕ, same_text, String, Bool, true, false, not,
  ◌&&◌, ◌||◌, List, [], ◌∷◌, ◌++◌, Option, none, some, if◌then◌else◌, Result, ok, err, ◌>>=◌,
}
use hpa_plus.Api.Types.{TimestampedSample}
use hpa_plus.Forecast.Types.{ModelType}
use hpa_plus.Forecast.History.{has_value, later, latest_timestamp}
use hpa_plus.Forecast.Trajectory.{sub_time}
use hpa_plus.Cache.Make.{same_model_type}
use hpa_plus.Retention.Window.{
  ModelHistory, HistoryError, future_window, Decoders, prune_aged_history, reset_window,
  uses_cpu_history, validate_window,
}
use hpa_plus.Sampler.Slots.{second, truncate, next_interval}

pub record CpuSnapshot : Type 0 where
  pub source_id : String
  pub source_time : ℤ
  pub utilization : Option ℕ
  pub total_usage_millicores : Option ℤ
  pub request_per_pod_millicores : Option ℤ
  pub target_utilization_percentage : Option ℤ

pub record SampledModel : Type 0 where
  pub kind : ModelType
  pub start_interval : Option ℤ
  pub reset_duration : Option ℤ
  pub history_max_age : Option ℤ

pub record StoredHistory : Type 0 where
  pub history : ModelHistory
  pub start_time : Option ℤ

-- A sample at a slot; `retry_cpu` is what cpuRetryDeadline says.
pub record Sample : Type 0 where
  pub now : ℤ
  pub slot_time : ℤ
  pub replicas : ℤ
  pub snapshot : CpuSnapshot
  pub retry_cpu : Bool

pub record SamplerRuntime : Type 0 where
  pub decoders : Decoders
  pub format : ℤ → String
  pub prune : List TimestampedSample → Option (List TimestampedSample)

pub data SampleError : Type 0 where
  history_error : HistoryError → SampleError
  prune_failed slot_expired : SampleError

-- Whether the history changed, and the history.
abbrev pub Outcome : Type 0
Outcome = Result SampleError (Bool × StoredHistory)

unfoldable pub fresh_history : ModelType → StoredHistory
fresh_history kind = record {
  history = record {
    kind = kind;
    last_observation_id = "";
    last_observation_time = "";
    history_epoch = pos 0;
    last_sample_time = none;
    sync_periods_passed = pos 0;
    replica_history = [];
    last_model_run_time = none;
    cached_prediction = none;
    failure_state = none;
    has_reliability = false;
  };
  start_time = none;
}

unfoldable pub stored_or_fresh : SampledModel → Option StoredHistory → Bool × StoredHistory
stored_or_fresh m none = (true, fresh_history m.kind)
stored_or_fresh m (some s) =
    if same_model_type s.history.kind m.kind then (false, s) else (true, fresh_history m.kind)

abbrev pub with_rows : StoredHistory → ModelHistory → StoredHistory
with_rows s h = record s { history = h }

unfoldable pub reset_training : StoredHistory → Outcome
reset_training s = elim (reset_window s.history) [
  | err e ↦ err (history_error e)
  | ok h ↦ ok (true, with_rows s h)
]

abbrev is_future : HistoryError → Bool
is_future future_window = true
is_future _ = false

-- A stored history that is refused is reset, unless it is of the future.
unfoldable pub validated : SamplerRuntime → ℤ → StoredHistory → Outcome
validated rt now s = elim (validate_window rt.decoders now s.history) [
  | ok u ↦ ok (false, s)
  | err e ↦ if is_future e then err (history_error e) else reset_training s
]

unfoldable pub aged_history : SampledModel → ℤ → StoredHistory → Outcome
aged_history m now s = elim (prune_aged_history m.history_max_age s.history now) [
  | err e ↦ err (history_error e)
  | ok (dropped, h) ↦ ok (dropped, with_rows s h)
]

-- The slot was sampled before, or a row is as new.
abbrev pub last_recorded : StoredHistory → Option ℤ
last_recorded s = later (latest_timestamp none s.history.replica_history) s.history.last_sample_time

unfoldable pub slot_taken : ℤ → StoredHistory → Bool
slot_taken slot s = elim (last_recorded s) [ none ↦ false | some latest ↦ leb_ℤ slot latest ]

abbrev pub mark_slot : ℤ → StoredHistory → StoredHistory
mark_slot slot s = with_rows s (record s.history { last_sample_time = some slot })

-- A slot without a sample is used up, unless the source may be read again.
unfoldable pub skip_slot : Sample → StoredHistory → Bool × StoredHistory
skip_slot x s = if x.retry_cpu then (false, s) else (true, mark_slot x.slot_time s)

abbrev pub is_blank : String → Bool
is_blank text = same_text text ""

unfoldable pub lacks_cpu : SampledModel → Sample → StoredHistory → Bool
lacks_cpu m x s =
    uses_cpu_history m.kind
    && (not (has_value x.snapshot.total_usage_millicores)
        || (not (is_blank s.history.last_observation_id) && is_blank x.snapshot.source_id))

unfoldable pub is_repeated : SamplerRuntime → Sample → StoredHistory → Bool
is_repeated rt x s =
    same_text x.snapshot.source_id s.history.last_observation_id
    || (elim (rt.decoders.parse s.history.last_observation_time) [
      | none ↦ false
      | some previous ↦ not (previous ==ℤ pos 0) && leb_ℤ x.snapshot.source_time previous
    ])

abbrev pub is_behind : ℤ → Option ℤ → Bool
is_behind t none = false
is_behind t (some prior) = leb_ℤ t prior

unfoldable pub is_unusable : ℤ → Sample → Option ℤ → Bool
is_unusable observed x prior =
    (observed ==ℤ pos 0) || ltb_ℤ x.now observed || is_behind observed prior

unfoldable pub sample_row : Sample → ℤ → TimestampedSample
sample_row x observed = record {
  time = some observed;
  replicas = x.replicas;
  metric = x.snapshot.utilization;
  total_cpu_usage_millicores = x.snapshot.total_usage_millicores;
  request_per_pod_millicores = x.snapshot.request_per_pod_millicores;
  target_cpu_utilization_percentage = x.snapshot.target_utilization_percentage;
}

abbrev pub slot_outlived : SampledModel → Sample → Bool
slot_outlived m x = elim m.history_max_age [
  | none ↦ false
  | some age ↦ leb_ℤ (x.slot_time +ℤ milliseconds age) x.now
]

unfoldable pub append_row : SamplerRuntime → SampledModel → Sample → ℤ → StoredHistory → Outcome
append_row rt m x observed s =
    if slot_outlived m x
    then err slot_expired
    else elim (rt.prune (s.history.replica_history ++ (sample_row x observed ∷ []))) [
      | none ↦ err prune_failed
      | some rows ↦ ok (
        true,
        with_rows s
            (record s.history { last_sample_time = some x.slot_time; replica_history = rows }),
      )
    ]

abbrev pub mark_source : SamplerRuntime → Sample → StoredHistory → StoredHistory
mark_source rt x s = with_rows s (record s.history {
  last_observation_id = x.snapshot.source_id;
  last_observation_time = rt.format x.snapshot.source_time;
})

-- The row is of the measurement's own time, which is newer than every row.
unfoldable pub sample_source :
    SamplerRuntime → SampledModel → Sample → Option ℤ → StoredHistory → Outcome
sample_source rt m x prior s =
    let observed = truncate x.snapshot.source_time second in
    if is_repeated rt x s || is_unusable observed x prior
    then ok (skip_slot x s)
    else append_row rt m x observed (mark_source rt x s)

unfoldable pub sample_slot :
    SamplerRuntime → SampledModel → Sample → Option ℤ → StoredHistory → Outcome
sample_slot rt m x prior s =
    if slot_taken x.slot_time s
    then ok (false, s)
    else if lacks_cpu m x s
    then ok (skip_slot x s)
    else if is_blank x.snapshot.source_id
    then append_row rt m x x.slot_time s
    else sample_source rt m x prior s

unfoldable pub reset_due : SampledModel → Option ℤ → ℤ → Bool
reset_due m none now = false
reset_due m (some latest) now = elim m.reset_duration [
  | none ↦ false
  | some reset ↦ ltb_ℤ reset (sub_time now latest)
]

abbrev pub start_at : ℤ → ℤ → StoredHistory → StoredHistory
start_at now d s = record s { start_time = some (next_interval now d) }

-- A reset starts the interval anew, and samples at once where there is none.
unfoldable pub reset_or_sample :
    SamplerRuntime → SampledModel → Sample → Option ℤ → StoredHistory → Outcome
reset_or_sample rt m x prior s =
    if reset_due m prior x.now
    then elim (reset_training s) [
      | err e ↦ err e
      | ok (c, t) ↦ elim m.start_interval [
        | none ↦ sample_slot rt m x prior t
        | some d ↦ ok (true, start_at x.now d t)
      ]
    ]
    else sample_slot rt m x prior s

unfoldable pub started : SamplerRuntime → SampledModel → Sample → Option ℤ → StoredHistory → Outcome
started rt m x prior s = elim m.start_interval [
  | none ↦ reset_or_sample rt m x prior s
  | some d ↦ elim s.start_time [
    | none ↦ ok (true, start_at x.now d s)
    | some start ↦ if ltb_ℤ x.now start then ok (false, s) else reset_or_sample rt m x prior s
  ]
]

-- The history as it is stored afterwards.
unfoldable pub apply_sample :
    SamplerRuntime → SampledModel → Sample → Option StoredHistory → Result SampleError StoredHistory
apply_sample rt m x stored = do
  checked ← validated rt x.now (stored_or_fresh m stored).1
  kept ← aged_history m x.now checked.1
  done ← started rt m x (latest_timestamp none checked.1.history.replica_history) kept.1
  ok done.1
