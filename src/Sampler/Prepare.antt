-- ===== src/Sampler/Prepare.antt =====
-- prepareSamplingState and nextHistoryCheck of internal/controllers/history_sampler.go, for one
-- model. `required` is the size of the history that the model's type needs.
use hpa_plus.Prelude.{
  ℤ, pos, ltb_ℤ, ◌+ℤ◌, milliseconds, ltb, length, Bool, true, false, ◌&&◌, List, [], ◌∷◌, Option,
  none, some, if◌then◌else◌, Result, ok, err, ◌>>=◌,
}
use hpa_plus.Api.Types.{TimestampedSample}
use hpa_plus.Forecast.History.{filter_cpu_history, has_value, latest_timestamp}
use hpa_plus.Retention.Window.{uses_cpu_history}
use hpa_plus.Sampler.Apply.{
  SampledModel, StoredHistory, SamplerRuntime, SampleError, prune_failed, with_rows,
  stored_or_fresh, validated, aged_history, reset_training, reset_due, slot_taken, start_at,
}

-- The pruned rows, where they are fewer.
abbrev shorter : List TimestampedSample → List TimestampedSample → List TimestampedSample
shorter rows pruned = if ltb (length pruned) (length rows) then pruned else rows

-- A window that was configured to be smaller is applied at once.
unfoldable pub reduce_rows :
    SamplerRuntime → ℤ → List TimestampedSample → Result SampleError (List TimestampedSample)
reduce_rows rt required rows =
    if ltb_ℤ (pos 0) required && ltb_ℤ required (pos (length rows))
    then elim (rt.prune rows) [ none ↦ err prune_failed | some pruned ↦ ok (shorter rows pruned) ]
    else ok rows

unfoldable pub reduce_history :
    SamplerRuntime → SampledModel → ℤ → StoredHistory → Result SampleError StoredHistory
reduce_history rt m required s =
    if uses_cpu_history m.kind
    then (reduce_rows rt required (filter_cpu_history s.history.replica_history) >>= λ rows.
        ok (with_rows s (record s.history { replica_history = rows })))
    else ok s

-- Whether a sample is due at the slot, and the history.
abbrev Prepared : Type 0
Prepared = Result SampleError (Bool × StoredHistory)

unfoldable pub reset_or_check : SampledModel → ℤ → ℤ → Option ℤ → StoredHistory → Prepared
reset_or_check m now slot prior s =
    if reset_due m prior now
    then elim (reset_training s) [
      | err e ↦ err e
      | ok (c, t) ↦ elim m.start_interval [
        | none ↦ ok (if slot_taken slot t then false else true, t)
        | some d ↦ ok (false, start_at now d t)
      ]
    ]
    else ok (if slot_taken slot s then false else true, s)

unfoldable pub check_start : SampledModel → ℤ → ℤ → Option ℤ → StoredHistory → Prepared
check_start m now slot prior s = elim m.start_interval [
  | none ↦ reset_or_check m now slot prior s
  | some d ↦ elim s.start_time [
    | none ↦ ok (false, start_at now d s)
    | some start ↦ if ltb_ℤ now start then ok (false, s) else reset_or_check m now slot prior s
  ]
]

unfoldable pub prepare_sampling :
    SamplerRuntime → SampledModel → ℤ → ℤ → ℤ → Option StoredHistory → Prepared
prepare_sampling rt m required now slot stored = do
  checked ← validated rt now (stored_or_fresh m stored).1
  reduced ← reduce_history rt m required checked.1
  kept ← aged_history m now reduced
  check_start m now slot (latest_timestamp none reduced.history.replica_history) kept.1

-- `consider`: the first time after now.
unfoldable pub consider_check : ℤ → Option ℤ → ℤ → Option ℤ
consider_check now next at =
    if ltb_ℤ now at
    then elim next [ none ↦ some at | some n ↦ if ltb_ℤ at n then some at else some n ]
    else next

unfoldable pub consider_row : ℤ → ℤ → Option ℤ → TimestampedSample → Option ℤ
consider_row now age next row =
    if has_value row.total_cpu_usage_millicores
    then elim row.time [ none ↦ next | some t ↦ consider_check now next (t +ℤ milliseconds age) ]
    else next

unfoldable pub consider_rows : ℤ → ℤ → Option ℤ → List TimestampedSample → Option ℤ
consider_rows now age next [] = next
consider_rows now age next (row ∷ rest) = consider_rows now age (consider_row now age next row) rest

abbrev consider_given : ℤ → Option ℤ → Option ℤ → Option ℤ
consider_given now next none = next
consider_given now next (some at) = consider_check now next at

-- The start, the end of the reset duration and the age of the rows of one model.
unfoldable pub next_model_check : SampledModel → StoredHistory → ℤ → Option ℤ → Option ℤ
next_model_check m s now next =
    let start : Option ℤ = elim m.start_interval [ none ↦ none | some d ↦ s.start_time ] in
    let reset : Option ℤ = elim m.reset_duration [
      | none ↦ none
      | some d ↦ elim (latest_timestamp none s.history.replica_history) [
        | none ↦ none
        | some latest ↦ some (latest +ℤ d +ℤ pos 1)
      ]
    ] in
    let begun = consider_given now (consider_given now next start) reset in
    elim m.history_max_age [
      | none ↦ begun
      | some age ↦ consider_rows now age begun s.history.replica_history
    ]
