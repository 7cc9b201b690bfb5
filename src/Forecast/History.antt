-- ===== src/Forecast/History.antt =====
-- internal/prediction/history.go, and LatestTimestamp of prediction.go.
use hpa_plus.Prelude.{
  ℤ, pos, up, ltb_ℤ, leb_ℤ, leb, ℕ, ◌+◌, Bool, true, false, List, [], ◌∷◌, Option, none, some,
  if◌then◌else◌,
}
use hpa_plus.Api.Types.{TimestampedSample}

abbrev pub has_value {ℓ} : {A : Type ℓ} → Option A → Bool
has_value none = false
has_value (some a) = true

unfoldable pub filter_cpu_history : List TimestampedSample → List TimestampedSample
filter_cpu_history [] = []
filter_cpu_history (entry ∷ rest) =
    if has_value entry.total_cpu_usage_millicores
    then entry ∷ filter_cpu_history rest
    else filter_cpu_history rest

unfoldable pub count_cpu_history : List TimestampedSample → ℕ
count_cpu_history [] = 0
count_cpu_history (entry ∷ rest) =
    (if has_value entry.total_cpu_usage_millicores then 1 else 0) + count_cpu_history rest

-- The order of the sort: rows without a time are the oldest.
unfoldable pub is_older : Option ℤ → Option ℤ → Bool
is_older none b = has_value b
is_older (some a) none = false
is_older (some a) (some b) = ltb_ℤ a b

unfoldable pub insert_row : TimestampedSample → List TimestampedSample → List TimestampedSample
insert_row r [] = r ∷ []
insert_row r (x ∷ xs) = if is_older x.time r.time then x ∷ insert_row r xs else r ∷ x ∷ xs

-- sort.SliceStable: a row stands before the later ones that are not older.
unfoldable pub sort_rows : List TimestampedSample → List TimestampedSample
sort_rows [] = []
sort_rows (r ∷ rest) = insert_row r (sort_rows rest)

-- The shortest end of the rows with `limit` CPU rows, where there are so many: the loop from the
-- last index down stops at its first row.
unfoldable pub newest_rows : ℕ → List TimestampedSample → List TimestampedSample
newest_rows limit [] = []
newest_rows limit (r ∷ rest) =
    if leb limit (count_cpu_history rest) then newest_rows limit rest else r ∷ rest

unfoldable pub prune_cpu_history : List TimestampedSample → ℤ → List TimestampedSample
prune_cpu_history history limit =
    if leb_ℤ limit (pos 0)
    then []
    else if leb (count_cpu_history history) (up limit)
    then history
    else newest_rows (up limit) (sort_rows history)

-- The values of an auxiliary series, where each row has one.
unfoldable pub metric_values : List TimestampedSample → Option (List ℕ)
metric_values [] = some []
metric_values (entry ∷ rest) = elim (metric_values rest) [
  | none ↦ none
  | some values ↦ elim entry.metric [ none ↦ none | some v ↦ some (v ∷ values) ]
]

unfoldable pub later : Option ℤ → Option ℤ → Option ℤ
later none t = t
later (some latest) none = some latest
later (some latest) (some t) = if ltb_ℤ latest t then some t else some latest

unfoldable pub latest_timestamp : Option ℤ → List TimestampedSample → Option ℤ
latest_timestamp latest [] = latest
latest_timestamp latest (entry ∷ rest) = latest_timestamp (later latest entry.time) rest
