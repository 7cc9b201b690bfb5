-- ===== src/Forecast/Pruning.antt =====
-- PruneCPUHistory of internal/prediction/history.go: the CPU rows that it keeps.
use hpa_plus.Prelude.{
  ℤ, pos, up, leb_ℤ, leb, ℕ, ◌≤◌, ◌≡◌, refl, inl, inr, arith, List, [], ◌∷◌, Bool-cases,
  if◌then◌else◌,
}
use hpa_plus.Api.Types.{TimestampedSample}
use hpa_plus.Forecast.Exact.{up_zero}
use hpa_plus.Forecast.History.{
  count_cpu_history, insert_row, sort_rows, newest_rows, prune_cpu_history,
}

count-insert_row :
    (r : TimestampedSample) (rows : List TimestampedSample)
    → count_cpu_history (insert_row r rows) ≡ count_cpu_history (r ∷ rows)
unfolding insert_row count_cpu_history
count-insert_row r [] = refl
count-insert_row r (x ∷ xs) = let ih = count-insert_row r xs in ground arith

count-sort_rows :
    (rows : List TimestampedSample) → count_cpu_history (sort_rows rows) ≡ count_cpu_history rows
unfolding sort_rows count_cpu_history
count-sort_rows [] = refl
count-sort_rows (r ∷ rest) =
    let ih = count-sort_rows rest in let step = count-insert_row r (sort_rows rest) in ground arith

count-newest_rows :
    (limit : ℕ) (rows : List TimestampedSample)
    → limit ≤ count_cpu_history rows
    → count_cpu_history (newest_rows limit rows) ≡ limit
unfolding newest_rows count_cpu_history
count-newest_rows limit [] h = omega arith
count-newest_rows limit (r ∷ rest) h = elim (Bool-cases (leb limit (count_cpu_history rest))) [
  | inl many ↦ let ih = count-newest_rows limit rest (ground arith) in ground arith
  | inr few ↦ ground arith
]

-- The pruned history has as many CPU rows as the history, or as the limit where that is less; none
-- where the limit is not above 0.
pub prune_cpu_history_count :
    (history : List TimestampedSample) (limit : ℤ)
    → count_cpu_history (prune_cpu_history history limit)
      ≡ (if leb (count_cpu_history history) (up limit) then count_cpu_history history else up limit)
unfolding prune_cpu_history count_cpu_history
prune_cpu_history_count history limit = elim (Bool-cases (leb_ℤ limit (pos 0))) [
  | inl low ↦ let zero_up = up_zero limit low in ground arith
  | inr high ↦ elim (Bool-cases (leb (count_cpu_history history) (up limit))) [
    | inl fits ↦ ground arith
    | inr many ↦
        let same = count-sort_rows history in
        let kept = count-newest_rows (up limit) (sort_rows history) (ground arith) in ground arith
  ]
]
