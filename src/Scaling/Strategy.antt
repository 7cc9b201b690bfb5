-- ===== src/Scaling/Strategy.antt =====
-- internal/scalebehavior/scalebehavior.go: DecideTargetReplicasByScalingStrategy.
use hpa_plus.Prelude.{
  ℤ, pos, ℕ, suc, ◌-◌, ◌/◌, ◌%◌, ◌+ℤ◌, ltb_ℤ, leb_ℤ, ◌==◌, quot, ◌||◌, List, [], ◌∷◌, length,
  get_or, if◌then◌else◌, Result, ok, err, Floats, ◌>>◌,
}
use hpa_plus.Api.Types.{DecisionType, maximum, minimum, mean, median}
use hpa_plus.Scaling.Errors.{Error, no_candidates, negative_candidate, unknown_decision_type}

-- The loop that refuses a candidate below 0.
unfoldable pub check_candidates : List ℤ → Result Error (Unit {0})
check_candidates [] = ok tt
check_candidates (value ∷ rest) =
    if ltb_ℤ value (pos 0) then err negative_candidate else check_candidates rest

unfoldable pub insert_sorted : ℤ → List ℤ → List ℤ
insert_sorted a [] = a ∷ []
insert_sorted a (x ∷ xs) = if leb_ℤ a x then a ∷ x ∷ xs else x ∷ insert_sorted a xs

-- sort.Slice with `<` on the values.
unfoldable pub sort_replicas : List ℤ → List ℤ
sort_replicas [] = []
sort_replicas (x ∷ xs) = insert_sorted x (sort_replicas xs)

-- `for i, r := range …` with `i == 0 || r > max`.
unfoldable pub max_loop : ℕ → ℤ → List ℤ → ℤ
max_loop i acc [] = acc
max_loop i acc (r ∷ rest) = max_loop (suc i) (if i == 0 || ltb_ℤ acc r then r else acc) rest

unfoldable pub min_loop : ℕ → ℤ → List ℤ → ℤ
min_loop i acc [] = acc
min_loop i acc (r ∷ rest) = min_loop (suc i) (if i == 0 || ltb_ℤ r acc then r else acc) rest

unfoldable pub sum_loop : ℤ → List ℤ → ℤ
sum_loop total [] = total
sum_loop total (r ∷ rest) = sum_loop (total +ℤ r) rest

unfoldable pub median_of : List ℤ → ℤ
median_of sorted =
    let half = length sorted / 2 in
    if length sorted % 2 == 0
    then quot (get_or sorted (half - 1) (pos 0) +ℤ get_or sorted half (pos 0)) (pos 2)
    else get_or sorted half (pos 0)

module _ (fl : Floats) where
  unfoldable pub mean_of : List ℤ → ℤ
  mean_of sorted =
      let total = sum_loop (pos 0) sorted in
      if leb_ℤ total (pos 0)
      then pos 0
      else fl.to_int (fl.round (fl.div (fl.of_int total) (fl.of_int (pos (length sorted)))))

  -- The switch on the decision type, over the sorted candidates.
  unfoldable pub select_by_type : DecisionType → List ℤ → Result Error ℤ
  select_by_type maximum sorted = ok (max_loop 0 (pos 0) sorted)
  select_by_type minimum sorted = ok (min_loop 0 (pos 0) sorted)
  select_by_type mean sorted = ok (mean_of sorted)
  select_by_type median sorted = ok (median_of sorted)
  select_by_type (DecisionType.other s) sorted = err unknown_decision_type

  unfoldable pub decide_by_strategy : DecisionType → List ℤ → Result Error ℤ
  decide_by_strategy decision_type candidates = do
    if length candidates == 0 then err no_candidates else ok tt
    check_candidates candidates
    select_by_type decision_type (sort_replicas candidates)
