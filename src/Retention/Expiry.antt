-- ===== src/Retention/Expiry.antt =====
-- pruneAgedHistory of internal/controllers/history_retention.go, and the expiry of training rows.
use hpa_plus.Prelude.{
  ℤ, -ℤ_parts, +ℤ_parts, ltb_ℤ, leb_ℤ, ◌==ℤ◌, ◌<ℤ◌, ◌+ℤ◌, ◌-ℤ◌, max_int64, milliseconds, ◌==◌, ◌≤◌,
  ◌≡◌, refl, subst, inl, inr, arith, Bool, true, false, List, [], ◌∷◌, length, All, Option, none,
  some, ok, Bool-cases, Option-cases,
}
use hpa_plus.Api.Types.{TimestampedSample}
use hpa_plus.Scaling.Windows.{is_after, keep_after}
use hpa_plus.Forecast.History.{has_value}
use hpa_plus.Retention.Window.{
  ModelHistory, earlier_row, earliest_row, history_input_deadline, has_expired_training,
  expire_rows, prune_aged_history,
}

-- A time that is missing, or after the cutoff.
IsFresh : ℤ → Option ℤ → Type 0
IsFresh cutoff none = Unit
IsFresh cutoff (some t) = cutoff <ℤ t

earlier_row-IsFresh :
    (cutoff : ℤ) (first : Option ℤ) (row : TimestampedSample)
    → IsFresh cutoff first
    → is_after row.time cutoff ≡ true
    → IsFresh cutoff (earlier_row first row)
unfolding earlier_row is_after IsFresh
earlier_row-IsFresh cutoff first row h after = elim (Option-cases row.time) [
  | inl h1 ↦ ground arith
  | inr (t, h1) ↦
      let fresh : cutoff <ℤ t = ground arith in
      elim (Bool-cases (has_value row.total_cpu_usage_millicores)) [
        | inr no_cpu ↦ subst (IsFresh cutoff) {x = first} (ground arith) h
        | inl cpu ↦ elim (Option-cases first) [
          | inl h2 ↦ subst (IsFresh cutoff) {x = some t} (ground arith) fresh
          | inr (f, h2) ↦ elim (Bool-cases (ltb_ℤ t f)) [
            | inl sooner ↦ subst (IsFresh cutoff) {x = some t} (ground arith) fresh
            | inr not_sooner ↦ subst (IsFresh cutoff) {x = first} (ground arith) h
          ]
        ]
      ]
]

earliest_row-IsFresh :
    (cutoff : ℤ) (first : Option ℤ) (rows : List TimestampedSample)
    → IsFresh cutoff first
    → All {A = TimestampedSample} (λ row. is_after row.time cutoff ≡ true) rows
    → IsFresh cutoff (earliest_row first rows)
unfolding earliest_row
earliest_row-IsFresh cutoff first [] h after = h
earliest_row-IsFresh cutoff first (row ∷ rest) h after =
    earliest_row-IsFresh cutoff (earlier_row first row) rest
      (earlier_row-IsFresh cutoff first row h after.0) after.1

keep_after-All :
    (cutoff : ℤ) (rows : List TimestampedSample)
    → All {A = TimestampedSample} (λ row. is_after row.time cutoff ≡ true) (keep_after cutoff rows)
unfolding keep_after
keep_after-All cutoff [] = tt
keep_after-All cutoff (row ∷ rest) = elim (Bool-cases (is_after row.time cutoff)) [
  | inl after ↦ rw after (after, keep_after-All cutoff rest)
  | inr before ↦ rw before (keep_after-All cutoff rest)
]

length-keep_after :
    (cutoff : ℤ) (rows : List TimestampedSample) → length (keep_after cutoff rows) ≤ length rows
unfolding keep_after
length-keep_after cutoff [] = omega arith
length-keep_after cutoff (row ∷ rest) = let ih = length-keep_after cutoff rest in ground arith

-- Where nothing is dropped, the rows stay as they are.
keep_after_all :
    (cutoff : ℤ) (rows : List TimestampedSample)
    → length (keep_after cutoff rows) ≡ length rows
    → keep_after cutoff rows ≡ rows
unfolding keep_after
keep_after_all cutoff [] h = refl
keep_after_all cutoff (row ∷ rest) h = elim (Bool-cases (is_after row.time cutoff)) [
  | inl after ↦ let ih = keep_after_all cutoff rest (ground arith) in ground arith
  | inr before ↦ let shorter = length-keep_after cutoff rest in ground arith
]

still_valid : (first now age : ℤ) → now -ℤ age <ℤ first → leb_ℤ (first +ℤ age) now ≡ false
still_valid first now age h =
    let minus = -ℤ_parts now age in let plus = +ℤ_parts first age in ground arith

rows_unexpired :
    (max_age now : ℤ) (history : ModelHistory)
    → All {A = TimestampedSample}
        (λ row. is_after row.time (now -ℤ milliseconds max_age) ≡ true)
        history.replica_history
    → has_expired_training (some max_age) history now ≡ false
unfolding has_expired_training history_input_deadline IsFresh
rows_unexpired max_age now history after =
    let cutoff = now -ℤ milliseconds max_age in
    elim (Option-cases (earliest_row none history.replica_history)) [
      | inl h ↦ ground arith
      | inr (first, h) ↦
          let fresh =
            subst (IsFresh cutoff) h
              (earliest_row-IsFresh cutoff none history.replica_history tt after) in
          let late = still_valid first now (milliseconds max_age) fresh in ground arith
    ]

no_deadline : (history : ModelHistory) (now : ℤ) → has_expired_training none history now ≡ false
unfolding has_expired_training history_input_deadline
no_deadline history now = refl

-- After a pruning that succeeds, no training row of the history has expired.
pub prune_aged_history_unexpired :
    (max_age : Option ℤ) (history pruned : ModelHistory) (now : ℤ) (changed : Bool)
    → prune_aged_history max_age history now ≡ ok (changed, pruned)
    → has_expired_training max_age pruned now ≡ false
unfolding prune_aged_history expire_rows
prune_aged_history_unexpired none history pruned now changed h = no_deadline pruned now
prune_aged_history_unexpired (some max_age) history pruned now changed h =
    let cutoff = now -ℤ milliseconds max_age in
    let kept = keep_after cutoff history.replica_history in
    let fresh = keep_after-All cutoff history.replica_history in
    elim (Bool-cases (length kept == length history.replica_history)) [
      | inl same ↦
          let all = keep_after_all cutoff history.replica_history (ground arith) in
          let is_history : history ≡ pruned = ground arith in
          subst (λ p. has_expired_training (some max_age) p now ≡ false) is_history
            (rows_unexpired max_age now history (
              subst (All {A = TimestampedSample} (λ row. is_after row.time cutoff ≡ true)) all
                fresh))
      | inr dropped ↦ elim (Bool-cases (history.history_epoch ==ℤ max_int64)) [
        | inl exhausted ↦ ground arith
        | inr left ↦
            let is_expired : expire_rows history kept ≡ pruned = ground arith in
            subst (λ p. has_expired_training (some max_age) p now ≡ false) is_expired
              (rows_unexpired max_age now (expire_rows history kept) fresh)
      ]
    ]
