-- ===== src/Quality/Bounded.antt =====
-- The bounds of the monitor's state, through every operation.
use hpa_plus.Prelude.{
  ℤ, pos, up, down, ◌≤ℤ◌, ℕ, suc, zero, ◌+◌, ◌-◌, ◌≤◌, ltb, length, length-append, String, Bool,
  true, false, List, [], ◌∷◌, ◌++◌, All, Option, none, some, Bool-cases, if◌then◌else◌, ◌≡◌, inl,
  inr, arith,
}
use hpa_plus.Forecast.Types.{Clock}
use hpa_plus.Quality.Types.{ErrorFloats, ForecastVerification, ReliabilityState}
use hpa_plus.Validation.Basics.{effective_reliability, valid_reliability}
use hpa_plus.Quality.Pending.{
  max_pending, valid_verification, insert_point, sort_points, keep_last, drop, has_start,
  scan_pending,
}
use hpa_plus.Quality.Monitor.{empty_state, with_lead, add_point, record_forecast, Policy}

pub if_both {ℓ κ} :
    {A : Type ℓ} (P : A → Type κ) (b : Bool) {x y : A} → P x → P y → P (if b then x else y)
if_both P true h k = h
if_both P false h k = k

module _ {ℓ κ} {A : Type ℓ} (P : A → Type κ) where
  All-drop : (n : ℕ) (xs : List A) → All P xs → All P (drop n xs)
  All-drop zero xs h = h
  All-drop (suc n) [] h = tt
  All-drop (suc n) (x ∷ xs) h = All-drop n xs h.1

  All-keep_last : (n : ℕ) (xs : List A) → All P xs → All P (keep_last n xs)
  unfolding keep_last
  All-keep_last n xs h = if_both (All P) (ltb n (length xs)) (All-drop (length xs - n) xs h) h

  All-snoc : (xs : List A) (x : A) → All P xs → P x → All P (xs ++ (x ∷ []))
  All-snoc [] x h p = (p, tt)
  All-snoc (y ∷ xs) x h p = (h.0, All-snoc xs x h.1 p)

  -- A predicate of the result, where there is one.
  abbrev pub Every : Option A → Type κ
  Every none = Unit
  Every (some a) = P a

module _ {ℓ} {A : Type ℓ} where
  length-drop : (n : ℕ) (xs : List A) → n ≤ length xs → length (drop n xs) + n ≡ length xs
  length-drop zero xs h = omega arith
  length-drop (suc n) [] h = omega (arith, h)
  length-drop (suc n) (x ∷ xs) h = omega (arith, length-drop n xs (omega (arith, h)))

  pub length-keep_last : (n : ℕ) (xs : List A) → length (keep_last n xs) ≤ n
  unfolding keep_last
  length-keep_last n xs = ground (arith, length-drop (length xs - n) xs)

  pub length-snoc : (xs : List A) (x : A) → length (xs ++ (x ∷ [])) ≡ suc (length xs)
  length-snoc xs x = omega (arith, length-append xs (x ∷ []))

module _ (clock : Clock) where
  abbrev pub IsPoint : ForecastVerification → Type 0
  IsPoint p = valid_verification clock p ≡ true

  All-insert_point :
      (p : ForecastVerification) (xs : List ForecastVerification)
      → IsPoint p
      → All IsPoint xs
      → All IsPoint (insert_point clock p xs)
  unfolding insert_point
  All-insert_point p [] v h = (v, tt)
  All-insert_point p (q ∷ rest) v h = ground (arith, v, h.0, h.1, All-insert_point p rest v h.1)

  All-sort_points :
      (xs : List ForecastVerification) → All IsPoint xs → All IsPoint (sort_points clock xs)
  unfolding sort_points
  All-sort_points [] h = tt
  All-sort_points (p ∷ rest) h = All-insert_point p _ h.0 (All-sort_points rest h.1)

  abbrev Kept : ℕ → List ForecastVerification × Option ForecastVerification → Type 0
  Kept n r = All IsPoint r.0 × (length r.0 ≤ n)

  pub scan_pending-Kept :
      (xs : List ForecastVerification) (at last_end : ℤ) (found : Option ForecastVerification)
      → All IsPoint xs
      → Kept (length xs) (scan_pending clock at last_end found xs)
  unfolding scan_pending
  scan_pending-Kept [] at last_end found h = (tt, omega arith)
  scan_pending-Kept (p ∷ rest) at last_end found h =
      keep_both _ (scan_pending clock at last_end _ rest) (scan_pending-Kept rest at last_end _ h.1)
    where
      keep_both :
          (b : Bool) (r : List ForecastVerification × Option ForecastVerification)
          → Kept (length rest) r
          → Kept (suc (length rest)) (if b then r else (p ∷ r.0, r.1))
      keep_both true r (a, l) = (a, omega (arith, l))
      keep_both false r (a, l) = ((h.0, a), omega (arith, l))

module _ (fl : ErrorFloats) (clock : Clock) (policy : Policy fl) where
  abbrev p : Policy fl
  p = effective_reliability fl.tests policy

  abbrev State : Type 0
  State = ReliabilityState fl.tests.F

  -- The state holds at most 128 points, all of them valid, at most the calibration's baseline
  -- and at most a window of errors.
  pub record IsBounded (s : State) : Type 0 where
    pub few_pending : length s.pending ≤ max_pending
    pub points : All (IsPoint clock) s.pending
    pub baseline_fits : pos (length s.baseline) ≤ℤ p.calibration_samples
    pub recent_fits : pos (length s.recent) ≤ℤ p.window

  module _ (valid : valid_reliability fl.tests p ≡ true) where
    pub positive : (pos 10 ≤ℤ p.calibration_samples) × (pos 2 ≤ℤ p.window)
    unfolding valid_reliability
    positive = (ground arith, ground arith)

    pub empty_state-IsBounded : (fingerprint : String) → IsBounded (empty_state fl fingerprint)
    unfolding empty_state up down
    empty_state-IsBounded fingerprint = record {
      few_pending = omega arith;
      points = tt;
      baseline_fits = omega (arith, positive.0);
      recent_fits = omega (arith, positive.1);
    }

    with_lead-IsBounded : (s : State) (lead : ℤ) → IsBounded s → IsBounded (with_lead fl s lead)
    unfolding with_lead
    with_lead-IsBounded s lead h =
        relabel _ (if_both IsBounded _ h (empty_state-IsBounded s.fingerprint))
      where
        relabel : (t : State) → IsBounded t → IsBounded (record t { lead_milliseconds = lead })
        relabel t k = record {
          few_pending = k.few_pending;
          points = k.points;
          baseline_fits = k.baseline_fits;
          recent_fits = k.recent_fits;
        }

    add_point-IsBounded :
        (s : State) (q : ForecastVerification)
        → IsPoint clock q
        → IsBounded s
        → IsBounded (add_point fl clock s q)
    unfolding add_point
    add_point-IsBounded s q v h = if_both IsBounded (has_start q.at s.pending) h (record {
      few_pending = length-keep_last max_pending _;
      points =
          All-keep_last (IsPoint clock) max_pending _
            (All-sort_points clock _ (All-snoc (IsPoint clock) s.pending q h.points v));
      baseline_fits = h.baseline_fits;
      recent_fits = h.recent_fits;
    })

    pub record_forecast-IsBounded :
        (s : State) (forecast : Option ForecastVerification)
        → IsBounded s
        → IsBounded (record_forecast fl clock s forecast)
    unfolding record_forecast
    record_forecast-IsBounded s none h = h
    record_forecast-IsBounded s (some q) h = elim (Bool-cases (valid_verification clock q)) [
      | inl v ↦ rw v (add_point-IsBounded _ q v (with_lead-IsBounded s q.lead_milliseconds h))
      | inr v ↦ rw v h
    ]
