-- ===== src/Quality/Monitor.antt =====
-- internal/forecastquality/quality.go. A panic is `none`. Durations are exact: the model does not
-- saturate the distance of two times, nor wrap the product of a window with an interval.
use hpa_plus.Prelude.{
  ℤ, pos, ltb_ℤ, leb_ℤ, ◌==ℤ◌, ◌-ℤ◌, ◌*ℤ◌, up, ℕ, zero, suc, ◌-◌, leb, length, same_text, String,
  Bool, true, false, not, ◌&&◌, ◌||◌, List, [], ◌∷◌, ◌++◌, Option, none, some, if◌then◌else◌,
}
use hpa_plus.Forecast.Types.{Clock}
use hpa_plus.Validation.Types.{ForecastReliabilityPolicy}
use hpa_plus.Validation.Checks.{every, is_finite}
use hpa_plus.Validation.Basics.{effective_reliability}
use hpa_plus.Quality.Types.{ErrorFloats, ForecastVerification, ReliabilityState, ReliabilityStatus}
use hpa_plus.Quality.Pending.{
  max_pending, time_of, parses, valid_verification, sort_points, keep_last, has_start, scan_pending,
}

module _ (fl : ErrorFloats) where
  abbrev F : Type 0
  F = fl.tests.F

  unfoldable pub empty_state : String → ReliabilityState F
  empty_state fingerprint = record {
    fingerprint = fingerprint;
    lead_milliseconds = pos 0;
    pending = [];
    baseline = [];
    recent = [];
    last_observation_time = "";
    last_evaluation_time = "";
    last_interval_end = "";
    error_bound = fl.of_int (pos 0);
    degraded = false;
    adaptation_pending = false;
    adaptation = "";
  }

  abbrev one : F
  one = fl.of_int (pos 1)

  abbrev valid_error : F → Bool
  valid_error x = is_finite fl.tests x && not (fl.tests.lt one (fl.abs x))

  abbrev valid_stamp : Clock → String → Bool
  valid_stamp clock text = same_text text "" || parses clock text

  unfoldable pub valid_state : Clock → ReliabilityState F → Bool
  valid_state clock s =
      leb (length s.pending) max_pending
      && leb (length s.baseline) 100
      && leb (length s.recent) 20
      && leb_ℤ (pos 0) s.lead_milliseconds
      && is_finite fl.tests s.error_bound
      && not (fl.tests.lt s.error_bound (fl.of_int (pos 0)))
      && not (fl.tests.lt one s.error_bound)
      && every valid_error s.baseline
      && every valid_error s.recent
      && every (valid_stamp clock)
          (s.last_observation_time ∷ s.last_evaluation_time ∷ s.last_interval_end ∷ [])
      && every (valid_verification clock) s.pending

  unfoldable pub ensure : Clock → Option (ReliabilityState F) → String → ReliabilityState F
  ensure clock none fingerprint = empty_state fingerprint
  ensure clock (some s) fingerprint =
      if same_text s.fingerprint fingerprint && valid_state clock s
      then s
      else empty_state fingerprint

  -- Another lead starts the evidence anew.
  unfoldable pub with_lead : ReliabilityState F → ℤ → ReliabilityState F
  with_lead s lead =
      let kept =
        if s.lead_milliseconds ==ℤ pos 0 || s.lead_milliseconds ==ℤ lead
        then s
        else empty_state s.fingerprint in
      record kept { lead_milliseconds = lead }

  unfoldable pub add_point : Clock → ReliabilityState F → ForecastVerification → ReliabilityState F
  add_point clock s p =
      if has_start p.at s.pending
      then s
      else record s { pending = keep_last max_pending (sort_points clock (s.pending ++ (p ∷ []))) }

  unfoldable pub record_forecast :
      Clock → ReliabilityState F → Option ForecastVerification → ReliabilityState F
  record_forecast clock s none = s
  record_forecast clock s (some p) =
      if valid_verification clock p then add_point clock (with_lead s p.lead_milliseconds) p else s

  unfoldable pub insert_float : F → List F → List F
  insert_float x [] = x ∷ []
  insert_float x (y ∷ ys) = if fl.tests.lt x y then x ∷ y ∷ ys else y ∷ insert_float x ys

  unfoldable pub sort_floats : List F → List F
  sort_floats [] = []
  sort_floats (x ∷ xs) = insert_float x (sort_floats xs)

  abbrev pub at_index {ℓ} : {A : Type ℓ} → List A → ℕ → Option A
  at_index [] n = none
  at_index (x ∷ xs) zero = some x
  at_index (x ∷ xs) (suc n) = at_index xs n

  -- int(math.Ceil(.95 * float64(n))).
  unfoldable pub rank : ℕ → ℤ
  rank n = fl.to_int (fl.ceil (fl.mul (fl.tests.lit 95 2) (fl.of_int (pos n))))

  -- The 95th percentile, and at least the floor.
  unfoldable pub bound : List F → F → Option F
  bound values floor =
      let r = rank (length values) in
      if ltb_ℤ (pos 0) r
      then elim (at_index (sort_floats values) (up r - 1)) [
        | none ↦ none
        | some v ↦ some (fl.fmax floor v)
      ]
      else none

  unfoldable pub relative_error : ℤ → ℤ → F
  relative_error cpu predicted =
      let actual = fl.of_int cpu in
      let forecast = fl.of_int predicted in
      fl.div (fl.sub actual forecast) (fl.fmax one (fl.fmax actual forecast))

  abbrev pub Policy : Type 0
  Policy = ForecastReliabilityPolicy F

  abbrev pub rebased : ReliabilityState F → List F → Option F → Option (ReliabilityState F)
  rebased s baseline none = none
  rebased s baseline (some b) = some (record s { baseline = baseline; error_bound = b })

  abbrev pub with_bound : ReliabilityState F → List F → Policy → Option (ReliabilityState F)
  with_bound s baseline p = rebased s baseline (bound baseline p.minimum_relative_error)

  unfoldable pub calibrate : ReliabilityState F → Policy → F → Option (ReliabilityState F)
  calibrate s p e = with_bound s (s.baseline ++ (fl.abs e ∷ [])) p

  -- The reference band gives up its oldest error for the one that left the window.
  unfoldable pub slide_baseline :
      ReliabilityState F → Policy → F → List F → Option (ReliabilityState F)
  slide_baseline s p oldest [] = none
  slide_baseline s p oldest (b ∷ rest) = with_bound s (rest ++ (fl.abs oldest ∷ [])) p

  unfoldable pub shift_errors : ReliabilityState F → Policy → List F → Option (ReliabilityState F)
  shift_errors s p [] = none
  shift_errors s p (oldest ∷ newer) =
      let shifted = record s { recent = newer } in
      if s.degraded then some shifted else slide_baseline shifted p oldest s.baseline

  -- A full window gives its oldest error to the reference band, unless the state is degraded.
  unfoldable pub shift_window : ReliabilityState F → Policy → Option (ReliabilityState F)
  shift_window s p = shift_errors s p s.recent

  abbrev pub is_under : ReliabilityState F → F → Bool
  is_under s e = fl.tests.lt s.error_bound e

  abbrev pub is_over : ReliabilityState F → F → Bool
  is_over s e = fl.tests.lt e (fl.neg s.error_bound)

  abbrev pub count {ℓ} : {A : Type ℓ} → (A → Bool) → List A → ℕ
  count test [] = 0
  count test (x ∷ xs) = if test x then suc (count test xs) else count test xs

  unfoldable pub count_under : ReliabilityState F → ℤ
  count_under s = pos (count (is_under s) s.recent)

  unfoldable pub count_over : ReliabilityState F → ℤ
  count_over s = pos (count (λ e. not (is_under s e) && is_over s e) s.recent)

  unfoldable pub count_inside : ReliabilityState F → ℤ
  count_inside s = pos (count (λ e. not (is_under s e) && not (is_over s e)) s.recent)

  unfoldable pub breach : ReliabilityState F → Policy → ReliabilityState F
  breach s p =
      if not s.degraded && (leb_ℤ p.breaches (count_under s) || leb_ℤ p.breaches (count_over s))
      then record s { degraded = true; adaptation_pending = true; adaptation = "Requested" }
      else s

  unfoldable pub recover : ReliabilityState F → Policy → ℤ → ReliabilityState F
  recover s p inside =
      if s.degraded && not s.adaptation_pending && leb_ℤ p.breaches inside
      then record s { degraded = false; recent = [] }
      else s

  unfoldable pub judge : ReliabilityState F → Policy → ReliabilityState F
  judge s p =
      if ltb_ℤ (pos (length s.recent)) p.window then s else recover (breach s p) p (count_inside s)

  abbrev pub append_recent : ReliabilityState F → F → ReliabilityState F
  append_recent s e = record s { recent = s.recent ++ (e ∷ []) }

  unfoldable pub score : ReliabilityState F → Policy → F → Option (ReliabilityState F)
  score s p e =
      if pos (length s.recent) ==ℤ p.window
      then elim (shift_window s p) [
        | none ↦ none
        | some shifted ↦ some (judge (append_recent shifted e) p)
      ]
      else some (judge (append_recent s e) p)

  -- A long gap empties the decision window.
  unfoldable pub clear_stale :
      Clock → ReliabilityState F → Policy → ℤ → ForecastVerification → ReliabilityState F
  clear_stale clock s p at point =
      let last = time_of clock s.last_evaluation_time in
      let interval = time_of clock point.until -ℤ time_of clock point.at in
      if not (last ==ℤ pos 0) && ltb_ℤ (p.window *ℤ interval *ℤ pos 2) (at -ℤ last)
      then record s { recent = [] }
      else s

  unfoldable pub evaluate :
      Clock
      → ReliabilityState F
      → Policy
      → ℤ
      → ℤ
      → ForecastVerification
      → Option (ReliabilityState F)
  evaluate clock s p at cpu point =
      let fresh = record (clear_stale clock s p at point) {
        last_evaluation_time = clock.format at;
        last_interval_end = point.until;
      } in
      let e = relative_error cpu point.cpu in
      if ltb_ℤ (pos (length fresh.baseline)) p.calibration_samples
      then calibrate fresh p e
      else score fresh p e

  unfoldable pub accepts_observation : Clock → ReliabilityState F → ℤ → ℤ → ℤ → Bool
  accepts_observation clock s at cpu now =
      let previous = time_of clock s.last_observation_time in
      leb_ℤ (pos 0) cpu
      && not (at ==ℤ pos 0)
      && leb_ℤ at now
      && (previous ==ℤ pos 0 || ltb_ℤ previous at)

  unfoldable pub evaluate_match :
      Clock
      → ReliabilityState F
      → Policy
      → ℤ
      → ℤ
      → Option ForecastVerification
      → Option (ReliabilityState F)
  evaluate_match clock s p at cpu none = some s
  evaluate_match clock s p at cpu (some point) =
      evaluate clock s (effective_reliability fl.tests p) at cpu point

  unfoldable pub observe_cpu :
      Clock → ReliabilityState F → Policy → ℤ → ℤ → ℤ → Option (ReliabilityState F)
  observe_cpu clock s p at cpu now =
      let scan = scan_pending clock at (time_of clock s.last_interval_end) none s.pending in
      let seen = record s { last_observation_time = clock.format at; pending = scan.0 } in
      if accepts_observation clock s at cpu now
      then evaluate_match clock seen p at cpu scan.1
      else some s

  unfoldable pub adapted : ReliabilityState F → String → ReliabilityState F
  adapted s action = record s {
    adaptation_pending = false;
    adaptation = action;
    pending = [];
    recent = [];
  }

  abbrev state_name : ReliabilityState F → Policy → String
  state_name s p =
      if same_text s.adaptation "Unsupported"
      then "Unsupported"
      else if s.degraded
      then "Degraded"
      else if leb_ℤ p.calibration_samples (pos (length s.baseline))
      then "Healthy"
      else "Calibrating"

  unfoldable pub reliability_status : Option (ReliabilityState F) → Policy → ReliabilityStatus F
  reliability_status none policy = record {
    state = "Calibrating";
    calibration_samples = pos 0;
    recent_samples = pos 0;
    underpredictions = pos 0;
    overpredictions = pos 0;
    error_bound = fl.of_int (pos 0);
    adaptation_pending = false;
    adaptation = "";
  }
  reliability_status (some s) policy = record {
    state = state_name s (effective_reliability fl.tests policy);
    calibration_samples = pos (length s.baseline);
    recent_samples = pos (length s.recent);
    underpredictions = pos (count (is_under s) s.recent);
    overpredictions = pos (count (is_over s) s.recent);
    error_bound = s.error_bound;
    adaptation_pending = s.adaptation_pending;
    adaptation = s.adaptation;
  }
