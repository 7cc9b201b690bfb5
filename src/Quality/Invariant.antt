-- ===== src/Quality/Invariant.antt =====
-- The bounds of the monitor's state through an observation, and in every state that is reached.
use hpa_plus.Prelude.{
  ℤ, pos, up, down, ◌≤ℤ◌, ltb_ℤ, ◌==ℤ◌, ℕ, suc, ◌≤◌, length, String, Bool, true, false, List, [],
  ◌∷◌, All, Option, none, some, Bool-cases, if◌then◌else◌, ◌≡◌, refl, sym, subst, inl, inr, arith,
}
use hpa_plus.Forecast.Types.{Clock}
use hpa_plus.Quality.Types.{ErrorFloats, ForecastVerification, ReliabilityState}
use hpa_plus.Validation.Basics.{effective_reliability, valid_reliability}
use hpa_plus.Quality.Pending.{max_pending, time_of, scan_pending}
use hpa_plus.Quality.Monitor.{
  empty_state, record_forecast, Policy, rebased, append_recent, calibrate, slide_baseline,
  shift_errors, shift_window, breach, recover, judge, score, clear_stale, evaluate, evaluate_match,
  observe_cpu, adapted,
}
use hpa_plus.Quality.Bounded.{
  Every, IsBounded, length-snoc, scan_pending-Kept, positive, empty_state-IsBounded,
  record_forecast-IsBounded, if_both,
}

room_left : (n : ℕ) (w : ℤ) → (pos n ==ℤ w) ≡ false → pos n ≤ℤ w → pos (suc n) ≤ℤ w
unfolding up down
room_left n w differs fits = ground arith

module _ (fl : ErrorFloats) (clock : Clock) (policy : Policy fl)
    (valid : valid_reliability fl.tests (effective_reliability fl.tests policy) ≡ true) where
  abbrev p : Policy fl
  p = effective_reliability fl.tests policy

  abbrev State : Type 0
  State = ReliabilityState fl.tests.F

  abbrev Bounded : State → Type 0
  Bounded = IsBounded fl clock policy

  -- The bounds with other lists.
  rebound :
      (s t : State)
      → t.pending ≡ s.pending
      → length t.baseline ≡ length s.baseline
      → pos (length t.recent) ≤ℤ p.window
      → Bounded s
      → Bounded t
  unfolding up down
  rebound s t pending baseline recent h = record {
    few_pending = subst (λ xs. length xs ≤ max_pending) (sym pending) h.few_pending;
    points = subst (All _) (sym pending) h.points;
    baseline_fits = omega (arith, baseline, h.baseline_fits);
    recent_fits = recent;
  }

  breach-IsBounded : (s : State) → Bounded s → Bounded (breach fl s p)
  unfolding breach
  breach-IsBounded s h = cases _
    where
      cases :
          (b : Bool)
          → Bounded (
              if b
              then record s { degraded = true; adaptation_pending = true; adaptation = "Requested" }
              else s)
      cases true = rebound s _ refl refl h.recent_fits h
      cases false = h

  recover-IsBounded : (s : State) (inside : ℤ) → Bounded s → Bounded (recover fl s p inside)
  unfolding recover up down
  recover-IsBounded s inside h = cases _
    where
      cases : (b : Bool) → Bounded (if b then record s { degraded = false; recent = [] } else s)
      cases true = rebound s _ refl refl (omega (arith, (positive fl clock policy valid).1)) h
      cases false = h

  judge-IsBounded : (s : State) → Bounded s → Bounded (judge fl s p)
  unfolding judge
  judge-IsBounded s h = if_both Bounded _ h (recover-IsBounded _ _ (breach-IsBounded s h))

  -- One error more, where the window has room for it.
  append_recent-IsBounded :
      (s : State) (e : fl.tests.F)
      → pos (suc (length s.recent)) ≤ℤ p.window
      → Bounded s
      → Bounded (append_recent fl s e)
  append_recent-IsBounded s e room h =
      rebound s _ refl refl (subst (λ n. pos n ≤ℤ p.window) (sym (length-snoc s.recent e)) room) h

  rebased-IsBounded :
      (s : State) (xs : List fl.tests.F) (o : Option fl.tests.F)
      → pos (length xs) ≤ℤ p.calibration_samples
      → Bounded s
      → Every Bounded (rebased fl s xs o)
  rebased-IsBounded s xs none e h = tt
  rebased-IsBounded s xs (some b) e h = record {
    few_pending = h.few_pending;
    points = h.points;
    baseline_fits = e;
    recent_fits = h.recent_fits;
  }

  calibrate-IsBounded :
      (s : State) (e : fl.tests.F)
      → ltb_ℤ (pos (length s.baseline)) p.calibration_samples ≡ true
      → Bounded s
      → Every Bounded (calibrate fl s p e)
  unfolding calibrate up down
  calibrate-IsBounded s e room h =
      rebased-IsBounded s _ _ (ground (arith, length-snoc s.baseline (fl.abs e))) h

  -- A window that gave up an error has room for one.
  abbrev HasRoom : State → Type 0
  HasRoom s = Bounded s × (pos (suc (length s.recent)) ≤ℤ p.window)

  rebased-HasRoom :
      (s : State) (xs : List fl.tests.F) (o : Option fl.tests.F)
      → pos (length xs) ≤ℤ p.calibration_samples
      → HasRoom s
      → Every HasRoom (rebased fl s xs o)
  rebased-HasRoom s xs none e h = tt
  rebased-HasRoom s xs (some b) e h = (rebased-IsBounded s xs (some b) e h.0, h.1)

  slide_baseline-HasRoom :
      (s : State) (oldest : fl.tests.F) (bs : List fl.tests.F)
      → pos (length bs) ≤ℤ p.calibration_samples
      → HasRoom s
      → Every HasRoom (slide_baseline fl s p oldest bs)
  unfolding slide_baseline up down
  slide_baseline-HasRoom s oldest [] e h = tt
  slide_baseline-HasRoom s oldest (b ∷ rest) e h =
      rebased-HasRoom s _ _ (omega (arith, e, length-snoc rest (fl.abs oldest))) h

  shift_errors-HasRoom :
      (s : State) (es : List fl.tests.F)
      → pos (length es) ≤ℤ p.window
      → Bounded s
      → Every HasRoom (shift_errors fl s p es)
  unfolding shift_errors up down
  shift_errors-HasRoom s [] e h = tt
  shift_errors-HasRoom s (oldest ∷ newer) e h = cases s.degraded
    where
      shifted : HasRoom (record s { recent = newer })
      shifted = (rebound s _ refl refl (omega (arith, e)) h, e)

      cases :
          (b : Bool)
          → Every HasRoom (
              if b
              then some (record s { recent = newer })
              else slide_baseline fl (record s { recent = newer }) p oldest s.baseline)
      cases true = shifted
      cases false = slide_baseline-HasRoom _ oldest s.baseline h.baseline_fits shifted

  shift_window-HasRoom : (s : State) → Bounded s → Every HasRoom (shift_window fl s p)
  unfolding shift_window
  shift_window-HasRoom s h = shift_errors-HasRoom s s.recent h.recent_fits h

  score-IsBounded : (s : State) (e : fl.tests.F) → Bounded s → Every Bounded (score fl s p e)
  unfolding score
  score-IsBounded s e h = elim (Bool-cases (pos (length s.recent) ==ℤ p.window)) [
    | inl full ↦ rw full (appended (shift_window fl s p) (shift_window-HasRoom s h))
    | inr room ↦
        rw room
          (judge-IsBounded _ (append_recent-IsBounded s e (room_left _ _ room h.recent_fits) h))
  ]
    where
      appended :
          (o : Option State)
          → Every HasRoom o
          → Every Bounded
              (elim o [ none ↦ none | some t ↦ some (judge fl (append_recent fl t e) p) ])
      appended none k = tt
      appended (some t) (b, r) = judge-IsBounded _ (append_recent-IsBounded t e r b)

  clear_stale-IsBounded :
      (s : State) (at : ℤ) (point : ForecastVerification)
      → Bounded s
      → Bounded (clear_stale fl clock s p at point)
  unfolding clear_stale up down
  clear_stale-IsBounded s at point h = cases _
    where
      cases : (b : Bool) → Bounded (if b then record s { recent = [] } else s)
      cases true = rebound s _ refl refl (omega (arith, (positive fl clock policy valid).1)) h
      cases false = h

  evaluate-IsBounded :
      (s : State) (at cpu : ℤ) (point : ForecastVerification)
      → Bounded s
      → Every Bounded (evaluate fl clock s p at cpu point)
  unfolding evaluate
  evaluate-IsBounded s at cpu point h = scored _ _ (rebound _ _ refl refl k.recent_fits k)
    where
      k : Bounded (clear_stale fl clock s p at point)
      k = clear_stale-IsBounded s at point h

      scored :
          (t : State) (e : fl.tests.F)
          → Bounded t
          → Every Bounded (
              if ltb_ℤ (pos (length t.baseline)) p.calibration_samples
              then calibrate fl t p e
              else score fl t p e)
      scored t e b = elim (Bool-cases (ltb_ℤ (pos (length t.baseline)) p.calibration_samples)) [
        | inl small ↦ rw small (calibrate-IsBounded t e small b)
        | inr done ↦ rw done (score-IsBounded t e b)
      ]

  observe_cpu-IsBounded :
      (s : State) (at cpu now : ℤ)
      → Bounded s
      → Every Bounded (observe_cpu fl clock s policy at cpu now)
  unfolding observe_cpu evaluate_match
  observe_cpu-IsBounded s at cpu now h = cases _
    where
      scan : List ForecastVerification × Option ForecastVerification
      scan = scan_pending clock at (time_of clock s.last_interval_end) none s.pending

      seen : State
      seen = record s { last_observation_time = clock.format at; pending = scan.0 }

      kept : Bounded seen
      kept =
          let (points, few) =
            scan_pending-Kept clock s.pending at (time_of clock s.last_interval_end) none
              h.points in
          record {
            few_pending = omega (arith, few, h.few_pending);
            points = points;
            baseline_fits = h.baseline_fits;
            recent_fits = h.recent_fits;
          }

      matched :
          (o : Option ForecastVerification)
          → Every Bounded (evaluate_match fl clock seen policy at cpu o)
      matched none = kept
      matched (some point) = evaluate-IsBounded seen at cpu point kept

      cases :
          (b : Bool)
          → Every Bounded (if b then evaluate_match fl clock seen policy at cpu scan.1 else some s)
      cases true = matched scan.1
      cases false = h

  adapted-IsBounded : (s : State) (action : String) → Bounded s → Bounded (adapted fl s action)
  unfolding adapted up down
  adapted-IsBounded s action h = record {
    few_pending = omega arith;
    points = tt;
    baseline_fits = h.baseline_fits;
    recent_fits = omega (arith, (positive fl clock policy valid).1);
  }

  -- The states that the monitor goes through, from a fresh one.
  pub data Reached : State → Type 0 where
    fresh : (fingerprint : String) → Reached (empty_state fl fingerprint)
    recorded :
        {s : State} (forecast : Option ForecastVerification)
        → Reached s
        → Reached (record_forecast fl clock s forecast)
    observed :
        {s t : State} (at cpu now : ℤ)
        → Reached s
        → observe_cpu fl clock s policy at cpu now ≡ some t
        → Reached t
    adapted_to : {s : State} (action : String) → Reached s → Reached (adapted fl s action)

  -- In every state that is reached from a fresh one, by forecasts that are recorded, observations
  -- and adaptations in any order, at most 128 points wait and all of them are valid, the baseline
  -- is no longer than the calibration and the recent errors are no more than the window: where the
  -- policy is one that validation accepts.
  pub reached-IsBounded : {s : State} → Reached s → IsBounded fl clock policy s
  reached-IsBounded (fresh fingerprint) = empty_state-IsBounded fl clock policy valid fingerprint
  reached-IsBounded (recorded forecast r) =
      record_forecast-IsBounded fl clock policy valid _ forecast (reached-IsBounded r)
  reached-IsBounded (observed {s} at cpu now r e) =
      subst (Every Bounded) e (observe_cpu-IsBounded s at cpu now (reached-IsBounded r))
  reached-IsBounded (adapted_to action r) = adapted-IsBounded _ action (reached-IsBounded r)
