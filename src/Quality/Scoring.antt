-- ===== src/Quality/Scoring.antt =====
-- What an observation scores, and when the monitor reports a degraded forecast.
use mathlib.Core.List.{Memᴰ}
use hpa_plus.Prelude.{
  ℤ, Bool, true, false, String, List, [], ◌∷◌, ◌++◌, All, Option, none, some, if◌then◌else◌, ◌≡◌,
  ◌⊎◌, refl, subst, inl, inr, arith,
}
use hpa_plus.Forecast.Types.{Clock}
use hpa_plus.Quality.Types.{ErrorFloats, ForecastVerification, ReliabilityState}
use hpa_plus.Validation.Basics.{effective_reliability}
use hpa_plus.Quality.Pending.{time_of, scan_pending}
use hpa_plus.Quality.Matching.{
  Matches, Misses, Found, Missed, scan_pending-Found, scan_pending-Missed,
}
use hpa_plus.Quality.Monitor.{
  Policy, calibrate, slide_baseline, shift_errors, shift_window, breach, recover, judge, score,
  bound, with_bound, relative_error, append_recent, rebased, clear_stale, evaluate, evaluate_match,
  accepts_observation, observe_cpu,
}
use hpa_plus.Quality.Bounded.{Every}

module _ (fl : ErrorFloats) where
  abbrev State : Type 0
  State = ReliabilityState fl.tests.F

  -- The end of the last interval that was scored.
  abbrev EndsAt : String → State → Type 0
  EndsAt end s = s.last_interval_end ≡ end

  judge-EndsAt :
      (s : State) (p : Policy fl) (end : String) → EndsAt end s → EndsAt end (judge fl s p)
  unfolding judge breach recover
  judge-EndsAt s p end h = ground arith

  -- A predicate of the state that does not read the errors, past the operations on them.
  module _ (P : State → Type 0)
      (on_recent : (s : State) (xs : List fl.tests.F) → P s → P (record s { recent = xs }))
      (on_baseline : (s : State) (xs : List fl.tests.F) (b : fl.tests.F)
        → P s
        → P (record s { baseline = xs; error_bound = b })) where
    rebased-Every :
        (s : State) (xs : List fl.tests.F) (o : Option fl.tests.F)
        → P s
        → Every P (rebased fl s xs o)
    rebased-Every s xs none h = tt
    rebased-Every s xs (some b) h = on_baseline s xs b h

    pub with_bound-Every :
        (s : State) (xs : List fl.tests.F) (p : Policy fl) → P s → Every P (with_bound fl s xs p)
    with_bound-Every s xs p h = rebased-Every s xs (bound fl xs p.minimum_relative_error) h

    pub shift_errors-Every :
        (s : State) (p : Policy fl) (es : List fl.tests.F) → P s → Every P (shift_errors fl s p es)
    unfolding shift_errors slide_baseline
    shift_errors-Every s p [] h = tt
    shift_errors-Every s p (oldest ∷ newer) h = cases s.degraded s.baseline
      where
        shifted : State
        shifted = record s { recent = newer }

        cases :
            (b : Bool) (bs : List fl.tests.F)
            → Every P (if b then some shifted else slide_baseline fl shifted p oldest bs)
        cases true bs = on_recent s newer h
        cases false [] = tt
        cases false (b ∷ rest) =
            with_bound-Every shifted (rest ++ (fl.abs oldest ∷ [])) p (on_recent s newer h)

  score-EndsAt :
      (s : State) (p : Policy fl) (e : fl.tests.F) (end : String)
      → EndsAt end s
      → Every (EndsAt end) (score fl s p e)
  unfolding score shift_window
  score-EndsAt s p e end h =
      cases _ _ (shift_errors-Every (EndsAt end) (λ t xs k. k) (λ t xs b k. k) s p s.recent h)
    where
      cases :
          (b : Bool) (o : Option State)
          → Every (EndsAt end) o
          → Every (EndsAt end) (
              if b
              then elim o [ none ↦ none | some t ↦ some (judge fl (append_recent fl t e) p) ]
              else some (judge fl (append_recent fl s e) p))
      cases true none k = tt
      cases true (some t) k = judge-EndsAt (append_recent fl t e) p end k
      cases false o k = judge-EndsAt (append_recent fl s e) p end h

  evaluate-EndsAt :
      (clock : Clock) (s : State) (p : Policy fl) (at cpu : ℤ) (point : ForecastVerification)
      → Every (EndsAt point.until) (evaluate fl clock s p at cpu point)
  unfolding evaluate calibrate
  evaluate-EndsAt clock s p at cpu point = cases _
    where
      fresh : State
      fresh = record (clear_stale fl clock s p at point) {
        last_evaluation_time = clock.format at;
        last_interval_end = point.until;
      }

      cases :
          (b : Bool)
          → Every (EndsAt point.until) (
              if b
              then calibrate fl fresh p (relative_error fl cpu point.cpu)
              else score fl fresh p (relative_error fl cpu point.cpu))
      cases true =
          with_bound-Every (EndsAt point.until) (λ t xs k. k) (λ t xs b k. k) fresh
            (fresh.baseline ++ (fl.abs (relative_error fl cpu point.cpu) ∷ [])) p refl
      cases false = score-EndsAt fresh p (relative_error fl cpu point.cpu) point.until refl

  -- Nothing is scored: the errors, their bound, the verdict and the end that is kept stay.
  abbrev pub Unscored : State → State → Type 0
  Unscored s t =
      (t.baseline ≡ s.baseline)
      × (t.recent ≡ s.recent)
      × (t.error_bound ≡ s.error_bound)
      × (t.degraded ≡ s.degraded)
      × (t.adaptation_pending ≡ s.adaptation_pending)
      × (t.last_evaluation_time ≡ s.last_evaluation_time)
      × (t.last_interval_end ≡ s.last_interval_end)

  module _ (clock : Clock) (policy : Policy fl) (s : State) (at cpu now : ℤ) where
    -- Nothing is scored, for the observation is refused or misses every interval that waits.
    abbrev pub Passed : State → Type 0
    Passed t =
        Unscored s t
        × ((accepts_observation fl clock s at cpu now ≡ false)
            ⊎ All (Misses clock at (time_of clock s.last_interval_end)) s.pending)

    -- What an observation does with the intervals.
    abbrev pub Scored : State → Type 0
    Scored t =
        Passed t
        ⊎ ((p : ForecastVerification) × Memᴰ p s.pending
            × Matches clock at (time_of clock s.last_interval_end) p
            × (t.last_interval_end ≡ p.until))

    observe_cpu-Every : Every Scored (observe_cpu fl clock s policy at cpu now)
    unfolding observe_cpu evaluate_match
    observe_cpu-Every =
        cases _ _ refl
          (scan_pending-Found clock at (time_of clock s.last_interval_end) s.pending s.pending none
            (λ p m. m) tt)
          (scan_pending-Missed clock at (time_of clock s.last_interval_end) s.pending)
      where
        seen : State
        seen = record s {
          last_observation_time = clock.format at;
          pending = (scan_pending clock at (time_of clock s.last_interval_end) none s.pending).0;
        }

        lift :
            (point : ForecastVerification) (o : Option State)
            → Memᴰ point s.pending × Matches clock at (time_of clock s.last_interval_end) point
            → Every (EndsAt point.until) o
            → Every Scored o
        lift point none k e = tt
        lift point (some t) (m, k) e = inr (point, m, k, e)

        cases :
            (b : Bool) (o : Option ForecastVerification)
            → accepts_observation fl clock s at cpu now ≡ b
            → Found clock at (time_of clock s.last_interval_end) s.pending o
            → Missed clock at (time_of clock s.last_interval_end) s.pending o
            → Every Scored (if b then evaluate_match fl clock seen policy at cpu o else some s)
        cases false o e k m = inl ((refl, refl, refl, refl, refl, refl, refl), inl e)
        cases true none e k m = inl ((refl, refl, refl, refl, refl, refl, refl), inr m)
        cases true (some point) e k m =
            lift point _ k
              (evaluate-EndsAt clock seen (effective_reliability fl.tests policy) at cpu point)

    -- An observation is passed over, or it scores an interval that waits, which holds its time and
    -- starts no earlier than the end that the state keeps, and its own end is kept next.
    pub observe_cpu-Scored :
        {t : State} → observe_cpu fl clock s policy at cpu now ≡ some t → Scored t
    observe_cpu-Scored e = subst (Every Scored) e observe_cpu-Every
