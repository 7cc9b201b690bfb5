-- ===== src/Quality/Alarm.antt =====
-- When the monitor of internal/forecastquality/quality.go reports a degraded forecast.
use hpa_plus.Prelude.{
  ℤ, pos, up, down, ◌≤ℤ◌, ltb_ℤ, leb_ℤ, Bool, true, false, [], ◌∷◌, ◌++◌, Option, none, some,
  Bool-cases, if◌then◌else◌, ◌≡◌, ◌⊎◌, refl, sym, ap, ◌∙◌, subst, inl, inr, arith, length, leb→le,
}
use hpa_plus.Forecast.Types.{Clock}
use hpa_plus.Quality.Types.{ErrorFloats, ForecastVerification, ReliabilityState}
use hpa_plus.Validation.Basics.{effective_reliability}
use hpa_plus.Quality.Pending.{time_of, scan_pending}
use hpa_plus.Quality.Monitor.{
  Policy, calibrate, shift_window, breach, recover, judge, score, count_under, count_over,
  count_inside, append_recent, relative_error, clear_stale, evaluate, evaluate_match, observe_cpu,
}
use hpa_plus.Quality.Bounded.{Every}
use hpa_plus.Quality.Scoring.{with_bound-Every, shift_errors-Every}

ltb_false : (a b : ℤ) → ltb_ℤ a b ≡ false → b ≤ℤ a
ltb_false a b h = ground arith

module _ (fl : ErrorFloats) where
  abbrev State : Type 0
  State = ReliabilityState fl.tests.F

  abbrev IsCalm : State → Type 0
  IsCalm s = s.degraded ≡ false

  -- Not degraded, or with a full window in which enough errors are of one sign.
  abbrev pub Justified : Policy fl → State → Type 0
  Justified p t =
      IsCalm t
      ⊎ ((t.adaptation_pending ≡ true)
          × (p.window ≤ℤ pos (length t.recent))
          × ((p.breaches ≤ℤ count_under fl t) ⊎ (p.breaches ≤ℤ count_over fl t)))

  -- A breach leaves the window and its bound as they are.
  breach-Justified :
      (s : State) (p : Policy fl)
      → IsCalm s
      → (breach fl s p ≡ s)
        ⊎ ((breach fl s p
              ≡ record s { degraded = true; adaptation_pending = true; adaptation = "Requested" })
            × ((p.breaches ≤ℤ count_under fl s) ⊎ (p.breaches ≤ℤ count_over fl s)))
  unfolding breach up down count_under count_over
  breach-Justified s p calm = elim (Bool-cases (leb_ℤ p.breaches (count_under fl s))) [
    | inl under ↦ inr (rw calm (rw under refl), inl (leb→le _ _ under))
    | inr few ↦ elim (Bool-cases (leb_ℤ p.breaches (count_over fl s))) [
      | inl over ↦ inr (rw calm (rw few (rw over refl)), inr (leb→le _ _ over))
      | inr none_over ↦ inl (rw calm (rw few (rw none_over refl)))
    ]
  ]

  recover-calm : (s : State) (p : Policy fl) (inside : ℤ) → IsCalm s → recover fl s p inside ≡ s
  unfolding recover
  recover-calm s p inside calm = rw calm refl

  judge-Justified : (s : State) (p : Policy fl) → IsCalm s → Justified p (judge fl s p)
  unfolding judge recover count_under count_over
  judge-Justified s p calm = elim (Bool-cases (ltb_ℤ (pos (length s.recent)) p.window)) [
    | inl small ↦ rw small (inl calm)
    | inr full ↦ rw full (judged full (breach-Justified s p calm))
  ]
    where
      judged :
          ltb_ℤ (pos (length s.recent)) p.window ≡ false
          → (breach fl s p ≡ s)
            ⊎ ((breach fl s p ≡ record s {
              degraded = true;
              adaptation_pending = true;
              adaptation = "Requested";
            })
                × ((p.breaches ≤ℤ count_under fl s) ⊎ (p.breaches ≤ℤ count_over fl s)))
          → Justified p (recover fl (breach fl s p) p (count_inside fl s))
      judged full (inl same) =
          subst (λ t. Justified p (recover fl t p (count_inside fl s))) (sym same)
            (inl
              (ap (λ (t : State). t.degraded) (recover-calm s p (count_inside fl s) calm) ∙ calm))
      judged full (inr (raised, enough)) =
          subst (λ t. Justified p (recover fl t p (count_inside fl s))) (sym raised)
            (inr (refl, omega (arith, ltb_false _ _ full), enough))

  score-Justified :
      (s : State) (p : Policy fl) (e : fl.tests.F) → IsCalm s → Every (Justified p) (score fl s p e)
  unfolding score shift_window
  score-Justified s p e calm =
      cases _ _ (shift_errors-Every fl IsCalm (λ t xs k. k) (λ t xs b k. k) s p s.recent calm)
    where
      cases :
          (b : Bool) (o : Option State)
          → Every IsCalm o
          → Every (Justified p) (
              if b
              then elim o [ none ↦ none | some t ↦ some (judge fl (append_recent fl t e) p) ]
              else some (judge fl (append_recent fl s e) p))
      cases true none k = tt
      cases true (some t) k = judge-Justified (append_recent fl t e) p k
      cases false o k = judge-Justified (append_recent fl s e) p calm

  Every-calm : (p : Policy fl) (o : Option State) → Every IsCalm o → Every (Justified p) o
  Every-calm p none h = tt
  Every-calm p (some t) h = inl h

  evaluate-Justified :
      (clock : Clock) (s : State) (p : Policy fl) (at cpu : ℤ) (point : ForecastVerification)
      → IsCalm s
      → Every (Justified p) (evaluate fl clock s p at cpu point)
  unfolding evaluate calibrate clear_stale
  evaluate-Justified clock s p at cpu point calm = cases _ (cleared _)
    where
      cleared : (b : Bool) → IsCalm (if b then record s { recent = [] } else s)
      cleared true = calm
      cleared false = calm

      fresh : State
      fresh = record (clear_stale fl clock s p at point) {
        last_evaluation_time = clock.format at;
        last_interval_end = point.until;
      }

      e : fl.tests.F
      e = relative_error fl cpu point.cpu

      cases :
          (b : Bool)
          → IsCalm fresh
          → Every (Justified p) (if b then calibrate fl fresh p e else score fl fresh p e)
      cases true k = Every-calm p _ (
          with_bound-Every fl IsCalm (λ t xs k. k) (λ t xs b k. k) fresh
            (fresh.baseline ++ (fl.abs e ∷ [])) p k)
      cases false k = score-Justified fresh p e k

  module _ (clock : Clock) (policy : Policy fl) (s : State) (at cpu now : ℤ) where
    observe_cpu-Justified :
        IsCalm s
        → Every
            (Justified (effective_reliability fl.tests policy))
            (observe_cpu fl clock s policy at cpu now)
    unfolding observe_cpu evaluate_match
    observe_cpu-Justified calm = cases _ _
      where
        seen : State
        seen = record s {
          last_observation_time = clock.format at;
          pending = (scan_pending clock at (time_of clock s.last_interval_end) none s.pending).0;
        }

        cases :
            (b : Bool) (o : Option ForecastVerification)
            → Every
                (Justified (effective_reliability fl.tests policy))
                (if b then evaluate_match fl clock seen policy at cpu o else some s)
        cases false o = inl calm
        cases true none = inl calm
        cases true (some point) =
            evaluate-Justified clock seen (effective_reliability fl.tests policy) at cpu point calm

    -- An observation turns a state that is not degraded into a degraded one only with a full
    -- window of recent errors of which enough are above the bound, or enough below it, and then
    -- it asks for an adaptation.
    pub observe_cpu_alarm :
        {t : State}
        → s.degraded ≡ false
        → observe_cpu fl clock s policy at cpu now ≡ some t
        → Justified (effective_reliability fl.tests policy) t
    observe_cpu_alarm calm e =
        subst (Every (Justified (effective_reliability fl.tests policy))) e
          (observe_cpu-Justified calm)
