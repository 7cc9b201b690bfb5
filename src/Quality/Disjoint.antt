-- ===== src/Quality/Disjoint.antt =====
-- Successive observations of internal/forecastquality/quality.go: the intervals they score.
use mathlib.Core.List.{Memᴰ}
use hpa_plus.Prelude.{
  ℤ, pos, ◌≤ℤ◌, ◌<ℤ◌, ◌==ℤ◌, Bool, true, String, ◌||◌, Option, none, some, ◌≡◌, ◌⊎◌, inl, inr, refl,
  subst, ◌∙◌, arith, Bool-cases,
}
use hpa_plus.Forecast.Types.{Clock}
use hpa_plus.Quality.Types.{ErrorFloats, ForecastVerification, ReliabilityState}
use hpa_plus.Quality.Pending.{time_of, valid_verification}
use hpa_plus.Quality.Monitor.{Policy, with_lead, add_point, record_forecast, observe_cpu, adapted}
use hpa_plus.Quality.Scoring.{Passed, Scored, observe_cpu-Scored}

module _ (fl : ErrorFloats) (clock : Clock) (policy : Policy fl) where
  abbrev State : Type 0
  State = ReliabilityState fl.tests.F

  -- A forecast whose lead is the state's, where the state has one.
  abbrev pub same_lead : State → Option ForecastVerification → Bool
  same_lead s none = true
  same_lead s (some p) =
      s.lead_milliseconds ==ℤ pos 0 || s.lead_milliseconds ==ℤ p.lead_milliseconds

  -- What happens to a state while its lead stays: forecasts that are recorded, observations and
  -- adaptations, in any order.
  pub data Follows : State → State → Type 0 where
    unchanged : (s : State) → Follows s s
    recorded :
        {s t : State} (forecast : Option ForecastVerification)
        → Follows s t
        → same_lead t forecast ≡ true
        → Follows s (record_forecast fl clock t forecast)
    observed :
        {s t u : State} (at cpu now : ℤ)
        → Follows s t
        → observe_cpu fl clock t policy at cpu now ≡ some u
        → Follows s u
    adapted_to : {s t : State} (action : String) → Follows s t → Follows s (adapted fl t action)

  abbrev kept_end : State → ℤ
  kept_end s = time_of clock s.last_interval_end

  -- Equal texts are of the same time, in the form that linear arithmetic reads.
  same_time :
      (a b : String)
      → a ≡ b
      → (time_of clock a ≤ℤ time_of clock b) × (time_of clock b ≤ℤ time_of clock a)
  same_time a b e =
      subst (λ x. (time_of clock a ≤ℤ time_of clock x) × (time_of clock x ≤ℤ time_of clock a)) e
        (omega arith, omega arith)

  add_point-end :
      (s : State) (p : ForecastVerification)
      → (add_point fl clock s p).last_interval_end ≡ s.last_interval_end
  unfolding add_point
  add_point-end s p = ground arith

  with_lead-end :
      (s : State) (p : ForecastVerification)
      → same_lead s (some p) ≡ true
      → (with_lead fl s p.lead_milliseconds).last_interval_end ≡ s.last_interval_end
  unfolding with_lead
  with_lead-end s p h = rw h refl

  record_forecast-end :
      (s : State) (forecast : Option ForecastVerification)
      → same_lead s forecast ≡ true
      → (record_forecast fl clock s forecast).last_interval_end ≡ s.last_interval_end
  unfolding record_forecast
  record_forecast-end s none h = refl
  record_forecast-end s (some p) h = elim (Bool-cases (valid_verification clock p)) [
    | inl valid ↦
        rw valid (add_point-end (with_lead fl s p.lead_milliseconds) p ∙ with_lead-end s p h)
    | inr invalid ↦ rw invalid refl
  ]

  Scored-end :
      (s t : State) (at cpu now : ℤ)
      → Scored fl clock policy s at cpu now t
      → kept_end s ≤ℤ kept_end t
  Scored-end s t at cpu now (inl h) = let same = same_time _ _ h.0.6 in omega (arith, same)
  Scored-end s t at cpu now (inr (p, m, k, e)) =
      let ends = same_time _ _ e in omega (arith, k.0, k.1, k.2, ends)

  -- The end that is kept never moves back.
  Follows-end : {s t : State} → Follows s t → kept_end s ≤ℤ kept_end t
  unfolding adapted
  Follows-end (unchanged s) = omega arith
  Follows-end (recorded {s} {t} forecast r h) =
      let earlier = Follows-end r in
      let same = same_time _ _ (record_forecast-end t forecast h) in omega (arith, earlier, same)
  Follows-end (observed {s} {t} {u} at cpu now r e) =
      let earlier = Follows-end r in
      let later = Scored-end t u at cpu now (observe_cpu-Scored fl clock policy t at cpu now e) in
      omega (arith, earlier, later)
  Follows-end (adapted_to action r) = Follows-end r

  -- The interval holds the time of an observation.
  abbrev pub Holds : ℤ → ForecastVerification → Type 0
  Holds at p = (time_of clock p.at ≤ℤ at) × (at <ℤ time_of clock p.until)

  -- Of an observation and a later one, with any forecasts of the same lead, observations and
  -- adaptations between them: one is passed over, which leaves the errors, their bound, the verdict
  -- and the end of the last interval as they are, because it is refused or because no interval that
  -- waits holds its time and starts at that end or later; or each scores an interval that waited for it and
  -- holds its time, whose end is kept, and the second interval starts no earlier than the first one
  -- ends.
  pub observations_disjoint :
      (s0 s t u : State) (at1 cpu1 now1 at2 cpu2 now2 : ℤ)
      → observe_cpu fl clock s0 policy at1 cpu1 now1 ≡ some s
      → Follows s t
      → observe_cpu fl clock t policy at2 cpu2 now2 ≡ some u
      → Passed fl clock policy s0 at1 cpu1 now1 s
        ⊎ Passed fl clock policy t at2 cpu2 now2 u
        ⊎ ((p : ForecastVerification) × (q : ForecastVerification) × Memᴰ p s0.pending
            × Holds at1 p
            × (s.last_interval_end ≡ p.until)
            × Memᴰ q t.pending
            × Holds at2 q
            × (u.last_interval_end ≡ q.until)
            × (time_of clock p.until ≤ℤ time_of clock q.at))
  observations_disjoint s0 s t u at1 cpu1 now1 at2 cpu2 now2 e1 r e2 =
      elim (observe_cpu-Scored fl clock policy s0 at1 cpu1 now1 e1) [
        | inl none1 ↦ inl none1
        | inr (p, m1, k1, h1) ↦ elim (observe_cpu-Scored fl clock policy t at2 cpu2 now2 e2) [
          | inl none2 ↦ inr (inl none2)
          | inr (q, m2, k2, h2) ↦
              let later = Follows-end r in
              let ends = same_time _ _ h1 in
              inr (
                inr (
                  p,
                  q,
                  m1,
                  (k1.1, k1.2),
                  h1,
                  m2,
                  (k2.1, k2.2),
                  h2,
                  omega (arith, later, ends, k2.0),
                ))
        ]
      ]
