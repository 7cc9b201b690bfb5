-- ===== src/Cache/Requeue.antt =====
-- The delay to the next reconciliation.
use hpa_plus.Prelude.{
  ℤ, ◌≤ℤ◌, ltb_ℤ, String, Bool, true, false, ◌&&◌, List, [], ◌∷◌, All, Option, none, some,
  if◌then◌else◌, ◌⊎◌, inl, inr, arith,
}
use hpa_plus.Validation.Checks.{one_of}
use hpa_plus.Forecast.Trajectory.{sub_time}
use hpa_plus.Cache.Defs.{is_present}
use hpa_plus.Cache.Reports.{ModelReport, second, wake_for, timed_decision_requeue}

module _ (names : List String) (now : ℤ) where
  abbrev is_timed : ModelReport → Bool
  is_timed r = one_of r.name names && is_present r.forecast_replicas

  abbrev at_least_second : ℤ → ℤ
  at_least_second d = if ltb_ℤ d second then second else d

  -- A delay of at most the time to the expiry of the report's forecast, or a second.
  abbrev InTime : ℤ → Bool → Option ℤ → Type 0
  InTime d timed none = Unit {0}
  InTime d false (some t) = Unit {0}
  InTime d true (some t) = d ≤ℤ at_least_second (sub_time t now)

  abbrev pub Wakes : ℤ → ModelReport → Type 0
  Wakes d r = InTime d (is_timed r) r.expires_at

  InTime-mono : (d e : ℤ) (b : Bool) (o : Option ℤ) → d ≤ℤ e → InTime e b o → InTime d b o
  InTime-mono d e b none h k = tt
  InTime-mono d e false (some t) h k = tt
  InTime-mono d e true (some t) h k = omega (arith, h, k)

  abbrev Step : ℤ → ℤ → Bool → Option ℤ → Type 0
  Step regular d b o = (d ≤ℤ regular) × InTime d b o × ((second ≤ℤ d) ⊎ (regular ≤ℤ d))

  wake_for-Step :
      (regular : ℤ) (r : ModelReport)
      → Step regular (wake_for names now regular r) (is_timed r) r.expires_at
  unfolding wake_for
  wake_for-Step regular r = cases (is_timed r) r.expires_at
    where
      chosen :
          (delay : ℤ)
          → second ≤ℤ delay
          → ((if ltb_ℤ delay regular then delay else regular) ≤ℤ regular)
            × ((if ltb_ℤ delay regular then delay else regular) ≤ℤ delay)
            × ((second ≤ℤ (if ltb_ℤ delay regular then delay else regular))
                ⊎ (regular ≤ℤ (if ltb_ℤ delay regular then delay else regular)))
      chosen delay h = ground arith

      raised : (x : ℤ) → second ≤ℤ at_least_second x
      raised x = ground arith

      cases :
          (b : Bool) (o : Option ℤ)
          → Step regular
              (elim o [
                | none ↦ regular
                | some t ↦
                    if b
                    then (let delay = sub_time t now in
                        let delay = if ltb_ℤ delay second then second else delay in
                        if ltb_ℤ delay regular then delay else regular)
                    else regular
              ])
              b
              o
      cases b none = (omega arith, tt, inr (omega arith))
      cases false (some t) = (omega arith, tt, inr (omega arith))
      cases true (some t) = chosen (at_least_second (sub_time t now)) (raised (sub_time t now))

  -- The next reconciliation comes no later than the regular one, and no later than the expiry of
  -- each forecast of a model with a predictive policy, or a second from now; it comes no sooner
  -- than in a second, or at the regular time.
  pub timed_decision_requeue-Wakes :
      (reports : List ModelReport) (regular : ℤ)
      → (timed_decision_requeue names reports now regular ≤ℤ regular)
        × All (Wakes (timed_decision_requeue names reports now regular)) reports
        × ((second ≤ℤ timed_decision_requeue names reports now regular)
            ⊎ (regular ≤ℤ timed_decision_requeue names reports now regular))
  unfolding timed_decision_requeue
  timed_decision_requeue-Wakes [] regular = (omega arith, tt, inr (omega arith))
  timed_decision_requeue-Wakes (r ∷ rest) regular =
      let (below, wakes, least) = wake_for-Step regular r in
      let (below', wakes', least') =
        timed_decision_requeue-Wakes rest (wake_for names now regular r) in
      (
        omega (arith, below, below'),
        (InTime-mono _ _ (is_timed r) r.expires_at below' wakes, wakes'),
        lowest _ _ _ least least',
      )
    where
      lowest :
          (a d e : ℤ)
          → (second ≤ℤ d) ⊎ (a ≤ℤ d)
          → (second ≤ℤ e) ⊎ (d ≤ℤ e)
          → (second ≤ℤ e) ⊎ (a ≤ℤ e)
      lowest a d e h (inl k) = inl k
      lowest a d e (inl h) (inr k) = inl (omega (arith, h, k))
      lowest a d e (inr h) (inr k) = inr (omega (arith, h, k))
