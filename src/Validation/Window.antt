-- ===== src/Validation/Window.antt =====
-- The history that an accepted model keeps.
use hpa_plus.Prelude.{
  ℤ, pos, up, down, ◌≤ℤ◌, ◌<ℤ◌, ◌*ℤ◌, ◌+ℤ◌, leb_ℤ, quot, max_int64, ◌+◌, ◌/◌, ◌≤◌, ◌<◌, ◌-ℤ◌,
  negsuc, zero, suc, ◌*◌, true, Option, none, some, ok, >>=-eq-ok, leb→le, ok_inj, sym, subst, ◌∙◌,
  ◌≡◌, arith, require,
}
use native.Mathlib.Nat.{le-div_iff_mul-le}
use hpa_plus.Validation.Types.{FloatTests, HoltWintersSpec, ModelSpec}
use hpa_plus.Validation.Checks.{all_of-ok, if_given}
use hpa_plus.Validation.Spec.{
  valid_seasons, initialization_minimum, max_seasonal_periods, default_sync_period, or_value,
  exceeds_cadence, nominal_period, retained_history, check_retained, validate_model_history,
}
use hpa_plus.Validation.Sound.{>>-ok}

-- A factor that is at most a rounded quotient does not exceed the dividend.
quot_bound :
    (m n k : ℤ)
    → pos 0 ≤ℤ m
    → pos 0 <ℤ n
    → pos 0 ≤ℤ k
    → k ≤ℤ quot m n
    → (pos 0 ≤ℤ n *ℤ k) × (n *ℤ k ≤ℤ m)
unfolding quot ◌*ℤ◌ up down
quot_bound (pos m) (pos n) (pos k) a b c h =
    let lt : 0 < n = omega (arith, b) in
    let plain : (m + 0) / (n + 0) ≡ m / n = grind arith in
    let le : k ≤ m / n = omega (arith, h, plain) in
    let mul = (le-div_iff_mul-le lt).0 le in ground (arith, mul)
quot_bound (negsuc m) n k a b c h = ground arith
quot_bound (pos m) (negsuc n) k a b c h = ground arith
quot_bound (pos m) (pos n) (negsuc k) a b c h = ground arith

two_retained : (n k : ℤ) → pos 2 ≤ℤ n → pos 1 ≤ℤ k → pos 2 ≤ℤ n *ℤ k
unfolding ◌*ℤ◌ up down
two_retained (pos n) (pos zero) a b = ground arith
two_retained (pos n) (pos (suc k)) a b =
    let le : 2 ≤ n * suc k = grind (arith, a) in ground (arith, le)
two_retained (negsuc n) k a b = ground arith
two_retained (pos n) (negsuc k) a b = ground arith

minimum_bound :
    (n : ℤ)
    → pos 2 ≤ℤ n
    → n ≤ℤ max_seasonal_periods
    → (pos 0 ≤ℤ initialization_minimum n) × (initialization_minimum n ≤ℤ max_int64)
unfolding quot ◌*ℤ◌ ◌+ℤ◌ ◌-ℤ◌ up down initialization_minimum
minimum_bound (pos n) a b = (ground arith, ground arith)
minimum_bound (negsuc n) a b = ground arith

module _ (fl : FloatTests) (hw : HoltWintersSpec fl.F) where
  seasons_parts :
      valid_seasons fl hw ≡ true
      → (pos 2 ≤ℤ hw.seasonal_periods)
        × (pos 1 ≤ℤ hw.stored_seasons)
        × (hw.seasonal_periods ≤ℤ max_seasonal_periods)
        × (hw.stored_seasons ≤ℤ quot max_int64 hw.seasonal_periods)
  unfolding valid_seasons
  seasons_parts h = (ground arith, ground arith, ground arith, ground arith)

  -- For the seasons that Validate accepts, the retained history and the minimum of an
  -- initialization are computed without overflow or underflow of a 64-bit int: at least two samples
  -- are retained, the minimum is not negative, and both are at most the greatest int.
  pub valid_seasons-no_overflow :
      valid_seasons fl hw ≡ true
      → (pos 2 ≤ℤ hw.seasonal_periods *ℤ hw.stored_seasons)
        × (hw.seasonal_periods *ℤ hw.stored_seasons ≤ℤ max_int64)
        × (pos 0 ≤ℤ initialization_minimum hw.seasonal_periods)
        × (initialization_minimum hw.seasonal_periods ≤ℤ max_int64)
  unfolding up down
  valid_seasons-no_overflow h =
      let (periods, stored, small, product) = seasons_parts h in
      let (low, high) =
        quot_bound max_int64 hw.seasonal_periods hw.stored_seasons (omega arith)
          (omega (arith, periods)) (omega (arith, stored)) product in
      let (least, most) = minimum_bound hw.seasonal_periods periods small in
      (two_retained hw.seasonal_periods hw.stored_seasons periods stored, high, least, most)

nominal_bounds :
    (sync_period : Option ℤ)
    → (pos 1000 ≤ℤ nominal_period sync_period)
      × (or_value sync_period default_sync_period ≤ℤ nominal_period sync_period)
unfolding nominal_period quot ◌*ℤ◌ ◌+ℤ◌ up down
nominal_bounds none = (ground arith, ground arith)
nominal_bounds (some (pos n)) = (ground arith, ground arith)
nominal_bounds (some (negsuc n)) = (ground arith, ground arith)

module _ (fl : FloatTests) (m : ModelSpec fl.F) (sync_period : Option ℤ) where
  fits_check :
      {age : ℤ} (retained : ℤ)
      → check_retained fl m sync_period retained ≡ ok tt
      → m.history_max_age ≡ some age
      → leb_ℤ retained (quot age (nominal_period sync_period)) ≡ true
  unfolding check_retained
  fits_check retained h aged =
      subst (λ o. if_given (λ a. leb_ℤ retained (quot a (nominal_period sync_period))) o ≡ true)
        aged (all_of-ok _ h).1.0

  retained_check :
      (retained : ℤ)
      → validate_model_history fl m sync_period ≡ ok tt
      → retained_history fl m ≡ ok retained
      → check_retained fl m sync_period retained ≡ ok tt
  unfolding validate_model_history
  retained_check retained h kept =
      let (now, e, c) =
        >>=-eq-ok (retained_history fl m) (check_retained fl m sync_period)
          (>>-ok (require (exceeds_cadence fl m sync_period) _) _ h).1 in
      subst (λ n. check_retained fl m sync_period n ≡ ok tt) (ok_inj (sym e ∙ kept)) c

  -- Where a model's history is accepted, the samples that it retains fit in its maximal age at a
  -- sampling interval that is no shorter than the sync period and no shorter than a second.
  pub validate_model_history-fits :
      (retained age : ℤ)
      → validate_model_history fl m sync_period ≡ ok tt
      → retained_history fl m ≡ ok retained
      → m.history_max_age ≡ some age
      → pos 0 ≤ℤ retained
      → pos 0 ≤ℤ age
      → (nominal_period sync_period *ℤ retained ≤ℤ age)
        × (or_value sync_period default_sync_period ≤ℤ nominal_period sync_period)
        × (pos 1000 ≤ℤ nominal_period sync_period)
  unfolding up down
  validate_model_history-fits retained age h kept aged r a =
      let (second, sync) = nominal_bounds sync_period in
      let (low, high) =
        quot_bound age (nominal_period sync_period) retained a (omega (arith, second)) r
          (leb→le _ _ (fits_check retained (retained_check retained h kept) aged)) in
      (high, sync, second)
