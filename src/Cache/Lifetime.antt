-- ===== src/Cache/Lifetime.antt =====
-- How long a cached prediction is used.
use hpa_plus.Prelude.{
  ℤ, pos, ◌≤ℤ◌, ◌<ℤ◌, ltb_ℤ, leb_ℤ, ◌==ℤ◌, ◌+ℤ◌, milliseconds, String, Bool, true, false, ◌&&◌,
  ◌||◌, List, Option, none, some, if◌then◌else◌, Result, ok, err, ◌≡◌, refl, subst, same_text_iff,
  arith,
}
use hpa_plus.Forecast.Types.{Clock}
use hpa_plus.Api.Types.{TimestampedSample}
use hpa_plus.Cache.Defs.{
  CacheModel, CachedResult, CacheAvailability, CacheError, unavailable, expired, usable, sooner,
  prediction_lifetime, uses_timed_interval, is_complete, policy_deadline,
  cached_trajectory_deadline, training_deadline, cache_deadline, availability_at,
  deadline_availability, assess_cached_prediction, is_present, has_sufficient_history, is_current,
}

sooner-le : (a b : ℤ) → (sooner a b ≤ℤ a) × (sooner a b ≤ℤ b)
sooner-le a b = (ground arith, ground arith)

le_trans : (a b c : ℤ) → a ≤ℤ b → b ≤ℤ c → a ≤ℤ c
le_trans a b c h k = omega (arith, h, k)

abbrev EveryOk : {E : Type 0} → (ℤ → Type 0) → Result E ℤ → Type 0
EveryOk P (err e) = Unit
EveryOk P (ok a) = P a

abbrev EverySome : (ℤ → Type 0) → Option ℤ → Type 0
EverySome P none = Unit
EverySome P (some a) = P a

leb_false : (a b : ℤ) → leb_ℤ a b ≡ false → b <ℤ a
leb_false a b h = ground arith

module _ (clock : Clock) (m : CacheModel) (rows : List TimestampedSample) (c : CachedResult)
    (fingerprint : String) (now : ℤ) where
  abbrev lifetime_end : ℤ
  lifetime_end = c.consumed_until +ℤ prediction_lifetime m

  policy_deadline-bound : EveryOk (λ e. e ≤ℤ lifetime_end) (policy_deadline clock m c)
  unfolding policy_deadline
  policy_deadline-bound = cases (uses_timed_interval m) (cached_trajectory_deadline clock m c)
    where
      cases :
          (b : Bool) (r : Result CacheError ℤ)
          → EveryOk
              (λ e. e ≤ℤ lifetime_end)
              (if b
                then elim r [ err e ↦ err e | ok end ↦ ok (sooner end lifetime_end) ]
                else ok lifetime_end)
      cases true (err e) = tt
      cases true (ok end) = (sooner-le end lifetime_end).1
      cases false r = omega arith

  -- The age of the training data bounds it, where the history ages.
  abbrev InTraining : ℤ → Type 0
  InTraining e = elim m.history_max_age [
    | none ↦ Unit {0}
    | some age ↦ elim c.history_start [ none ↦ ⊥ | some start ↦ e ≤ℤ start +ℤ milliseconds age ]
  ]

  training_deadline-bound :
      (e : ℤ) → EverySome (λ d. (d ≤ℤ e) × InTraining d) (training_deadline clock m c e)
  unfolding training_deadline
  training_deadline-bound e = cases m.history_max_age c.history_start
    where
      cases :
          (o s : Option ℤ)
          → EverySome
              (λ d. (d ≤ℤ e) × (elim o [
                | none ↦ Unit {0}
                | some age ↦ elim s [ none ↦ ⊥ | some start ↦ d ≤ℤ start +ℤ milliseconds age ]
              ]))
              (elim o [
                | none ↦ some e
                | some age ↦ elim s [
                  | none ↦ none
                  | some start ↦
                      if (start ==ℤ pos 0) || ltb_ℤ c.consumed_until start
                      then none
                      else some (sooner (start +ℤ milliseconds age) e)
                ]
              ])
      cases none s = (omega arith, tt)
      cases (some age) none = tt
      cases (some age) (some start) = kept _
        where
          kept :
              (b : Bool)
              → EverySome
                  (λ d. (d ≤ℤ e) × (d ≤ℤ start +ℤ milliseconds age))
                  (if b then none else some (sooner (start +ℤ milliseconds age) e))
          kept true = tt
          kept false = (
            (sooner-le (start +ℤ milliseconds age) e).1,
            (sooner-le (start +ℤ milliseconds age) e).0,
          )

  abbrev Within : ℤ → Type 0
  Within e = (e ≤ℤ lifetime_end) × (e ≤ℤ c.expires_at) × InTraining e

  cache_deadline-Within : EverySome Within (cache_deadline clock m c)
  unfolding cache_deadline
  cache_deadline-Within = cases (policy_deadline clock m c) policy_deadline-bound
    where
      narrowed :
          (policy : ℤ) (o : Option ℤ)
          → policy ≤ℤ lifetime_end
          → EverySome (λ d. (d ≤ℤ sooner c.expires_at policy) × InTraining d) o
          → EverySome Within o
      narrowed policy none h k = tt
      narrowed policy (some d) h (l, t) =
          let (stored, limit) = sooner-le c.expires_at policy in
          (
            le_trans d policy lifetime_end (le_trans d _ policy l limit) h,
            le_trans d _ c.expires_at l stored,
            t,
          )

      cases :
          (r : Result CacheError ℤ)
          → EveryOk (λ e. e ≤ℤ lifetime_end) r
          → EverySome Within (elim r [
            | err e ↦ none
            | ok policy ↦ training_deadline clock m c (sooner c.expires_at policy)
          ])
      cases (err e) h = tt
      cases (ok policy) h =
          narrowed policy _ h (training_deadline-bound (sooner c.expires_at policy))

  -- What a usable prediction is.
  abbrev pub Honest : ℤ → Type 0
  Honest e =
      (now <ℤ e)
      × Within e
      × (c.fingerprint ≡ fingerprint)
      × (c.consumed_until ≤ℤ c.completed_at)
      × (c.completed_at ≤ℤ now)
      × (pos 0 ≤ℤ c.replicas)

  abbrev IfUsable : CacheAvailability × ℤ → Type 0
  IfUsable (usable, e) = Honest e
  IfUsable (unavailable, e) = Unit
  IfUsable (expired, e) = Unit

  abbrev Complete : Type 0
  Complete =
      (c.fingerprint ≡ fingerprint)
      × (c.consumed_until ≤ℤ c.completed_at)
      × (c.completed_at ≤ℤ now)
      × (pos 0 ≤ℤ c.replicas)

  complete_parts : is_complete c fingerprint now ≡ true → Complete
  unfolding is_complete
  complete_parts h = (
    (same_text_iff c.fingerprint fingerprint).0 (ground arith),
    ground arith,
    ground arith,
    ground arith,
  )

  availability-IfUsable :
      (o : Option ℤ)
      → Complete
      → EverySome Within o
      → IfUsable (deadline_availability clock m rows now o)
  unfolding deadline_availability availability_at
  availability-IfUsable none k h = tt
  availability-IfUsable (some e) k h = cases _ _ refl
    where
      cases :
          (b t : Bool)
          → leb_ℤ e now ≡ b
          → IfUsable (if b then (expired, e) else if t then (unavailable, pos 0) else (usable, e))
      cases true t late = tt
      cases false true late = tt
      cases false false late = (omega (arith, leb_false _ _ late), h, k.0, k.1, k.2, k.3)

  assess-IfUsable : IfUsable (assess_cached_prediction clock m rows (some c) fingerprint now)
  unfolding assess_cached_prediction
  assess-IfUsable = cases _ refl
    where
      guard : Bool
      guard =
          is_present m.prediction_max_age
          && is_complete c fingerprint now
          && has_sufficient_history m rows
          && is_current m rows c now
          && ltb_ℤ (pos 0) (prediction_lifetime m)

      cases :
          (b : Bool)
          → guard ≡ b
          → IfUsable (
              if b
              then deadline_availability clock m rows now (cache_deadline clock m c)
              else (unavailable, pos 0))
      cases true g =
          availability-IfUsable (cache_deadline clock m c) (complete_parts (ground arith))
            cache_deadline-Within
      cases false g = tt

  -- A cached prediction is used only before its deadline, which lies within the lifetime of the
  -- policy after the history that was consumed, within the stored expiry, and, where the history
  -- ages, within the age of the training data; it has the fingerprint of the current input, no
  -- negative count, and was completed by now from a history that ended before.
  pub assess-Honest :
      (e : ℤ)
      → assess_cached_prediction clock m rows (some c) fingerprint now ≡ (usable, e)
      → Honest e
  assess-Honest e h = subst IfUsable h assess-IfUsable
