-- ===== src/Quality/Matching.antt =====
-- What the scan of the waiting intervals finds, and what it misses.
use mathlib.Core.List.{Memᴰ}
use hpa_plus.Prelude.{
  ℤ, up, down, ◌≤ℤ◌, ◌<ℤ◌, leb_ℤ, Bool, true, false, not, ◌&&◌, List, [], ◌∷◌, All, Option, none,
  some, if◌then◌else◌, ◌≡◌, ◌⊎◌, refl, sym, ap, subst, ◌∙◌, inl, inr, arith, Bool-cases,
}
use hpa_plus.Forecast.Types.{Clock}
use hpa_plus.Quality.Types.{ForecastVerification}
use hpa_plus.Validation.Checks.{is_given}
use hpa_plus.Quality.Pending.{time_of, scan_pending}

module _ (clock : Clock) (at last_end : ℤ) where
  -- The interval holds the observation and starts no earlier than the last one ended.
  abbrev pub Matches : ForecastVerification → Type 0
  Matches p =
      (last_end ≤ℤ time_of clock p.at) × (time_of clock p.at ≤ℤ at) × (at <ℤ time_of clock p.until)

  abbrev pub Found : List ForecastVerification → Option ForecastVerification → Type 0
  Found xs none = Unit {0}
  Found xs (some p) = Memᴰ p xs × Matches p

  abbrev takes : ForecastVerification → Option ForecastVerification → Bool
  takes p found =
      not (leb_ℤ (time_of clock p.until) at)
      && leb_ℤ (time_of clock p.at) at
      && not (is_given found)
      && leb_ℤ last_end (time_of clock p.at)

  takes-Matches :
      (p : ForecastVerification) (found : Option ForecastVerification)
      → takes p found ≡ true
      → Matches p
  unfolding up down
  takes-Matches p found h = (ground arith, ground arith, ground arith)

  pub scan_pending-Found :
      (all xs : List ForecastVerification) (found : Option ForecastVerification)
      → ((p : ForecastVerification) → Memᴰ p xs → Memᴰ p all)
      → Found all found
      → Found all (scan_pending clock at last_end found xs).1
  unfolding scan_pending
  scan_pending-Found all [] found sub h = h
  scan_pending-Found all (p ∷ rest) found sub h =
      left _ (scan_pending clock at last_end _ rest)
        (scan_pending-Found all rest _ (λ q k. sub q (Memᴰ.tail k)) (taken (takes p found) refl))
    where
      taken : (b : Bool) → takes p found ≡ b → Found all (if b then some p else found)
      taken true e = (sub p (Memᴰ.head refl), takes-Matches p found e)
      taken false e = h

      left :
          (b : Bool) (r : List ForecastVerification × Option ForecastVerification)
          → Found all r.1
          → Found all (if b then r else (p ∷ r.0, r.1)).1
      left true r k = k
      left false r k = k

  -- The interval does not hold the observation, or it starts before the last one ended.
  abbrev pub Misses : ForecastVerification → Type 0
  Misses p =
      (at <ℤ time_of clock p.at) ⊎ (time_of clock p.until ≤ℤ at) ⊎ (time_of clock p.at <ℤ last_end)

  abbrev pub Missed : List ForecastVerification → Option ForecastVerification → Type 0
  Missed xs none = All Misses xs
  Missed xs (some p) = Unit {0}

  takes-Misses : (p : ForecastVerification) → takes p none ≡ false → Misses p
  unfolding up down
  takes-Misses p h = elim (Bool-cases (leb_ℤ (time_of clock p.until) at)) [
    | inl over ↦ inr (inl (ground arith))
    | inr ahead ↦ elim (Bool-cases (leb_ℤ (time_of clock p.at) at)) [
      | inr later ↦ inl (ground arith)
      | inl begun ↦ elim (Bool-cases (leb_ℤ last_end (time_of clock p.at))) [
        | inr overlaps ↦ inr (inr (ground arith))
        | inl apart ↦ ground arith
      ]
    ]
  ]

  -- What is found does not depend on what is kept.
  found_of :
      (b : Bool) (p : ForecastVerification)
      (r : List ForecastVerification × Option ForecastVerification)
      → (if b then r else (p ∷ r.0, r.1)).1 ≡ r.1
  found_of true p r = refl
  found_of false p r = refl

  -- Nothing is taken once an interval is found.
  takes-some : (p q : ForecastVerification) → (if takes q (some p) then some q else some p) ≡ some p
  takes-some p q = cases (not (leb_ℤ (time_of clock q.until) at)) (leb_ℤ (time_of clock q.at) at)
    where
      cases :
          (a b : Bool)
          → (if a && b && false && leb_ℤ last_end (time_of clock q.at) then some q else some p)
            ≡ some p
      cases true true = refl
      cases true false = refl
      cases false b = refl

  scan_pending-some :
      (p : ForecastVerification) (xs : List ForecastVerification)
      → (scan_pending clock at last_end (some p) xs).1 ≡ some p
  unfolding scan_pending
  scan_pending-some p [] = refl
  scan_pending-some p (q ∷ rest) =
      found_of _ q (scan_pending clock at last_end _ rest)
      ∙ ap (λ o. (scan_pending clock at last_end o rest).1) (takes-some p q)
      ∙ scan_pending-some p rest

  Missed-cons :
      (p : ForecastVerification) (xs : List ForecastVerification) (o : Option ForecastVerification)
      → Misses p
      → Missed xs o
      → Missed (p ∷ xs) o
  Missed-cons p xs none m h = (m, h)
  Missed-cons p xs (some q) m h = tt

  -- Where nothing is found, every interval is missed.
  pub scan_pending-Missed :
      (xs : List ForecastVerification) → Missed xs (scan_pending clock at last_end none xs).1
  unfolding scan_pending
  scan_pending-Missed [] = tt
  scan_pending-Missed (p ∷ rest) =
      subst (Missed (p ∷ rest)) (sym (found_of _ p (scan_pending clock at last_end _ rest)))
        (cases (takes p none) refl (scan_pending-Missed rest))
    where
      cases :
          (b : Bool)
          → takes p none ≡ b
          → Missed rest (scan_pending clock at last_end none rest).1
          → Missed (p ∷ rest) (scan_pending clock at last_end (if b then some p else none) rest).1
      cases true e h = subst (Missed (p ∷ rest)) (sym (scan_pending-some p rest)) tt
      cases false e h = Missed-cons p rest _ (takes-Misses p e) h
