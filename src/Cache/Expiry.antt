-- ===== src/Cache/Expiry.antt =====
-- The expiry of the inputs of a decision.
use hpa_plus.Prelude.{
  ℤ, ltb_ℤ, Bool, true, false, ◌&&◌, ◌||◌, List, [], ◌∷◌, Option, none, some, if◌then◌else◌,
  Bool-cases, ◌≡◌, ◌↔◌, refl, sym, ap, ◌∙◌, inl, inr, arith,
}
use mathlib.Core.Path.{ap₂}
use hpa_plus.Cache.Defs.{is_present}
use hpa_plus.Cache.Reports.{
  ModelReport, earliest, earliest_expiry, prediction_inputs_deadline, has_passed, is_expired,
  expire_report, expire_reports,
}

-- Whether a forecast among the reports has expired.
abbrev any_expired : ℤ → List ModelReport → Bool
any_expired now [] = false
any_expired now (r ∷ rest) = is_expired now r || any_expired now rest

or_assoc : (a b c : Bool) → (a || b || c) ≡ (a || (b || c))
or_assoc true b c = refl
or_assoc false b c = refl

or_false : (a b : Bool) → (a || b) ≡ false → (a ≡ false) × (b ≡ false)
or_false true b h = cc
or_false false b h = (refl, h)

earliest-has_passed :
    (now : ℤ) (first : Option ℤ) (r : ModelReport)
    → has_passed now (earliest first r) ≡ (has_passed now first || is_expired now r)
unfolding earliest is_expired
earliest-has_passed now first r = cases r.expires_at (is_present r.forecast_replicas) first
  where
    cases :
        (o : Option ℤ) (b : Bool) (first : Option ℤ)
        → has_passed now (elim o [
          | none ↦ first
          | some t ↦
              if b
              then elim first [ none ↦ some t | some f ↦ if ltb_ℤ t f then some t else some f ]
              else first
        ])
          ≡ (has_passed now first || (b && has_passed now o))
    cases none true none = refl
    cases none false none = refl
    cases none true (some f) = ground arith
    cases none false (some f) = ground arith
    cases (some t) false none = refl
    cases (some t) false (some f) = ground arith
    cases (some t) true none = refl
    cases (some t) true (some f) = ground arith

earliest_expiry-has_passed :
    (now : ℤ) (first : Option ℤ) (reports : List ModelReport)
    → has_passed now (earliest_expiry first reports)
      ≡ (has_passed now first || any_expired now reports)
unfolding earliest_expiry
earliest_expiry-has_passed now first [] = ground arith
earliest_expiry-has_passed now first (r ∷ rest) =
    earliest_expiry-has_passed now (earliest first r) rest
    ∙ ap (λ b. b || any_expired now rest) (earliest-has_passed now first r)
    ∙ or_assoc (has_passed now first) (is_expired now r) (any_expired now rest)

expire_report-same :
    (now : ℤ) (r : ModelReport) → is_expired now r ≡ false → expire_report now r ≡ r
unfolding expire_report
expire_report-same now r h = rw h refl

-- An expired report loses its forecast.
expire_report-none :
    (now : ℤ) (r : ModelReport)
    → is_expired now r ≡ true
    → (expire_report now r).forecast_replicas ≡ none
unfolding expire_report
expire_report-none now r h = rw h refl

without_forecast :
    (now : ℤ) (r : ModelReport) → r.forecast_replicas ≡ none → is_expired now r ≡ false
unfolding is_expired
without_forecast now r e = ap (λ o. is_present o && has_passed now r.expires_at) e

unchanged-unexpired :
    (now : ℤ) (r : ModelReport) → expire_report now r ≡ r → is_expired now r ≡ false
unchanged-unexpired now r same = elim (Bool-cases (is_expired now r)) [
  | inr unexpired ↦ unexpired
  | inl gone ↦
      without_forecast now r
        (sym (ap (λ (x : ModelReport). x.forecast_replicas) same) ∙ expire_report-none now r gone)
]

cons_inj :
    {r x : ModelReport} {rest xs : List ModelReport}
    → ◌≡◌ {A = List ModelReport} (r ∷ rest) (x ∷ xs)
    → (r ≡ x) × (rest ≡ xs)
cons_inj h = (cc, cc)

expire_reports-same :
    (now : ℤ) (reports : List ModelReport)
    → any_expired now reports ≡ false
    → (expire_reports now reports).1 ≡ reports
unfolding expire_reports
expire_reports-same now [] h = refl
expire_reports-same now (r ∷ rest) h =
    let (first, others) = or_false (is_expired now r) (any_expired now rest) h in
    ap₂ (λ (x : ModelReport) xs. x ∷ xs) (expire_report-same now r first)
      (expire_reports-same now rest others)

expire_reports-same_inv :
    (now : ℤ) (reports : List ModelReport)
    → (expire_reports now reports).1 ≡ reports
    → any_expired now reports ≡ false
unfolding expire_reports
expire_reports-same_inv now [] h = refl
expire_reports-same_inv now (r ∷ rest) h =
    let first = unchanged-unexpired now r (cons_inj h).0 in
    let others = expire_reports-same_inv now rest (cons_inj h).1 in rw (first, others) refl

-- The deadline of a decision's inputs is still ahead exactly where the expiry of the reports
-- changes none of them.
pub inputs_deadline_iff :
    (now : ℤ) (reports : List ModelReport)
    → (has_passed now (prediction_inputs_deadline reports) ≡ false)
      ↔ ((expire_reports now reports).1 ≡ reports)
unfolding prediction_inputs_deadline
inputs_deadline_iff now reports = (
  λ ahead.
      expire_reports-same now reports (sym (earliest_expiry-has_passed now none reports) ∙ ahead),
  λ same. earliest_expiry-has_passed now none reports ∙ expire_reports-same_inv now reports same,
)
