-- ===== src/Decision/Success.antt =====
-- When a plan is made: for every valid input, and never with an error that Plan ignores.
use hpa_plus.Prelude.{
  ℤ, pos, ◌≤ℤ◌, ◌<◌, Bool, true, false, List, [], ◌∷◌, ◌++◌, All, length, Result, ok, Floats, ◌>>=◌,
  >>=-eq-ok, >>=-ok, ok_inj, ◌≡◌, ◌∙◌, inl, inr, refl, sym, subst, ◌↔◌, arith, Bool-cases, ◌==ℤ◌,
  if◌then◌else◌, ◌&&◌,
}
use hpa_plus.Api.Types.{maximum}
use hpa_plus.Scaling.Errors.{Error}
use hpa_plus.Scaling.Strategy.{decide_by_strategy}
use hpa_plus.Scaling.Choice.{IsKnown, decide_by_strategy_succeeds}
use hpa_plus.Decision.Defs.{
  Input, PlanResult, or_default, valid_inputs, candidates_of, plan_from, plan, min_of, hold_failure,
  baseline_joins, is_empty, baseline_input,
}
use hpa_plus.Decision.Steps.{PlanParts, plan_from_total}

-- What `plan` requires of its input.
pub record IsValid (i : Input) : Type 0 where
  pub has_clock : (i.now ==ℤ pos 0) ≡ false
  pub requested_nonneg : pos 0 ≤ℤ i.requested
  pub baseline_nonneg : pos 0 ≤ℤ i.baseline
  pub min_nonneg : pos 0 ≤ℤ min_of i.spec
  pub min-le-max : min_of i.spec ≤ℤ i.spec.max_replicas

pub valid_inputs_sound : (i : Input) → valid_inputs i ≡ true → IsValid i
unfolding valid_inputs
valid_inputs_sound i h = record {
  has_clock = ground arith;
  requested_nonneg = ground arith;
  baseline_nonneg = ground arith;
  min_nonneg = ground arith;
  min-le-max = ground arith;
}

pub valid_inputs_complete : (i : Input) → IsValid i → valid_inputs i ≡ true
unfolding valid_inputs
valid_inputs_complete i v =
    ground (arith, v.has_clock, v.requested_nonneg, v.baseline_nonneg, v.min_nonneg, v.min-le-max)

abbrev NonNeg : ℤ → Type 0
NonNeg x = pos 0 ≤ℤ x

candidates_nonempty : (i : Input) (ps : List ℤ) → i.predictions ≡ ps → 0 < length (candidates_of i)
unfolding candidates_of baseline_joins
candidates_nonempty i [] e = ground arith
candidates_nonempty i (p ∷ ps) e = ground arith

All-append {ℓ κ} :
    {A : Type ℓ} (P : A → Type κ) (xs ys : List A) → All P xs → All P ys → All P (xs ++ ys)
All-append P [] ys h k = k
All-append P (x ∷ xs) ys h k = (h.0, All-append P xs ys h.1 k)

All-append_inv {ℓ κ} : {A : Type ℓ} (P : A → Type κ) (xs ys : List A) → All P (xs ++ ys) → All P xs
All-append_inv P [] ys h = tt
All-append_inv P (x ∷ xs) ys h = (h.0, All-append_inv P xs ys h.1)

-- A property of the requested count, the baseline and the predictions is one of the candidates.
pub candidates_All {κ} :
    (P : ℤ → Type κ) (i : Input)
    → P i.requested
    → P i.baseline
    → All P i.predictions
    → All P (candidates_of i)
unfolding candidates_of
candidates_All P i r b a =
    joined (baseline_joins i) _ (held (is_empty i.predictions && hold_failure i.spec))
  where
    held : (t : Bool) → All P (if t then i.requested ∷ [] else i.predictions)
    held true = (r, tt)
    held false = a

    joined : (t : Bool) (xs : List ℤ) → All P xs → All P (if t then xs ++ (i.baseline ∷ []) else xs)
    joined true xs h = All-append P xs _ h (b, tt)
    joined false xs h = h

held_All_inv {κ} :
    (P : ℤ → Type κ) (xs : List ℤ) (hold : Bool) (r : ℤ)
    → All P (if is_empty xs && hold then r ∷ [] else xs)
    → All P xs
held_All_inv P [] hold r h = tt
held_All_inv P (x ∷ xs) hold r h = h

joined_All_inv {κ} :
    (P : ℤ → Type κ) (joins : Bool) (xs : List ℤ) (b : ℤ)
    → All P (if joins then xs ++ (b ∷ []) else xs)
    → All P xs
joined_All_inv P true xs b h = All-append_inv P xs (b ∷ []) h
joined_All_inv P false xs b h = h

candidates_All_inv {κ} :
    (P : ℤ → Type κ) (i : Input) → All P (candidates_of i) → All P i.predictions
unfolding candidates_of
candidates_All_inv P i h =
    held_All_inv P i.predictions (hold_failure i.spec) i.requested
      (joined_All_inv P (baseline_joins i) _ i.baseline h)

module _ (fl : Floats) (i : Input) (assisting : Bool) where
  abbrev decided : Result Error ℤ
  decided = decide_by_strategy fl (or_default i.spec.decision_type maximum) (candidates_of i)

  plan_step : valid_inputs i ≡ true → plan fl i assisting ≡ (decided >>= plan_from fl i assisting)
  unfolding plan
  plan_step v = rw v

  pub plan_inv :
      (r : PlanResult)
      → plan fl i assisting ≡ ok r
      → IsValid i × ((chosen : ℤ) × (decided ≡ ok chosen) × PlanParts fl i assisting chosen r)
  unfolding plan
  plan_inv r e = elim (Bool-cases (valid_inputs i)) [
    | inr no_good ↦ cc (rw (no_good, plan) at e)
    | inl good ↦
        let (chosen, d, f) =
          >>=-eq-ok decided (plan_from fl i assisting) (sym (plan_step good) ∙ e) in
        let (r', g, parts) = plan_from_total fl i assisting chosen in
        (
          valid_inputs_sound i good,
          (chosen, d, subst (PlanParts fl i assisting chosen) (ok_inj (sym g ∙ f)) parts),
        )
  ]

  -- A plan is made exactly where the clock is set, the counts are in order, no prediction is negative
  -- and the type of decision is known.
  pub plan_succeeds :
      ((r : PlanResult) × (plan fl i assisting ≡ ok r))
      ↔ (IsValid i × All NonNeg i.predictions × IsKnown (or_default i.spec.decision_type maximum))
  plan_succeeds = (
    λ p.
        let (v, (c, d, parts)) = plan_inv p.0 p.1 in
        let (n, a, k) = (decide_by_strategy_succeeds fl _ (candidates_of i)).0 (c, d) in
        (v, candidates_All_inv NonNeg i a, k),
    λ (v, a, k).
        let (c, d) = (decide_by_strategy_succeeds fl _ (candidates_of i)).1 (
          candidates_nonempty i i.predictions refl,
          candidates_All NonNeg i v.requested_nonneg v.baseline_nonneg a,
          k,
        ) in
        let (r, e, parts) = plan_from_total fl i assisting c in
        (r, plan_step (valid_inputs_complete i v) ∙ >>=-ok decided _ d e),
  )

module _ (fl : Floats) (i : Input) where
  -- Where the control plan is made, so are the two plans whose errors Plan ignores: the assisted one
  -- and the reactive counterfactual.
  pub plan_ignored_errors :
      (r : PlanResult)
      → plan fl i false ≡ ok r
      → ((a : PlanResult) × (plan fl i true ≡ ok a))
        × ((b : PlanResult) × (plan fl (baseline_input i) false ≡ ok b))
  unfolding baseline_input
  plan_ignored_errors r e =
      let (v, a, k) = (plan_succeeds fl i false).0 (r, e) in
      (
        (plan_succeeds fl i true).1 (v, a, k),
        (plan_succeeds fl (baseline_input i) false).1 (
          record {
            has_clock = v.has_clock;
            requested_nonneg = v.requested_nonneg;
            baseline_nonneg = v.baseline_nonneg;
            min_nonneg = v.min_nonneg;
            min-le-max = v.min-le-max;
          },
          tt,
          k,
        ),
      )
