-- ===== src/Scaling/Choice.antt =====
-- The choice among replica candidates: errors, independence of the order, and bounds.
use mathlib.Core.List.{Permᴰ}
use hpa_plus.Prelude.{
  ℤ, pos, ltb_ℤ, ◌≤ℤ◌, ◌≡◌, refl, sym, ap, ◌∙◌, inl, inr, ◌==◌, List, All, [], ◌∷◌, arith, ok,
  Floats, ◌>>◌, Bool-cases, length, ◌↔◌, >>=-eq-ok, suc, ◌<◌, eq_of_parts, false,
}
use hpa_plus.Api.Types.{DecisionType, maximum, minimum, mean, median}
use hpa_plus.Scaling.Strategy.{
  check_candidates, insert_sorted, sort_replicas, select_by_type, decide_by_strategy,
}

insert_comm :
    (a b : ℤ) (xs : List ℤ)
    → insert_sorted a (insert_sorted b xs) ≡ insert_sorted b (insert_sorted a xs)
unfolding insert_sorted
insert_comm a b [] = ground (arith, eq_of_parts a b)
insert_comm a b (x ∷ xs) = ground (arith, eq_of_parts a b, insert_comm a b xs)

sort-perm : {xs ys : List ℤ} → Permᴰ xs ys → sort_replicas xs ≡ sort_replicas ys
unfolding sort_replicas
sort-perm Permᴰ.nil = refl
sort-perm (Permᴰ.cons {a = a} {b = b} e p) = rw (e, sort-perm p)
sort-perm (Permᴰ.swap {a = a} {b = b} {l = l} e f) = rw (e, f) (insert_comm _ _ (sort_replicas l))
sort-perm (Permᴰ.trans p q) = sort-perm p ∙ sort-perm q

check-perm : {xs ys : List ℤ} → Permᴰ xs ys → check_candidates xs ≡ check_candidates ys
unfolding check_candidates
check-perm Permᴰ.nil = refl
check-perm (Permᴰ.cons {a = a} {b = b} e p) = rw (e, check-perm p)
check-perm (Permᴰ.swap {a = a} {b = b} {l = l} e f) = rw (e, f) (ground arith)
check-perm (Permᴰ.trans p q) = check-perm p ∙ check-perm q

length-perm : {xs ys : List ℤ} → Permᴰ xs ys → length xs ≡ length ys
length-perm Permᴰ.nil = refl
length-perm (Permᴰ.cons e p) = ap suc (length-perm p)
length-perm (Permᴰ.swap e f) = refl
length-perm (Permᴰ.trans p q) = length-perm p ∙ length-perm q

-- The chosen count, or the error, depends on the candidates only, not on their order.
pub decide_by_strategy-perm :
    (fl : Floats) (d : DecisionType) {xs ys : List ℤ}
    → Permᴰ xs ys
    → decide_by_strategy fl d xs ≡ decide_by_strategy fl d ys
unfolding decide_by_strategy
decide_by_strategy-perm fl d p = rw (length-perm p, check-perm p, sort-perm p)

-- The types of decision that the switch knows.
abbrev pub IsKnown : DecisionType → Type 0
IsKnown (DecisionType.other s) = ⊥
IsKnown maximum = Unit {0}
IsKnown minimum = Unit {0}
IsKnown mean = Unit {0}
IsKnown median = Unit {0}

check-ok : (xs : List ℤ) → All (λ x. pos 0 ≤ℤ x) xs → check_candidates xs ≡ ok tt
unfolding check_candidates
check-ok [] h = refl
check-ok (x ∷ xs) h = ground (arith, check-ok xs h.1)

check-All : (xs : List ℤ) → check_candidates xs ≡ ok tt → All (λ x. pos 0 ≤ℤ x) xs
unfolding check_candidates
check-All [] h = tt
check-All (x ∷ xs) h = elim (Bool-cases (ltb_ℤ x (pos 0))) [
  | inl e ↦ cc (rw e at h)
  | inr e ↦ (ground arith, check-All xs (rw e at h))
]

module _ (fl : Floats) where
  select-total :
      (d : DecisionType) (xs : List ℤ) → IsKnown d → (r : ℤ) × (select_by_type fl d xs ≡ ok r)
  unfolding select_by_type
  select-total maximum xs k = (_, refl)
  select-total minimum xs k = (_, refl)
  select-total mean xs k = (_, refl)
  select-total median xs k = (_, refl)
  select-total (DecisionType.other s) xs k = absurd k

  select-IsKnown :
      (d : DecisionType) (xs : List ℤ) {r : ℤ} → select_by_type fl d xs ≡ ok r → IsKnown d
  unfolding select_by_type
  select-IsKnown maximum xs k = tt
  select-IsKnown minimum xs k = tt
  select-IsKnown mean xs k = tt
  select-IsKnown median xs k = tt
  select-IsKnown (DecisionType.other s) xs k = cc

  decide_step :
      (d : DecisionType) (x : ℤ) (xs : List ℤ)
      → decide_by_strategy fl d (x ∷ xs)
        ≡ (check_candidates (x ∷ xs) >> select_by_type fl d (sort_replicas (x ∷ xs)))
  unfolding decide_by_strategy
  decide_step d x xs = let e : (suc (length xs) == 0) ≡ false = ground arith in rw e

  pub decide_inv :
      (d : DecisionType) (xs : List ℤ) {r : ℤ}
      → decide_by_strategy fl d xs ≡ ok r
      → (0 < length xs) × All (λ x. pos 0 ≤ℤ x) xs × (select_by_type fl d (sort_replicas xs) ≡ ok r)
  unfolding decide_by_strategy
  decide_inv d [] h = cc
  decide_inv d (x ∷ xs) h =
      let (u, e, f) = >>=-eq-ok (check_candidates (x ∷ xs)) _ (sym (decide_step d x xs) ∙ h) in
      (omega arith, check-All (x ∷ xs) e, f)

  pub decide_total :
      (d : DecisionType) (xs : List ℤ)
      → 0 < length xs
      → All (λ x. pos 0 ≤ℤ x) xs
      → IsKnown d
      → (r : ℤ) × (decide_by_strategy fl d xs ≡ ok r)
  decide_total d [] h a k = absurd (omega arith)
  decide_total d (x ∷ xs) h a k =
      let (r, e) = select-total d (sort_replicas (x ∷ xs)) k in
      (r, rw (decide_step d x xs, check-ok (x ∷ xs) a) e)

  -- A count is chosen exactly where there is a candidate, none is negative and the type of decision
  -- is known; in every other case the result is an error.
  pub decide_by_strategy_succeeds :
      (d : DecisionType) (xs : List ℤ)
      → ((r : ℤ) × (decide_by_strategy fl d xs ≡ ok r))
        ↔ ((0 < length xs) × All (λ x. pos 0 ≤ℤ x) xs × IsKnown d)
  decide_by_strategy_succeeds d xs = (
    λ p. let (h, a, e) = decide_inv d xs p.1 in (h, a, select-IsKnown d (sort_replicas xs) e),
    λ p. decide_total d xs p.0 p.1 p.2,
  )
