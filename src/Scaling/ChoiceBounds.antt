-- ===== src/Scaling/ChoiceBounds.antt =====
-- The chosen count against the candidates: extremes, and bounds for every type of decision.
use mathlib.Core.List.{Memᴰ}
use native.Mathlib.Nat.{le_trans}
use hpa_plus.Prelude.{
  ℤ, pos, ltb_ℤ, leb_ℤ, ◌≤ℤ◌, ◌+ℤ◌, ◌≡◌, refl, sym, subst, ap, ◌∙◌, inl, inr, ◌==◌, List, All,
  All-imp, [], ◌∷◌, arith, if◌then◌else◌, ok_inj, ok, Floats, FloatLaws, Bool-cases, length, ℕ,
  zero, suc, ◌+◌, ◌*◌, ◌/◌, ◌%◌, ◌^◌, ◌-◌, ◌<◌, ◌≤◌, true, false, Bool, quot, get_or, up, down,
  up-pos, down-pos, +ℤ_parts,
}
use hpa_plus.Api.Types.{DecisionType, maximum, minimum, mean, median}
use hpa_plus.Scaling.Strategy.{
  insert_sorted, sort_replicas, max_loop, min_loop, select_by_type, decide_by_strategy, median_of,
  mean_of, sum_loop,
}
use hpa_plus.Scaling.Choice.{decide_inv}

length-insert : (a : ℤ) (xs : List ℤ) → length (insert_sorted a xs) ≡ suc (length xs)
unfolding insert_sorted
length-insert a [] = refl
length-insert a (x ∷ xs) = ground (arith, length-insert a xs)

length-sort : (xs : List ℤ) → length (sort_replicas xs) ≡ length xs
unfolding sort_replicas
length-sort [] = refl
length-sort (x ∷ xs) = length-insert x (sort_replicas xs) ∙ ap suc (length-sort xs)

All-insert {κ} :
    (P : ℤ → Type κ) (a : ℤ) (xs : List ℤ) → P a → All P xs → All P (insert_sorted a xs)
unfolding insert_sorted
All-insert P a [] p h = (p, tt)
All-insert P a (x ∷ xs) p h = elim (Bool-cases (leb_ℤ a x)) [
  | inl e ↦ rw e (p, h)
  | inr e ↦ rw e (h.0, All-insert P a xs p h.1)
]

All-sort {κ} : (P : ℤ → Type κ) (xs : List ℤ) → All P xs → All P (sort_replicas xs)
unfolding sort_replicas
All-sort P [] h = tt
All-sort P (x ∷ xs) h = All-insert P x (sort_replicas xs) h.0 (All-sort P xs h.1)

All-insert_inv {κ} :
    (P : ℤ → Type κ) (a : ℤ) (xs : List ℤ) → All P (insert_sorted a xs) → P a × All P xs
unfolding insert_sorted
All-insert_inv P a [] h = (h.0, tt)
All-insert_inv P a (x ∷ xs) h = elim (Bool-cases (leb_ℤ a x)) [
  | inl e ↦ let k = rw e at h in (k.0, k.1)
  | inr e ↦ let k = rw e at h in let r = All-insert_inv P a xs k.1 in (r.0, (k.0, r.1))
]

All-sort_inv {κ} : (P : ℤ → Type κ) (xs : List ℤ) → All P (sort_replicas xs) → All P xs
unfolding sort_replicas
All-sort_inv P [] h = tt
All-sort_inv P (x ∷ xs) h =
    let r = All-insert_inv P x (sort_replicas xs) h in (r.0, All-sort_inv P xs r.1)

max_loop-suc :
    (i : ℕ) (acc x : ℤ) (xs : List ℤ)
    → max_loop (suc i) acc (x ∷ xs) ≡ max_loop (suc (suc i)) (if ltb_ℤ acc x then x else acc) xs
unfolding max_loop
max_loop-suc i acc x xs = let e : (suc i == 0) ≡ false = ground arith in rw e

min_loop-suc :
    (i : ℕ) (acc x : ℤ) (xs : List ℤ)
    → min_loop (suc i) acc (x ∷ xs) ≡ min_loop (suc (suc i)) (if ltb_ℤ x acc then x else acc) xs
unfolding min_loop
min_loop-suc i acc x xs = let e : (suc i == 0) ≡ false = ground arith in rw e

acc-le-max_loop : (i : ℕ) (acc : ℤ) (xs : List ℤ) → acc ≤ℤ max_loop (suc i) acc xs
unfolding max_loop
acc-le-max_loop i acc [] = omega arith
acc-le-max_loop i acc (x ∷ xs) =
    ground
      (arith, max_loop-suc i acc x xs, acc-le-max_loop (suc i) (if ltb_ℤ acc x then x else acc) xs)

All-le-max_loop : (i : ℕ) (acc : ℤ) (xs : List ℤ) → All (λ x. x ≤ℤ max_loop (suc i) acc xs) xs
All-le-max_loop i acc [] = tt
All-le-max_loop i acc (x ∷ xs) =
    let next : ℤ = if ltb_ℤ acc x then x else acc in
    subst (λ m. All (λ y. y ≤ℤ m) (x ∷ xs)) (sym (max_loop-suc i acc x xs))
      (ground (arith, acc-le-max_loop (suc i) next xs), All-le-max_loop (suc i) next xs)

min_loop-le-acc : (i : ℕ) (acc : ℤ) (xs : List ℤ) → min_loop (suc i) acc xs ≤ℤ acc
unfolding min_loop
min_loop-le-acc i acc [] = omega arith
min_loop-le-acc i acc (x ∷ xs) =
    ground
      (arith, min_loop-suc i acc x xs, min_loop-le-acc (suc i) (if ltb_ℤ x acc then x else acc) xs)

min_loop-le-All : (i : ℕ) (acc : ℤ) (xs : List ℤ) → All (λ x. min_loop (suc i) acc xs ≤ℤ x) xs
min_loop-le-All i acc [] = tt
min_loop-le-All i acc (x ∷ xs) =
    let next : ℤ = if ltb_ℤ x acc then x else acc in
    subst (λ m. All (λ y. m ≤ℤ y) (x ∷ xs)) (sym (min_loop-suc i acc x xs))
      (ground (arith, min_loop-le-acc (suc i) next xs), min_loop-le-All (suc i) next xs)

if_keeps {ℓ κ} :
    {A : Type ℓ} (P : A → Type κ) (b : Bool) (x y : A) → P x → P y → P (if b then x else y)
if_keeps P true x y p q = p
if_keeps P false x y p q = q

max_loop-keeps {κ} :
    (P : ℤ → Type κ) (i : ℕ) (acc : ℤ) (xs : List ℤ)
    → P acc
    → All P xs
    → P (max_loop (suc i) acc xs)
unfolding max_loop
max_loop-keeps P i acc [] p h = p
max_loop-keeps P i acc (x ∷ xs) p h = max_loop-keeps P (suc i) _ xs (if_keeps P _ x acc h.0 p) h.1

min_loop-keeps {κ} :
    (P : ℤ → Type κ) (i : ℕ) (acc : ℤ) (xs : List ℤ)
    → P acc
    → All P xs
    → P (min_loop (suc i) acc xs)
unfolding min_loop
min_loop-keeps P i acc [] p h = p
min_loop-keeps P i acc (x ∷ xs) p h = min_loop-keeps P (suc i) _ xs (if_keeps P _ x acc h.0 p) h.1

All-self {ℓ} : {A : Type ℓ} (xs : List A) → All (λ x. Memᴰ x xs) xs
All-self [] = tt
All-self (x ∷ xs) = (Memᴰ.head refl, All-imp (λ y m. Memᴰ.tail m) xs (All-self xs))

max_of_list :
    (xs : List ℤ)
    → 0 < length xs
    → All (λ x. x ≤ℤ max_loop 0 (pos 0) xs) xs
      × ((P : ℤ → Type 0) → All P xs → P (max_loop 0 (pos 0) xs))
unfolding max_loop
max_of_list [] h = absurd (omega arith)
max_of_list (x ∷ xs) h =
    ((acc-le-max_loop 0 x xs, All-le-max_loop 0 x xs), λ P a. max_loop-keeps P 0 x xs a.0 a.1)

min_of_list :
    (xs : List ℤ)
    → 0 < length xs
    → All (λ x. min_loop 0 (pos 0) xs ≤ℤ x) xs
      × ((P : ℤ → Type 0) → All P xs → P (min_loop 0 (pos 0) xs))
unfolding min_loop
min_of_list [] h = absurd (omega arith)
min_of_list (x ∷ xs) h =
    ((min_loop-le-acc 0 x xs, min_loop-le-All 0 x xs), λ P a. min_loop-keeps P 0 x xs a.0 a.1)

module _ (fl : Floats) where
  -- `maximum` chooses a candidate that no other exceeds.
  pub decide_by_strategy_maximum :
      (xs : List ℤ) (r : ℤ)
      → decide_by_strategy fl maximum xs ≡ ok r
      → Memᴰ r xs × All (λ x. x ≤ℤ r) xs
  unfolding select_by_type
  decide_by_strategy_maximum xs r h =
      let (n, a, e) = decide_inv fl maximum xs h in
      let (above, one_of) = max_of_list (sort_replicas xs) (omega (arith, n, length-sort xs)) in
      let e' : max_loop 0 (pos 0) (sort_replicas xs) ≡ r = ground arith in
      (
        subst (λ m. Memᴰ m xs) e' (one_of (λ x. Memᴰ x xs) (All-sort _ xs (All-self xs))),
        All-sort_inv _ xs (subst (λ m. All (λ x. x ≤ℤ m) (sort_replicas xs)) e' above),
      )

  -- `minimum` chooses a candidate that exceeds no other.
  pub decide_by_strategy_minimum :
      (xs : List ℤ) (r : ℤ)
      → decide_by_strategy fl minimum xs ≡ ok r
      → Memᴰ r xs × All (λ x. r ≤ℤ x) xs
  unfolding select_by_type
  decide_by_strategy_minimum xs r h =
      let (n, a, e) = decide_inv fl minimum xs h in
      let (below, one_of) = min_of_list (sort_replicas xs) (omega (arith, n, length-sort xs)) in
      let e' : min_loop 0 (pos 0) (sort_replicas xs) ≡ r = ground arith in
      (
        subst (λ m. Memᴰ m xs) e' (one_of (λ x. Memᴰ x xs) (All-sort _ xs (All-self xs))),
        All-sort_inv _ xs (subst (λ m. All (λ x. m ≤ℤ x) (sort_replicas xs)) e' below),
      )

get_or-All {κ} :
    (P : ℤ → Type κ) (xs : List ℤ) (i : ℕ) (d : ℤ) → i < length xs → All P xs → P (get_or xs i d)
get_or-All P [] i d h a = absurd (omega arith)
get_or-All P (x ∷ xs) zero d h a = a.0
get_or-All P (x ∷ xs) (suc i) d h a = get_or-All P xs i d (omega arith) a.1

half_bounds :
    (l h : ℕ) (a b : ℤ)
    → pos l ≤ℤ a
    → pos l ≤ℤ b
    → a ≤ℤ pos h
    → b ≤ℤ pos h
    → (pos l ≤ℤ quot (a +ℤ b) (pos 2)) × (quot (a +ℤ b) (pos 2) ≤ℤ pos h)
unfolding quot ◌+ℤ◌
half_bounds l h a b p q r s = ground arith

abbrev pub InRange : ℕ → ℕ → ℤ → Type 0
InRange l h x = (pos l ≤ℤ x) × (x ≤ℤ pos h)

median_bounds :
    (l h : ℕ) (xs : List ℤ) → 0 < length xs → All (InRange l h) xs → InRange l h (median_of xs)
unfolding median_of
median_bounds l h xs n a =
    let half = length xs / 2 in
    let x = get_or-All (InRange l h) xs (half - 1) (pos 0) (omega arith) a in
    let y = get_or-All (InRange l h) xs half (pos 0) (omega arith) a in
    elim (Bool-cases (length xs % 2 == 0)) [
      | inl e ↦ rw e (half_bounds l h _ _ x.0 y.0 x.1 y.1)
      | inr e ↦ rw e y
    ]

sum_bounds :
    (l h : ℕ) (t : ℤ) (xs : List ℤ)
    → All (InRange l h) xs
    → (up t + l * length xs + down (sum_loop t xs) ≤ up (sum_loop t xs) + down t)
      × (up (sum_loop t xs) + down t ≤ up t + h * length xs + down (sum_loop t xs))
unfolding sum_loop
sum_bounds l h t [] a = omega arith
sum_bounds l h t (x ∷ xs) a =
    let (p, q) = sum_bounds l h (t +ℤ x) xs a.1 in
    (
      omega (arith, p, a.0.0, +ℤ_parts t x, up-pos l, down-pos l),
      omega (arith, q, a.0.1, +ℤ_parts t x, up-pos h, down-pos h),
    )

le_mul : (a n : ℕ) → 0 < n → a ≤ a * n
le_mul a n h = grind arith

mul_mono : (a b n : ℕ) → a ≤ b → a * n ≤ b * n
mul_mono a b n h = grind arith

pos_mono : (a b : ℕ) → a ≤ b → pos a ≤ℤ pos b
pos_mono a b h = omega (arith, up-pos, down-pos)

module _ (fl : Floats) (laws : FloatLaws fl) where
  -- A rounded quotient lies between integers that bound it.
  rounded_bounds :
      (l h n : ℕ) (total : ℤ)
      → 0 < n
      → l ≤ h
      → h * n ≤ 2 ^ 53
      → pos (l * n) ≤ℤ total
      → total ≤ℤ pos (h * n)
      → InRange l h (fl.to_int (fl.round (fl.div (fl.of_int total) (fl.of_int (pos n)))))
  rounded_bounds l h n total np lh big below above =
      let hb : h ≤ 2 ^ 53 = le_trans (le_mul h n np) big in
      let lb : l ≤ 2 ^ 53 = le_trans lh hb in
      let lnb : l * n ≤ 2 ^ 53 = le_trans (mul_mono l h n lh) big in
      let x = fl.round (fl.div (fl.of_int total) (fl.of_int (pos n))) in
      let low : laws.Le (fl.of_int (pos l)) x =
        subst (λ y. laws.Le y x) (ap fl.round (laws.div_exact l n np lnb) ∙ laws.round_int l lb)
          (laws.round_mono _ _ (laws.div_mono _ _ n np (laws.of_int_mono _ _ below))) in
      let high : laws.Le x (fl.of_int (pos h)) =
        subst (λ y. laws.Le x y) (ap fl.round (laws.div_exact h n np big) ∙ laws.round_int h hb)
          (laws.round_mono _ _ (laws.div_mono _ _ n np (laws.of_int_mono _ _ above))) in
      let top : laws.Le x (fl.of_int (pos (2 ^ 53))) =
        laws.Le_trans _ _ _ high
          (laws.of_int_mono (pos h) (pos (2 ^ 53)) (pos_mono h (2 ^ 53) hb)) in
      let zero_low : laws.Le (fl.of_int (pos 0)) (fl.of_int (pos l)) =
        laws.of_int_mono (pos 0) (pos l) (pos_mono 0 l (omega arith)) in
      (
        subst (λ (y : ℤ). y ≤ℤ fl.to_int x) (laws.to_int_int l lb)
            (laws.to_int_mono _ _ zero_low top low),
        subst (λ (y : ℤ). fl.to_int x ≤ℤ y) (laws.to_int_int h hb)
            (laws.to_int_mono _ _ (laws.Le_trans _ _ _ zero_low low)
              (laws.of_int_mono (pos h) (pos (2 ^ 53)) (pos_mono h (2 ^ 53) hb)) high),
      )

  mean_bounds :
      (l h : ℕ) (xs : List ℤ)
      → 0 < length xs
      → l ≤ h
      → h * length xs ≤ 2 ^ 53
      → All (InRange l h) xs
      → InRange l h (mean_of fl xs)
  unfolding mean_of
  mean_bounds l h xs n lh big a =
      let total = sum_loop (pos 0) xs in
      let (p, q) = sum_bounds l h (pos 0) xs a in
      elim (Bool-cases (leb_ℤ total (pos 0))) [
        | inl e ↦
            rw e (
              grind (arith, p, up-pos, down-pos, le_mul l (length xs) n),
              pos_mono 0 h (omega arith),
            )
        | inr e ↦ rw e (
            rounded_bounds l h (length xs) total n lh big (omega (arith, p, up-pos, down-pos))
              (omega (arith, q, up-pos, down-pos)))
      ]

  select_bounds :
      (d : DecisionType) (l h : ℕ) (xs : List ℤ) (r : ℤ)
      → 0 < length xs
      → l ≤ h
      → h * length xs ≤ 2 ^ 53
      → All (InRange l h) xs
      → select_by_type fl d xs ≡ ok r
      → InRange l h r
  unfolding select_by_type
  select_bounds maximum l h xs r n lh big a e =
      subst (InRange l h) (ok_inj e) ((max_of_list xs n).1 (InRange l h) a)
  select_bounds minimum l h xs r n lh big a e =
      subst (InRange l h) (ok_inj e) ((min_of_list xs n).1 (InRange l h) a)
  select_bounds mean l h xs r n lh big a e =
      subst (InRange l h) (ok_inj e) (mean_bounds l h xs n lh big a)
  select_bounds median l h xs r n lh big a e =
      subst (InRange l h) (ok_inj e) (median_bounds l h xs n a)
  select_bounds (DecisionType.other s) l h xs r n lh big a e = cc

  -- Whatever the type of decision, the chosen count is between bounds of the candidates, if the upper
  -- bound times their number is at most 2 ^ 53 and floats obey the laws of IEEE 754.
  pub decide_by_strategy_bounds :
      (d : DecisionType) (l h : ℕ) (xs : List ℤ) (r : ℤ)
      → l ≤ h
      → h * length xs ≤ 2 ^ 53
      → All (InRange l h) xs
      → decide_by_strategy fl d xs ≡ ok r
      → InRange l h r
  decide_by_strategy_bounds d l h xs r lh big a e =
      let (n, p, s) = decide_inv fl d xs e in
      select_bounds d l h (sort_replicas xs) r (omega (arith, n, length-sort xs)) lh
        (rw (length-sort xs) big) (All-sort (InRange l h) xs a) s
