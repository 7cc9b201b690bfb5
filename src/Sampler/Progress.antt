-- ===== src/Sampler/Progress.antt =====
-- The next sampling is in a later slot.
use hpa_plus.Prelude.{
  ℤ, pos, up, down, ◌≤ℤ◌, ◌<ℤ◌, ltb_ℤ, ◌+ℤ◌, ◌-ℤ◌, ℕ, suc, ◌+◌, ◌*◌, ◌/◌, Bool, true, false,
  if◌then◌else◌, ◌≡◌, ◌∙◌, refl, sym, subst, ap, arith, int_laws, eq_of_parts, +ℤ_parts, -ℤ_parts,
}
use native.Mathlib.Nat.{
  div-mul-le_self, lt-div-mul-add, mul-div_cancel, le-div_iff_mul-le, mul-le-mul_right,
}
use hpa_plus.Sampler.Slots.{
  second, truncate, sampling_slot, align_up, next_sampling, next_sampling_delay,
}

not_below : (x y : ℤ) → ltb_ℤ x y ≡ false → y ≤ℤ x
not_below x y t = ground arith

-- A multiple of the period.
abbrev Aligned : ℕ → ℤ → Type 0
Aligned d t = (k : ℕ) × (t ≡ pos (k * suc d))

+ℤ-pos : (a b : ℕ) → pos a +ℤ pos b ≡ pos (a + b)
unfolding ◌+ℤ◌ up down
+ℤ-pos a b = ground arith

Aligned-add : (d : ℕ) (t : ℤ) → Aligned d t → Aligned d (t +ℤ pos (suc d))
Aligned-add d t (k, e) =
    (suc k, ap (λ x. x +ℤ pos (suc d)) e ∙ +ℤ-pos (k * suc d) (suc d) ∙ ap pos (multiple k))
  where
    multiple : (k : ℕ) → k * suc d + suc d ≡ suc k * suc d
    multiple k = omega arith

-- A time is at least its truncation, and less than a period later.
truncate-bounds :
    (n d : ℕ)
    → Aligned d (truncate (pos n) (pos (suc d)))
      × (truncate (pos n) (pos (suc d)) ≤ℤ pos n)
      × (pos n <ℤ truncate (pos n) (pos (suc d)) +ℤ pos (suc d))
unfolding truncate up down ◌+ℤ◌
truncate-bounds n d = (
  (n / suc d, refl),
  omega (arith, div-mul-le_self n (suc d)),
  ground (arith, lt-div-mul-add {a = n} {b = suc d} (omega arith)),
)

-- A multiple of the period is its own truncation.
truncate-Aligned : (d : ℕ) (t : ℤ) → Aligned d t → truncate t (pos (suc d)) ≡ t
unfolding truncate
truncate-Aligned d t (k, e) =
    subst (λ x. truncate x (pos (suc d)) ≡ x) (sym e)
      (ap (λ q. pos (q * suc d)) (mul-div_cancel k {n = suc d} (omega arith)))

-- The truncation is the greatest multiple that the time reaches.
truncate-greatest :
    (d n : ℕ) (u : ℤ) → Aligned d u → u ≤ℤ pos n → u ≤ℤ truncate (pos n) (pos (suc d))
unfolding truncate up down
truncate-greatest d n u (k, e) h =
    subst (λ x. x ≤ℤ pos (n / suc d * suc d)) (sym e) (greatest (subst (λ x. x ≤ℤ pos n) e h))
  where
    greatest : pos (k * suc d) ≤ℤ pos n → pos (k * suc d) ≤ℤ pos (n / suc d * suc d)
    greatest j = omega (
      arith,
      mul-le-mul_right (suc d)
          ((le-div_iff_mul-le {k = suc d} {x = k} {y = n} (omega arith)).1 (omega (arith, j))),
    )

-- What the search for the next sampling finds.
abbrev Later : ℕ → ℤ → ℤ → Type 0
Later d earliest t = Aligned d t × (earliest ≤ℤ t)

align_up-Later : (d e : ℕ) → Later d (pos e) (align_up (pos e) (pos (suc d)))
unfolding align_up
align_up-Later d e = let (a, low, high) = truncate-bounds e d in cases a high _ refl
  where
    cases :
        Aligned d (truncate (pos e) (pos (suc d)))
        → pos e <ℤ truncate (pos e) (pos (suc d)) +ℤ pos (suc d)
        → (b : Bool) → ltb_ℤ (truncate (pos e) (pos (suc d))) (pos e) ≡ b
        → Later d (pos e) (
            if b
            then truncate (pos e) (pos (suc d)) +ℤ pos (suc d)
            else truncate (pos e) (pos (suc d)))
    cases a high true t = (Aligned-add d _ a, omega (arith, high))
    cases a high false t = (a, not_below _ _ t)

below : (x y : ℤ) → ltb_ℤ x y ≡ true → x <ℤ y
below x y t = ground arith

rejoin : (a b : ℤ) → a +ℤ (b -ℤ a) ≡ b
rejoin a b = eq_of_parts _ _ (omega (arith, +ℤ_parts a (b -ℤ a), -ℤ_parts b a))

module _ (n d : ℕ) where
  abbrev period : ℤ
  period = pos (suc d)

  abbrev slot : ℤ
  slot = sampling_slot (pos n) period

  -- A slot is a whole second.
  slot-Aligned : Aligned 999999999 slot
  unfolding sampling_slot
  slot-Aligned =
      let ((k, e), low, high) = truncate-bounds n d in
      subst (λ t. Aligned 999999999 (truncate t second)) (sym e)
        (truncate-bounds (k * suc d) 999999999).0

  abbrev Next : ℤ → Type 0
  Next t = Aligned d t × (slot +ℤ second ≤ℤ t) × (pos n <ℤ t)

  next_sampling-Next : Next (next_sampling (pos n) period)
  unfolding next_sampling
  next_sampling-Next =
      let (a, low, high) = truncate-bounds n d in
      cases a high (Aligned-add 999999999 slot slot-Aligned) _ refl
    where
      cases :
          Aligned d (truncate (pos n) period)
          → pos n <ℤ truncate (pos n) period +ℤ period
          → Aligned 999999999 (slot +ℤ second)
          → (b : Bool) → ltb_ℤ (truncate (pos n) period +ℤ period) (slot +ℤ second) ≡ b
          → Next (if b then align_up (slot +ℤ second) period else truncate (pos n) period +ℤ period)
      cases a high (k, e) true t =
          let (aligned, later) =
            subst (λ x. Later d x (align_up x period)) (sym e)
              (align_up-Later d (k * 1000000000)) in
          (aligned, later, omega (arith, high, later, below _ _ t))
      cases a high s false t = (Aligned-add d _ a, not_below _ _ t, high)

  slot-later :
      (t : ℤ) → Aligned d t → slot +ℤ second ≤ℤ t → slot +ℤ second ≤ℤ sampling_slot t period
  unfolding sampling_slot
  slot-later t (k, e) later =
      subst (λ x. slot +ℤ second ≤ℤ truncate x second) (sym (truncate-Aligned d t (k, e)))
        (subst (λ x. slot +ℤ second ≤ℤ truncate x second) (sym e)
          (truncate-greatest 999999999 (k * suc d) (slot +ℤ second)
            (Aligned-add 999999999 slot slot-Aligned) (subst (λ x. slot +ℤ second ≤ℤ x) e later)))

  -- For a time that is not before the zero time and a positive period, below a second too, the
  -- delay to the next regular sampling is positive, and the time it leads to is in a slot that is at
  -- least a second later.
  pub next_sampling_delay-later :
      (pos 0 <ℤ next_sampling_delay (pos n) (pos (suc d)))
      × (sampling_slot (pos n) (pos (suc d)) +ℤ second
          ≤ℤ sampling_slot (pos n +ℤ next_sampling_delay (pos n) (pos (suc d))) (pos (suc d)))
  unfolding next_sampling_delay
  next_sampling_delay-later =
      let (aligned, later, ahead) = next_sampling-Next in
      (
        omega (int_laws, ahead),
        subst (λ t. slot +ℤ second ≤ℤ sampling_slot t period) (sym (rejoin _ _))
            (slot-later _ aligned later),
      )
