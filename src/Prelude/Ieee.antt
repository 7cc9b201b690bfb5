-- ===== src/Prelude/Ieee.antt =====
-- float64 and the functions of package math that the program calls. The type is a parameter of
-- the definitions that compute with floats; the laws are IEEE 754's, for the theorems that need
-- them.
use hpa_plus.Prelude.Int.{ℤ, pos, ◌≤ℤ◌}
use Prim.Native.Nat.{ℕ, ◌*◌, ◌^◌, ◌≤◌, ◌<◌}
use mathlib.Core.Path.{◌≡◌}
use mathlib.Core.Bool.{Bool}

pub record Floats : Type 1 where
  pub F : Type 0
  pub of_int : ℤ → F
  pub add : F → F → F
  pub sub : F → F → F
  pub mul : F → F → F
  pub div : F → F → F
  pub fmin : F → F → F
  pub fmax : F → F → F
  pub ceil : F → F
  pub round : F → F
  -- the conversion int64(x), which cuts the fraction off
  pub to_int : F → ℤ
  pub lt : F → F → Bool

-- What IEEE 754 says of these functions where the integers are below 2 ^ 53: they are exact on
-- integers, and monotone.
pub record FloatLaws (fl : Floats) : Type 1 where
  pub Le : fl.F → fl.F → Type 0
  pub Le_trans : (a b c : fl.F) → Le a b → Le b c → Le a c
  pub of_int_mono : (a b : ℤ) → a ≤ℤ b → Le (fl.of_int a) (fl.of_int b)
  pub div_mono :
      (a b : fl.F) (n : ℕ)
      → 0 < n
      → Le a b
      → Le (fl.div a (fl.of_int (pos n))) (fl.div b (fl.of_int (pos n)))
  pub div_exact :
      (a n : ℕ)
      → 0 < n
      → a * n ≤ 2 ^ 53
      → fl.div (fl.of_int (pos (a * n))) (fl.of_int (pos n)) ≡ fl.of_int (pos a)
  pub round_mono : (a b : fl.F) → Le a b → Le (fl.round a) (fl.round b)
  pub round_int : (a : ℕ) → a ≤ 2 ^ 53 → fl.round (fl.of_int (pos a)) ≡ fl.of_int (pos a)
  -- the conversion to int64, in its range
  pub to_int_mono :
      (a b : fl.F)
      → Le (fl.of_int (pos 0)) a
      → Le b (fl.of_int (pos (2 ^ 53)))
      → Le a b
      → fl.to_int a ≤ℤ fl.to_int b
  pub to_int_int : (a : ℕ) → a ≤ 2 ^ 53 → fl.to_int (fl.of_int (pos a)) ≡ pos a
