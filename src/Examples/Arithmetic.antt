-- ===== src/Examples/Arithmetic.antt =====
-- A concrete arithmetic that meets the laws asked of floats: integers, with the quotient of their
-- positive parts.
use native.Mathlib.Nat.{le-div_iff_mul-le, div-mul-le_self, mul-div_cancel, le_trans}
use hpa_plus.Prelude.{
  ℤ, pos, ℕ, up, down, up-pos, down-pos, ltb_ℤ, leb_ℤ, ◌+ℤ◌, ◌-ℤ◌, ◌*ℤ◌, ◌≤ℤ◌, ◌/◌, ◌≤◌, ◌<◌,
  if◌then◌else◌, Floats, FloatLaws, refl, ap, arith,
}

abbrev pub int_floats : Floats
int_floats = record {
  F = ℤ;
  of_int = λ a. a;
  add = ◌+ℤ◌;
  sub = ◌-ℤ◌;
  mul = ◌*ℤ◌;
  div = λ a b. pos (up a / up b);
  fmin = λ a b. if leb_ℤ a b then a else b;
  fmax = λ a b. if leb_ℤ b a then a else b;
  ceil = λ a. a;
  round = λ a. a;
  to_int = λ a. a;
  lt = ltb_ℤ;
}

up_mono : (a b : ℤ) → a ≤ℤ b → up a ≤ up b
unfolding up down
up_mono a b h = ground arith

div_mono : (a b n : ℕ) → 0 < n → a ≤ b → a / n ≤ b / n
div_mono a b n h k = (le-div_iff_mul-le h).1 (le_trans (div-mul-le_self a n) k)

pos_le : (a b : ℕ) → a ≤ b → pos a ≤ℤ pos b
pos_le a b h = omega (arith, up-pos, down-pos)

pub int_floats-laws : FloatLaws int_floats
unfolding up
int_floats-laws = record {
  Le = λ a b. a ≤ℤ b;
  Le_trans = λ a b c h k. omega arith;
  of_int_mono = λ a b h. h;
  div_mono = λ a b n p h. pos_le _ _ (div_mono (up a) (up b) n p (up_mono a b h));
  div_exact = λ a n p h. ap pos (mul-div_cancel a p);
  round_mono = λ a b h. h;
  round_int = λ a h. refl;
  to_int_mono = λ a b h k e. e;
  to_int_int = λ a h. refl;
}
