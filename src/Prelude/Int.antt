-- ===== src/Prelude/Int.antt =====
-- Signed integers over the native numbers. `omega` reads a comparison as one of `up a + down b`
-- with `up b + down a`, where `up` and `down` are the positive and the negative part.
use Prim.Native.Nat.{ℕ, suc, ◌+◌, ◌-◌, ◌*◌, ◌/◌, ◌≤◌, ◌<◌}
use mathlib.Core.Path.{◌≡◌, refl}
use mathlib.Core.Bool.{Bool}
use native.Mathlib.Omega.{arith}
use hpa_plus.Prelude.Tests.{ltb, leb, ◌==◌, if◌then◌else◌}

-- `negsuc n` is -(n + 1).
pub data ℤ : Type 0 where
  pos : ℕ → ℤ
  negsuc : ℕ → ℤ

unfoldable pub up : ℤ → ℕ
up (pos n) = n
up (negsuc n) = 0

unfoldable pub down : ℤ → ℕ
down (pos n) = 0
down (negsuc n) = suc n

-- a - b, as an integer.
abbrev pub sub_ℕ : ℕ → ℕ → ℤ
sub_ℕ a b = if leb b a then pos (a - b) else negsuc (b - a - 1)

infixl 65 ◌+ℤ◌ ◌-ℤ◌
infixl 70 ◌*ℤ◌
infix 50 ◌≤ℤ◌ ◌<ℤ◌ ◌==ℤ◌
unfoldable pub ◌+ℤ◌ : ℤ → ℤ → ℤ
unfolding up down
a +ℤ b = sub_ℕ (up a + up b) (down a + down b)

unfoldable pub ◌-ℤ◌ : ℤ → ℤ → ℤ
unfolding up down
a -ℤ b = sub_ℕ (up a + down b) (down a + up b)

unfoldable pub ◌*ℤ◌ : ℤ → ℤ → ℤ
unfolding up down
a *ℤ b = sub_ℕ (up a * up b + down a * down b) (up a * down b + down a * up b)

abbrev pub ◌≤ℤ◌ : ℤ → ℤ → Type 0
a ≤ℤ b = up a + down b ≤ up b + down a

abbrev pub ◌<ℤ◌ : ℤ → ℤ → Type 0
a <ℤ b = up a + down b < up b + down a

abbrev pub ltb_ℤ : ℤ → ℤ → Bool
ltb_ℤ a b = ltb (up a + down b) (up b + down a)

abbrev pub leb_ℤ : ℤ → ℤ → Bool
leb_ℤ a b = leb (up a + down b) (up b + down a)

abbrev pub ◌==ℤ◌ : ℤ → ℤ → Bool
a ==ℤ b = (up a + down b) == (up b + down a)

pub up-pos : (n : ℕ) → up (pos n) ≡ n
unfolding up
up-pos n = refl

pub down-pos : (n : ℕ) → down (pos n) ≡ 0
unfolding down
down-pos n = refl

pub up-negsuc : (n : ℕ) → up (negsuc n) ≡ 0
unfolding up
up-negsuc n = refl

pub down-negsuc : (n : ℕ) → down (negsuc n) ≡ suc n
unfolding down
down-negsuc n = refl

pub +ℤ_parts : (a b : ℤ) → up (a +ℤ b) + down a + down b ≡ down (a +ℤ b) + up a + up b
unfolding ◌+ℤ◌
+ℤ_parts a b = ground arith

pub -ℤ_parts : (a b : ℤ) → up (a -ℤ b) + down a + up b ≡ down (a -ℤ b) + up a + down b
unfolding ◌-ℤ◌
-ℤ_parts a b = ground arith

pub eq_of_parts : (a b : ℤ) → up a + down b ≡ up b + down a → a ≡ b
unfolding up down
eq_of_parts a b h = ground arith

pub ruleset int_laws =
    (arith, +ℤ_parts, -ℤ_parts, eq_of_parts, up-pos, down-pos, up-negsuc, down-negsuc)

-- Go's integer division, which rounds towards 0.
unfoldable pub quot : ℤ → ℤ → ℤ
unfolding up down
quot a b =
    let q = (up a + down a) / (up b + down b) in
    if leb (down a) 0
    then (if leb (down b) 0 then pos q else sub_ℕ 0 q)
    else (if leb (down b) 0 then sub_ℕ 0 q else pos q)

-- The bounds of int32 and int64.
abbrev pub max_int32 : ℤ
max_int32 = pos 2147483647

abbrev pub min_int32 : ℤ
min_int32 = negsuc 2147483647

abbrev pub max_int64 : ℤ
max_int64 = pos 9223372036854775807

abbrev pub min_int64 : ℤ
min_int64 = negsuc 9223372036854775807

-- A time.Duration in nanoseconds, of a number of seconds or milliseconds.
abbrev pub seconds : ℤ → ℤ
seconds n = n *ℤ pos 1000000000

abbrev pub milliseconds : ℤ → ℤ
milliseconds n = n *ℤ pos 1000000
