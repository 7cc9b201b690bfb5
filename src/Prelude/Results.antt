-- ===== src/Prelude/Results.antt =====
-- Go's `(value, error)` and panics as values: a result is a value or an error.
use mathlib.Core.Path.{◌≡◌, refl}
use mathlib.Core.Logic.{◌⊎◌, inl, inr}
use mathlib.Core.Bool.{Bool, true, false}

pub data Result {ℓ} (E : Type 0) (A : Type ℓ) : Type ℓ where
  err : E → Result E A
  ok : A → Result E A

module _ {ℓ κ} {E : Type 0} {A : Type ℓ} {B : Type κ} where
  infixl 5 ◌>>=◌
  -- The rest of a function runs only where no error came back.
  abbrev pub ◌>>=◌ : Result E A → (A → Result E B) → Result E B
  err problem >>= rest = err problem
  ok value >>= rest = rest value

  -- A bind whose first part succeeds.
  pub >>=-ok :
      (m : Result E A) (rest : A → Result E B) {value : A} {r : Result E B}
      → m ≡ ok value
      → rest value ≡ r
      → (m >>= rest) ≡ r
  >>=-ok m rest first then_rest = rw first then_rest

  -- Where a bind succeeds, so did both parts.
  pub >>=-eq-ok :
      (m : Result E A) (rest : A → Result E B) {final : B}
      → (m >>= rest) ≡ ok final
      → (value : A) × (m ≡ ok value) × (rest value ≡ ok final)
  >>=-eq-ok (err problem) rest h = cc
  >>=-eq-ok (ok value) rest h = (value, refl, h)

infixl 5 ◌>>◌
abbrev pub ◌>>◌ {κ} : {E : Type 0} {B : Type κ} → Result E (Unit {0}) → Result E B → Result E B
check >> rest = check >>= λ _. rest

pub ok_inj {ℓ} : {E : Type 0} {A : Type ℓ} {a b : A} → ◌≡◌ {A = Result E A} (ok a) (ok b) → a ≡ b
ok_inj e = cc

pub Result-cases {ℓ} :
    {E : Type 0} {A : Type ℓ} (m : Result E A) → ((e : E) × (m ≡ err e)) ⊎ ((a : A) × (m ≡ ok a))
Result-cases (err e) = inl (e, refl)
Result-cases (ok a) = inr (a, refl)

-- `if !b { return e }`.
abbrev pub require : {E : Type 0} → Bool → E → Result E (Unit {0})
require true e = ok tt
require false e = err e

pub require-ok : {E : Type 0} (b : Bool) (e : E) → require b e ≡ ok tt → b ≡ true
require-ok true e h = refl
require-ok false e h = cc
