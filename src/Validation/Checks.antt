-- ===== src/Validation/Checks.antt =====
-- The shape of a validation: tests in order, each with what it reports. Also validDuration,
-- finiteNonnegative and oneOf of internal/validation/validation.go, and the external validators.
use hpa_plus.Prelude.{
  ℤ, pos, leb_ℤ, quot, max_int64, ℕ, suc, same_text, String, Bool, true, false, not, ◌&&◌, ◌||◌,
  List, [], ◌∷◌, All, Option, none, some, Result, ok, require, ◌>>◌, ◌≡◌, refl,
}
use hpa_plus.Validation.Types.{FloatTests}

-- A test, and the report of its failure.
abbrev pub Check : Type 0
Check = Bool × String

abbrev pub Verdict : Type 0
Verdict = Result String (Unit {0})

unfoldable pub all_of : List Check → Verdict
all_of [] = ok tt
all_of (c ∷ rest) = require c.0 c.1 >> all_of rest

pub all_of-ok :
    (checks : List Check) → all_of checks ≡ ok tt → All {A = Check} (λ c. c.0 ≡ true) checks
unfolding all_of
all_of-ok [] h = tt
all_of-ok ((true, e) ∷ rest) h = (refl, all_of-ok rest h)
all_of-ok ((false, e) ∷ rest) h = cc

-- Each item of a list in turn.
abbrev pub for_each {ℓ} : {A : Type ℓ} → (A → Verdict) → List A → Verdict
for_each check [] = ok tt
for_each check (a ∷ rest) = check a >> for_each check rest

-- What an optional value must satisfy where it is there.
abbrev pub if_given {ℓ} : {A : Type ℓ} → (A → Bool) → Option A → Bool
if_given test none = true
if_given test (some a) = test a

abbrev pub is_given {ℓ} : {A : Type ℓ} → Option A → Bool
is_given none = false
is_given (some a) = true

abbrev pub is_set : Option Bool → Bool
is_set none = false
is_set (some b) = b

abbrev pub every {ℓ} : {A : Type ℓ} → (A → Bool) → List A → Bool
every test [] = true
every test (a ∷ rest) = test a && every test rest

abbrev pub count_true : List Bool → ℕ
count_true [] = 0
count_true (true ∷ rest) = suc (count_true rest)
count_true (false ∷ rest) = count_true rest

unfoldable pub one_of : String → List String → Bool
one_of value [] = false
one_of value (choice ∷ rest) = same_text value choice || one_of value rest

-- `unit` is in nanoseconds.
unfoldable pub valid_duration : ℤ → ℤ → ℤ → Bool
valid_duration value unit minimum = leb_ℤ minimum value && leb_ℤ value (quot max_int64 unit)

abbrev pub millisecond : ℤ
millisecond = pos 1000000

module _ (fl : FloatTests) where
  abbrev pub is_finite : fl.F → Bool
  is_finite x = not (fl.is_nan x) && not (fl.is_inf x)

  unfoldable pub finite_nonnegative : fl.F → Bool
  finite_nonnegative x = is_finite x && fl.le (fl.lit 0 0) x

pub record Url : Type 0 where
  pub hostname : String
  pub scheme : String
  pub fragment : String
  pub has_user : Bool

-- Regular expressions, net/url, httpguts and the validators of apimachinery.
pub record Externals : Type 0 where
  pub is_blank : String → Bool
  pub is_path_segment : String → Bool
  pub parse_group_version : String → Option (String × String)
  pub is_dns1035_label : String → Bool
  pub is_dns1123_subdomain : String → Bool
  pub is_qualified_name : String → Bool
  pub is_selector : String → Bool
  pub is_metric_name : String → Bool
  pub is_label_name : String → Bool
  pub parse_url : String → Option Url
  pub is_header_name : String → Bool
  pub is_header_value : String → Bool
