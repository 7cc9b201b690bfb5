-- ===== src/Retry/Delay.antt =====
-- RetryPolicy.delay of internal/controllers/model_backoff.go: its range and its growth.
use hpa_plus.Prelude.{
  ℤ, pos, negsuc, up, down, ◌≤ℤ◌, ltb_ℤ, ◌*ℤ◌, quot, ℕ, zero, suc, ◌-◌, ◌*◌, ◌/◌, ◌≤◌, ◌≡◌, refl,
  sym, subst, arith, true, Bool-cases, if◌then◌else◌, inl, inr,
}
use hpa_plus.Retry.Policy.{
  RetryPolicy, second, maximum_retry_policy_delay, maximum_of, default_policy, is_valid_policy,
  safe_policy, first_delay, double_delay, retry_delay,
}

twice : (n : ℕ) → pos n *ℤ pos 2 ≡ pos (n * 2)
unfolding ◌*ℤ◌ up down
twice n = ground arith

half : (m : ℕ) → quot (pos m) (pos 2) ≡ pos (m / 2)
unfolding quot up down
half m = ground arith

-- One step of the loop, over numbers that are not negative.
double_step :
    (m k n : ℕ)
    → double_delay (pos m) (suc k) (pos n) ≡ (
        if ltb_ℤ (pos n) (pos m)
        then (if ltb_ℤ (pos (m / 2)) (pos n) then pos m else double_delay (pos m) k (pos (n * 2)))
        else pos n)
unfolding double_delay
double_step m k n = let a = twice n in let b = half m in ground arith

double_zero : (m n : ℕ) → double_delay (pos m) 0 (pos n) ≡ pos n
unfolding double_delay
double_zero m n = refl

first : (m n : ℕ) → pos n ≤ℤ double_delay (pos m) 0 (pos n)
unfolding double_delay
first m n = omega arith

-- Where the loop goes on, the doubled delay is still within the maximum.
double_bounds :
    (m k n : ℕ)
    → n ≤ m
    → (pos n ≤ℤ double_delay (pos m) k (pos n)) × (double_delay (pos m) k (pos n) ≤ℤ pos m)
unfolding up down
double_bounds m zero n h =
    (first m n, subst (λ x. x ≤ℤ pos m) (sym (double_zero m n)) (omega arith))
double_bounds m (suc k) n h =
    let step = double_step m k n in
    elim (Bool-cases (ltb_ℤ (pos n) (pos m))) [
      | inr full ↦ ground arith
      | inl less ↦ elim (Bool-cases (ltb_ℤ (pos (m / 2)) (pos n))) [
        | inl large ↦ ground arith
        | inr small ↦ let (low, high) = double_bounds m k (n * 2) (ground arith) in ground arith
      ]
    ]

double_mono :
    (m k n : ℕ) → n ≤ m → double_delay (pos m) k (pos n) ≤ℤ double_delay (pos m) (suc k) (pos n)
unfolding up down
double_mono m zero n h =
    subst (λ x. x ≤ℤ double_delay (pos m) 1 (pos n)) (sym (double_zero m n))
      (double_bounds m 1 n h).0
double_mono m (suc k) n h =
    let step = double_step m k n in
    let next = double_step m (suc k) n in
    elim (Bool-cases (ltb_ℤ (pos n) (pos m))) [
      | inr full ↦ ground arith
      | inl less ↦ elim (Bool-cases (ltb_ℤ (pos (m / 2)) (pos n))) [
        | inl large ↦ ground arith
        | inr small ↦ let ih = double_mono m k (n * 2) (ground arith) in ground arith
      ]
    ]

default_valid : is_valid_policy default_policy ≡ true
unfolding is_valid_policy maximum_of up down
default_valid = refl

safe_policy_valid : (p : RetryPolicy) → is_valid_policy (safe_policy p) ≡ true
unfolding safe_policy
safe_policy_valid p = elim (Bool-cases (is_valid_policy p)) [
  | inl good ↦ ground arith
  | inr bad ↦ let fine = default_valid in ground arith
]

valid_maximum :
    (p : RetryPolicy)
    → is_valid_policy p ≡ true
    → (second ≤ℤ maximum_of p) × (maximum_of p ≤ℤ maximum_retry_policy_delay)
unfolding is_valid_policy
valid_maximum p h = ground arith

first_delay_bounds :
    (p : RetryPolicy) (sync_period : ℤ)
    → second ≤ℤ maximum_of p
    → (second ≤ℤ first_delay p sync_period) × (first_delay p sync_period ≤ℤ maximum_of p)
unfolding first_delay
first_delay_bounds p sync_period h = ground arith

natural : (a : ℤ) → second ≤ℤ a → (n : ℕ) × (a ≡ pos n)
unfolding up down
natural (pos n) h = (n, refl)
natural (negsuc n) h = ground arith

whole : (n : ℕ) → second ≤ℤ pos n → 1000000000 ≤ n
unfolding up down
whole n h = omega arith

between : (n m : ℕ) → pos n ≤ℤ pos m → n ≤ m
unfolding up down
between n m h = omega arith

below : (m : ℕ) → pos m ≤ℤ maximum_retry_policy_delay → m ≤ 86400000000000
unfolding up down
below m h = omega arith

-- The maximum and the first delay of a policy, as numbers.
first_parts :
    (p : RetryPolicy) (sync_period : ℤ)
    → (m : ℕ) × (n : ℕ) × (maximum_of (safe_policy p) ≡ pos m)
      × (first_delay (safe_policy p) sync_period ≡ pos n)
      × (1000000000 ≤ n)
      × (n ≤ m)
      × (m ≤ 86400000000000)
first_parts p sync_period =
    let (least, most) = valid_maximum (safe_policy p) (safe_policy_valid p) in
    let (low, high) = first_delay_bounds (safe_policy p) sync_period least in
    let (m, em) = natural (maximum_of (safe_policy p)) least in
    let (n, en) = natural (first_delay (safe_policy p) sync_period) low in
    (
      m,
      n,
      em,
      en,
      whole n (subst (λ x. second ≤ℤ x) en low),
      between n m (
          subst (λ x. x ≤ℤ pos m) en
            (subst (λ x. first_delay (safe_policy p) sync_period ≤ℤ x) em high)),
      below m (subst (λ x. x ≤ℤ maximum_retry_policy_delay) em most),
    )

-- The delay is at least a second and at most the maximum of the policy that is in force, which is
-- at most a day, whatever the policy, the sync period and the failures.
pub retry_delay_bounds :
    (p : RetryPolicy) (sync_period failures : ℤ)
    → (second ≤ℤ retry_delay p sync_period failures)
      × (retry_delay p sync_period failures ≤ℤ maximum_of (safe_policy p))
      × (maximum_of (safe_policy p) ≤ℤ maximum_retry_policy_delay)
unfolding retry_delay up down
retry_delay_bounds p sync_period failures =
    let (m, n, em, en, low, le, high) = first_parts p sync_period in
    let (a, b) = double_bounds m (up failures - 1) n le in
    rw em (rw en (omega (arith, a), b, omega arith))

less_one : (k : ℕ) → suc k - 1 ≡ k
less_one k = omega arith

-- One failure more never makes the delay shorter.
pub retry_delay_mono :
    (p : RetryPolicy) (sync_period : ℤ) (failures : ℕ)
    → retry_delay p sync_period (pos failures) ≤ℤ retry_delay p sync_period (pos (suc failures))
unfolding retry_delay up down
retry_delay_mono p sync_period zero =
    let (m, n, em, en, low, le, high) = first_parts p sync_period in rw em (rw en (omega arith))
retry_delay_mono p sync_period (suc k) =
    let (m, n, em, en, low, le, high) = first_parts p sync_period in
    let step = double_mono m k n le in rw em (rw en (rw (less_one k) (rw (less_one (suc k)) step)))
