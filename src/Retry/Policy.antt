-- ===== src/Retry/Policy.antt =====
-- internal/controllers/model_backoff.go: the delay after failed fits of a model, and the failure
-- state that persistModelFailure writes. A duration is in nanoseconds. The sync period of the
-- instance is an argument.
use hpa_plus.Prelude.{
  ℤ, pos, up, ℕ, zero, suc, ◌-◌, ltb_ℤ, leb_ℤ, ◌==ℤ◌, ◌+ℤ◌, ◌*ℤ◌, ◌%◌, quot, max_int32, same_text,
  String, Bool, false, not, ◌&&◌, ◌||◌, Option, none, some, if◌then◌else◌,
}

pub record RetryPolicy : Type 0 where
  pub initial : ℤ
  pub maximum : ℤ

abbrev pub second : ℤ
second = pos 1000000000

-- maximumModelBackoff, 5 minutes.
abbrev pub maximum_model_backoff : ℤ
maximum_model_backoff = pos 300000000000

-- maximumRetryPolicyDelay, 24 hours.
abbrev pub maximum_retry_policy_delay : ℤ
maximum_retry_policy_delay = pos 86400000000000

unfoldable pub maximum_of : RetryPolicy → ℤ
maximum_of p = if p.maximum ==ℤ pos 0 then maximum_model_backoff else p.maximum

unfoldable pub is_valid_policy : RetryPolicy → Bool
is_valid_policy p = not (
    ltb_ℤ p.initial (pos 0)
    || (ltb_ℤ (pos 0) p.initial && ltb_ℤ p.initial second)
    || ltb_ℤ (maximum_of p) second
    || ltb_ℤ maximum_retry_policy_delay (maximum_of p)
    || ltb_ℤ (maximum_of p) p.initial)

abbrev pub default_policy : RetryPolicy
default_policy = record { initial = pos 0; maximum = pos 0 }

-- A malformed policy falls back to the defaults.
unfoldable pub safe_policy : RetryPolicy → RetryPolicy
safe_policy p = if is_valid_policy p then p else default_policy

-- The delay after one failure.
unfoldable pub first_delay : RetryPolicy → ℤ → ℤ
first_delay p sync_period =
    let start = if p.initial ==ℤ pos 0 then sync_period else p.initial in
    let raised = if ltb_ℤ start second then second else start in
    if ltb_ℤ (maximum_of p) raised then maximum_of p else raised

-- The loop, for the failures after the first.
unfoldable pub double_delay : ℤ → ℕ → ℤ → ℤ
double_delay maximum zero delay = delay
double_delay maximum (suc k) delay =
    let rest = double_delay maximum k (delay *ℤ pos 2) in
    if ltb_ℤ delay maximum
    then (if ltb_ℤ (quot maximum (pos 2)) delay then maximum else rest)
    else delay

unfoldable pub retry_delay : RetryPolicy → ℤ → ℤ → ℤ
retry_delay p sync_period failures =
    let safe = safe_policy p in
    double_delay (maximum_of safe) (up failures - 1) (first_delay safe sync_period)

pub record ModelFailureState : Type 0 where
  pub fingerprint : String
  pub consecutive_failures : ℤ
  pub failed_at : ℤ
  pub retry_after : ℤ

unfoldable pub valid_failure_state : RetryPolicy → Option ModelFailureState → String → ℤ → Bool
valid_failure_state p none fingerprint now = false
valid_failure_state p (some state) fingerprint now =
    not (same_text fingerprint "")
    && same_text state.fingerprint fingerprint
    && ltb_ℤ (pos 0) state.consecutive_failures
    && not (state.failed_at ==ℤ pos 0)
    && leb_ℤ state.failed_at now
    && ltb_ℤ state.failed_at state.retry_after
    && leb_ℤ state.retry_after (state.failed_at +ℤ maximum_of p +ℤ second)

unfoldable pub in_backoff : RetryPolicy → Option ModelFailureState → String → ℤ → Bool
in_backoff p none fingerprint now = false
in_backoff p (some state) fingerprint now =
    valid_failure_state p (some state) fingerprint now && ltb_ℤ now state.retry_after

abbrev pub failures_of : Option ModelFailureState → ℤ
failures_of none = pos 0
failures_of (some state) = state.consecutive_failures

-- One failure more, up to the greatest int32, where the state still counts.
unfoldable pub next_failures : RetryPolicy → Option ModelFailureState → String → ℤ → ℤ
next_failures p state fingerprint now =
    if valid_failure_state p state fingerprint now
    then (if ltb_ℤ (failures_of state) max_int32
        then failures_of state +ℤ pos 1
        else failures_of state)
    else pos 1

-- Time.Truncate(time.Second) of a time since Go's zero time.
unfoldable pub truncate_second : ℤ → ℤ
truncate_second t = pos (up t - up t % 1000000000)

unfoldable pub round_up_second : ℤ → ℤ
round_up_second t = if truncate_second t ==ℤ t then t else truncate_second t +ℤ second

unfoldable pub next_failure_state :
    RetryPolicy → Option ModelFailureState → ℤ → String → ℤ → ModelFailureState
next_failure_state p state sync_period fingerprint now =
    let failures = next_failures p state fingerprint now in
    record {
      fingerprint = fingerprint;
      consecutive_failures = failures;
      failed_at = truncate_second now;
      retry_after = round_up_second (now +ℤ retry_delay p sync_period failures);
    }
