-- ===== src/Examples/Retries.antt =====
-- Delays and failure states on concrete policies.
use hpa_plus.Prelude.{
  pos, up, down, ◌≤ℤ◌, ◌+ℤ◌, ◌-ℤ◌, ◌*ℤ◌, quot, same_text, ◌≡◌, refl, true, false, none, some,
}
use hpa_plus.Retry.Policy.{
  RetryPolicy, second, maximum_retry_policy_delay, maximum_of, is_valid_policy, safe_policy,
  first_delay, double_delay, retry_delay, valid_failure_state, in_backoff, next_failures,
  truncate_second, round_up_second, next_failure_state,
}
use hpa_plus.Retry.Delay.{retry_delay_bounds}

unfoldable retried : Unit {0}
unfolding up down ◌+ℤ◌ ◌-ℤ◌ ◌*ℤ◌ quot same_text maximum_of is_valid_policy safe_policy first_delay
    double_delay retry_delay valid_failure_state in_backoff next_failures truncate_second
    round_up_second next_failure_state
retried = tt

abbrev policy : RetryPolicy
policy = record { initial = pos 2000000000; maximum = pos 7000000000 }

delay_test : retry_delay policy (pos 15000000000) (pos 3) ≡ pos 7000000000
unfolding retried
delay_test = refl

retry_delay_bounds_example :
    (second ≤ℤ retry_delay policy (pos 15000000000) (pos 3))
    × (retry_delay policy (pos 15000000000) (pos 3) ≤ℤ maximum_of (safe_policy policy))
    × (maximum_of (safe_policy policy) ≤ℤ maximum_retry_policy_delay)
retry_delay_bounds_example = retry_delay_bounds policy (pos 15000000000) (pos 3)

-- A first failure is in backoff at once.
backoff_test :
    in_backoff policy
      (some (next_failure_state policy none (pos 15000000000) "f" (pos 1000900000000)))
      "f"
      (pos 1000900000000)
    ≡ true
unfolding retried
backoff_test = refl

abbrev fractional : RetryPolicy
fractional = record { initial = pos 1500000000; maximum = pos 1500000000 }

-- A maximum that is no whole number of seconds: the retry time is rounded up beyond what the
-- check of the state allows.
fractional_test :
    in_backoff fractional
      (some (next_failure_state fractional none (pos 15000000000) "f" (pos 1000900000000)))
      "f"
      (pos 1000900000000)
    ≡ false
unfolding retried
fractional_test = refl
