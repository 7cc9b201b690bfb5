-- ===== src/Examples/Monitoring.antt =====
-- Forecasts that are recorded and scored, with floats in thousandths.
use mathlib.Core.List.{Memᴰ}
use hpa_plus.Prelude.{
  ℤ, pos, up, down, ◌*ℤ◌, ◌+ℤ◌, ◌-ℤ◌, ltb_ℤ, quot, same_text, true, [], ◌∷◌, none, some,
  if◌then◌else◌, ◌≡◌, refl, ◌+◌, ◌≤ℤ◌, ◌==ℤ◌, ◌⊎◌,
}
use hpa_plus.Forecast.Types.{Clock}
use hpa_plus.Validation.Basics.{effective_reliability, valid_reliability}
use hpa_plus.Quality.Types.{ErrorFloats, ForecastVerification, ReliabilityState}
use hpa_plus.Quality.Pending.{
  time_of, valid_verification, insert_point, sort_points, keep_last, has_start, scan_pending,
}
use hpa_plus.Quality.Monitor.{
  empty_state, valid_state, ensure, with_lead, add_point, record_forecast, insert_float,
  sort_floats, rank, bound, relative_error, calibrate, slide_baseline, shift_errors, shift_window,
  count_under, count_over, count_inside, breach, recover, judge, score, clear_stale, evaluate,
  accepts_observation, evaluate_match, observe_cpu, adapted, reliability_status, Policy,
}
use hpa_plus.Quality.Bounded.{IsBounded}
use hpa_plus.Quality.Invariant.{Reached, reached-IsBounded}
use hpa_plus.Quality.Scoring.{Passed}
use hpa_plus.Quality.Disjoint.{Follows, Holds, observations_disjoint}
use hpa_plus.Quality.Alarm.{Justified, observe_cpu_alarm}
use hpa_plus.Examples.Specs.{thousandths}

unfoldable monitored : Unit {0}
unfolding up down ◌+ℤ◌ ◌-ℤ◌ ◌*ℤ◌ quot same_text effective_reliability valid_reliability
    valid_verification insert_point sort_points keep_last has_start scan_pending empty_state
    valid_state ensure with_lead add_point record_forecast insert_float sort_floats rank bound
    relative_error calibrate slide_baseline shift_errors shift_window count_under count_over
    count_inside breach recover judge score clear_stale evaluate accepts_observation evaluate_match
    observe_cpu adapted reliability_status
monitored = tt

abbrev fixed : ErrorFloats
fixed = record {
  tests = thousandths;
  of_int = λ n. n *ℤ pos 1000;
  sub = λ a b. a -ℤ b;
  mul = λ a b. quot (a *ℤ b) (pos 1000);
  div = λ a b. quot (a *ℤ pos 1000) b;
  fmax = λ a b. if ltb_ℤ a b then b else a;
  abs = λ a. pos (up a + down a);
  neg = λ a. pos 0 -ℤ a;
  ceil = λ a. quot (a +ℤ pos 999) (pos 1000) *ℤ pos 1000;
  to_int = λ a. quot a (pos 1000);
}

-- Minutes.
abbrev pub clock : Clock
clock = record {
  parse = λ s.
      if same_text s "one"
      then some (pos 60000000000)
      else if same_text s "two"
      then some (pos 120000000000)
      else if same_text s "three"
      then some (pos 180000000000)
      else if same_text s "four"
      then some (pos 240000000000)
      else none;
  format = λ t. if t ==ℤ pos 180000000000 then "three" else "two";
}

abbrev policy : Policy fixed
policy = record {
  calibration_samples = pos 10;
  window = pos 3;
  breaches = pos 2;
  minimum_relative_error = pos 100;
}

abbrev forecast : ForecastVerification
forecast = record {
  at = "two";
  until = "three";
  issued_at = "one";
  cpu = pos 400;
  lead_milliseconds = pos 60000;
}

abbrev waiting : ReliabilityState ℤ
waiting = record_forecast fixed clock (empty_state fixed "f") (some forecast)

waiting_test : waiting.pending ≡ forecast ∷ []
unfolding monitored
waiting_test = refl

-- 500 millicores where 400 were forecast: an error of a fifth.
abbrev calibrated : ReliabilityState ℤ
calibrated = record waiting {
  pending = [];
  baseline = pos 200 ∷ [];
  error_bound = pos 200;
  last_observation_time = "two";
  last_evaluation_time = "two";
  last_interval_end = "three";
}

calibrated_test :
    observe_cpu fixed clock waiting policy (pos 120000000000) (pos 500) (pos 130000000000)
    ≡ some calibrated
unfolding monitored
calibrated_test = refl

reached-IsBounded_example : IsBounded fixed clock policy calibrated
unfolding monitored
reached-IsBounded_example = reached-IsBounded fixed clock policy refl (
    Reached.observed (pos 120000000000) (pos 500) (pos 130000000000)
      (Reached.recorded (some forecast) (Reached.fresh "f")) refl)

-- A forecast of the minute that follows, which is recorded after the first is scored.
abbrev following : ForecastVerification
following = record {
  at = "three";
  until = "four";
  issued_at = "two";
  cpu = pos 400;
  lead_milliseconds = pos 60000;
}

abbrev waiting_again : ReliabilityState ℤ
waiting_again = record_forecast fixed clock calibrated (some following)

abbrev scored_again : ReliabilityState ℤ
scored_again = record calibrated {
  baseline = pos 200 ∷ pos 200 ∷ [];
  last_observation_time = "three";
  last_evaluation_time = "three";
  last_interval_end = "four";
}

scored_again_test :
    observe_cpu fixed clock waiting_again policy (pos 180000000000) (pos 500) (pos 190000000000)
    ≡ some scored_again
unfolding monitored
scored_again_test = refl

observations_disjoint_example :
    Passed fixed clock policy waiting (pos 120000000000) (pos 500) (pos 130000000000) calibrated
    ⊎ Passed fixed clock policy waiting_again
        (pos 180000000000)
        (pos 500)
        (pos 190000000000)
        scored_again
    ⊎ ((p : ForecastVerification) × (q : ForecastVerification) × Memᴰ p waiting.pending
        × Holds fixed clock policy (pos 120000000000) p
        × ("three" ≡ p.until)
        × Memᴰ q waiting_again.pending
        × Holds fixed clock policy (pos 180000000000) q
        × ("four" ≡ q.until)
        × (time_of clock p.until ≤ℤ time_of clock q.at))
unfolding monitored
observations_disjoint_example =
    observations_disjoint fixed clock policy waiting calibrated waiting_again scored_again
      (pos 120000000000) (pos 500) (pos 130000000000) (pos 180000000000) (pos 500)
      (pos 190000000000) calibrated_test
      (Follows.recorded (some following) (Follows.unchanged calibrated) refl) scored_again_test

abbrev quick : Policy fixed
quick = record policy { calibration_samples = pos 1; window = pos 2 }

abbrev doubted : ReliabilityState ℤ
doubted = record waiting { baseline = pos 100 ∷ []; recent = pos 300 ∷ []; error_bound = pos 100 }

abbrev alarmed : ReliabilityState ℤ
alarmed = record doubted {
  pending = [];
  recent = pos 300 ∷ pos 200 ∷ [];
  last_observation_time = "two";
  last_evaluation_time = "two";
  last_interval_end = "three";
  degraded = true;
  adaptation_pending = true;
  adaptation = "Requested";
}

observe_cpu_alarm_example : Justified fixed (effective_reliability fixed.tests quick) alarmed
unfolding monitored
observe_cpu_alarm_example =
    observe_cpu_alarm fixed clock quick doubted (pos 120000000000) (pos 500) (pos 130000000000)
      {t = alarmed} refl refl
