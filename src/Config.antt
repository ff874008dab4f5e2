-- ===== src/Config.antt =====
-- config.go and health_checker.go: the configuration, its validation and defaults, and the checkers of the
-- failure percentages. An int or Duration is an int64 bit pattern (Base/Word), durations in nanoseconds.
pub mod Defaults
pub mod Thresholds
use j_circuit_breaker.Base.{
  ℕ, Bool, true, false, ◌&&◌, List, [], ◌∷◌, ◌++◌, Option, none, some, slt64, sle64, ◌==◌,
  if◌then◌else◌,
}
use j_circuit_breaker.Constants.{
  TransitionReason, invalid_transition, error_threshold_exceeded, timeout_threshold_exceeded,
  Problem, nil_config, window_size, timeout_threshold, minimum_num_calls, timeout_percent,
  error_threshold, time_in_open, num_calls_in_semi_open, Err, invalid_config,
}
use j_circuit_breaker.Window.{WindowSnapshot}

pub record MetricConfig : Type 0 where
  pub is_disabled : Bool

pub record Config : Type 0 where
  pub error_percent_threshold : ℕ
  pub timeout_percent_threshold : ℕ
  pub timeout_threshold : ℕ
  pub minimum_number_of_calls : ℕ
  pub number_of_calls_in_semi_open_state : ℕ
  pub wait_duration_in_open_state : ℕ
  pub max_concurrent_calls : ℕ
  pub max_wait_duration_millis : ℕ
  pub sliding_window_size : ℕ
  pub use_cached_time : Bool
  pub metric_config : MetricConfig

abbrev same_bool : Bool → Bool → Bool
same_bool true b = b
same_bool false true = false
same_bool false false = true

-- reflect.DeepEqual on two configurations: field by field.
unfoldable pub is_equal : Config → Config → Bool
is_equal c d =
    c.error_percent_threshold == d.error_percent_threshold
    && (c.timeout_percent_threshold == d.timeout_percent_threshold
        && (c.timeout_threshold == d.timeout_threshold
            && (c.minimum_number_of_calls == d.minimum_number_of_calls
                && (c.number_of_calls_in_semi_open_state == d.number_of_calls_in_semi_open_state
                    && (c.wait_duration_in_open_state == d.wait_duration_in_open_state
                        && (c.max_concurrent_calls == d.max_concurrent_calls
                            && (c.max_wait_duration_millis == d.max_wait_duration_millis
                                && (c.sliding_window_size == d.sliding_window_size
                                    && (same_bool c.use_cached_time d.use_cached_time
                                        && same_bool c.metric_config.is_disabled
                                            d.metric_config.is_disabled)))))))))

-- One `if` of IsValidConfig: the problem is appended where the test holds.
abbrev pub report : Bool → Problem → List Problem → List Problem
report test problem found = if test then found ++ problem ∷ [] else found

unfoldable pub problems : Config → List Problem
problems c =
    let p₁ = report (slt64 c.sliding_window_size 0) (window_size c.sliding_window_size) [] in
    let p₂ = report (slt64 c.timeout_threshold 0) (timeout_threshold c.timeout_threshold) p₁ in
    let p₃ =
      report (slt64 c.minimum_number_of_calls 0) (minimum_num_calls c.minimum_number_of_calls) p₂ in
    let p₄ =
      report (slt64 100 c.timeout_percent_threshold) (timeout_percent c.timeout_percent_threshold)
        p₃ in
    let p₅ =
      report (slt64 100 c.error_percent_threshold) (error_threshold c.error_percent_threshold) p₄ in
    let p₆ =
      report (slt64 c.wait_duration_in_open_state 0) (time_in_open c.wait_duration_in_open_state)
        p₅ in
    report (slt64 c.number_of_calls_in_semi_open_state 0)
      (num_calls_in_semi_open c.number_of_calls_in_semi_open_state) p₆

abbrev pub to_error : List Problem → Option Err
to_error [] = none
to_error (p ∷ ps) = some (invalid_config (p ∷ ps))

-- IsValidConfig; a nil pointer is `none`, and the result is nil or the error.
unfoldable pub is_valid_config : Option Config → Option Err
unfolding problems
is_valid_config none = some (invalid_config (nil_config ∷ []))
is_valid_config (some c) = to_error (problems c)

pub data HealthChecker : Type 0 where
  timeout_percent_checker error_percent_checker : HealthChecker

pub record Setting : Type 0 where
  pub config : Config
  pub open config use *
  pub checkers : List HealthChecker

unfoldable pub is_threshold_exceed :
    HealthChecker → WindowSnapshot → Config → Bool × TransitionReason
is_threshold_exceed timeout_percent_checker snapshot c =
    if sle64 c.timeout_percent_threshold snapshot.timeout_percent
    then (true, timeout_threshold_exceeded)
    else (false, invalid_transition)
is_threshold_exceed error_percent_checker snapshot c =
    if sle64 c.error_percent_threshold snapshot.error_percent
    then (true, error_threshold_exceeded)
    else (false, invalid_transition)

-- The loop of isThresholdsExceed: the first checker that finds its threshold exceeded decides.
unfoldable pub first_exceeded :
    List HealthChecker → WindowSnapshot → Config → Bool × TransitionReason
unfolding is_threshold_exceed
first_exceeded [] snapshot c = (false, invalid_transition)
first_exceeded (h ∷ hs) snapshot c =
    let (exceeded, reason) = is_threshold_exceed h snapshot c in
    let rest = first_exceeded hs snapshot c in if exceeded then (true, reason) else rest

unfoldable pub is_thresholds_exceed : Setting → WindowSnapshot → Bool × TransitionReason
unfolding first_exceeded
is_thresholds_exceed s snapshot = first_exceeded s.checkers snapshot s.config

unfoldable pub is_timeout : Setting → ℕ → Bool
is_timeout s duration =
    if slt64 0 s.config.timeout_threshold then sle64 s.config.timeout_threshold duration else false

unfoldable pub new_default_config : Config
new_default_config = record {
  error_percent_threshold = 50;
  timeout_percent_threshold = 0;
  timeout_threshold = 0;
  minimum_number_of_calls = 100;
  number_of_calls_in_semi_open_state = 100;
  wait_duration_in_open_state = 10_000_000_000;
  max_concurrent_calls = 10000;
  max_wait_duration_millis = 0;
  sliding_window_size = 10;
  use_cached_time = false;
  metric_config = record { is_disabled = false };
}

-- The checkers that fillDefaultsAndGetSetting appends, in its order.
unfoldable pub enabled_checkers : Config → List HealthChecker
enabled_checkers c =
    (if slt64 0 c.error_percent_threshold then error_percent_checker ∷ [] else [])
    ++ ((if slt64 0 c.timeout_percent_threshold then timeout_percent_checker ∷ [] else [])
        ++ (if c.error_percent_threshold == 0 && sle64 c.timeout_percent_threshold 0
            then error_percent_checker ∷ []
            else []))

-- A field of the default configuration is replaced where the test holds.
abbrev or_default : Bool → ℕ → ℕ → ℕ
or_default test value default = if test then value else default

abbrev is_set : ℕ → Bool
is_set n = if n == 0 then false else true

unfoldable pub filled : Config → Config
unfolding new_default_config
filled c =
    let d = new_default_config in
    record {
      error_percent_threshold =
          or_default (slt64 0 c.error_percent_threshold) c.error_percent_threshold
            d.error_percent_threshold;
      timeout_percent_threshold =
          or_default (slt64 0 c.timeout_percent_threshold) c.timeout_percent_threshold
            d.timeout_percent_threshold;
      timeout_threshold =
          or_default (is_set c.timeout_threshold) c.timeout_threshold d.timeout_threshold;
      minimum_number_of_calls =
          or_default (is_set c.minimum_number_of_calls) c.minimum_number_of_calls
            d.minimum_number_of_calls;
      number_of_calls_in_semi_open_state =
          or_default (is_set c.number_of_calls_in_semi_open_state)
            c.number_of_calls_in_semi_open_state d.number_of_calls_in_semi_open_state;
      wait_duration_in_open_state =
          or_default (is_set c.wait_duration_in_open_state) c.wait_duration_in_open_state
            d.wait_duration_in_open_state;
      max_concurrent_calls =
          or_default (is_set c.max_concurrent_calls) c.max_concurrent_calls d.max_concurrent_calls;
      max_wait_duration_millis =
          or_default (slt64 0 c.max_wait_duration_millis) c.max_wait_duration_millis
            d.max_wait_duration_millis;
      sliding_window_size =
          or_default (is_set c.sliding_window_size) c.sliding_window_size d.sliding_window_size;
      use_cached_time = c.use_cached_time;
      metric_config = c.metric_config;
    }

unfoldable pub fill_defaults_and_get_setting : Config → Setting
unfolding enabled_checkers filled
fill_defaults_and_get_setting c = record { config = filled c; checkers = enabled_checkers c }
