-- ===== src/Config/Defaults.antt =====
-- fillDefaultsAndGetSetting: what the setting of a valid configuration is like, and which configurations
-- DeepEqual cannot tell apart after it.
use j_circuit_breaker.Base.{
  ◌^◌, ◌≤◌, ◌<◌, ◌≡◌, ◌⊎◌, refl, ◌↔◌, Bool, true, false, List, [], ◌∷◌, none, some, arith, slt64,
}
use j_circuit_breaker.Constants.{
  Problem, window_size, timeout_threshold, minimum_num_calls, timeout_percent, error_threshold,
  time_in_open, num_calls_in_semi_open,
}
use j_circuit_breaker.Config.{
  report, to_error, Config, error_percent_checker, is_equal, is_valid_config, problems, filled,
  enabled_checkers,
}

-- The fields are int64 bit patterns.
pub record Fits (c : Config) : Type 0 where
  pub error_percent : c.error_percent_threshold < 2 ^ 64
  pub timeout_percent : c.timeout_percent_threshold < 2 ^ 64
  pub timeout : c.timeout_threshold < 2 ^ 64
  pub minimum : c.minimum_number_of_calls < 2 ^ 64
  pub semi_open : c.number_of_calls_in_semi_open_state < 2 ^ 64
  pub wait : c.wait_duration_in_open_state < 2 ^ 64
  pub concurrent : c.max_concurrent_calls < 2 ^ 64
  pub max_wait : c.max_wait_duration_millis < 2 ^ 64
  pub window : c.sliding_window_size < 2 ^ 64

-- What a breaker relies on: the window's size and the two numbers of calls are positive, durations are not negative,
-- percentages lie between 0 and 100, and that of errors is positive. The number of concurrent calls is not 0; a negative one
-- stands for no limiter.
pub record IsUsable (c : Config) : Type 0 where
  pub error_percent_pos : 0 < c.error_percent_threshold
  pub error_percent_le : c.error_percent_threshold ≤ 100
  pub timeout_percent_le : c.timeout_percent_threshold ≤ 100
  pub timeout_nonneg : c.timeout_threshold < 2 ^ 63
  pub minimum_pos : 0 < c.minimum_number_of_calls
  pub minimum_range : c.minimum_number_of_calls < 2 ^ 63
  pub semi_open_pos : 0 < c.number_of_calls_in_semi_open_state
  pub semi_open_range : c.number_of_calls_in_semi_open_state < 2 ^ 63
  pub wait_pos : 0 < c.wait_duration_in_open_state
  pub wait_range : c.wait_duration_in_open_state < 2 ^ 63
  pub concurrent_nonzero : 0 < c.max_concurrent_calls
  pub max_wait_range : c.max_wait_duration_millis < 2 ^ 63
  pub window_pos : 0 < c.sliding_window_size
  pub window_range : c.sliding_window_size < 2 ^ 63

-- What IsValidConfig accepts.
record Accepted (c : Config) : Type 0 where
  window : slt64 c.sliding_window_size 0 ≡ false
  timeout : slt64 c.timeout_threshold 0 ≡ false
  minimum : slt64 c.minimum_number_of_calls 0 ≡ false
  timeout_percent : slt64 100 c.timeout_percent_threshold ≡ false
  error_percent : slt64 100 c.error_percent_threshold ≡ false
  wait : slt64 c.wait_duration_in_open_state 0 ≡ false
  semi_open : slt64 c.number_of_calls_in_semi_open_state 0 ≡ false

report-nil :
    (test : Bool) (problem : Problem) (found : List Problem)
    → report test problem found ≡ []
    → (test ≡ false) × (found ≡ [])
report-nil true problem [] h = cc
report-nil true problem (p ∷ found) h = cc
report-nil false problem found h = (refl, h)

to_error-none : (ps : List Problem) → to_error ps ≡ none → ps ≡ []
to_error-none [] h = refl
to_error-none (p ∷ ps) h = cc

accepted : (c : Config) → is_valid_config (some c) ≡ none → Accepted c
unfolding is_valid_config
accepted c h =
    let (r₇, e₆) =
      report-nil (slt64 c.number_of_calls_in_semi_open_state 0)
        (num_calls_in_semi_open c.number_of_calls_in_semi_open_state) _
        (to_error-none (problems c) h) in
    let (r₆, e₅) =
      report-nil (slt64 c.wait_duration_in_open_state 0)
        (time_in_open c.wait_duration_in_open_state) _ e₆ in
    let (r₅, e₄) =
      report-nil (slt64 100 c.error_percent_threshold) (error_threshold c.error_percent_threshold) _
        e₅ in
    let (r₄, e₃) =
      report-nil (slt64 100 c.timeout_percent_threshold)
        (timeout_percent c.timeout_percent_threshold) _ e₄ in
    let (r₃, e₂) =
      report-nil (slt64 c.minimum_number_of_calls 0) (minimum_num_calls c.minimum_number_of_calls) _
        e₃ in
    let (r₂, e₁) =
      report-nil (slt64 c.timeout_threshold 0) (timeout_threshold c.timeout_threshold) _ e₂ in
    let (r₁, e₀) =
      report-nil (slt64 c.sliding_window_size 0) (window_size c.sliding_window_size) [] e₁ in
    record {
      window = r₁;
      timeout = r₂;
      minimum = r₃;
      timeout_percent = r₄;
      error_percent = r₅;
      wait = r₆;
      semi_open = r₇;
    }

-- The window's size, the two numbers of calls, the timeout and the wait in the state OPEN are not negative, and the percentages
-- are at most 100; a negative one switches its check off. Of the concurrent calls and their wait anything is accepted.
pub record InRange (c : Config) : Type 0 where
  pub window : c.sliding_window_size < 2 ^ 63
  pub timeout : c.timeout_threshold < 2 ^ 63
  pub minimum : c.minimum_number_of_calls < 2 ^ 63
  pub timeout_percent : (c.timeout_percent_threshold ≤ 100) ⊎ (2 ^ 63 ≤ c.timeout_percent_threshold)
  pub error_percent : (c.error_percent_threshold ≤ 100) ⊎ (2 ^ 63 ≤ c.error_percent_threshold)
  pub wait : c.wait_duration_in_open_state < 2 ^ 63
  pub semi_open : c.number_of_calls_in_semi_open_state < 2 ^ 63

Accepted-InRange : (c : Config) → Fits c → Accepted c → InRange c
Accepted-InRange c f a = record {
  window = ground (arith, f, a.window);
  timeout = ground (arith, f, a.timeout);
  minimum = ground (arith, f, a.minimum);
  timeout_percent = ground (arith, f, a.timeout_percent);
  error_percent = ground (arith, f, a.error_percent);
  wait = ground (arith, f, a.wait);
  semi_open = ground (arith, f, a.semi_open);
}

InRange-Accepted : (c : Config) → Fits c → InRange c → Accepted c
InRange-Accepted c f a = record {
  window = ground (arith, f, a.window);
  timeout = ground (arith, f, a.timeout);
  minimum = ground (arith, f, a.minimum);
  timeout_percent = ground (arith, f, a.timeout_percent);
  error_percent = ground (arith, f, a.error_percent);
  wait = ground (arith, f, a.wait);
  semi_open = ground (arith, f, a.semi_open);
}

Accepted-valid : (c : Config) → Accepted c → is_valid_config (some c) ≡ none
unfolding is_valid_config problems
Accepted-valid c a =
    ground (
      arith, a.window, a.timeout, a.minimum, a.timeout_percent, a.error_percent, a.wait,
      a.semi_open,
    )

-- IsValidConfig accepts a configuration of int64 fields exactly when its window size, timeout
-- threshold, minimum number of calls, wait in OPEN and number of calls in SEMI_OPEN are not negative
-- and its two percentages are at most 100, or negative; whatever its maximum of concurrent calls and
-- the wait for the limiter, of which negative ones are accepted too.
pub is_valid_config_iff : (c : Config) → Fits c → (is_valid_config (some c) ≡ none) ↔ InRange c
is_valid_config_iff c f =
    (λ h. Accepted-InRange c f (accepted c h), λ r. Accepted-valid c (InRange-Accepted c f r))

-- The setting of a configuration of int64 fields that IsValidConfig accepts is usable: the window's
-- size, the minimum number of calls, the number of calls in SEMI_OPEN and the wait in OPEN are
-- positive, the timeout threshold and the wait for the limiter are not negative, the percentages lie
-- between 0 and 100, that of errors is positive, and the number of concurrent calls is not 0 (a
-- negative one, which switches the limiter off, is kept).
pub filled-IsUsable : (c : Config) → Fits c → is_valid_config (some c) ≡ none → IsUsable (filled c)
unfolding filled
filled-IsUsable c f h = let a = accepted c h in ground (arith, a)

-- DeepEqual decides equality.
pub is_equal_iff : (c d : Config) → (is_equal c d ≡ true) ↔ (c ≡ d)
unfolding is_equal
is_equal_iff c d = ground arith

-- A configuration that switches the error check off is filled in to the very same one as if it had set the
-- default threshold, with another list of checkers.
pub filled_disabled :
    (c : Config)
    → slt64 c.error_percent_threshold 0 ≡ true
    → (filled c ≡ filled (record c { error_percent_threshold = 50 }))
      × (enabled_checkers (record c { error_percent_threshold = 50 })
          ≡ error_percent_checker ∷ enabled_checkers c)
unfolding filled enabled_checkers
filled_disabled c h = (ground arith, ground arith)
