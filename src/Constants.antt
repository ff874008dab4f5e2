-- ===== src/Constants.antt =====
-- constant.go and the states of state.go: the enumerations, the errors, and which transitions may happen
-- on their own. `Open` is `opened` here, since `open` is a keyword.
use Prim.Native.String.{String}
use j_circuit_breaker.Base.{ℕ, Bool, true, false, List}

pub data State : Type 0 where
  closed opened semi_open forced_open forced_closed : State

pub data TransitionReason : Type 0 where
  invalid_transition error_threshold_exceeded timeout_threshold_exceeded : TransitionReason
  wait_in_open_elapsed failure_percents_below_thresholds : TransitionReason
  manual_transition reset : TransitionReason

-- The CircuitError values of the package.
pub data CircuitError : Type 0 where
  err_max_concurrency err_circuit_open_state err_circuit_forced_open_state : CircuitError
  err_max_permitted_calls_in_semi_open_state err_invalid_config err_breaker_not_found : CircuitError

-- The parts of the message of an invalid configuration, each with the value that it prints.
pub data Problem : Type 0 where
  nil_config : Problem
  window_size timeout_threshold minimum_num_calls timeout_percent error_threshold : ℕ → Problem
  time_in_open num_calls_in_semi_open : ℕ → Problem

-- An error value: one of the package's, one that wraps ErrInvalidConfig (with the name that UpdateConfigs
-- puts in front, if any, left out), or one of the caller's.
pub data Err : Type 0 where
  circuit : CircuitError → Err
  invalid_config : List Problem → Err
  foreign : ℕ → Err

unfoldable pub is_circuit_open : CircuitError → Bool
is_circuit_open err_circuit_open_state = true
is_circuit_open err_circuit_forced_open_state = true
is_circuit_open _ = false

unfoldable pub message : CircuitError → String
message err_max_concurrency = "max_concurrency"
message err_circuit_open_state = "circuit_open"
message err_circuit_forced_open_state = "circuit_forced_open"
message err_max_permitted_calls_in_semi_open_state = "max_permitted_in_semi_open"
message err_invalid_config = "invalid_circuitbreaker_config"
message err_breaker_not_found = "breaker_not_found"

-- The map validAutomaticStateTransitions; a missing key reads false.
unfoldable pub valid_automatic : State → State → Bool
valid_automatic closed opened = true
valid_automatic opened semi_open = true
valid_automatic semi_open closed = true
valid_automatic semi_open opened = true
valid_automatic _ _ = false

-- `reason == manualTransition || reason == reset`
unfoldable pub is_forced : TransitionReason → Bool
is_forced manual_transition = true
is_forced reset = true
is_forced _ = false

unfoldable pub same_state : State → State → Bool
same_state closed closed = true
same_state opened opened = true
same_state semi_open semi_open = true
same_state forced_open forced_open = true
same_state forced_closed forced_closed = true
same_state _ _ = false

unfoldable pub state_name : State → String
state_name closed = "CLOSED"
state_name opened = "OPEN"
state_name semi_open = "SEMI_OPEN"
state_name forced_open = "FORCED_OPEN"
state_name forced_closed = "FORCED_CLOSED"

unfoldable pub reason_name : TransitionReason → String
reason_name invalid_transition = "invalid_transition"
reason_name error_threshold_exceeded = "error_threshold_exceed"
reason_name timeout_threshold_exceeded = "timeout_threshold_exceed"
reason_name wait_in_open_elapsed = "wait_in_open_elapsed"
reason_name failure_percents_below_thresholds = "failure_percents_below_thresholds"
reason_name manual_transition = "manual_transition"
reason_name reset = "reset"
