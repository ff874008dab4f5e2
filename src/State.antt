-- ===== src/State.antt =====
-- state.go: the five states of a breaker as objects, and the operations of iState. An operation on a state
-- takes the object and returns it; `none` is a panic of its window. openState keeps no setting.
pub mod Decisions
pub mod Permits
use j_circuit_breaker.Base.{
  ℕ, ◌/◌, Bool, true, false, Option, none, some, ◌>>=◌, add32, sub32, to_uint32, slt64, sle64, ltb,
  if◌then◌else◌,
}
use j_circuit_breaker.Constants.{
  State, closed, opened, semi_open, forced_open, forced_closed, TransitionReason,
  invalid_transition, wait_in_open_elapsed, failure_percents_below_thresholds, CircuitError,
  err_circuit_open_state, err_circuit_forced_open_state, err_max_permitted_calls_in_semi_open_state,
}
use j_circuit_breaker.Config.{Setting, is_thresholds_exceed}
use j_circuit_breaker.Clock.{
  Clock, Timer, unix_now, current_cached_time_seconds, new_timer, try_receive,
}
use j_circuit_breaker.Window.{
  WindowOutcome, WindowSnapshot, success_outcome, error_outcome, timeout_success_outcome,
  timeout_error_outcome,
}
use j_circuit_breaker.Window.Count.{new_count_window}
use j_circuit_breaker.Window.Time.{new_time_window}
use j_circuit_breaker.Window.Metric
use j_circuit_breaker.Window.Metric.{WindowMetric, count_metric, time_metric}

pub data TransitionType : Type 0 where
  on_request_start on_request_end : TransitionType

pub record SemiOpen : Type 0 where
  pub setting : Setting
  pub call_threshold : ℕ
  pub call_count : ℕ

-- What a state has beside its window.
pub data Mode : Type 0 where
  closed_mode : Setting → Mode
  open_mode : Timer → Mode
  semi_open_mode : SemiOpen → Mode
  forced_closed_mode : Setting → Mode
  forced_open_mode : Setting → Mode

pub record StateObject : Type 0 where
  pub window_metrics : WindowMetric
  pub mode : Mode

-- newTimeWindowMetricWithTime(uint32(setting.SlidingWindowSize), time.Now().Unix())
unfoldable pub new_window : Setting → Clock → WindowMetric
new_window s clock =
    time_metric (new_time_window (to_uint32 s.config.sliding_window_size) (unix_now clock))

unfoldable pub new_closed_state : Setting → Clock → StateObject
unfolding new_window
new_closed_state s clock = record { window_metrics = new_window s clock; mode = closed_mode s }

unfoldable pub new_open_state : Setting → Clock → StateObject
unfolding new_window
new_open_state s clock = record {
  window_metrics = new_window s clock;
  mode = open_mode (new_timer clock s.config.wait_duration_in_open_state);
}

unfoldable pub new_semi_open_state : Setting → StateObject
new_semi_open_state s =
    let num_calls = to_uint32 s.config.number_of_calls_in_semi_open_state in
    record {
      window_metrics = count_metric (new_count_window num_calls);
      mode = semi_open_mode (record { setting = s; call_threshold = num_calls; call_count = 0 });
    }

unfoldable pub new_forced_closed_state : Setting → Clock → StateObject
unfolding new_window
new_forced_closed_state s clock = record {
  window_metrics = new_window s clock;
  mode = forced_closed_mode s;
}

unfoldable pub new_forced_open_state : Setting → Clock → StateObject
unfolding new_window
new_forced_open_state s clock = record {
  window_metrics = new_window s clock;
  mode = forced_open_mode s;
}

unfoldable pub new_state_instance : State → Setting → Clock → StateObject
unfolding new_closed_state new_open_state new_semi_open_state new_forced_closed_state
    new_forced_open_state
new_state_instance closed s clock = new_closed_state s clock
new_state_instance opened s clock = new_open_state s clock
new_state_instance semi_open s clock = new_semi_open_state s
new_state_instance forced_open s clock = new_forced_open_state s clock
new_state_instance forced_closed s clock = new_forced_closed_state s clock

unfoldable pub mode_type : Mode → State
mode_type (closed_mode s) = closed
mode_type (open_mode t) = opened
mode_type (semi_open_mode s) = semi_open
mode_type (forced_closed_mode s) = forced_closed
mode_type (forced_open_mode s) = forced_open

abbrev pub get_state_type : StateObject → State
get_state_type o = mode_type o.mode

unfoldable pub checks_max_concurrency : Mode → Bool
checks_max_concurrency (forced_closed_mode s) = false
checks_max_concurrency (forced_open_mode s) = false
checks_max_concurrency _ = true

abbrev pub should_check_for_max_concurrency : StateObject → Bool
should_check_for_max_concurrency o = checks_max_concurrency o.mode

unfoldable pub acquire_mode : Mode → Option CircuitError × Mode
acquire_mode (closed_mode s) = (none, closed_mode s)
acquire_mode (open_mode t) = (some err_circuit_open_state, open_mode t)
acquire_mode (semi_open_mode s) =
    if ltb s.call_count s.call_threshold
    then (none, semi_open_mode (record s { call_count = add32 s.call_count 1 }))
    else (some err_max_permitted_calls_in_semi_open_state, semi_open_mode s)
acquire_mode (forced_closed_mode s) = (none, forced_closed_mode s)
acquire_mode (forced_open_mode s) = (some err_circuit_forced_open_state, forced_open_mode s)

unfoldable pub acquire_permission : StateObject → Option CircuitError × StateObject
unfolding acquire_mode
acquire_permission o = let (e, m) = acquire_mode o.mode in (e, record o { mode = m })

unfoldable pub release_mode : Mode → Mode
release_mode (semi_open_mode s) = semi_open_mode (record s { call_count = sub32 s.call_count 1 })
release_mode m = m

unfoldable pub release_permission : StateObject → StateObject
unfolding release_mode
release_permission o = record o { mode = release_mode o.mode }

-- The states that record outcomes; the others only read their window.
unfoldable pub records_outcomes : Mode → Bool
records_outcomes (open_mode t) = false
records_outcomes (forced_open_mode s) = false
records_outcomes _ = true

unfoldable pub get_window_snapshot : StateObject → Clock → Option (StateObject × WindowSnapshot)
get_window_snapshot o clock = do
  (w, snapshot) ← Metric.get_snapshot o.window_metrics (current_cached_time_seconds clock)
  some (record o { window_metrics = w }, snapshot)

unfoldable pub update_window :
    StateObject → Clock → WindowOutcome → Option (StateObject × WindowSnapshot)
update_window o clock outcome = do
  (w, snapshot) ← Metric.update o.window_metrics (current_cached_time_seconds clock) outcome
  some (record o { window_metrics = w }, snapshot)

unfoldable pub on_error : StateObject → Clock → Bool → Option (StateObject × WindowSnapshot)
unfolding records_outcomes
on_error o clock is_timeout =
    if records_outcomes o.mode
    then update_window o clock (if is_timeout then timeout_error_outcome else error_outcome)
    else get_window_snapshot o clock

unfoldable pub on_success : StateObject → Clock → Bool → Option (StateObject × WindowSnapshot)
unfolding records_outcomes
on_success o clock is_timeout =
    if records_outcomes o.mode
    then update_window o clock (if is_timeout then timeout_success_outcome else success_outcome)
    else get_window_snapshot o clock

unfoldable pub min_int : ℕ → ℕ → ℕ
min_int a b = if slt64 a b then a else b

-- The result (State, transitionReason, bool): the state to go to and the reason, or false.
abbrev pub Decision : Type 0
Decision = Option (State × TransitionReason)

abbrev if_exceeded : Bool × TransitionReason → Decision → Decision
if_exceeded (true, reason) otherwise = some (opened, reason)
if_exceeded (false, reason) otherwise = otherwise

unfoldable pub decide : Mode → WindowSnapshot → TransitionType → Clock → Decision × Mode
unfolding min_int
decide (closed_mode s) snapshot on_request_end clock = (
  if sle64 s.config.minimum_number_of_calls snapshot.total_count
      then if_exceeded (is_thresholds_exceed s snapshot) none
      else none,
  closed_mode s,
)
decide (open_mode t) snapshot on_request_start clock =
    let (fired, t') = try_receive clock t in
    if fired then (some (semi_open, wait_in_open_elapsed), open_mode t') else (none, open_mode t')
decide (semi_open_mode s) snapshot on_request_end clock = (
  if sle64
        (min_int s.setting.config.minimum_number_of_calls
          s.setting.config.number_of_calls_in_semi_open_state)
        snapshot.total_count
      then if_exceeded (is_thresholds_exceed s.setting snapshot)
          (some (closed, failure_percents_below_thresholds))
      else none,
  semi_open_mode s,
)
decide m _ _ clock = (none, m)

unfoldable pub should_state_transition :
    StateObject → WindowSnapshot → TransitionType → Clock → Decision × StateObject
unfolding decide
should_state_transition o snapshot when clock =
    let (d, m) = decide o.mode snapshot when clock in (d, record o { mode = m })
