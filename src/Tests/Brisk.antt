-- ===== src/Tests/Brisk.antt =====
-- The calls and states of cb.go and entry.go on a breaker that a single failure opens.
use j_circuit_breaker.Base.{
  ◌≡◌, ◌<◌, refl, arith, [], ◌∷◌, Option, some, none, false, get_elem?, length,
}
use j_circuit_breaker.Breaker.{
  load_state, store_state, load_limiter, store_limiter, perform, Breaker,
}
use j_circuit_breaker.Breaker.Transition.{
  update_setting, change_state, get_state_snapshot, limiter_count, notify, on_request_complete,
  outcome_of, transition, force_open, force_close, reset,
}
use j_circuit_breaker.Config.{
  Config, Setting, is_timeout, is_equal, fill_defaults_and_get_setting, new_default_config,
  is_thresholds_exceed,
}
use j_circuit_breaker.Registry.{zero_breaker}
use j_circuit_breaker.Breaker.Enter.{
  transition_if, ask_state, ask_limiter, after_acquire, error_and_fallback, limiter_acquire,
  report_blocked, enter_with_fallback, Entry, Entering, entered,
}
use j_circuit_breaker.State.{
  should_state_transition, new_closed_state, acquire_permission, decide, get_window_snapshot,
  new_state_instance, checks_max_concurrency, mode_type, on_success, on_error, update_window,
  SemiOpen, closed_mode, open_mode, semi_open_mode, forced_open_mode, forced_closed_mode,
}
use j_circuit_breaker.Limiter.{
  Semaphore, weighted_semaphore, new_concurrency_limiter, acquire, release, notify_waiters,
}
use j_circuit_breaker.Clock.{
  unix_now, current_time, current_cached_time_seconds, Clock, Timer, new_timer, try_receive,
}
use j_circuit_breaker.Constants.{is_forced, same_state, valid_automatic, Err, foreign}
use j_circuit_breaker.Window.Metric.{
  time_metric, count_metric, update as metric_update, get_snapshot as metric_get_snapshot,
}
use j_circuit_breaker.Window.Time.{
  update as time_update, move_by, get_snapshot as time_get_snapshot, new_time_window, fill_buckets,
  TimeWindow, move_loop,
}
use j_circuit_breaker.Window.Count.{new_count_window}
use j_circuit_breaker.Events.{
  set_breaker_state_metric, set_thresholds_metrics, add_request_total_metric,
  set_window_snapshot_metrics,
}
use j_circuit_breaker.Breaker.Exit.{
  exit_with_fallback, after_record, report_exit, limiter_release, record_result,
}
use j_circuit_breaker.Window.{new_snapshot, add, percent}
use j_circuit_breaker.Breaker.Runs.{run, step}

abbrev pub at_hundred : Clock
at_hundred = record { now_in_ms = 100000; monotonic_nanos = 7000000000; wall_nanos = 100000000000 }

abbrev pub at_hundred_twenty : Clock
at_hundred_twenty = record {
  now_in_ms = 120000;
  monotonic_nanos = 27000000000;
  wall_nanos = 120000000000;
}

abbrev pub brisk : Config
brisk = record new_default_config {
  minimum_number_of_calls = 1;
  number_of_calls_in_semi_open_state = 2;
}

abbrev pub setting : Setting
setting = fill_defaults_and_get_setting brisk

abbrev pub made : Breaker
made = update_setting brisk at_hundred (zero_breaker (100 ∷ 98 ∷ []))

abbrev pub or_made {ℓ} : {A : Type ℓ} → Option (A × Breaker) → Breaker
or_made none = made
or_made (some (a, b)) = b

abbrev pub or_no_entry : Option (Entering × Breaker) → Entry
or_no_entry (some (entered e, b)) = e
or_no_entry _ = record {
  entry_time = record { unix_nanos = 0; monotonic = none };
  setting = setting;
  state = 0;
  concurrency_limiter = 0;
  factor = 0;
}

abbrev pub after_enter : Breaker
after_enter = or_made (enter_with_fallback none 1 at_hundred made)

abbrev pub entry : Entry
entry = or_no_entry (enter_with_fallback none 1 at_hundred made)

abbrev pub failure : Option Err
failure = some (foreign 3)

-- The failure opens the breaker.
abbrev pub broken : Breaker
broken = or_made (exit_with_fallback entry failure none 1 at_hundred after_enter)

-- A call after the wait in the state OPEN.
abbrev pub recovering : Breaker
recovering = or_made (enter_with_fallback none 1 at_hundred_twenty broken)

abbrev pub second_entry : Entry
second_entry = or_no_entry (enter_with_fallback none 1 at_hundred_twenty broken)

abbrev pub held_open : Breaker
held_open = or_made (force_open at_hundred after_enter)

abbrev pub held_closed : Breaker
held_closed = or_made (force_close at_hundred after_enter)

abbrev pub open_timer : Timer
open_timer = record { when = 17000000000; received = false }

abbrev pub semi_open_state : SemiOpen
semi_open_state = record { setting = setting; call_threshold = 2; call_count = 1 }

abbrev pub fresh_window : TimeWindow
fresh_window = new_time_window 10 100

abbrev pub held : Semaphore
held = record {
  size = 10000;
  cur = 1;
  max_wait_duration = 0;
  uncapped_concurrency_count = 1;
  waiters = [];
  granted = [];
  next_id = 0;
}

-- What the operations compute to.
pub returns :
    (enter_with_fallback none 1 at_hundred made ≡ some (entered entry, after_enter))
    × (exit_with_fallback entry failure none 1 at_hundred after_enter ≡ some (failure, broken))
    × (enter_with_fallback none 1 at_hundred_twenty broken
        ≡ some (entered second_entry, recovering))
    × (force_open at_hundred after_enter ≡ some (tt, held_open))
    × (force_close at_hundred after_enter ≡ some (tt, held_closed))
unfolding load_state store_state load_limiter store_limiter perform update_setting change_state
    get_state_snapshot limiter_count notify on_request_complete outcome_of transition force_open
    force_close reset is_equal fill_defaults_and_get_setting new_default_config zero_breaker
    transition_if ask_state ask_limiter after_acquire error_and_fallback limiter_acquire
    report_blocked enter_with_fallback should_state_transition new_closed_state acquire_permission
    decide get_window_snapshot new_state_instance checks_max_concurrency mode_type on_success
    on_error update_window new_concurrency_limiter acquire current_time current_cached_time_seconds
    is_forced same_state valid_automatic metric_get_snapshot time_get_snapshot new_time_window
    fill_buckets set_breaker_state_metric set_thresholds_metrics add_request_total_metric
    set_window_snapshot_metrics exit_with_fallback after_record report_exit limiter_release
    record_result run step metric_update time_update move_by unix_now new_snapshot add is_timeout
    is_thresholds_exceed percent new_timer try_receive move_loop release notify_waiters
    new_count_window
returns = (refl, refl, refl, refl, refl)

pub stored :
    (get_elem? after_enter.states entry.state
      ≡ some (record { window_metrics = time_metric fresh_window; mode = closed_mode setting }))
    × (get_elem? broken.states broken.state
        ≡ some (record { window_metrics = time_metric fresh_window; mode = open_mode open_timer }))
    × (get_elem? recovering.states second_entry.state
        ≡ some (record {
          window_metrics = count_metric (new_count_window 2);
          mode = semi_open_mode semi_open_state;
        }))
    × (get_elem? held_open.states held_open.state
        ≡ some
            (record { window_metrics = time_metric fresh_window; mode = forced_open_mode setting }))
    × (get_elem? held_closed.states held_closed.state
        ≡ some (record {
          window_metrics = time_metric fresh_window;
          mode = forced_closed_mode setting;
        }))
    × (get_elem? held_closed.limiters held_closed.concurrency_limiter
        ≡ some (weighted_semaphore held))
unfolding load_state store_state load_limiter store_limiter perform update_setting change_state
    get_state_snapshot limiter_count notify on_request_complete outcome_of transition force_open
    force_close reset is_equal fill_defaults_and_get_setting new_default_config zero_breaker
    transition_if ask_state ask_limiter after_acquire error_and_fallback limiter_acquire
    report_blocked enter_with_fallback should_state_transition new_closed_state acquire_permission
    decide get_window_snapshot new_state_instance checks_max_concurrency mode_type on_success
    on_error update_window new_concurrency_limiter acquire current_time current_cached_time_seconds
    is_forced same_state valid_automatic metric_get_snapshot time_get_snapshot new_time_window
    fill_buckets set_breaker_state_metric set_thresholds_metrics add_request_total_metric
    set_window_snapshot_metrics exit_with_fallback after_record report_exit limiter_release
    record_result run step metric_update time_update move_by unix_now new_snapshot add is_timeout
    is_thresholds_exceed percent new_timer try_receive move_loop release notify_waiters
    new_count_window
stored = (refl, refl, refl, refl, refl, refl)

pub inside :
    (after_enter.state ≡ entry.state)
    × (entry.state < length after_enter.states)
    × (entry.concurrency_limiter < length after_enter.limiters)
    × (recovering.state ≡ second_entry.state)
    × (second_entry.state < length recovering.states)
    × (second_entry.concurrency_limiter < length recovering.limiters)
unfolding load_state store_state load_limiter store_limiter perform update_setting change_state
    get_state_snapshot limiter_count notify on_request_complete outcome_of transition force_open
    force_close reset is_equal fill_defaults_and_get_setting new_default_config zero_breaker
    transition_if ask_state ask_limiter after_acquire error_and_fallback limiter_acquire
    report_blocked enter_with_fallback should_state_transition new_closed_state acquire_permission
    decide get_window_snapshot new_state_instance checks_max_concurrency mode_type on_success
    on_error update_window new_concurrency_limiter acquire current_time current_cached_time_seconds
    is_forced same_state valid_automatic metric_get_snapshot time_get_snapshot new_time_window
    fill_buckets set_breaker_state_metric set_thresholds_metrics add_request_total_metric
    set_window_snapshot_metrics exit_with_fallback after_record report_exit limiter_release
    record_result run step metric_update time_update move_by unix_now new_snapshot add is_timeout
    is_thresholds_exceed percent new_timer try_receive move_loop release notify_waiters
    new_count_window
inside = (refl, omega arith, omega arith, refl, omega arith, omega arith)
