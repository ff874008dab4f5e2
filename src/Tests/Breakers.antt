-- ===== src/Tests/Breakers.antt =====
-- cb.go and entry.go on concrete inputs.
use j_circuit_breaker.Base.{◌≡◌, refl, List, [], ◌∷◌, Option, some, none, true, get_elem?, ◌^◌, ◌-◌}
use j_circuit_breaker.Breaker.{
  load_state, store_state, load_limiter, store_limiter, perform, Breaker,
}
use j_circuit_breaker.Breaker.Transition.{
  update_config, update_setting, change_state, get_state_snapshot, limiter_count, notify,
  on_request_complete, outcome_of, transition, force_open, force_close, reset,
}
use j_circuit_breaker.Config.{
  Config, is_valid_config, is_timeout, is_equal, fill_defaults_and_get_setting, new_default_config,
}
use j_circuit_breaker.Registry.{zero_breaker}
use j_circuit_breaker.Breaker.Enter.{
  transition_if, ask_state, ask_limiter, after_acquire, error_and_fallback, limiter_acquire,
  report_blocked, enter_with_fallback, Entry, Entering, entered,
}
use j_circuit_breaker.State.{
  should_state_transition, new_closed_state, acquire_permission, decide, get_window_snapshot,
  new_state_instance, checks_max_concurrency, mode_type, on_success, on_error, update_window,
}
use j_circuit_breaker.Limiter.{new_concurrency_limiter, acquire}
use j_circuit_breaker.Clock.{unix_now, current_time, current_cached_time_seconds, Clock}
use j_circuit_breaker.Constants.{
  is_forced, same_state, valid_automatic, closed, forced_open, forced_closed,
}
use j_circuit_breaker.Window.Metric.{update as metric_update, get_snapshot as metric_get_snapshot}
use j_circuit_breaker.Window.Time.{
  update as time_update, move_by, get_snapshot as time_get_snapshot, new_time_window, fill_buckets,
}
use j_circuit_breaker.Events.{
  set_breaker_state_metric, set_thresholds_metrics, add_request_total_metric,
  set_window_snapshot_metrics,
}
use j_circuit_breaker.Breaker.Exit.{
  protect_with_context, panics, returns, exit_with_fallback, after_record, report_exit,
  limiter_release, record_result,
}
use j_circuit_breaker.Breaker.Runs.{
  run, step, Section, enters, exits, is_forced_state, forced_stays,
}
use j_circuit_breaker.Window.{new_snapshot, add}
use j_circuit_breaker.Breaker.Panics.{panic_as_success}
use j_circuit_breaker.Breaker.Updates.{update_setting_again, update_config_disabled}
use j_circuit_breaker.Breaker.Edges.{left, kinds, Changed}
use j_circuit_breaker.Breaker.Automatic.{Automatic}
use j_circuit_breaker.Breaker.Moves.{enter_moves, exit_moves, operator_moves}

abbrev at_hundred : Clock
at_hundred = record { now_in_ms = 100000; monotonic_nanos = 7000000000; wall_nanos = 100000000000 }

-- A breaker with the default configuration.
abbrev made : Breaker
made = update_setting new_default_config at_hundred (zero_breaker (100 ∷ 98 ∷ []))

abbrev or_made {ℓ} : {A : Type ℓ} → Option (A × Breaker) → Breaker
or_made none = made
or_made (some (a, b)) = b

abbrev after_enter : Breaker
after_enter = or_made (enter_with_fallback none 1 at_hundred made)

abbrev or_no_entry : Option (Entering × Breaker) → Entry
or_no_entry (some (entered e, b)) = e
or_no_entry _ = record {
  entry_time = record { unix_nanos = 0; monotonic = none };
  setting = made.setting;
  state = 0;
  concurrency_limiter = 0;
  factor = 0;
}

abbrev entry : Entry
entry = or_no_entry (enter_with_fallback none 1 at_hundred made)

abbrev after_exit : Breaker
after_exit = or_made (exit_with_fallback entry none none 1 at_hundred after_enter)

abbrev held_open : Breaker
held_open = or_made (force_open at_hundred after_enter)

abbrev held_closed : Breaker
held_closed = or_made (force_close at_hundred after_enter)

abbrev started_again : Breaker
started_again = or_made (reset at_hundred after_enter)

abbrev sections : List (Section × Clock)
sections = (enters none 1, at_hundred) ∷ (exits entry none none 1, at_hundred) ∷ []

abbrev or_held : Option Breaker → Breaker
or_held none = held_open
or_held (some b) = b

abbrev after_sections : Breaker
after_sections = or_held (run sections held_open)

-- A negative percentage switches the error check off.
abbrev errors_off : Config
errors_off = record new_default_config { error_percent_threshold = 2 ^ 64 - 1 }

-- What the operations compute to.
computed :
    (enter_with_fallback none 1 at_hundred made ≡ some (entered entry, after_enter))
    × (exit_with_fallback entry none none 1 at_hundred after_enter ≡ some (none, after_exit))
    × (force_open at_hundred after_enter ≡ some (tt, held_open))
    × (force_close at_hundred after_enter ≡ some (tt, held_closed))
    × (reset at_hundred after_enter ≡ some (tt, started_again))
    × (run sections held_open ≡ some after_sections)
    × (get_elem? (kinds held_open) held_open.state ≡ some forced_open)
    × (made.setting
        ≡ fill_defaults_and_get_setting (record errors_off { error_percent_threshold = 50 }))
unfolding load_state store_state load_limiter store_limiter perform update_setting change_state
    get_state_snapshot limiter_count notify on_request_complete outcome_of transition force_open
    force_close reset is_equal fill_defaults_and_get_setting new_default_config zero_breaker
    transition_if ask_state ask_limiter after_acquire error_and_fallback limiter_acquire
    report_blocked enter_with_fallback should_state_transition new_closed_state acquire_permission
    decide get_window_snapshot new_state_instance checks_max_concurrency mode_type on_success
    on_error update_window new_concurrency_limiter acquire current_time current_cached_time_seconds
    is_forced same_state valid_automatic metric_get_snapshot time_get_snapshot new_time_window
    fill_buckets set_breaker_state_metric set_thresholds_metrics add_request_total_metric
    set_window_snapshot_metrics exit_with_fallback after_record report_exit limiter_release
    record_result run step metric_update time_update move_by unix_now new_snapshot add is_timeout
computed = (refl, refl, refl, refl, refl, refl, refl, refl)

enter_moves_example : Automatic made.state made after_enter
enter_moves_example = enter_moves none 1 at_hundred made after_enter (entered entry) computed.0

exit_moves_example : Automatic entry.state after_enter after_exit
exit_moves_example = exit_moves entry none none 1 at_hundred after_enter after_exit none computed.1

operator_moves_example :
    Changed forced_open after_enter held_open.state held_open
    × Changed forced_closed after_enter held_closed.state held_closed
    × Changed closed after_enter started_again.state started_again
operator_moves_example =
    operator_moves at_hundred after_enter held_open held_closed started_again tt computed.2
      computed.3 computed.4

forced_held : is_forced_state forced_open ≡ true
unfolding is_forced_state
forced_held = refl

forced_stays_example :
    (after_sections.state ≡ held_open.state) × (kinds after_sections ≡ kinds held_open)
forced_stays_example =
    forced_stays forced_open sections held_open after_sections forced_held computed.6 computed.5

abbrev fresh : Breaker
fresh = zero_breaker (100 ∷ 98 ∷ [])

update_setting_again_example : update_setting new_default_config at_hundred made ≡ made
update_setting_again_example = update_setting_again new_default_config at_hundred at_hundred fresh

errors_off_valid : is_valid_config (some errors_off) ≡ none
unfolding is_valid_config new_default_config
errors_off_valid = refl

update_config_disabled_example : update_config (some errors_off) at_hundred made ≡ (none, made)
update_config_disabled_example =
    update_config_disabled errors_off at_hundred made refl errors_off_valid computed.7

panic_as_success_example :
    left (protect_with_context [] panics at_hundred at_hundred made)
    ≡ left (protect_with_context [] (returns none) at_hundred at_hundred made)
panic_as_success_example = panic_as_success [] at_hundred at_hundred made
