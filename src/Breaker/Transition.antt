-- ===== src/Breaker/Transition.antt =====
-- cb.go: StateTransition, OnRequestComplete and the snapshot of a state, updateSetting, and the operations
-- that force a transition.
use j_circuit_breaker.Base.{
  ℕ, Bool, not, ◌||◌, ◌&&◌, [], ◌∷◌, ◌++◌, Option, none, some, length, mul64, ◌==◌, if◌then◌else◌,
}
use j_circuit_breaker.Constants.{
  State, closed, forced_open, forced_closed, TransitionReason, manual_transition, valid_automatic,
  is_forced, Err, circuit, err_max_concurrency, err_circuit_open_state,
  err_circuit_forced_open_state, err_max_permitted_calls_in_semi_open_state,
}
use j_circuit_breaker.Config.{Config, is_equal, is_valid_config, fill_defaults_and_get_setting}
use j_circuit_breaker.Clock.{Clock, Time, current_time, nanos_per_millis}
use j_circuit_breaker.Limiter.{Limiter, no_op_limiter, weighted_semaphore, new_concurrency_limiter}
use j_circuit_breaker.Limiter
use j_circuit_breaker.State.{
  new_state_instance, new_closed_state, get_state_type, should_check_for_max_concurrency,
  get_window_snapshot,
}
use j_circuit_breaker.Events.{
  Outcome, success_outcome, success_timeout_outcome, error_outcome, error_timeout_outcome,
  max_concurrency_rejected_outcome, max_permitted_calls_in_semi_open_rejected_outcome,
  open_state_rejected_outcome, forced_open_state_rejected_outcome, RequestStats, StateSnapshot,
  state_transition, on_request_complete_event, emit, Event, set_breaker_state_metric,
  set_thresholds_metrics, add_request_total_metric, set_window_snapshot_metrics,
}
use j_circuit_breaker.Breaker.{
  Breaker, M, ◌>>=◌, ◌>>◌, return, lift, get, put, load_state, store_state, load_limiter, perform,
  when,
}

unfoldable pub limiter_count : Limiter → Bool → ℕ
limiter_count no_op_limiter is_capped = 0
limiter_count (weighted_semaphore w) is_capped = Limiter.get_count w is_capped

-- getStateSnapshot, which moves the state's window.
unfoldable pub get_state_snapshot : ℕ → ℕ → Clock → M StateSnapshot
unfolding limiter_count load_state store_state load_limiter
get_state_snapshot state limiter clock = do
  o ← load_state state
  (o', snapshot) ← lift (get_window_snapshot o clock)
  store_state state o'
  l ← load_limiter limiter
  return (record {
    window_snapshot = snapshot;
    num_concurrent_calls = limiter_count l (should_check_for_max_concurrency o);
  })

-- The listener's call, if one is registered.
unfoldable pub notify : Event → M (Unit {0})
unfolding perform
notify event b = elim b.listener [
  | none ↦ some (tt, b)
  | some callback ↦ perform (emit callback event ∷ []) b
]

-- The part of StateTransition below its guards.
unfoldable pub change_state : State → Clock → M ℕ
unfolding perform notify
change_state to clock = do
  b ← get
  old ← (load_state b.state)
  snapshot ← get_state_snapshot b.state b.concurrency_limiter clock
  when (not b.setting.config.metric_config.is_disabled)
      (perform (set_breaker_state_metric b.name to))
  b' ← get
  put (record b' {
    state = length b'.states;
    states = b'.states ++ new_state_instance to b.setting clock ∷ [];
  })
  notify (
      state_transition (record {
        prev_state = get_state_type old;
        current_state = to;
        name = b.name;
        creation_time = current_time clock b.setting.config.use_cached_time;
        state_snapshot = snapshot;
      }))
  return (length b'.states)

-- StateTransition, whose result is the pointer to the state with which the caller goes on.
unfoldable pub transition : ℕ → State → TransitionReason → Clock → M ℕ
transition from to reason clock = do
  b ← get
  o ← load_state from
  if is_forced reason || (from == b.state && valid_automatic (get_state_type o) to)
      then change_state to clock
      else return from

unfoldable pub force_close : Clock → M (Unit {0})
force_close clock = do
  b ← get
  _ ← transition b.state forced_closed manual_transition clock
  return tt

unfoldable pub force_open : Clock → M (Unit {0})
force_open clock = do b ← get; _ ← transition b.state forced_open manual_transition clock; return tt

unfoldable pub reset : Clock → M (Unit {0})
reset clock = do b ← get; _ ← transition b.state closed TransitionReason.reset clock; return tt

-- The switch of OnRequestComplete.
unfoldable pub outcome_of : Option Err → Bool → Outcome
outcome_of (some (circuit err_circuit_forced_open_state)) t = forced_open_state_rejected_outcome
outcome_of (some (circuit err_max_permitted_calls_in_semi_open_state)) t =
    max_permitted_calls_in_semi_open_rejected_outcome
outcome_of (some (circuit err_circuit_open_state)) t = open_state_rejected_outcome
outcome_of (some (circuit err_max_concurrency)) t = max_concurrency_rejected_outcome
outcome_of none t = if t then success_timeout_outcome else success_outcome
outcome_of (some _) t = if t then error_timeout_outcome else error_outcome

unfoldable pub on_request_complete : Bool → RequestStats → StateSnapshot → Time → M (Unit {0})
unfolding perform notify outcome_of
on_request_complete is_timeout stats snapshot end_time = do
  b ← get
  let outcome = outcome_of stats.run_error is_timeout
  when (not b.setting.config.metric_config.is_disabled) (
      perform
        (add_request_total_metric b.name outcome ++ set_window_snapshot_metrics b.name snapshot))
  notify (
      on_request_complete_event (record {
        stats = record stats { request_outcome = some outcome };
        name = b.name;
        creation_time = end_time;
        state_snapshot = snapshot;
      }))

unfoldable pub register_event_listener : Option ℕ → Breaker → Breaker
register_event_listener callback b = record b { listener = callback }

-- updateSetting; the configuration was validated.
unfoldable pub update_setting : Config → Clock → Breaker → Breaker
update_setting config clock b =
    let s = fill_defaults_and_get_setting config in
    if is_equal s.config b.setting.config then b else record b {
      setting = s;
      concurrency_limiter = length b.limiters;
      limiters =
          b.limiters
          ++ new_concurrency_limiter s.config.max_concurrent_calls
              (mul64 s.config.max_wait_duration_millis nanos_per_millis)
            ∷ [];
      state = length b.states;
      states = b.states ++ new_closed_state s clock ∷ [];
      effects =
          b.effects
          ++ (if s.config.metric_config.is_disabled
              then []
              else set_breaker_state_metric b.name closed
                ++ set_thresholds_metrics b.name s.config);
    }

-- `cb.UpdateConfig`: the error, if any, and the breaker.
unfoldable pub update_config : Option Config → Clock → Breaker → Option Err × Breaker
update_config none clock b = (is_valid_config none, b)
update_config (some c) clock b = elim (is_valid_config (some c)) [
  | some e ↦ (some e, b)
  | none ↦ (none, update_setting c clock b)
]
