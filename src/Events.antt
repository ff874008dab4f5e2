-- ===== src/Events.antt =====
-- event.go, metrics.go and types.go: what a breaker tells its listener and its metrics. The calls of the
-- listener and of the metrics' library are recorded in order, as effects.
use Prim.Native.String.{String}
use j_circuit_breaker.Base.{ℕ, ◌/◌, List, [], ◌∷◌, map, Option, if◌then◌else◌}
use j_circuit_breaker.Constants.{
  State, closed, opened, semi_open, forced_open, forced_closed, same_state, Err,
}
use j_circuit_breaker.Config.{Config}
use j_circuit_breaker.Clock.{Time, nanos_per_millis, nanos_per_seconds}
use j_circuit_breaker.Window.{WindowSnapshot}

-- A breaker's name, by code points.
abbrev pub Name : Type 0
Name = List ℕ

pub data Outcome : Type 0 where
  success_outcome success_timeout_outcome error_outcome error_timeout_outcome : Outcome
  max_concurrency_rejected_outcome max_permitted_calls_in_semi_open_rejected_outcome : Outcome
  open_state_rejected_outcome forced_open_state_rejected_outcome : Outcome

unfoldable pub outcome_name : Outcome → String
outcome_name success_outcome = "success"
outcome_name success_timeout_outcome = "success_timeout"
outcome_name error_outcome = "error"
outcome_name error_timeout_outcome = "error_timeout"
outcome_name max_concurrency_rejected_outcome = "max_concurrency_rejected"
outcome_name max_permitted_calls_in_semi_open_rejected_outcome =
    "max_permitted_in_semi_open_rejected"
outcome_name open_state_rejected_outcome = "open_state_rejected"
outcome_name forced_open_state_rejected_outcome = "forced_open_state_rejected"

-- The outcome is filled in last: `none` is its zero value. A nil error is `none`.
pub record RequestStats : Type 0 where
  pub elapsed : ℕ
  pub request_outcome : Option Outcome
  pub run_error : Option Err
  pub fallback_error : Option Err

pub record StateSnapshot : Type 0 where
  pub window_snapshot : WindowSnapshot
  pub num_concurrent_calls : ℕ

pub record StateTransitionEvent : Type 0 where
  pub prev_state : State
  pub current_state : State
  pub name : Name
  pub creation_time : Time
  pub state_snapshot : StateSnapshot

pub record OnRequestCompleteEvent : Type 0 where
  pub stats : RequestStats
  pub name : Name
  pub creation_time : Time
  pub state_snapshot : StateSnapshot

pub data Event : Type 0 where
  state_transition : StateTransitionEvent → Event
  on_request_complete_event : OnRequestCompleteEvent → Event

-- The labels of ConfigGaugeMetric.
pub data ConfigLabel : Type 0 where
  error_percent_threshold timeout_percent_threshold timeout_threshold_millis : ConfigLabel
  max_concurrent_calls wait_duration_in_open_state_secs : ConfigLabel

-- A call of a gauge's Set or of a counter's Inc, with its labels.
pub data MetricCall : Type 0 where
  set_state_count : Name → State → ℕ → MetricCall
  inc_request_total : Name → Outcome → MetricCall
  set_concurrent_count : Name → ℕ → MetricCall
  set_error_percent : Name → ℕ → MetricCall
  set_timeout_percent : Name → ℕ → MetricCall
  set_config : Name → ConfigLabel → ℕ → MetricCall

-- The listener with its number is called with an event, or a metric is set.
pub data Effect : Type 0 where
  emit : ℕ → Event → Effect
  metric : MetricCall → Effect

abbrev state_list : List State
state_list = closed ∷ opened ∷ semi_open ∷ forced_open ∷ forced_closed ∷ []

unfoldable pub set_breaker_state_metric : Name → State → List Effect
set_breaker_state_metric name state =
    map
      (λ st.
        metric
          (if same_state st state then set_state_count name state 1 else set_state_count name st 0))
      state_list

unfoldable pub add_request_total_metric : Name → Outcome → List Effect
add_request_total_metric name outcome = metric (inc_request_total name outcome) ∷ []

unfoldable pub set_window_snapshot_metrics : Name → StateSnapshot → List Effect
set_window_snapshot_metrics name s =
    metric (set_concurrent_count name s.num_concurrent_calls)
    ∷ metric (set_error_percent name s.window_snapshot.error_percent)
    ∷ metric (set_timeout_percent name s.window_snapshot.timeout_percent)
    ∷ []

-- The durations were validated, and are not negative.
unfoldable pub set_thresholds_metrics : Name → Config → List Effect
set_thresholds_metrics name c =
    metric (set_config name error_percent_threshold c.error_percent_threshold)
    ∷ metric (set_config name timeout_percent_threshold c.timeout_percent_threshold)
    ∷ metric (set_config name timeout_threshold_millis (c.timeout_threshold / nanos_per_millis))
    ∷ metric (set_config name max_concurrent_calls c.max_concurrent_calls)
    ∷ metric (
        set_config name wait_duration_in_open_state_secs
          (c.wait_duration_in_open_state / nanos_per_seconds))
    ∷ []
