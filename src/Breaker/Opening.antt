-- ===== src/Breaker/Opening.antt =====
-- When calls open and close a breaker: the exit of a call (entry.go), the window that records it (window.go), the
-- decision of the state (state.go) and the transition (cb.go) together.
use j_circuit_breaker.Base.{
  ℕ, suc, ◌≡◌, ◌≤◌, ◌<◌, ◌^◌, refl, ap, ◌∙◌, Bool, true, Option, some, arith, Option-cases, inl,
  inr, get_elem?, set, List, [], ◌∷◌, ◌++◌, ◌&&◌, sle64, if◌then◌else◌,
}
use j_circuit_breaker.Constants.{State, closed, opened, semi_open, Err}
use j_circuit_breaker.Clock.{Clock, current_time, sub, current_cached_time_seconds}
use j_circuit_breaker.Config.{Setting, is_timeout, is_thresholds_exceed}
use j_circuit_breaker.Window.{WindowSnapshot, new_snapshot}
use j_circuit_breaker.Window.Tally.{tally}
use j_circuit_breaker.Window.Time.{TimeWindow}
use j_circuit_breaker.Window.Seconds.{Call, within}
use j_circuit_breaker.Window.Records.{Records, update-Records, total-tally}
use j_circuit_breaker.Window.Metric.{WindowMetric, time_metric, update}
use j_circuit_breaker.Options.{FallbackFunc}
use j_circuit_breaker.State.{
  StateObject, closed_mode, SemiOpen, get_state_type, mode_type, should_state_transition, decide,
  on_request_end, update_window, records_outcomes, min_int,
}
use j_circuit_breaker.Breaker.{Breaker, load_state, load_limiter, store_limiter}
use j_circuit_breaker.Breaker.Enter.{Entry}
use j_circuit_breaker.Breaker.Exit.{limiter_release, record_result, exit_with_fallback}
use j_circuit_breaker.Breaker.Edges.{Ensures, Ensures-mono}
use j_circuit_breaker.Breaker.Automatic.{record_result-kind}
use j_circuit_breaker.Breaker.Decided.{current, next, after_record_current}
use j_circuit_breaker.Breaker.Sound.{IsSound, Shows}
use j_circuit_breaker.Breaker.Calls.{PointsInto}
use j_circuit_breaker.Breaker.Exits.{call_outcome, record_result_lem, exit_returns}

-- Whether the call took too long.
abbrev pub is_late : Entry → Clock → Bool
is_late e clock =
    is_timeout e.setting (sub (current_time clock e.setting.config.use_cached_time) e.entry_time)

exit_current :
    (e : Entry) (err : Option Err) (fb : Option FallbackFunc) (factor : ℕ) (clock : Clock)
    (b : Breaker) (o o' : StateObject) (w : WindowSnapshot)
    → b.state ≡ e.state
    → get_elem? b.states e.state ≡ some o
    → record_result o clock (is_late e clock) err ≡ some (o', w)
    → Ensures (exit_with_fallback e err fb factor clock b) (λ _ b'.
      current b'
      ≡ some (next (get_state_type o) (should_state_transition o' w on_request_end clock).0))
unfolding exit_with_fallback load_limiter store_limiter load_state
exit_current e err fb factor clock b o o' w here at recorded =
    elim (Option-cases (get_elem? b.limiters e.concurrency_limiter)) [
      | inl f ↦ rw (f, Ensures) tt
      | inr (l, f) ↦
          let c : Breaker = record b {
            limiters = set b.limiters e.concurrency_limiter (limiter_release l factor);
          } in
          let kind = record_result-kind o o' clock (is_late e clock) err w recorded in
          rw (f, at, recorded, Ensures)
            (Ensures-mono _
              (λ _ b'.
                current b'
                ≡ some (
                    next (get_state_type o') (should_state_transition o' w on_request_end clock).0))
              _ (after_record_current e (is_late e clock) _ w o o' _ _ clock c here at kind)
              λ _ b' h.
                h
                ∙ ap (λ t. some (next t (should_state_transition o' w on_request_end clock).0))
                    kind)
    ]

-- The recording of a call in a window that is updated.
record_result-update :
    (o : StateObject) (clock : Clock) (late : Bool) (err : Option Err) (m : WindowMetric)
    (w : WindowSnapshot)
    → records_outcomes o.mode ≡ true
    → update o.window_metrics (current_cached_time_seconds clock) (call_outcome late err)
      ≡ some (m, w)
    → record_result o clock late err ≡ some (record o { window_metrics = m }, w)
unfolding update_window
record_result-update o clock late err m w records e =
    record_result_lem o clock late err ∙ ground (arith, records, e)

-- Where a CLOSED and a SEMI_OPEN state go after a call, by what their window holds then.
abbrev pub closed_verdict : Setting → WindowSnapshot → State
closed_verdict s w =
    if sle64 s.config.minimum_number_of_calls w.total_count && (is_thresholds_exceed s w).0
    then opened
    else closed

abbrev pub semi_open_verdict : SemiOpen → WindowSnapshot → State
semi_open_verdict s w =
    if sle64
      (min_int s.setting.config.minimum_number_of_calls
        s.setting.config.number_of_calls_in_semi_open_state)
      w.total_count
    then (if (is_thresholds_exceed s.setting w).0 then opened else closed)
    else semi_open

closed_next :
    (s : Setting) (m : WindowMetric) (w : WindowSnapshot) (clock : Clock)
    → next closed
        (should_state_transition
          (record { window_metrics = m; mode = closed_mode s })
          w
          on_request_end
          clock).0
      ≡ closed_verdict s w
unfolding should_state_transition decide
closed_next s m w clock = ground arith

module _ {k : ℕ} (e : Entry) (err : Option Err) (fb : Option FallbackFunc) (factor : ℕ)
    (clock : Clock) (b : Breaker) (sound : IsSound k b) (shows : Shows k b.setting clock)
    (fit : suc (suc k) < 2 ^ 63) (into : PointsInto b e.state e.concurrency_limiter)
    (here : b.state ≡ e.state) where
  exit_goes :
      (o : StateObject) (m : WindowMetric) (w : WindowSnapshot)
      → get_elem? b.states e.state ≡ some o
      → records_outcomes o.mode ≡ true
      → update o.window_metrics
          (current_cached_time_seconds clock)
          (call_outcome (is_late e clock) err)
        ≡ some (m, w)
      → (r : Option Err) × (b' : Breaker) × (exit_with_fallback e err fb factor clock b
          ≡ some (r, b'))
        × (current b'
            ≡ some (
                next
                  (get_state_type o)
                  (should_state_transition
                    (record o { window_metrics = m })
                    w
                    on_request_end
                    clock).0))
  exit_goes o m w at records updates =
      let (r, b', returns, left) = exit_returns e err fb factor clock b shows fit sound into in
      let goes =
        exit_current e err fb factor clock b o (record o { window_metrics = m }) w here at
          (record_result-update o clock (is_late e clock) err m w records updates) in
      (r, b', returns, rw returns at goes)

  -- On a sound breaker, under a clock that fits, the exit of a call that its CLOSED state let in, in a
  -- time window that was told of the calls h before and whose latest second is not after the one that
  -- the cached clock shows, returns, and the breaker is then OPEN if the calls of the last n seconds,
  -- with this one, are at least the minimum and exceed a threshold, and else CLOSED. A window that is
  -- ahead of the cached clock, as a new one can be, is left out.
  pub closed_exit :
      (t : TimeWindow) (s : Setting) (n sec : ℕ) (h : List Call)
      → get_elem? b.states e.state
        ≡ some (record { window_metrics = time_metric t; mode = closed_mode s })
      → Records n t sec h
      → sec ≤ current_cached_time_seconds clock
      → let now = current_cached_time_seconds clock in
        let w =
          new_snapshot
            (tally (within n now (h ++ (now, call_outcome (is_late e clock) err) ∷ []))) in
        (r : Option Err) × (b' : Breaker) × (exit_with_fallback e err fb factor clock b
          ≡ some (r, b'))
        × (current b' ≡ some (closed_verdict s w))
  unfolding mode_type records_outcomes update
  closed_exit t s n sec h at r le =
      let now = current_cached_time_seconds clock in
      let (t', updates, r') =
        update-Records r now le (omega (arith, shows.cached))
          (call_outcome (is_late e clock) err) in
      let (res, b', returns, goes) =
        exit_goes (record { window_metrics = time_metric t; mode = closed_mode s }) (time_metric t')
          (new_snapshot t'.total) at refl (ground (arith, updates)) in
      (
        res,
        b',
        returns,
        goes
            ∙ ap some (closed_next s (time_metric t') _ clock)
            ∙ ap (λ c. some (closed_verdict s (new_snapshot c))) (total-tally r'),
      )
