-- ===== src/Breaker/Admission.antt =====
-- The calls that enterWithFallback of cb.go lets in: when an OPEN breaker starts to recover, and what FORCED_CLOSED does
-- with a call that the limiter refused.
use j_circuit_breaker.Base.{
  ℕ, suc, ◌≡◌, ◌≤◌, ◌<◌, ◌^◌, ◌-◌, [], refl, ap, ◌∙◌, false, Option, some, arith, Option-cases, inl,
  inr, get_elem?, set, get_elem?-set_self, get_elem?-lt, set_same,
}
use j_circuit_breaker.Constants.{semi_open}
use j_circuit_breaker.Config.{Setting}
use j_circuit_breaker.Clock.{Clock, Timer, try_receive, current_time}
use j_circuit_breaker.Window.{empty_snapshot}
use j_circuit_breaker.Window.Metric.{WindowMetric}
use j_circuit_breaker.Options.{FallbackFunc}
use j_circuit_breaker.Limiter.{
  Semaphore, weighted_semaphore, max_concurrency_reached, acquire, release, notify_waiters,
}
use j_circuit_breaker.State.{
  StateObject, open_mode, forced_closed_mode, get_state_type, should_state_transition, decide,
  on_request_start, acquire_permission, acquire_mode, checks_max_concurrency,
}
use j_circuit_breaker.Breaker.{Breaker, load_state, store_state, load_limiter, store_limiter}
use j_circuit_breaker.Breaker.Enter.{
  Entry, Entering, entered, transition_if, limiter_acquire, after_acquire, ask_limiter, ask_state,
  enter_with_fallback,
}
use j_circuit_breaker.Breaker.Edges.{Ensures, Ensures-mono, Kept}
use j_circuit_breaker.Breaker.Automatic.{should_state_transition-kind}
use j_circuit_breaker.Breaker.Entries.{ask_state-Kept}
use j_circuit_breaker.Breaker.Decided.{
  current, next, current-Kept, transition_if_current, should_state_transition_allowed,
}
use j_circuit_breaker.Breaker.Sound.{Shows, IsSound}
use j_circuit_breaker.Breaker.Calls.{enter_returns}

-- After an enter the breaker is where the state that it was in decided.
enter_current :
    (fb : Option FallbackFunc) (factor : ℕ) (clock : Clock) (b : Breaker) (o : StateObject)
    → get_elem? b.states b.state ≡ some o
    → Ensures (enter_with_fallback fb factor clock b) (λ _ b'.
      current b'
      ≡ some (
          next
            (get_state_type o)
            (should_state_transition o empty_snapshot on_request_start clock).0))
unfolding enter_with_fallback load_state store_state
enter_current fb factor clock b o at =
    let (d, o') = should_state_transition o empty_snapshot on_request_start clock in
    let c : Breaker = record b { states = set b.states b.state o' } in
    let at' = get_elem?-set_self b.states b.state o' (get_elem?-lt b.states b.state o at) in
    let kind = should_state_transition-kind o empty_snapshot on_request_start clock in
    let moves =
      transition_if_current b.state d clock c o' refl at'
        (should_state_transition_allowed o empty_snapshot on_request_start clock) in
    elim (Option-cases (transition_if b.state d clock c)) [
      | inl f ↦ rw (at, f, Ensures) tt
      | inr ((p, g), f) ↦
          let moved : current g ≡ some (next (get_state_type o') d) = rw f at moves in
          rw (at, f, Ensures)
            (Ensures-mono _ (λ _ b'. Kept g b') _
              (ask_state-Kept p b.concurrency_limiter b.setting factor fb clock g)
              λ _ b' k. current-Kept g b' k ∙ moved ∙ ap (λ t. some (next t d)) kind)
    ]

-- Under a clock that fits, when the timer of an OPEN sound breaker has fired and no call has seen that
-- yet, the next enterWithFallback returns and leaves the breaker SEMI_OPEN.
pub open_recovers :
    {k : ℕ} (fb : Option FallbackFunc) (factor : ℕ) (clock : Clock) (b : Breaker) (m : WindowMetric)
    (t : Timer)
    → IsSound k b
    → Shows k b.setting clock
    → suc k < 2 ^ 63
    → get_elem? b.states b.state ≡ some (record { window_metrics = m; mode = open_mode t })
    → t.received ≡ false
    → t.when ≤ clock.monotonic_nanos
    → (r : Entering) × (b' : Breaker) × (enter_with_fallback fb factor clock b ≡ some (r, b'))
      × (current b' ≡ some semi_open)
open_recovers fb factor clock b m t sound shows fit at unseen due =
    let o : StateObject = record { window_metrics = m; mode = open_mode t } in
    let (r, b', returns, left, into) = enter_returns fb factor clock b shows fit sound in
    let goes = enter_current fb factor clock b o at in
    (r, b', returns, (rw returns at goes) ∙ ap some (asks m t clock unseen due))
  where
    asks :
        (m : WindowMetric) (t : Timer) (clock : Clock)
        → t.received ≡ false
        → t.when ≤ clock.monotonic_nanos
        → next
            (get_state_type (record { window_metrics = m; mode = open_mode t }))
            (should_state_transition
              (record { window_metrics = m; mode = open_mode t })
              empty_snapshot
              on_request_start
              clock).0
          ≡ semi_open
    asks m t clock unseen due =
        unfold should_state_transition decide try_receive in ground (arith, unseen, due)

refused_cur :
    (w w' : Semaphore) (n : ℕ) → acquire w n ≡ (max_concurrency_reached, w') → w'.cur ≡ w.cur
unfolding acquire
refused_cur w w' n h = ground (arith, h)

refused_waiters :
    (w w' : Semaphore) (n : ℕ)
    → acquire w n ≡ (max_concurrency_reached, w')
    → w'.waiters ≡ w.waiters
unfolding acquire
refused_waiters w w' n h = ground (arith, h)

refused_release :
    (w w' : Semaphore) (n : ℕ)
    → acquire w n ≡ (max_concurrency_reached, w')
    → w.waiters ≡ []
    → w.cur < 2 ^ 63
    → n < 2 ^ 63
    → (release w' n).cur ≡ w.cur - n
unfolding release notify_waiters
refused_release w w' n h none_waits cur_fit n_fit =
    ground (arith, refused_cur w w' n h, refused_waiters w w' n h ∙ none_waits)

-- A FORCED_CLOSED breaker lets in a call that the limiter refuses, which holds nothing of it; with no
-- waiter, and weights below 2^63, a release of the entry's factor then takes that weight off what the
-- other calls hold.
pub forced_closed_admits :
    (fb : Option FallbackFunc) (factor : ℕ) (clock : Clock) (b : Breaker) (m : WindowMetric)
    (s : Setting) (w w' : Semaphore)
    → get_elem? b.states b.state ≡ some (record { window_metrics = m; mode = forced_closed_mode s })
    → get_elem? b.limiters b.concurrency_limiter ≡ some (weighted_semaphore w)
    → acquire w factor ≡ (max_concurrency_reached, w')
    → w.waiters ≡ []
    → w.cur < 2 ^ 63
    → factor < 2 ^ 63
    → (e : Entry) × (b' : Breaker) × (enter_with_fallback fb factor clock b ≡ some (entered e, b'))
      × (e.concurrency_limiter ≡ b.concurrency_limiter)
      × (e.factor ≡ factor)
      × (get_elem? b'.limiters b.concurrency_limiter ≡ some (weighted_semaphore w'))
      × (w'.cur ≡ w.cur)
      × ((release w' e.factor).cur ≡ w.cur - factor)
unfolding enter_with_fallback load_state store_state load_limiter store_limiter
    should_state_transition decide transition_if ask_state acquire_permission acquire_mode
    ask_limiter limiter_acquire after_acquire checks_max_concurrency
forced_closed_admits fb factor clock b m s w w' at at_l refused none_waits cur_fit factor_fit =
    let o : StateObject = record { window_metrics = m; mode = forced_closed_mode s } in
    (
      record {
        entry_time = current_time clock b.setting.config.use_cached_time;
        setting = b.setting;
        state = b.state;
        concurrency_limiter = b.concurrency_limiter;
        factor = factor;
      },
      record b { limiters = set b.limiters b.concurrency_limiter (weighted_semaphore w') },
      ground (arith, at, at_l, refused, set_same b.states b.state o at),
      refl,
      refl,
      get_elem?-set_self b.limiters b.concurrency_limiter _
          (get_elem?-lt b.limiters b.concurrency_limiter _ at_l),
      refused_cur w w' factor refused,
      refused_release w w' factor refused none_waits cur_fit factor_fit,
    )
