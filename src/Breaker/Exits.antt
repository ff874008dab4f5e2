-- ===== src/Breaker/Exits.antt =====
-- exitWithFallback of entry.go on a sound breaker.
use j_circuit_breaker.Base.{
  ℕ, suc, ◌≡◌, ◌≤◌, ◌<◌, ◌^◌, refl, ap, ◌∙◌, Bool, Option, some, none, arith, Bool-cases,
  if◌then◌else◌, inl, inr, length, set, All-get_elem?, get_elem?-below,
}
use j_circuit_breaker.Constants.{Err}
use j_circuit_breaker.Clock.{Clock, Time, current_time, sub, current_cached_time_seconds}
use j_circuit_breaker.Config.{is_timeout}
use j_circuit_breaker.Window.{
  WindowSnapshot, WindowOutcome, success_outcome, error_outcome, timeout_success_outcome,
  timeout_error_outcome,
}
use j_circuit_breaker.Window.Sound.{get_snapshot-IsSound, update-IsSound}
use j_circuit_breaker.Options.{FallbackFunc}
use j_circuit_breaker.Events.{RequestStats}
use j_circuit_breaker.State.{
  StateObject, should_state_transition, on_request_end, on_error, on_success, records_outcomes,
  update_window, get_window_snapshot, should_check_for_max_concurrency,
}
use j_circuit_breaker.Breaker.{Breaker, load_state, store_state, load_limiter, store_limiter}
use j_circuit_breaker.Breaker.Transition.{limiter_count}
use j_circuit_breaker.Breaker.Enter.{Entry, new_stats, error_and_fallback}
use j_circuit_breaker.Breaker.Exit.{
  limiter_release, record_result, report_exit, after_record, exit_with_fallback, fallback_if,
}
use j_circuit_breaker.Breaker.Sound.{
  HasSoundWindow, Shows, Shows-later, IsSound, IsSound-later, Leaves, Leaves-trans, store-Leaves,
  store_limiter-Leaves, OnlyEffects-Leaves, on_request_complete_returns,
}
use j_circuit_breaker.Breaker.Returns.{transition_if_returns}
use j_circuit_breaker.Breaker.Calls.{PointsInto, PointsInto-Leaves}

-- How the window counts a call.
abbrev pub call_outcome : Bool → Option Err → WindowOutcome
call_outcome late none = if late then timeout_success_outcome else success_outcome
call_outcome late (some e) = if late then timeout_error_outcome else error_outcome

-- A state records the outcome of a call, or only reads its window.
pub record_result_lem :
    (o : StateObject) (clock : Clock) (late : Bool) (err : Option Err)
    → record_result o clock late err ≡ (
        if records_outcomes o.mode
        then update_window o clock (call_outcome late err)
        else get_window_snapshot o clock)
unfolding record_result on_error on_success
record_result_lem o clock late none = refl
record_result_lem o clock late (some e) = refl

record_result_returns :
    {k : ℕ} (o : StateObject) (clock : Clock) (late : Bool) (err : Option Err)
    → current_cached_time_seconds clock ≤ k
    → k < 2 ^ 63
    → HasSoundWindow k o
    → (o' : StateObject) × (w : WindowSnapshot) × (record_result o clock late err ≡ some (o', w))
      × HasSoundWindow (suc k) o'
unfolding update_window get_window_snapshot
record_result_returns {k} o clock late err cached fit sound =
    elim (Bool-cases (records_outcomes o.mode)) [
      | inl t ↦
          let (m, w, e, m_sound) =
            update-IsSound o.window_metrics (current_cached_time_seconds clock)
              (call_outcome late err) cached fit sound in
          (
            record o { window_metrics = m },
            w,
            ground (arith, record_result_lem o clock late err, t, e),
            m_sound,
          )
      | inr t ↦
          let (m, w, e, m_sound) =
            get_snapshot-IsSound o.window_metrics (current_cached_time_seconds clock) cached fit
              sound in
          (
            record o { window_metrics = m },
            w,
            ground (arith, record_result_lem o clock late err, t, e),
            m_sound,
          )
    ]

report_exit_returns :
    {k : ℕ} (e : Entry) (late : Bool) (stats : RequestStats) (w : WindowSnapshot) (o : StateObject)
    (end_time : Time) (err : Option Err) (b : Breaker)
    → e.concurrency_limiter < length b.limiters
    → IsSound k b
    → (b' : Breaker) × (report_exit e late stats w o end_time err b ≡ some (err, b'))
      × Leaves k b b'
unfolding report_exit load_limiter
report_exit_returns e late stats w o end_time err b inside sound =
    let (l, at) = get_elem?-below b.limiters e.concurrency_limiter inside in
    let (b', f, same) =
      on_request_complete_returns late stats
        (record {
          window_snapshot = w;
          num_concurrent_calls = limiter_count l (should_check_for_max_concurrency o);
        })
        end_time b in
    (b', ground (arith, at, f), OnlyEffects-Leaves b b' same sound)

after_record_returns :
    {k : ℕ} (e : Entry) (late : Bool) (stats : RequestStats) (w : WindowSnapshot) (o : StateObject)
    (end_time : Time) (err : Option Err) (clock : Clock) (b : Breaker)
    → Shows k b.setting clock
    → suc k < 2 ^ 63
    → IsSound k b
    → HasSoundWindow k o
    → PointsInto b e.state e.concurrency_limiter
    → (b' : Breaker) × (after_record e late stats w o end_time err clock b ≡ some (err, b'))
      × Leaves (suc k) b b'
unfolding after_record store_state
after_record_returns {k} e late stats w o end_time err clock b shows fit sound window into =
    let (d, o') = should_state_transition o w on_request_end clock in
    let c : Breaker = record b { states = set b.states e.state o' } in
    let left : Leaves k b c =
      store-Leaves k e.state o' b (omega arith) sound (ask-HasSoundWindow window) in
    let into' : PointsInto c e.state e.concurrency_limiter = PointsInto-Leaves left into in
    let (p, g, goes, left', inside) =
      transition_if_returns e.state d clock c into'.state_in shows fit left.sound in
    let (h, ends, left'') =
      report_exit_returns e late stats w o' end_time err g
        (omega (arith, into'.limiter_in, left'.limiters)) left'.sound in
    (h, ground (arith, goes, ends), Leaves-trans left (Leaves-trans left' left''))
  where
    ask-HasSoundWindow :
        HasSoundWindow k o → HasSoundWindow k (should_state_transition o w on_request_end clock).1
    ask-HasSoundWindow h = unfold should_state_transition in h

-- What the caller of exitWithFallback is told.
abbrev pub exit_error : Option FallbackFunc → Option Err → Option Err
exit_error fb err = (fallback_if fb err new_stats).0

exit_error_lem :
    (fb : Option FallbackFunc) (err : Option Err) (stats : RequestStats)
    → (fallback_if fb err stats).0 ≡ exit_error fb err
unfolding error_and_fallback
exit_error_lem none none stats = refl
exit_error_lem none (some e) stats = refl
exit_error_lem (some f) none stats = refl
exit_error_lem (some f) (some e) stats = refl

-- The exit of an entry returns what the fallback makes of the error of the call.
pub exit_told :
    {k : ℕ} (e : Entry) (err : Option Err) (fb : Option FallbackFunc) (factor : ℕ) (clock : Clock)
    (b : Breaker)
    → Shows k b.setting clock
    → suc (suc k) < 2 ^ 63
    → IsSound k b
    → PointsInto b e.state e.concurrency_limiter
    → (b' : Breaker) × (exit_with_fallback e err fb factor clock b ≡ some (exit_error fb err, b'))
      × Leaves (suc (suc k)) b b'
unfolding exit_with_fallback load_limiter store_limiter load_state
exit_told {k} e err fb factor clock b shows fit sound into =
    let (l, at_l) = get_elem?-below b.limiters e.concurrency_limiter into.limiter_in in
    let (o, at) = get_elem?-below b.states e.state into.state_in in
    let c : Breaker = record b {
      limiters = set b.limiters e.concurrency_limiter (limiter_release l factor);
    } in
    let left : Leaves k b c = store_limiter-Leaves e.concurrency_limiter _ b sound in
    let end_time = current_time clock e.setting.config.use_cached_time in
    let elapsed = sub end_time e.entry_time in
    let late = is_timeout e.setting elapsed in
    let (o', w, recorded, window) =
      record_result_returns o clock late err shows.cached (omega arith)
        (All-get_elem? (HasSoundWindow k) b.states e.state o sound.windows at) in
    let (r, stats) = fallback_if fb err (record new_stats { elapsed = elapsed }) in
    let (d, f, left') =
      after_record_returns e late stats w o' end_time r clock c (Shows-later (omega arith) shows)
        (omega arith) (IsSound-later (suc k) (omega arith) left.sound) window
        (PointsInto-Leaves left into) in
    (
      d,
      ground (arith, at_l, at, recorded, f)
          ∙ ap (λ t. some (t, d)) (exit_error_lem fb err (record new_stats { elapsed = elapsed })),
      Leaves-trans left left',
    )

-- On a sound breaker, under a clock that fits, the exit of an entry, also one of an earlier state,
-- returns, and leaves the breaker sound.
pub exit_returns :
    {k : ℕ} (e : Entry) (err : Option Err) (fb : Option FallbackFunc) (factor : ℕ) (clock : Clock)
    (b : Breaker)
    → Shows k b.setting clock
    → suc (suc k) < 2 ^ 63
    → IsSound k b
    → PointsInto b e.state e.concurrency_limiter
    → (r : Option Err) × (b' : Breaker) × (exit_with_fallback e err fb factor clock b
        ≡ some (r, b'))
      × Leaves (suc (suc k)) b b'
exit_returns e err fb factor clock b shows fit sound into =
    let (b', same, left) = exit_told e err fb factor clock b shows fit sound into in
    (exit_error fb err, b', same, left)
