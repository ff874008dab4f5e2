-- ===== src/Tests/Calls.antt =====
-- The theorems on the calls of cb.go and entry.go, on the breaker of Tests/Brisk.
use j_circuit_breaker.Base.{
  ◌≡◌, ◌≤◌, refl, arith, [], ◌∷◌, Option, some, none, get_elem?, ◌-◌, ltb, if◌then◌else◌,
}
use j_circuit_breaker.Constants.{semi_open, err_max_permitted_calls_in_semi_open_state, Err}
use j_circuit_breaker.Clock.{current_cached_time_seconds}
use j_circuit_breaker.Limiter.{
  acquire, release, max_concurrency_reached, Semaphore, weighted_semaphore,
}
use j_circuit_breaker.State.{acquire_mode, semi_open_mode, SemiOpen}
use j_circuit_breaker.Window.{new_snapshot}
use j_circuit_breaker.Window.Tally.{tally}
use j_circuit_breaker.Window.Seconds.{within}
use j_circuit_breaker.Window.LastSeconds.{new-Records}
use j_circuit_breaker.Breaker.{Breaker}
use j_circuit_breaker.Breaker.Enter.{Entry, Entering, entered, enter_with_fallback}
use j_circuit_breaker.Breaker.Exit.{exit_with_fallback}
use j_circuit_breaker.Breaker.Calls.{Proceeds, enter_returns}
use j_circuit_breaker.Breaker.Exits.{call_outcome}
use j_circuit_breaker.Breaker.Decided.{current}
use j_circuit_breaker.Breaker.Opening.{is_late, closed_verdict, closed_exit}
use j_circuit_breaker.Breaker.Admission.{open_recovers, forced_closed_admits}
use j_circuit_breaker.State.Permits.{asks, gives_back, run, run-held}
use j_circuit_breaker.Tests.Brisk.{
  at_hundred, at_hundred_twenty, setting, made, after_enter, entry, failure, broken, held_closed,
  open_timer, semi_open_state, fresh_window, held, stored, inside,
}
use j_circuit_breaker.Tests.Soundness.{
  made-Sound, made-Shows, after_enter-Sound, after_enter-Shows, entry_into, broken-Sound,
  broken-Shows_later,
}

enter_returns_example : Proceeds 102 made (enter_with_fallback none 1 at_hundred made)
enter_returns_example =
    enter_returns none 1 at_hundred made made-Shows (omega arith) made-Sound.sound

hundred_seconds : 100 ≤ current_cached_time_seconds at_hundred
unfolding current_cached_time_seconds
hundred_seconds = omega arith

closed_exit_example :
    (r : Option Err) × (b' : Breaker) × (exit_with_fallback entry failure none 1 at_hundred
        after_enter
      ≡ some (r, b'))
    × (current b'
        ≡ some (
            closed_verdict setting (
              new_snapshot (
                tally (
                  within 10 (current_cached_time_seconds at_hundred) (
                    (
                      current_cached_time_seconds at_hundred,
                      call_outcome (is_late entry at_hundred) failure,
                    )
                    ∷ []))))))
closed_exit_example =
    closed_exit entry failure none 1 at_hundred after_enter after_enter-Sound after_enter-Shows
      (omega arith) entry_into inside.0 fresh_window setting 10 100 [] stored.0
      (new-Records 10 100 (omega arith) (omega arith) (omega arith) (omega arith)) hundred_seconds

open_recovers_example :
    (r : Entering) × (b' : Breaker) × (enter_with_fallback none 1 at_hundred_twenty broken
      ≡ some (r, b'))
    × (current b' ≡ some semi_open)
open_recovers_example =
    open_recovers none 1 at_hundred_twenty broken _ open_timer broken-Sound broken-Shows_later
      (omega arith) stored.1 refl (omega arith)

-- The limiter has no room for a call of this weight.
abbrev refused : Semaphore
refused = record held { uncapped_concurrency_count = 20001 }

no_room : acquire held 20000 ≡ (max_concurrency_reached, refused)
unfolding acquire
no_room = refl

forced_closed_admits_example :
    (e : Entry) × (b' : Breaker) × (enter_with_fallback none 20000 at_hundred held_closed
      ≡ some (entered e, b'))
    × (e.concurrency_limiter ≡ held_closed.concurrency_limiter)
    × (e.factor ≡ 20000)
    × (get_elem? b'.limiters held_closed.concurrency_limiter ≡ some (weighted_semaphore refused))
    × (refused.cur ≡ held.cur)
    × ((release refused e.factor).cur ≡ held.cur - 20000)
forced_closed_admits_example =
    forced_closed_admits none 20000 at_hundred held_closed _ setting held refused stored.4 stored.5
      no_room refl (omega arith) (omega arith)

abbrev two_permits : SemiOpen
two_permits = record semi_open_state { call_count = 0 }

run-held_example :
    let p =
      run
        (record { mode = semi_open_mode two_permits; held = 0 })
        (asks ∷ asks ∷ asks ∷ gives_back ∷ []) in
    (p.held ≤ two_permits.call_threshold)
    × (p.mode ≡ semi_open_mode (record two_permits { call_count = p.held }))
    × ((acquire_mode p.mode).0 ≡ (
        if ltb p.held two_permits.call_threshold
        then none
        else some err_max_permitted_calls_in_semi_open_state))
run-held_example = run-held two_permits (asks ∷ asks ∷ asks ∷ gives_back ∷ []) (omega arith) refl
