-- ===== src/Tests/Clocks.antt =====
-- The mock clock of time.go on concrete inputs.
use j_circuit_breaker.Base.{◌≡◌, refl, ◌+◌, arith, [], ◌∷◌, none, some, if◌then◌else◌}
use j_circuit_breaker.Clock.Mock.{
  MockClock, new_mock_clock, unix_nano, current_cached_time_millis, timer, time_add, fire, advance,
}
use j_circuit_breaker.Clock.Advance.{is_free, fired, advance_lem, advance_all, small_steps}

-- A clock with a timer of ten seconds that fired and was not read, and one that did not fire.
abbrev two_timers : MockClock
two_timers = record {
  current_mock_time = 11_000_000_000;
  timers =
      record { channel = some 11_000_000_000; duration = 10_000_000_000 }
      ∷ record { channel = none; duration = 12_000_000_000 }
      ∷ [];
}

made_so :
    advance 11_000_000_000 (timer 12_000_000_000 (timer 10_000_000_000 new_mock_clock).1).1
    ≡ some two_timers
unfolding advance timer new_mock_clock fire time_add
made_so = refl

-- The zero time is before 1970: its milliseconds are negative.
start : current_cached_time_millis new_mock_clock ≡ 18446737278344972745
unfolding current_cached_time_millis new_mock_clock unix_nano
start = refl

advance_lem_example : advance 11_000_000_000 two_timers ≡ (
    if is_free 11_000_000_000 two_timers.timers
    then some (record {
      current_mock_time = two_timers.current_mock_time + 11_000_000_000;
      timers =
          fired 11_000_000_000 (two_timers.current_mock_time + 11_000_000_000) two_timers.timers;
    })
    else none)
advance_lem_example =
    advance_lem 11_000_000_000 two_timers (omega arith) (omega arith, (omega arith, tt))

-- Three steps of six seconds do not fire a timer of ten.
small_steps_example :
    advance_all (6_000_000_000 ∷ 6_000_000_000 ∷ 6_000_000_000 ∷ []) two_timers
    ≡ some (record two_timers { current_mock_time = 29_000_000_000 })
small_steps_example =
    small_steps 10_000_000_000 (6_000_000_000 ∷ 6_000_000_000 ∷ 6_000_000_000 ∷ []) two_timers
      (omega arith) (omega arith, (omega arith, (omega arith, tt))) (omega arith, (omega arith, tt))
      (omega arith, (omega arith, tt))
