-- ===== src/Tests/Windows.antt =====
-- window.go on concrete inputs.
use j_circuit_breaker.Base.{◌≡◌, ◌≤◌, refl, arith, List, [], ◌∷◌, some, keep_last}
use j_circuit_breaker.Window.{
  WindowOutcome, success_outcome, error_outcome, timeout_error_outcome, new_snapshot, percent,
  Counter,
}
use j_circuit_breaker.Window.Percent.{new_snapshot-le}
use j_circuit_breaker.Window.Tally.{tally}
use j_circuit_breaker.Window.Count.{CountWindow, new_count_window}
use j_circuit_breaker.Window.LastCalls.{run as run_calls, run-last_calls}
use j_circuit_breaker.Window.Time.{TimeWindow, new_time_window, get_snapshot}
use j_circuit_breaker.Window.Seconds.{Call, within}
use j_circuit_breaker.Window.LastSeconds.{From, run as run_seconds, run-last_seconds}
use j_circuit_breaker.Window.Behind.{Before, run_behind}

abbrev outcomes : List WindowOutcome
outcomes =
    error_outcome ∷ success_outcome ∷ timeout_error_outcome ∷ success_outcome ∷ error_outcome ∷ []

run-last_calls_example :
    (c : CountWindow) × (run_calls (new_count_window 3) outcomes ≡ some c)
    × (c.total ≡ tally (keep_last 3 outcomes))
run-last_calls_example = run-last_calls 3 outcomes (omega arith) (omega arith)

abbrev timed : List Call
timed =
    (100, error_outcome) ∷ (101, success_outcome) ∷ (101, error_outcome) ∷ (104, error_outcome) ∷ []

timed-From : From 100 timed
timed-From = ground arith

run-last_seconds_example :
    (t t' : TimeWindow) × (run_seconds (new_time_window 3 100) timed ≡ some t)
    × (get_snapshot t 105 ≡ some (t', new_snapshot (tally (within 3 105 timed))))
run-last_seconds_example =
    run-last_seconds 3 100 105 timed (omega arith) (omega arith) (omega arith) (omega arith)
      timed-From (omega arith) (omega arith)

abbrev late : List Call
late = (99, error_outcome) ∷ (99, error_outcome) ∷ (99, error_outcome) ∷ (99, error_outcome) ∷ []

late-Before : Before 100 late
late-Before = ground arith

run_behind_example :
    (t : TimeWindow) × (run_seconds (new_time_window 2 100) late ≡ some t)
    × (t.total.total_count ≤ 2)
run_behind_example =
    run_behind 2 100 late (omega arith) (omega arith) (omega arith) late-Before (omega arith)

-- 29 of 100 calls are 28 percent, since the product in float64 is just below 29.
percent-29 : percent 29 100 ≡ 28
unfolding percent
percent-29 = refl

abbrev some_failed : Counter
some_failed = record { total_count = 100; error_count = 29; timeout_count = 100 }

new_snapshot-le_example :
    ((new_snapshot some_failed).error_percent ≤ 100)
    × ((new_snapshot some_failed).timeout_percent ≤ 100)
new_snapshot-le_example = new_snapshot-le some_failed (omega arith) (omega arith) (omega arith)
