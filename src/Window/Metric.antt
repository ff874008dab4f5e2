-- ===== src/Window/Metric.antt =====
-- window.go: iWindowMetric, the interface by which the states use either window.
use j_circuit_breaker.Base.{ℕ, Option, some, ◌>>=◌}
use j_circuit_breaker.Window.{WindowOutcome, WindowSnapshot}
use j_circuit_breaker.Window.Count
use j_circuit_breaker.Window.Count.{CountWindow}
use j_circuit_breaker.Window.Time
use j_circuit_breaker.Window.Time.{TimeWindow}

pub data WindowMetric : Type 0 where
  count_metric : CountWindow → WindowMetric
  time_metric : TimeWindow → WindowMetric

-- `now` is what currentTimeInSecond() returns; the count window does not read it.
unfoldable pub update : WindowMetric → ℕ → WindowOutcome → Option (WindowMetric × WindowSnapshot)
update (count_metric c) now outcome = do
  (c', snapshot) ← Count.update c outcome
  some (count_metric c', snapshot)
update (time_metric t) now outcome = do
  (t', snapshot) ← Time.update t now outcome
  some (time_metric t', snapshot)

unfoldable pub get_snapshot : WindowMetric → ℕ → Option (WindowMetric × WindowSnapshot)
get_snapshot (count_metric c) now = some (count_metric c, Count.get_snapshot c)
get_snapshot (time_metric t) now = do
  (t', snapshot) ← Time.get_snapshot t now
  some (time_metric t', snapshot)
