-- ===== src/Window.antt =====
-- window.go: the counters, the outcomes that they count, and the snapshot that is taken of them.
-- An int64 counter is a bit pattern (Base/Word).
pub mod Float
pub mod Ring
pub mod Count
pub mod Time
pub mod Metric
pub mod Tally
pub mod LastCalls
pub mod Moves
pub mod MoveLoop
pub mod Seconds
pub mod Records
pub mod LastSeconds
pub mod Behind
pub mod Total
pub mod Percent
pub mod Sound
use j_circuit_breaker.Base.{ℕ, Bool, slt64, add64, sub64, if◌then◌else◌}
use Float.{of_int64, divide, multiply, to_int}

pub data WindowOutcome : Type 0 where
  success_outcome error_outcome timeout_success_outcome timeout_error_outcome : WindowOutcome

pub record Counter : Type 0 where
  pub total_count : ℕ
  pub error_count : ℕ
  pub timeout_count : ℕ

-- `&counter{}`, which is also what `reset` leaves.
abbrev pub reset : Counter
reset = record { total_count = 0; error_count = 0; timeout_count = 0 }

unfoldable pub add : Counter → WindowOutcome → Counter
add c error_outcome = record c {
  total_count = add64 c.total_count 1;
  error_count = add64 c.error_count 1;
}
add c timeout_error_outcome = record {
  total_count = add64 c.total_count 1;
  error_count = add64 c.error_count 1;
  timeout_count = add64 c.timeout_count 1;
}
add c timeout_success_outcome = record c {
  total_count = add64 c.total_count 1;
  timeout_count = add64 c.timeout_count 1;
}
add c success_outcome = record c { total_count = add64 c.total_count 1 }

unfoldable pub subtract : Counter → Counter → Counter
subtract c a = record {
  total_count = sub64 c.total_count a.total_count;
  error_count = sub64 c.error_count a.error_count;
  timeout_count = sub64 c.timeout_count a.timeout_count;
}

pub record WindowSnapshot : Type 0 where
  pub total_count : ℕ
  pub success_count : ℕ
  pub error_count : ℕ
  pub error_percent : ℕ
  pub timeout_count : ℕ
  pub timeout_percent : ℕ

-- The zero value, which `var windowSnap WindowSnapshot` declares.
abbrev pub empty_snapshot : WindowSnapshot
empty_snapshot = record {
  total_count = 0;
  success_count = 0;
  error_count = 0;
  error_percent = 0;
  timeout_count = 0;
  timeout_percent = 0;
}

-- int(float64(part) / float64(whole) * 100)
unfoldable pub percent : ℕ → ℕ → ℕ
unfolding of_int64 divide multiply to_int
percent part whole = to_int (multiply (divide (of_int64 part) (of_int64 whole)) (of_int64 100))

unfoldable pub new_snapshot : Counter → WindowSnapshot
new_snapshot c = record {
  total_count = c.total_count;
  success_count = sub64 c.total_count c.error_count;
  error_count = c.error_count;
  error_percent = if slt64 0 c.total_count then percent c.error_count c.total_count else 0;
  timeout_count = c.timeout_count;
  timeout_percent = if slt64 0 c.total_count then percent c.timeout_count c.total_count else 0;
}
