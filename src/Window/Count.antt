-- ===== src/Window/Count.antt =====
-- window.go: countWindowMetric, the window of the last `capacity` calls that the SEMI_OPEN state uses.
-- A pointer into the array is its index, and `none` is a panic (division by zero, index out of range).
use j_circuit_breaker.Base.{
  ℕ, ◌%◌, Option, none, some, List, get_elem?, set, replicate, add64, ◌==◌, ◌>>=◌, if◌then◌else◌,
}
use j_circuit_breaker.Window.{
  Counter, WindowOutcome, WindowSnapshot, reset, add, subtract, new_snapshot,
}

pub record CountWindow : Type 0 where
  pub capacity : ℕ
  pub end_index : ℕ
  pub array : List Counter
  pub total : Counter

unfoldable pub new_count_window : ℕ → CountWindow
new_count_window window_size = record {
  capacity = window_size;
  end_index = 0;
  array = replicate window_size reset;
  total = reset;
}

-- The slot at `i` becomes the latest: what it counted leaves the total, and it is reset.
unfoldable pub recycle : CountWindow → ℕ → Option (CountWindow × ℕ)
recycle c i = do
  latest ← get_elem? c.array i
  some (record c { end_index = i; array = set c.array i reset; total = subtract c.total latest }, i)

unfoldable pub move_forward_one_step : CountWindow → Option (CountWindow × ℕ)
unfolding recycle
move_forward_one_step c =
    if c.capacity == 0 then none else recycle c (add64 c.end_index 1 % c.capacity)

-- `.add(outcome)` through the returned pointer, and on the total.
unfoldable pub record_outcome : WindowOutcome → CountWindow × ℕ → Option CountWindow
record_outcome outcome (c, i) = do
  latest ← get_elem? c.array i
  some (record c { array = set c.array i (add latest outcome); total = add c.total outcome })

unfoldable pub update : CountWindow → WindowOutcome → Option (CountWindow × WindowSnapshot)
unfolding move_forward_one_step record_outcome
update c outcome = do
  moved ← move_forward_one_step c
  c' ← record_outcome outcome moved
  some (c', new_snapshot c'.total)

unfoldable pub get_snapshot : CountWindow → WindowSnapshot
get_snapshot c = new_snapshot c.total
