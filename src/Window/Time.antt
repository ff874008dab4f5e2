-- ===== src/Window/Time.antt =====
-- window.go: timeWindowMetric, the window of the last `capacity` seconds, one bucket for each second.
-- A pointer into the buckets is its index, `none` is a panic, and `now` is what currentTimeInSecond()
-- returns. Times are in seconds, as int64 bit patterns.
use j_circuit_breaker.Base.{
  ℕ, zero, suc, ◌%◌, Option, none, some, List, [], ◌∷◌, get_elem?, set, add64, sub64, slt64, sle64,
  ◌==◌, ◌>>=◌, if◌then◌else◌,
}
use j_circuit_breaker.Window.{
  Counter, WindowOutcome, WindowSnapshot, reset, add, subtract, new_snapshot,
}

pub record Bucket : Type 0 where
  pub counter : Counter
  pub start_time : ℕ

pub record TimeWindow : Type 0 where
  pub capacity : ℕ
  pub end_index : ℕ
  pub buckets : List Bucket
  pub total : Counter

-- `(*bucket).reset`
abbrev pub reset_bucket : ℕ → Bucket
reset_bucket curr_epoch_second = record { counter = reset; start_time = curr_epoch_second }

-- The loop of the constructor, from the last index down: the buckets at the `i` indices that are left
-- go in front of those made before.
unfoldable pub fill_buckets : ℕ → ℕ → List Bucket → List Bucket
fill_buckets zero start_time made = made
fill_buckets (suc i) start_time made =
    fill_buckets i (sub64 start_time 1) (reset_bucket start_time ∷ made)

unfoldable pub new_time_window : ℕ → ℕ → TimeWindow
unfolding fill_buckets
new_time_window window_size now = record {
  capacity = window_size;
  end_index = sub64 window_size 1;
  buckets = fill_buckets window_size now [];
  total = reset;
}

unfoldable pub int64min : ℕ → ℕ → ℕ
int64min a b = if slt64 a b then a else b

-- The body of the loop at the bucket `i`: what it counted leaves the total, and it is reset.
unfoldable pub open_bucket : TimeWindow → ℕ → ℕ → Option TimeWindow
open_bucket t i start_time = do
  current ← get_elem? t.buckets i
  some (record t {
    end_index = i;
    buckets = set t.buckets i (reset_bucket start_time);
    total = subtract t.total current.counter;
  })

-- The loop, with fuel: it ends when no second is left to move.
unfoldable pub move_loop : ℕ → TimeWindow → ℕ → ℕ → Option (TimeWindow × ℕ)
unfolding open_bucket
move_loop zero t now seconds = none
move_loop (suc fuel) t now seconds =
    let left = sub64 seconds 1 in
    let i = add64 t.end_index 1 % t.capacity in
    let rest = open_bucket t i (sub64 now left) >>= λ t'. move_loop fuel t' now left in
    let last = open_bucket t i (sub64 now left) >>= λ t'. some (t', i) in
    if t.capacity == 0 then none else if sle64 left 0 then last else rest

-- At most `capacity` seconds are moved, so `capacity + 1` rounds of fuel are enough.
unfoldable pub move_by : TimeWindow → ℕ → ℕ → Option (TimeWindow × ℕ)
unfolding int64min
move_by t now difference =
    if difference == 0
    then some (t, t.end_index)
    else move_loop (suc t.capacity) t now (int64min difference t.capacity)

unfoldable pub move_window_to_current_second : TimeWindow → ℕ → Option (TimeWindow × ℕ)
move_window_to_current_second t now = do
  latest ← get_elem? t.buckets t.end_index
  move_by t now (sub64 now latest.start_time)

-- `.add(outcome)` through the returned pointer, and on the total.
unfoldable pub record_outcome : WindowOutcome → TimeWindow × ℕ → Option TimeWindow
record_outcome outcome (t, i) = do
  current ← get_elem? t.buckets i
  some (record t {
    buckets = set t.buckets i (record current { counter = add current.counter outcome });
    total = add t.total outcome;
  })

unfoldable pub update : TimeWindow → ℕ → WindowOutcome → Option (TimeWindow × WindowSnapshot)
unfolding move_window_to_current_second record_outcome
update t now outcome = do
  moved ← move_window_to_current_second t now
  t' ← record_outcome outcome moved
  some (t', new_snapshot t'.total)

unfoldable pub get_snapshot : TimeWindow → ℕ → Option (TimeWindow × WindowSnapshot)
unfolding move_window_to_current_second
get_snapshot t now = do
  moved ← move_window_to_current_second t now
  some (moved.0, new_snapshot moved.0.total)
