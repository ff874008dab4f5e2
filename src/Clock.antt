-- ===== src/Clock.antt =====
-- time.go: the clock and the timers. Readings of the operating system's clocks are inputs: the wall clock
-- and the monotonic clock in nanoseconds, and `now_in_ms`, which a background task copies from the wall
-- clock once a millisecond (0 before its first copy). All are int64 bit patterns (Base/Word); the wall
-- clock is after 1970. Clock/Mock has mockClock, which replaces the clock in tests.
pub mod Mock
pub mod Advance
use j_circuit_breaker.Base.{
  ℕ, ◌/◌, ◌^◌, ◌-◌, Bool, true, false, ◌&&◌, not, Option, none, some, add64, sub64, mul64, slt64,
  sle64, leb, ◌==◌, if◌then◌else◌,
}

pub record Clock : Type 0 where
  pub wall_nanos : ℕ
  pub monotonic_nanos : ℕ
  pub now_in_ms : ℕ

abbrev pub nanos_per_millis : ℕ
nanos_per_millis = 1_000_000

abbrev pub nanos_per_seconds : ℕ
nanos_per_seconds = 1_000_000_000

-- time.Now().Unix()
unfoldable pub unix_now : Clock → ℕ
unix_now c = c.wall_nanos / nanos_per_seconds

-- initTimeCaching and each tick of its background task.
unfoldable pub cache_time : Clock → Clock
cache_time c = record c { now_in_ms = c.wall_nanos / nanos_per_millis }

-- realClock.currentCachedTimeMillis
unfoldable pub current_cached_time_millis : Clock → ℕ
current_cached_time_millis c =
    if c.now_in_ms == 0 then c.wall_nanos / nanos_per_millis else c.now_in_ms

-- realClock.currentCachedTimeSeconds, which is what currentTimeInSecond returns
unfoldable pub current_cached_time_seconds : Clock → ℕ
current_cached_time_seconds c =
    if c.now_in_ms == 0
    then c.wall_nanos / nanos_per_seconds
    else mul64 c.now_in_ms nanos_per_millis / nanos_per_seconds

-- A time.Time: the wall clock and, if it comes from time.Now(), the monotonic clock.
pub record Time : Type 0 where
  pub unix_nanos : ℕ
  pub monotonic : Option ℕ

unfoldable pub current_time : Clock → Bool → Time
unfolding current_cached_time_millis
current_time c use_cached_time =
    if use_cached_time
    then record {
      unix_nanos = mul64 (current_cached_time_millis c) nanos_per_millis;
      monotonic = none;
    }
    else record { unix_nanos = c.wall_nanos; monotonic = some c.monotonic_nanos }

abbrev nanos_between : ℕ → ℕ → Option ℕ → Option ℕ → ℕ
nanos_between t u (some m) (some n) = sub64 m n
nanos_between t u none n = sub64 t u
nanos_between t u (some m) none = sub64 t u

-- t.Sub(u): by the monotonic clock if both times have it. (Differences beyond 292 years are not met.)
unfoldable pub sub : Time → Time → ℕ
sub t u = nanos_between t.unix_nanos u.unix_nanos t.monotonic u.monotonic

-- A timer of the standard library: when it fires, and whether its value was received.
pub record Timer : Type 0 where
  pub when : ℕ
  pub received : Bool

-- time.NewTimer: a duration that is not positive fires at once, and an overflow never.
unfoldable pub new_timer : Clock → ℕ → Timer
new_timer c duration =
    let at = add64 c.monotonic_nanos duration in
    record {
      when = if sle64 duration 0 then c.monotonic_nanos else if slt64 at 0 then 2 ^ 63 - 1 else at;
      received = false;
    }

-- The case `<-timer.C` of a select with a default case: the channel holds a value from when the timer
-- fires until it is received.
unfoldable pub try_receive : Clock → Timer → Bool × Timer
try_receive c t =
    if not t.received && leb t.when c.monotonic_nanos
    then (true, record t { received = true })
    else (false, t)
