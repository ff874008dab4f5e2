-- ===== src/Clock/Mock.antt =====
-- mockClock of time.go, with the timers that advance() fires. A time.Time of the mock clock is its nanoseconds since the
-- start of the year 1, which is the zero value; times before that are not met. A Duration is an int64 bit pattern.
use j_circuit_breaker.Base.{
  ℕ, ◌+◌, ◌-◌, ◌*◌, ◌/◌, ◌%◌, ◌^◌, Bool, Option, none, some, List, [], ◌∷◌, ◌++◌, length, get_elem?,
  set, ltb, slt64, if◌then◌else◌,
}
use j_circuit_breaker.Clock.{nanos_per_millis, nanos_per_seconds}

-- What the channel of capacity 1 holds, which is both fields C and c.
pub record MockTimer : Type 0 where
  pub channel : Option ℕ
  pub duration : ℕ

pub record MockClock : Type 0 where
  pub current_mock_time : ℕ
  pub timers : List MockTimer

unfoldable pub new_mock_clock : MockClock
new_mock_clock = record { current_mock_time = 0; timers = [] }

-- The nanoseconds from the year 1 to 1970.
abbrev unix_epoch : ℕ
unix_epoch = 62_135_596_800 * nanos_per_seconds

-- Time.UnixNano, which wraps around.
unfoldable pub unix_nano : ℕ → ℕ
unix_nano t = (t + 4 * 2 ^ 64 - unix_epoch) % 2 ^ 64

-- The division of int64, which rounds towards 0, by a positive number.
abbrev quotient : ℕ → ℕ → ℕ
quotient a b = if slt64 a 0 then (2 ^ 64 - (2 ^ 64 - a) / b) % 2 ^ 64 else a / b

unfoldable pub current_cached_time_millis : MockClock → ℕ
unfolding unix_nano
current_cached_time_millis m = quotient (unix_nano m.current_mock_time) nanos_per_millis

unfoldable pub current_cached_time_seconds : MockClock → ℕ
unfolding unix_nano
current_cached_time_seconds m = quotient (unix_nano m.current_mock_time) nanos_per_seconds

-- The timer is a pointer: its index.
unfoldable pub timer : ℕ → MockClock → ℕ × MockClock
timer d m = (
  length m.timers,
  record m { timers = m.timers ++ record { channel = none; duration = d } ∷ [] },
)

-- Time.Add
unfoldable pub time_add : ℕ → ℕ → ℕ
time_add t d = if slt64 d 0 then t - (2 ^ 64 - d) else t + d

-- Time.After
abbrev pub after : ℕ → ℕ → Bool
after t u = ltb u t

-- A send to the channel of a timer; `none`: the sender waits until the value in the channel is received.
abbrev pub send : ℕ → MockTimer → Option MockTimer
send now t = elim t.channel [ none ↦ some (record t { channel = some now }) | some v ↦ none ]

-- The loop of advance.
unfoldable pub fire : ℕ → ℕ → List MockTimer → Option (List MockTimer)
unfolding time_add
fire old now [] = some []
fire old now (t ∷ ts) = elim (if after now (time_add old t.duration) then send now t else some t) [
  | none ↦ none
  | some t' ↦ elim (fire old now ts) [ none ↦ none | some ts' ↦ some (t' ∷ ts') ]
]

-- `none`: advance waits in a send, and holds updateLock.
unfoldable pub advance : ℕ → MockClock → Option MockClock
unfolding time_add
advance d m =
    let now = time_add m.current_mock_time d in
    elim (fire m.current_mock_time now m.timers) [
      | none ↦ none
      | some ts ↦ some (record { current_mock_time = now; timers = ts })
    ]

-- The case `<-timer.C` of a select with a default case.
unfoldable pub receive : ℕ → MockClock → Option ℕ × MockClock
receive p m = elim (get_elem? m.timers p) [
  | none ↦ (none, m)
  | some t ↦ (t.channel, record m { timers = set m.timers p (record t { channel = none }) })
]
