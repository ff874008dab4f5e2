-- ===== src/Lib.antt =====
-- Verification of the circuit breaker library (the Go package at the repository's root).
--
-- A breaker guards the calls of a dependency. enterWithFallback asks the current state and the concurrency
-- limiter for permission; the call runs; exitWithFallback releases the limiter, records the outcome in the
-- state's window, and lets the state ask for a transition, which StateTransition performs if the breaker still
-- is in that state. Named breakers live in a map of the process.
--
-- Files and the code that they model (numbers are natural; an int64 is its bit pattern, below 2^64):
--   Base            shared names; Base/Word has the fixed-width arithmetic, Base/Lists the list lemmas
--   Window          window.go: counters and snapshots. Window/Count is countWindowMetric, Window/Time
--                   timeWindowMetric, Window/Metric iWindowMetric, Window/Float the float64 arithmetic of the
--                   percentages. Window/Ring, Tally, Moves, MoveLoop, Seconds, Records, Sound and
--                   Float/Rounding carry the proofs, Window/LastCalls, LastSeconds, Behind, Total and Percent the results
--   Limiter         concurrency_limiter.go: newConcurrencyLimiter, acquire, release, getCount, notifyWaiters;
--                   Limiter/Clients has the callers as events, Limiter/Notify, Queue, Safety and Capacity the
--                   proofs and results
--   Constants       constant.go and the State of state.go
--   Config          config.go and health_checker.go; Config/Defaults and Config/Thresholds have the results
--   Clock           time.go: the clocks are values that are passed in; a timer has fired from its time on.
--                   Clock/Mock is mockClock, and Clock/Advance about its timers
--   State           state.go: the five states are one object, a window and a Mode; State/Decisions has the results,
--                   State/Permits those on acquirePermission and releasePermission
--   Events          event.go and metrics.go: what is handed out is a list of effects
--   Options         option.go
--   Breaker         cb.go and entry.go: Breaker/Transition (StateTransition, OnRequestComplete, updateSetting),
--                   Breaker/Enter (enterWithFallback), Breaker/Exit (exitWithFallback, Exit, Protect);
--                   Breaker/Edges, Automatic and Entries carry the proofs of Breaker/Moves, Runs, Updates and
--                   Panics. Breaker/Sound says when a breaker is well-formed; Returns, Calls, Exits, Updating and
--                   Serving follow it through the operations, Breaker/Decided what a state decides. Breaker/Session
--                   has the calls of a breaker as events, Breaker/Running their runs; Breaker/Opening, Blocking,
--                   Admission and Protecting have the results on single calls
--   Registry        circuitbreaker.go: Registry/Lookup is about Get, Registry/Names and History about
--                   any later calls, Registry/Updated and Batch about UpdateConfigs, Registry/Clearing about
--                   resetBreakers, Registry/Serving about a new breaker
--   Tests           the theorems and definitions on concrete inputs
--
-- State is passed on explicitly. A result `none` of a breaker, window or registry operation is a panic of the
-- code (an index out of range, a nil pointer, a division by zero). Entries share states and limiters with the
-- breaker, so a breaker holds a store of each and a pointer is an index into it.
--
-- A breaker is sound up to the second k (Breaker/Sound) if its pointers lead somewhere, its windows are
-- well-formed and have no bucket after k, and the sizes of its setting are not 0 as uint32. A clock fits if it
-- shows no second after k, the wall clock is at least as many seconds after 1970 as a window is long, and k is
-- a little below 2^63. A clock that fits may still show a second before the latest one of a window.
--
-- Fuel and bounds: the loop of moveWindowToCurrentSecond has fuel for one more round than the window has
-- buckets, and moves by no more seconds than it has buckets, so the fuel is enough.
--
-- Not modelled: the registration of the Prometheus metrics, logging, the pool of options,
-- String of the buckets, setClock, and interleavings inside an operation other than the wait in acquire().
-- The limiter's callers interleave freely in Limiter/Clients.
pub mod Base
pub mod Window
pub mod Limiter
pub mod Constants
pub mod Config
pub mod Clock
pub mod State
pub mod Events
pub mod Options
pub mod Breaker
pub mod Registry
pub mod Tests
