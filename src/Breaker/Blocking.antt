-- ===== src/Breaker/Blocking.antt =====
-- The calls that enterWithFallback of cb.go turns away because of the state (acquirePermission of state.go).
use j_circuit_breaker.Base.{◌≡◌, Option, some, none}
use j_circuit_breaker.Constants.{Err, CircuitError, circuit}
use j_circuit_breaker.Clock.{Clock}
use j_circuit_breaker.Window.{empty_snapshot}
use j_circuit_breaker.Options.{FallbackFunc}
use j_circuit_breaker.State.{Mode, decide, on_request_start, acquire_mode}
use j_circuit_breaker.Breaker.{Breaker}
use j_circuit_breaker.Breaker.Enter.{new_stats, error_and_fallback}

-- The error that a blocked call's caller gets: that of its fallback, if it has one.
abbrev pub told : Option FallbackFunc → CircuitError → Option Err
told fb e = (error_and_fallback fb (circuit e) new_stats).0

-- A mode that asks for no transition at the start of a call, and gives no permission.
record Refuses (m : Mode) (clock : Clock) (e : CircuitError) : Type 0 where
  stays : decide m empty_snapshot on_request_start clock ≡ (none, m)
  refuses : acquire_mode m ≡ (some e, m)
