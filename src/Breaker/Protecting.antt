-- ===== src/Breaker/Protecting.antt =====
-- ProtectWithContext of cb.go from end to end.
use j_circuit_breaker.Base.{◌≡◌, Option, some, ◌⊎◌}
use j_circuit_breaker.Constants.{Err}
use j_circuit_breaker.Clock.{Clock}
use j_circuit_breaker.Options.{Options}
use j_circuit_breaker.Breaker.{Breaker}
use j_circuit_breaker.Breaker.Enter.{Entry, entered, blocked, waits, Waiting, enter_with_fallback}
use j_circuit_breaker.Breaker.Exit.{RunResult, run_error_of, Protected, returned, parked, end_of}
use j_circuit_breaker.Breaker.Exits.{exit_error}

-- What a call of ProtectWithContext comes to: it is blocked, and its function does not run; it waits for the limiter; or its
-- function runs, once it is entered, and what the caller is told is the function's error, or what the fallback makes of it.
abbrev pub Comes : Options → RunResult → Clock → Breaker → Protected → Breaker → Type 0
Comes o run begin b res b' =
    let enter = enter_with_fallback o.fallback_func o.amplify_factor begin b in
    ((fb_err : Option Err) × (e : Err) × (enter ≡ some (blocked fb_err e, b'))
      × (res ≡ returned fb_err))
    ⊎ ((p : Waiting) × (enter ≡ some (waits p, b')) × (res ≡ parked p))
    ⊎ ((e : Entry) × (c : Breaker) × (enter ≡ some (entered e, c))
        × (res ≡ end_of run (exit_error o.fallback_func (run_error_of run))))
