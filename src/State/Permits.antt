-- ===== src/State/Permits.antt =====
-- The permits of the SEMI_OPEN state (state.go): acquirePermission counts them, and releasePermission gives back that of a
-- call that the limiter refused after all.
use j_circuit_breaker.Base.{
  ℕ, ◌≡◌, ◌≤◌, ◌<◌, ◌^◌, ◌+◌, ◌-◌, List, [], ◌∷◌, arith, ltb, if◌then◌else◌, Option, some, none,
}
use j_circuit_breaker.Constants.{CircuitError, err_max_permitted_calls_in_semi_open_state}
use j_circuit_breaker.State.{Mode, SemiOpen, semi_open_mode, acquire_mode, release_mode}

-- What the calls of a breaker do with a semi-open state: ask for a permit, or give one of those back that were given.
pub data PermitEvent : Type 0 where
  asks gives_back : PermitEvent

-- The state, and the permits that were given and not given back.
pub record Permits : Type 0 where
  pub mode : Mode
  pub held : ℕ

abbrev given : ℕ → Option CircuitError × Mode → Permits
given held (none, m) = record { mode = m; held = held + 1 }
given held (some e, m) = record { mode = m; held = held }

unfoldable pub step : Permits → PermitEvent → Permits
step p asks = given p.held (acquire_mode p.mode)
step p gives_back =
    if ltb 0 p.held then record { mode = release_mode p.mode; held = p.held - 1 } else p

unfoldable pub run : Permits → List PermitEvent → Permits
run p [] = p
run p (e ∷ es) = run (step p e) es

-- The state counts the permits that are held, and there are not more than its threshold.
record Counts (s : SemiOpen) (p : Permits) : Type 0 where
  mode : p.mode ≡ semi_open_mode (record s { call_count = p.held })
  bound : p.held ≤ s.call_threshold

step-Counts :
    (s : SemiOpen) (p : Permits) (e : PermitEvent)
    → s.call_threshold < 2 ^ 32
    → Counts s p
    → Counts s (step p e)
unfolding step acquire_mode release_mode
step-Counts s p asks small c = ground (arith, c.mode, c.bound)
step-Counts s p gives_back small c = ground (arith, c.mode, c.bound)

run-Counts :
    (s : SemiOpen) (p : Permits) (es : List PermitEvent)
    → s.call_threshold < 2 ^ 32
    → Counts s p
    → Counts s (run p es)
unfolding run
run-Counts s p [] small c = c
run-Counts s p (e ∷ es) small c = run-Counts s (step p e) es small (step-Counts s p e small c)

-- A semi-open state with a threshold below 2^32 that has given no permit yet holds, after any order of
-- acquirePermission and releasePermission of a permit that was given, at most its threshold of
-- permits; its count is the number of those given and not given back, and the next call gets one
-- exactly when they are fewer than the threshold.
pub run-held :
    (s : SemiOpen) (es : List PermitEvent)
    → s.call_threshold < 2 ^ 32
    → s.call_count ≡ 0
    → let p = run (record { mode = semi_open_mode s; held = 0 }) es in
      (p.held ≤ s.call_threshold)
      × (p.mode ≡ semi_open_mode (record s { call_count = p.held }))
      × ((acquire_mode p.mode).0 ≡ (
          if ltb p.held s.call_threshold
          then none
          else some err_max_permitted_calls_in_semi_open_state))
unfolding acquire_mode
run-held s es small none_yet =
    let c =
      run-Counts s (record { mode = semi_open_mode s; held = 0 }) es small
        (record { mode = ground (arith, none_yet); bound = omega arith }) in
    (c.bound, c.mode, ground (arith, c.mode))
