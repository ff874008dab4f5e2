-- ===== src/Tests/Sessions.antt =====
-- The theorem on sequences of calls, on the breaker of Tests/Brisk.
use j_circuit_breaker.Base.{◌≡◌, refl, ◌+◌, ◌*◌, arith, List, [], ◌∷◌, none, some, length, All}
use j_circuit_breaker.Config.{is_valid_config, new_default_config}
use j_circuit_breaker.Clock.{Clock}
use j_circuit_breaker.Breaker.{Breaker}
use j_circuit_breaker.Breaker.Enter.{done}
use j_circuit_breaker.Breaker.Session.{
  Session, Event, enters, wait_ends, exits, forces_open, resets, updates, listens, alone, run,
}
use j_circuit_breaker.Breaker.Serving.{IsGood, IsServing-later}
use j_circuit_breaker.Breaker.Running.{Happens}
use j_circuit_breaker.Breaker.Updating.{ClockIsIn, IsServing}
use j_circuit_breaker.Registry.{Registry, reset_breakers, new_circuit_breaker, ok}
use j_circuit_breaker.Registry.Batch.{IsValid, Below}
use j_circuit_breaker.Registry.Clearing.{EntryClosed, reset_breakers_returns}
use j_circuit_breaker.Registry.Serving.{made_run_returns}
use j_circuit_breaker.Tests.Brisk.{at_hundred, at_hundred_twenty, brisk, made, failure, broken}
use j_circuit_breaker.Tests.Soundness.{small, hundred, twenty, made-Sound, broken-Serving}

abbrev events : List (Event × Clock)
events =
    (enters none 1, at_hundred)
    ∷ (exits 0 failure none, at_hundred)
    ∷ (enters none 1, at_hundred)
    ∷ (enters none 1, at_hundred_twenty)
    ∷ (forces_open, at_hundred)
    ∷ (updates (some brisk), at_hundred_twenty)
    ∷ (exits 0 none none, at_hundred)
    ∷ (wait_ends 0 done, at_hundred)
    ∷ (listens (some 0), at_hundred)
    ∷ (resets, at_hundred)
    ∷ []

made_ok : new_circuit_breaker (100 ∷ 98 ∷ []) (some brisk) at_hundred ≡ ok made
unfolding new_circuit_breaker is_valid_config new_default_config
made_ok = refl

hundred_early : ClockIsIn 10 120 at_hundred
hundred_early = record {
  cached = omega (arith, hundred.cached);
  wall = omega (arith, hundred.wall);
  room = hundred.room;
}

happen : All (Happens 10 120) events
happen = (
  (tt, hundred_early),
  (
    (tt, hundred_early),
    (
      (tt, hundred_early),
      (
        (tt, twenty),
        (
          (tt, hundred_early),
          (
            (small, twenty),
            (
              (tt, hundred_early),
              ((tt, hundred_early), ((tt, hundred_early), ((tt, hundred_early), tt))),
            ),
          ),
        ),
      ),
    ),
  ),
)

made_run_returns_example :
    (s : Session) × (run (alone made) events ≡ some s) × IsGood 10 (120 + 2 * length events) s
made_run_returns_example =
    made_run_returns (100 ∷ 98 ∷ []) (some brisk) at_hundred made events made_ok small hundred_early
      happen (omega arith)

abbrev registry : Registry
registry = record { breakers = broken ∷ made ∷ []; names = (100 ∷ 98 ∷ [], 0) ∷ [] }

registry-IsValid : IsValid registry
unfolding IsValid Below
registry-IsValid = (omega arith, tt)

registry_served : All (IsServing 10 120) registry.breakers
registry_served =
    (IsServing-later (omega arith) broken-Serving, (IsServing-later (omega arith) made-Sound, tt))

reset_breakers_returns_example :
    (r' : Registry) × (reset_breakers at_hundred_twenty registry ≡ some r')
    × (r'.names ≡ [])
    × All (EntryClosed r'.breakers) registry.names
    × All (IsServing 10 (120 + length registry.names)) r'.breakers
reset_breakers_returns_example =
    reset_breakers_returns at_hundred_twenty registry registry-IsValid registry_served twenty
      (omega arith)
