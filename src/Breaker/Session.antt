-- ===== src/Breaker/Session.antt =====
-- A breaker and its callers: the calls that it let in and that have not ended, and those that wait for the limiter. Every
-- event is one section of a call of cb.go or entry.go, or one call of an operator; the events of different callers come in
-- any order. An event of a call that is not there changes nothing (Exit runs once, by its sync.Once).
use j_circuit_breaker.Base.{ℕ, zero, suc, List, [], ◌∷◌, ◌++◌, Option, none, some, get_elem?}
use j_circuit_breaker.Constants.{Err}
use j_circuit_breaker.Config.{Config}
use j_circuit_breaker.Clock.{Clock}
use j_circuit_breaker.Options.{FallbackFunc}
use j_circuit_breaker.Breaker.{Breaker}
use j_circuit_breaker.Breaker.Transition.{
  force_open, force_close, reset, update_config, register_event_listener,
}
use j_circuit_breaker.Breaker.Enter.{
  Entry, Entering, entered, blocked, waits, Waiting, WaitEnd, enter_with_fallback, resume,
}
use j_circuit_breaker.Breaker.Exit.{exit_with_fallback}

pub record Session : Type 0 where
  pub breaker : Breaker
  pub entries : List Entry
  pub waiting : List Waiting

pub data Event : Type 0 where
  enters : Option FallbackFunc → ℕ → Event
  wait_ends : ℕ → WaitEnd → Event
  exits : ℕ → Option Err → Option FallbackFunc → Event
  forces_open forces_closed resets : Event
  updates : Option Config → Event
  listens : Option ℕ → Event

abbrev pub remove_at {ℓ} : {A : Type ℓ} → List A → ℕ → List A
remove_at [] i = []
remove_at (x ∷ xs) zero = xs
remove_at (x ∷ xs) (suc i) = x ∷ remove_at xs i

-- A call's section has returned.
unfoldable pub admit : Session → Option (Entering × Breaker) → Option Session
admit s none = none
admit s (some (entered e, b)) = some (record s { breaker = b; entries = s.entries ++ e ∷ [] })
admit s (some (blocked fb_err e, b)) = some (record s { breaker = b })
admit s (some (waits p, b)) = some (record s { breaker = b; waiting = s.waiting ++ p ∷ [] })

unfoldable pub with_breaker {ℓ} : {A : Type ℓ} → Session → Option (A × Breaker) → Option Session
with_breaker s none = none
with_breaker s (some (a, b)) = some (record s { breaker = b })

unfoldable pub step : Session → Event → Clock → Option Session
step s (enters fb factor) clock = admit s (enter_with_fallback fb factor clock s.breaker)
step s (wait_ends i end) clock = elim (get_elem? s.waiting i) [
  | none ↦ some s
  | some p ↦ admit (record s { waiting = remove_at s.waiting i }) (resume p end clock s.breaker)
]
step s (exits i err fb) clock = elim (get_elem? s.entries i) [
  | none ↦ some s
  | some e ↦
      with_breaker (record s { entries = remove_at s.entries i })
        (exit_with_fallback e err fb e.factor clock s.breaker)
]
step s forces_open clock = with_breaker s (force_open clock s.breaker)
step s forces_closed clock = with_breaker s (force_close clock s.breaker)
step s resets clock = with_breaker s (reset clock s.breaker)
step s (updates config) clock =
    some (record s { breaker = (update_config config clock s.breaker).1 })
step s (listens callback) clock =
    some (record s { breaker = register_event_listener callback s.breaker })

unfoldable pub run : Session → List (Event × Clock) → Option Session
run s [] = some s
run s ((e, clock) ∷ es) = elim (step s e clock) [ none ↦ none | some s' ↦ run s' es ]

abbrev pub alone : Breaker → Session
alone b = record { breaker = b; entries = []; waiting = [] }
