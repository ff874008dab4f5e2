-- ===== src/Limiter/Clients.antt =====
-- The callers of the limiter, as the breaker uses it: a call that acquire() let in is released once with
-- the same weight, and one that it refused is not. Callers interleave in any order; each event is one
-- section under the semaphore's mutex.
use j_circuit_breaker.Base.{
  ℕ, ◌+◌, Bool, true, false, List, [], ◌∷◌, Option, none, some, to_uint32, ◌==◌, if◌then◌else◌,
}
use j_circuit_breaker.Limiter.{
  Waiter, Semaphore, Acquired, acquired, max_concurrency_reached, queued, acquire, release, wake,
  cancel,
}

-- The calls that hold a part of the semaphore, by weight, and the weight of all that were refused.
pub record Clients : Type 0 where
  pub semaphore : Semaphore
  pub active : List ℕ
  pub refused : ℕ

pub data Event : Type 0 where
  enters : ℕ → Event
  wakes : ℕ → Event
  times_out : ℕ → Event
  exits : ℕ → Event

-- The weight that a waiter asked for.
unfoldable pub asked : ℕ → List Waiter → Option ℕ
asked id [] = none
asked id (w ∷ ws) = if w.id == id then some w.n else asked id ws

-- The calls without one of weight `n`, or nothing if no such call is active.
unfoldable pub without : ℕ → List ℕ → Option (List ℕ)
without n [] = none
without n (m ∷ ms) =
    let rest = without n ms in
    if m == n then some ms else elim rest [ none ↦ none | some r ↦ some (m ∷ r) ]

abbrev pub entered : Clients → ℕ → Acquired × Semaphore → Clients
entered c n (acquired, s) = record c { semaphore = s; active = n ∷ c.active }
entered c n (max_concurrency_reached, s) = record c { semaphore = s; refused = c.refused + n }
entered c n (queued id, s) = record c { semaphore = s }

abbrev pub returned : Clients → ℕ → Bool × Semaphore → Clients
returned c n (true, s) = record c { semaphore = s; active = n ∷ c.active }
returned c n (false, s) = record c { semaphore = s; refused = c.refused + n }

-- The weight is the uint32 `factor`. An event of a caller that is not there changes nothing.
unfoldable pub step : Clients → Event → Clients
step c (enters factor) = entered c (to_uint32 factor) (acquire c.semaphore (to_uint32 factor))
step c (wakes id) = elim (asked id c.semaphore.granted) [
  | none ↦ c
  | some n ↦ record c { semaphore = wake c.semaphore id; active = n ∷ c.active }
]
step c (times_out id) = elim (asked id c.semaphore.granted) [
  | some n ↦ returned c n (cancel c.semaphore id)
  | none ↦ elim (asked id c.semaphore.waiters) [
    | some n ↦ returned c n (cancel c.semaphore id)
    | none ↦ c
  ]
]
step c (exits n) = elim (without n c.active) [
  | none ↦ c
  | some rest ↦ record c { semaphore = release c.semaphore n; active = rest }
]

unfoldable pub run : Clients → List Event → Clients
run c [] = c
run c (e ∷ es) = run (step c e) es
