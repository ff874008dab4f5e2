-- ===== src/Limiter/Capacity.antt =====
-- What the limiter promises, after any events of any callers (Limiter/Clients).
use j_circuit_breaker.Base.{
  ℕ, ◌+◌, ◌%◌, ◌^◌, ◌≤◌, ◌<◌, ◌≡◌, refl, ap, ◌∙◌, ◌⊎◌, List, [], ◌∷◌, ◌++◌, arith, false,
}
use j_circuit_breaker.Limiter.{
  Waiter, Semaphore, weighted_semaphore, new_concurrency_limiter, acquire, release, wake, cancel,
  notify_from, notify_waiters, get_count,
}
use j_circuit_breaker.Limiter.Notify.{weight, FitsIn, IsBlocked}
use j_circuit_breaker.Limiter.Clients.{Clients, Event, enters, wakes, times_out, exits, step, run}
use j_circuit_breaker.Limiter.Queue.{sum}
use j_circuit_breaker.Limiter.Safety.{Inv, alone, run-Inv}

size-notify_from : (w : Semaphore) (queue : List Waiter) → (notify_from w queue).size ≡ w.size
unfolding notify_from
size-notify_from w [] = refl
size-notify_from w (next ∷ rest) = ground (
  arith,
  size-notify_from (record w { cur = (w.cur + next.n) % 2 ^ 64; granted = w.granted ++ next ∷ [] })
      rest,
)

size-cancel : (w : Semaphore) (id : ℕ) → (cancel w id).1.size ≡ w.size
unfolding cancel notify_waiters
size-cancel w id = grind (arith, size-notify_from)

size-release : (w : Semaphore) (n : ℕ) → (release w n).size ≡ w.size
unfolding release notify_waiters
size-release w n = grind (arith, size-notify_from)

size-step : (c : Clients) (e : Event) → (step c e).semaphore.size ≡ c.semaphore.size
unfolding step acquire wake
size-step c (enters factor) = ground arith
size-step c (wakes id) = ground arith
size-step c (times_out id) = ground (arith, size-cancel c.semaphore id)
size-step c (exits n) = ground (arith, size-release c.semaphore n)

size-run : (c : Clients) (es : List Event) → (run c es).semaphore.size ≡ c.semaphore.size
unfolding run
size-run c [] = refl
size-run c (e ∷ es) = size-run (step c e) es ∙ size-step c e

size-new :
    (size max_wait_duration : ℕ) (s : Semaphore)
    → new_concurrency_limiter size max_wait_duration ≡ weighted_semaphore s
    → s.size ≡ size
unfolding new_concurrency_limiter
size-new size max_wait_duration s new = ground (arith, new)

sum-nil : sum [] ≡ 0
unfolding sum
sum-nil = refl

weight-nil : weight [] ≡ 0
unfolding weight
weight-nil = refl

none_blocked :
    (size cur : ℕ) (ws : List Waiter)
    → FitsIn size ws
    → cur ≡ 0
    → 0 < size
    → IsBlocked size cur ws ⊎ (cur ≡ size)
    → ws ≡ []
none_blocked size cur [] fits none_held pos b = refl
none_blocked size cur (w ∷ ws) fits none_held pos b = absurd (omega (arith, fits.0, b))

module _ (size max_wait_duration : ℕ) (s : Semaphore) (es : List Event)
    (new : new_concurrency_limiter size max_wait_duration ≡ weighted_semaphore s)
    (int64 : size < 2 ^ 64) where
  after : Inv (run (alone s) es)
  after = run-Inv size max_wait_duration s es new int64

  -- Of a limiter that is made with the size `size`, the calls that acquire() let in and that have not been
  -- released hold at most `size` in weight, after any events of callers that release what they acquired.
  pub active-le-size : sum (run (alone s) es).active ≤ size
  active-le-size =
      omega (arith, after, size-run (alone s) es, size-new size max_wait_duration s new)

  -- If then no call holds a part of the limiter, and none has been let in that is yet to return, no caller
  -- waits in the queue.
  pub idle_no_waiter :
      (run (alone s) es).active ≡ []
      → (run (alone s) es).semaphore.granted ≡ []
      → (run (alone s) es).semaphore.waiters ≡ []
  idle_no_waiter a g =
      none_blocked _ _ _ after.asks_fit
        (omega (arith, after.counted, ap sum a, ap weight g, sum-nil, weight-nil)) after.some_size
        after.blocked

  -- If then no call holds a part of the limiter, and none has been let in that is yet to return, the
  -- uncapped count is the weight of all calls that were ever refused.
  pub uncapped_counts_refused :
      (run (alone s) es).active ≡ []
      → (run (alone s) es).semaphore.granted ≡ []
      → get_count (run (alone s) es).semaphore false ≡ (run (alone s) es).refused % 2 ^ 64
  unfolding get_count
  uncapped_counts_refused a g = omega (
    arith,
    after.uncapped,
    ap sum a,
    ap weight g,
    ap weight (idle_no_waiter a g),
    sum-nil,
    weight-nil,
  )
