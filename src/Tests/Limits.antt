-- ===== src/Tests/Limits.antt =====
-- concurrency_limiter.go on concrete inputs.
use j_circuit_breaker.Base.{◌≡◌, ◌≤◌, ◌%◌, ◌^◌, refl, arith, List, [], ◌∷◌, false}
use j_circuit_breaker.Limiter.{
  Waiter, Semaphore, acquire, release, notify_waiters, wake, remove, notify_from, get_count,
  weighted_semaphore, new_concurrency_limiter,
}
use j_circuit_breaker.Limiter.Notify.{Notified, notify_from-Notified}
use j_circuit_breaker.Limiter.Clients.{
  Event, enters, wakes, times_out, exits, step, without, asked, run,
}
use j_circuit_breaker.Limiter.Queue.{sum}
use j_circuit_breaker.Limiter.Safety.{alone}
use j_circuit_breaker.Limiter.Capacity.{active-le-size, idle_no_waiter, uncapped_counts_refused}

abbrev made : Semaphore
made = record {
  size = 2;
  cur = 0;
  uncapped_concurrency_count = 0;
  waiters = [];
  granted = [];
  next_id = 0;
  max_wait_duration = 1000000;
}

made_new : new_concurrency_limiter 2 1000000 ≡ weighted_semaphore made
unfolding new_concurrency_limiter
made_new = refl

-- Two calls fill the limiter, two wait, one of these gives up and the other is let in.
abbrev events : List Event
events = enters 1 ∷ enters 1 ∷ enters 1 ∷ enters 2 ∷ times_out 1 ∷ exits 1 ∷ wakes 0 ∷ []

active-le-size_example : sum (run (alone made) events).active ≤ 2
active-le-size_example = active-le-size 2 1000000 made events made_new (omega arith)

abbrev all_left : List Event
all_left = enters 1 ∷ enters 1 ∷ enters 3 ∷ enters 1 ∷ exits 1 ∷ wakes 0 ∷ exits 1 ∷ exits 1 ∷ []

idle_active : (run (alone made) all_left).active ≡ []
unfolding run step without asked acquire release notify_waiters wake remove
idle_active = refl

idle_granted : (run (alone made) all_left).semaphore.granted ≡ []
unfolding run step without asked acquire release notify_waiters wake remove
idle_granted = refl

idle_no_waiter_example : (run (alone made) all_left).semaphore.waiters ≡ []
idle_no_waiter_example =
    idle_no_waiter 2 1000000 made all_left made_new (omega arith) idle_active idle_granted

uncapped_counts_refused_example :
    get_count (run (alone made) all_left).semaphore false
    ≡ (run (alone made) all_left).refused % 2 ^ 64
uncapped_counts_refused_example =
    uncapped_counts_refused 2 1000000 made all_left made_new (omega arith) idle_active idle_granted

-- The call of weight 3 does not fit in, and was refused.
uncapped_after : get_count (run (alone made) all_left).semaphore false ≡ 3
unfolding run step without asked acquire release notify_waiters wake remove get_count
uncapped_after = refl

abbrev queue : List Waiter
queue = record { id = 0; n = 1 } ∷ record { id = 1; n = 2 } ∷ record { id = 2; n = 1 } ∷ []

notify_from-Notified_example : Notified made (notify_from made queue) queue
notify_from-Notified_example =
    notify_from-Notified made queue (omega arith) (omega arith)
      (omega arith, (omega arith, (omega arith, tt)))
