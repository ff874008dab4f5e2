-- ===== src/Limiter.antt =====
-- concurrency_limiter.go. The fields are int64 bit patterns (Base/Word). A waiter's `ready` channel and its
-- list element are its `id`; `granted` are the waiters whose channel is closed and who have not returned
-- from acquire() yet. acquire() blocks in a select, so it is modelled in two parts: `acquire` up to the
-- select, then `wake` (the channel is closed) or `cancel` (the context is done). Each part runs under the
-- mutex. Messages that are only logged are left out.
pub mod Notify
pub mod Clients
pub mod Queue
pub mod Safety
pub mod Capacity
use j_circuit_breaker.Base.{
  ℕ, suc, ◌+◌, ◌<◌, Bool, true, false, ◌&&◌, List, [], ◌∷◌, ◌++◌, add64, sub64, slt64, sle64, ◌==◌,
  if◌then◌else◌,
}

pub record Waiter : Type 0 where
  pub id : ℕ
  pub n : ℕ

pub record Semaphore : Type 0 where
  pub size : ℕ
  pub cur : ℕ
  pub max_wait_duration : ℕ
  pub uncapped_concurrency_count : ℕ
  pub waiters : List Waiter
  pub granted : List Waiter
  pub next_id : ℕ

pub data Limiter : Type 0 where
  no_op_limiter : Limiter
  weighted_semaphore : Semaphore → Limiter

-- newConcurrencyLimiter
unfoldable pub new_concurrency_limiter : ℕ → ℕ → Limiter
new_concurrency_limiter size max_wait_duration =
    if sle64 size 0
    then no_op_limiter
    else weighted_semaphore (record {
      size = size;
      cur = 0;
      max_wait_duration = max_wait_duration;
      uncapped_concurrency_count = 0;
      waiters = [];
      granted = [];
      next_id = 0;
    })

-- What acquire() has come to: nil, the error, or the wait in the select.
pub data Acquired : Type 0 where
  acquired : Acquired
  max_concurrency_reached : Acquired
  queued : ℕ → Acquired

abbrev pub is_empty : List Waiter → Bool
is_empty [] = true
is_empty (_ ∷ _) = false

unfoldable pub acquire : Semaphore → ℕ → Acquired × Semaphore
acquire w n =
    let counted = record w { uncapped_concurrency_count = add64 w.uncapped_concurrency_count n } in
    if sle64 n (sub64 w.size w.cur) && is_empty w.waiters
    then (acquired, record counted { cur = add64 w.cur n })
    else if slt64 w.size n
    then (max_concurrency_reached, counted)
    else if sle64 w.max_wait_duration 0
    then (max_concurrency_reached, counted)
    else (
      queued w.next_id,
      record counted {
        waiters = w.waiters ++ record { id = w.next_id; n = n } ∷ [];
        next_id = suc w.next_id;
      },
    )

-- The loop of notifyWaiters, over the waiters from the front.
unfoldable pub notify_from : Semaphore → List Waiter → Semaphore
notify_from w [] = record w { waiters = [] }
notify_from w (next ∷ rest) =
    let stop = record w { waiters = next ∷ rest } in
    let go =
      notify_from (record w { cur = add64 w.cur next.n; granted = w.granted ++ next ∷ [] }) rest in
    if slt64 (sub64 w.size w.cur) next.n then stop else go

unfoldable pub notify_waiters : Semaphore → Semaphore
unfolding notify_from
notify_waiters w = notify_from w w.waiters

unfoldable pub release : Semaphore → ℕ → Semaphore
release w n =
    let cur = sub64 w.cur n in
    notify_waiters (record w {
      uncapped_concurrency_count = sub64 w.uncapped_concurrency_count n;
      cur = if slt64 cur 0 then 0 else cur;
    })

unfoldable pub has : ℕ → List Waiter → Bool
has id [] = false
has id (w ∷ ws) = if w.id == id then true else has id ws

unfoldable pub remove : ℕ → List Waiter → List Waiter
remove id [] = []
remove id (w ∷ ws) = if w.id == id then ws else w ∷ remove id ws

abbrev pub is_front : ℕ → List Waiter → Bool
is_front id [] = false
is_front id (w ∷ _) = w.id == id

-- The case `<-ready`: the channel is closed, and acquire() returns nil.
unfoldable pub wake : Semaphore → ℕ → Semaphore
wake w id = record w { granted = remove id w.granted }

-- The case `<-ctx.Done()`. The test says whether acquire() returns nil after all.
unfoldable pub cancel : Semaphore → ℕ → Bool × Semaphore
cancel w id =
    let left = record w { waiters = remove id w.waiters } in
    if has id w.granted
    then (true, record w { granted = remove id w.granted })
    else if is_front id w.waiters && slt64 w.cur w.size
    then (false, notify_waiters left)
    else (false, left)

unfoldable pub get_count : Semaphore → Bool → ℕ
get_count w is_capped = if is_capped then w.cur else w.uncapped_concurrency_count
