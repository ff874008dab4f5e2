-- ===== src/Limiter/Safety.antt =====
-- What holds of the limiter (Limiter.antt) and its callers (Limiter/Clients) after any events.
use j_circuit_breaker.Base.{
  ℕ, ◌+◌, ◌%◌, ◌^◌, ◌≤◌, ◌<◌, ◌≡◌, sym, ap, subst, ◌∙◌, ◌⊎◌, inl, inr, true, false, List, [], ◌∷◌,
  ◌++◌, some, arith, All-right, Bool-cases, Option-cases, slt64, to_uint32, ◌&&◌,
}
use j_circuit_breaker.Limiter.{
  Waiter, Semaphore, weighted_semaphore, new_concurrency_limiter, is_front, acquire, release, wake,
  cancel, has, remove, notify_from, notify_waiters,
}
use j_circuit_breaker.Limiter.Notify.{
  weight, weight-append, FitsIn, IsBlocked, notify_from-Notified,
}
use j_circuit_breaker.Limiter.Clients.{
  Clients, Event, enters, wakes, times_out, exits, asked, without, returned, step, run,
}
use j_circuit_breaker.Limiter.Queue.{
  sum, weight-remove, has-asked, has-not_asked, remove-FitsIn, remove-IsBlocked, sum-without,
  snoc-FitsIn, snoc-IsBlocked,
}

-- Between two events: what is held is counted, and the first waiter does not fit (or, if it asks for
-- nothing, all is held).
pub record Inv (c : Clients) : Type 0 where
  pub some_size : 0 < c.semaphore.size
  pub small : c.semaphore.size < 2 ^ 63
  pub counted : c.semaphore.cur ≡ sum c.active + weight c.semaphore.granted
  pub fits : c.semaphore.cur ≤ c.semaphore.size
  pub asks_fit : FitsIn c.semaphore.size c.semaphore.waiters
  pub blocked :
      IsBlocked c.semaphore.size c.semaphore.cur c.semaphore.waiters
      ⊎ (c.semaphore.cur ≡ c.semaphore.size)
  pub uncapped :
      c.semaphore.uncapped_concurrency_count
      ≡ (sum c.active + weight c.semaphore.granted + weight c.semaphore.waiters + c.refused)
        % 2 ^ 64

-- notifyWaiters restores the part of the invariant about the first waiter.
notify-Inv :
    (w : Semaphore) (active : List ℕ) (refused : ℕ)
    → 0 < w.size
    → w.size < 2 ^ 63
    → w.cur ≡ sum active + weight w.granted
    → w.cur ≤ w.size
    → FitsIn w.size w.waiters
    → w.uncapped_concurrency_count
      ≡ (sum active + weight w.granted + weight w.waiters + refused) % 2 ^ 64
    → Inv (record { semaphore = notify_waiters w; active = active; refused = refused })
unfolding notify_waiters
notify-Inv w active refused pos small counted fits asks uncapped =
    let r = notify_from-Notified w w.waiters fits small asks in
    let granted = ap weight r.granted ∙ weight-append w.granted r.served in
    let queue = ap weight r.in_order ∙ weight-append r.served _ in
    record {
      some_size = omega (arith, r.size);
      small = omega (arith, r.size);
      counted = omega (arith, r.cur, granted);
      fits = omega (arith, r.fits, r.size);
      asks_fit =
          subst (λ size. FitsIn size (notify_from w w.waiters).waiters) (sym r.size)
            (All-right _ r.served _ (subst (FitsIn w.size) r.in_order asks));
      blocked = inl (
          subst
            (λ size. IsBlocked size (notify_from w w.waiters).cur (notify_from w w.waiters).waiters)
            (sym r.size) r.blocked);
      uncapped = omega (arith, r.uncapped, granted, queue, uncapped);
    }

module _ {c : Clients} (v : Inv c) where
  open c use {semaphore}

  weight_queued :
      (w : Waiter) → weight (semaphore.waiters ++ w ∷ []) ≡ weight semaphore.waiters + w.n
  unfolding weight
  weight_queued w = omega (arith, weight-append semaphore.waiters (w ∷ []))

  enters-Inv : (factor : ℕ) → Inv (step c (enters factor))
  unfolding step acquire sum
  enters-Inv factor = ground (
    arith,
    v,
    weight_queued queue_entry,
    snoc-FitsIn semaphore.size semaphore.waiters queue_entry v.asks_fit,
    snoc-IsBlocked semaphore.size semaphore.cur semaphore.waiters queue_entry,
  )
    where
      queue_entry : Waiter
      queue_entry = record { id = semaphore.next_id; n = to_uint32 factor }

  wakes-Inv : (id : ℕ) → Inv (step c (wakes id))
  unfolding step wake sum
  wakes-Inv id = elim (Option-cases (asked id semaphore.granted)) [
    | inl e ↦ rw (e, step) v
    | inr (n, e) ↦ rw (e, step) (ground (arith, v, weight-remove id semaphore.granted n e))
  ]

  exits-Inv : (n : ℕ) → Inv (step c (exits n))
  unfolding step release
  exits-Inv n = elim (Option-cases (without n c.active)) [
    | inl e ↦ rw (e, step) v
    | inr (rest, e) ↦ rw (e, step) (released rest (sum-without n c.active rest e))
  ]
    where
      released :
          (rest : List ℕ)
          → sum c.active ≡ n + sum rest
          → Inv (record c { semaphore = release semaphore n; active = rest })
      released rest e =
          notify-Inv _ rest c.refused v.some_size v.small (ground (arith, v, e))
            (ground (arith, v, e)) v.asks_fit (ground (arith, v, e))

  -- The semaphore was acquired after the context was done: the caller has it.
  late-Inv :
      (id n : ℕ) → asked id semaphore.granted ≡ some n → Inv (returned c n (cancel semaphore id))
  unfolding cancel sum
  late-Inv id n e =
      rw (has-asked id semaphore.granted n e)
        (ground (arith, v, weight-remove id semaphore.granted n e))

  still-IsBlocked :
      (id : ℕ)
      → (is_front id semaphore.waiters && slt64 semaphore.cur semaphore.size) ≡ false
      → IsBlocked semaphore.size semaphore.cur (remove id semaphore.waiters)
        ⊎ (semaphore.cur ≡ semaphore.size)
  still-IsBlocked id e = elim (Bool-cases (is_front id semaphore.waiters)) [
    | inl front ↦ inr (full front)
    | inr other ↦ elim v.blocked [
      | inl b ↦ inl (remove-IsBlocked id semaphore.size semaphore.cur semaphore.waiters other b)
      | inr all ↦ inr all
    ]
  ]
    where
      full : is_front id semaphore.waiters ≡ true → semaphore.cur ≡ semaphore.size
      full front = ground (arith, v)

  -- The caller leaves the queue, and those behind it are served if it was first.
  left-Inv :
      (id n : ℕ)
      → asked id semaphore.waiters ≡ some n
      → has id semaphore.granted ≡ false
      → Inv (returned c n (cancel semaphore id))
  unfolding cancel
  left-Inv id n e f =
      let fewer = weight-remove id semaphore.waiters n e in
      let asks = remove-FitsIn id semaphore.size semaphore.waiters v.asks_fit in
      elim (Bool-cases (is_front id semaphore.waiters && slt64 semaphore.cur semaphore.size)) [
        | inl first ↦
            rw (f, first)
              (notify-Inv _ c.active (c.refused + n) v.some_size v.small v.counted v.fits asks
                (omega (arith, v.uncapped, fewer)))
        | inr other ↦
            rw (f, other)
              (record {
                some_size = v.some_size;
                small = v.small;
                counted = v.counted;
                fits = v.fits;
                asks_fit = asks;
                blocked = still-IsBlocked id other;
                uncapped = omega (arith, v.uncapped, fewer);
              })
      ]

  times_out-Inv : (id : ℕ) → Inv (step c (times_out id))
  unfolding step
  times_out-Inv id = elim (Option-cases (asked id semaphore.granted)) [
    | inr (n, e) ↦ rw (e, step) (late-Inv id n e)
    | inl e ↦ elim (Option-cases (asked id semaphore.waiters)) [
      | inl f ↦ rw (e, f, step) v
      | inr (n, f) ↦ rw (e, f, step) (left-Inv id n f (has-not_asked id semaphore.granted e))
    ]
  ]

step-Inv : {c : Clients} (e : Event) → Inv c → Inv (step c e)
step-Inv (enters factor) v = enters-Inv v factor
step-Inv (wakes id) v = wakes-Inv v id
step-Inv (times_out id) v = times_out-Inv v id
step-Inv (exits n) v = exits-Inv v n

run_from-Inv : (c : Clients) (es : List Event) → Inv c → Inv (run c es)
unfolding run
run_from-Inv c [] v = v
run_from-Inv c (e ∷ es) v = run_from-Inv (step c e) es (step-Inv e v)

-- No caller yet.
abbrev pub alone : Semaphore → Clients
alone s = record { semaphore = s; active = []; refused = 0 }

alone-Inv :
    (size max_wait_duration : ℕ) (s : Semaphore)
    → new_concurrency_limiter size max_wait_duration ≡ weighted_semaphore s
    → size < 2 ^ 64
    → Inv (alone s)
unfolding new_concurrency_limiter sum weight
alone-Inv size max_wait_duration s new int64 = ground (arith, new)

-- The limiter's state, and its callers, after any events.
pub run-Inv :
    (size max_wait_duration : ℕ) (s : Semaphore) (es : List Event)
    → new_concurrency_limiter size max_wait_duration ≡ weighted_semaphore s
    → size < 2 ^ 64
    → Inv (run (alone s) es)
run-Inv size max_wait_duration s es new int64 =
    run_from-Inv (alone s) es (alone-Inv size max_wait_duration s new int64)
