-- ===== src/Limiter/Notify.antt =====
-- notifyWaiters: it serves the waiters from the front for as long as their weight fits.
use mathlib.Core.List.{append-nil, append_assoc}
use j_circuit_breaker.Base.{
  ℕ, ◌+◌, ◌^◌, ◌≤◌, ◌<◌, ◌≡◌, refl, sym, ap, ◌∙◌, inl, inr, List, [], ◌∷◌, ◌++◌, arith, All,
  Bool-cases, slt64, sub64, add64,
}
use j_circuit_breaker.Limiter.{Waiter, Semaphore, notify_from}

-- The weight of a list of waiters.
unfoldable pub weight : List Waiter → ℕ
weight [] = 0
weight (w ∷ ws) = w.n + weight ws

pub weight-append : (vs ws : List Waiter) → weight (vs ++ ws) ≡ weight vs + weight ws
unfolding weight
weight-append [] ws = omega arith
weight-append (v ∷ vs) ws = omega (arith, weight-append vs ws)

-- Each waiter asks for what the semaphore has in all, at most.
abbrev pub FitsIn : ℕ → List Waiter → Type 0
FitsIn size = All λ w. w.n ≤ size

-- The first waiter does not fit beside `cur`.
abbrev pub IsBlocked : ℕ → ℕ → List Waiter → Type 0
IsBlocked size cur [] = Unit
IsBlocked size cur (w ∷ _) = size < cur + w.n

-- What a run of notifyWaiters does: it grants a first part of the waiters, whose weight goes to `cur`,
-- and the waiter that is then first does not fit.
pub record Notified (w v : Semaphore) (queue : List Waiter) : Type 0 where
  pub served : List Waiter
  pub in_order : queue ≡ served ++ v.waiters
  pub granted : v.granted ≡ w.granted ++ served
  pub cur : v.cur ≡ w.cur + weight served
  pub fits : v.cur ≤ w.size
  pub blocked : IsBlocked w.size v.cur v.waiters
  pub size : v.size ≡ w.size
  pub uncapped : v.uncapped_concurrency_count ≡ w.uncapped_concurrency_count
  pub max_wait_duration : v.max_wait_duration ≡ w.max_wait_duration
  pub next_id : v.next_id ≡ w.next_id

pub notify_from-Notified :
    (w : Semaphore) (queue : List Waiter)
    → w.cur ≤ w.size
    → w.size < 2 ^ 63
    → FitsIn w.size queue
    → Notified w (notify_from w queue) queue
unfolding notify_from weight
notify_from-Notified w [] le small fits = record {
  served = [];
  in_order = refl;
  granted = sym (append-nil w.granted);
  cur = omega arith;
  fits = le;
  blocked = tt;
  size = refl;
  uncapped = refl;
  max_wait_duration = refl;
  next_id = refl;
}
notify_from-Notified w (next ∷ rest) le small fits =
    elim (Bool-cases (slt64 (sub64 w.size w.cur) next.n)) [
      | inl full ↦ rw full (record {
        served = [];
        in_order = refl;
        granted = sym (append-nil w.granted);
        cur = omega arith;
        fits = le;
        blocked = ground (arith, fits.0);
        size = refl;
        uncapped = refl;
        max_wait_duration = refl;
        next_id = refl;
      })
      | inr free ↦
          let room : w.cur + next.n ≤ w.size = ground (arith, fits.0) in
          let cur' : add64 w.cur next.n ≡ w.cur + next.n = omega arith in
          let w' = record w { cur = add64 w.cur next.n; granted = w.granted ++ next ∷ [] } in
          let r = notify_from-Notified w' rest (omega arith) small fits.1 in
          rw free (record {
            served = next ∷ r.served;
            in_order = ap (λ ws. next ∷ ws) r.in_order;
            granted = r.granted ∙ append_assoc w.granted (next ∷ []) r.served;
            cur = omega (arith, r.cur);
            fits = r.fits;
            blocked = r.blocked;
            size = r.size;
            uncapped = r.uncapped;
            max_wait_duration = r.max_wait_duration;
            next_id = r.next_id;
          })
    ]
