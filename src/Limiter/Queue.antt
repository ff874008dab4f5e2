-- ===== src/Limiter/Queue.antt =====
-- The list of waiters and the list of active calls (Limiter.antt, Limiter/Clients): what leaves them.
use j_circuit_breaker.Base.{
  ℕ, ◌+◌, ◌≤◌, ◌<◌, ◌≡◌, refl, ◌⊎◌, inl, inr, true, false, List, [], ◌∷◌, ◌++◌, none, some, arith,
  All-append, Option-cases,
}
use j_circuit_breaker.Limiter.{Waiter, is_empty, is_front, has, remove}
use j_circuit_breaker.Limiter.Notify.{weight, FitsIn, IsBlocked}
use j_circuit_breaker.Limiter.Clients.{asked, without}

unfoldable pub sum : List ℕ → ℕ
sum [] = 0
sum (n ∷ ns) = n + sum ns

pub weight-remove :
    (id : ℕ) (ws : List Waiter) (n : ℕ)
    → asked id ws ≡ some n
    → weight ws ≡ n + weight (remove id ws)
unfolding asked weight remove
weight-remove id [] n e = cc
weight-remove id (w ∷ ws) n e = ground (arith, weight-remove id ws n)

pub has-asked : (id : ℕ) (ws : List Waiter) (n : ℕ) → asked id ws ≡ some n → has id ws ≡ true
unfolding asked has
has-asked id [] n e = cc
has-asked id (w ∷ ws) n e = ground (arith, has-asked id ws n)

pub has-not_asked : (id : ℕ) (ws : List Waiter) → asked id ws ≡ none → has id ws ≡ false
unfolding asked has
has-not_asked id [] e = refl
has-not_asked id (w ∷ ws) e = ground (arith, has-not_asked id ws)

pub remove-FitsIn : (id size : ℕ) (ws : List Waiter) → FitsIn size ws → FitsIn size (remove id ws)
unfolding remove
remove-FitsIn id size [] f = tt
remove-FitsIn id size (w ∷ ws) f = ground (arith, remove-FitsIn id size ws f.1)

pub remove-IsBlocked :
    (id size cur : ℕ) (ws : List Waiter)
    → is_front id ws ≡ false
    → IsBlocked size cur ws
    → IsBlocked size cur (remove id ws)
unfolding remove
remove-IsBlocked id size cur [] e b = tt
remove-IsBlocked id size cur (w ∷ ws) e b = ground arith

pub sum-without : (n : ℕ) (ms rest : List ℕ) → without n ms ≡ some rest → sum ms ≡ n + sum rest
unfolding without sum
sum-without n [] rest e = cc
sum-without n (m ∷ ms) rest e = elim (Option-cases (without n ms)) [
  | inl f ↦ ground (arith, f)
  | inr (r, f) ↦ ground (arith, f, sum-without n ms r f)
]

pub snoc-FitsIn :
    (size : ℕ) (ws : List Waiter) (w : Waiter)
    → FitsIn size ws
    → w.n ≤ size
    → FitsIn size (ws ++ w ∷ [])
snoc-FitsIn size ws w f le = All-append _ ws _ f (le, tt)

pub snoc-IsBlocked :
    (size cur : ℕ) (ws : List Waiter) (w : Waiter)
    → (is_empty ws ≡ true → size < cur + w.n)
    → IsBlocked size cur ws ⊎ (cur ≡ size)
    → IsBlocked size cur (ws ++ w ∷ []) ⊎ (cur ≡ size)
snoc-IsBlocked size cur [] w first b = inl (first refl)
snoc-IsBlocked size cur (v ∷ ws) w first b = b
