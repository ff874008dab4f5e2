-- ===== src/Breaker/Serving.antt =====
-- A session (Session) that is well-formed: the breaker is sound, and the pointers of its calls lead somewhere.
use j_circuit_breaker.Base.{
  ℕ, zero, suc, ◌≡◌, ◌≤◌, sym, ap, Option, some, arith, length, List, [], ◌∷◌, All, All-append,
  All-mono, subst,
}
use j_circuit_breaker.Breaker.{Breaker}
use j_circuit_breaker.Breaker.Enter.{Entry, Entering, entered, blocked, waits, Waiting}
use j_circuit_breaker.Breaker.Sound.{IsSound-later, Leaves}
use j_circuit_breaker.Breaker.Calls.{PointsInto, Proceeds}
use j_circuit_breaker.Breaker.Updating.{IsSmall, IsServing}
use j_circuit_breaker.Breaker.Session.{Session, remove_at, admit, with_breaker}

abbrev pub EntryPointsInto : Breaker → Entry → Type 0
EntryPointsInto b e = PointsInto b e.state e.concurrency_limiter

abbrev pub WaitingPointsInto : Breaker → Waiting → Type 0
WaitingPointsInto b p = PointsInto b p.state p.concurrency_limiter

pub record IsGood (n k : ℕ) (s : Session) : Type 0 where
  pub serving : IsServing n k s.breaker
  pub entries : All (EntryPointsInto s.breaker) s.entries
  pub waiting : All (WaitingPointsInto s.breaker) s.waiting

-- The breaker has grown.
pub record Grows (b b' : Breaker) : Type 0 where
  pub states : length b.states ≤ length b'.states
  pub limiters : length b.limiters ≤ length b'.limiters

Leaves-Grows : {k : ℕ} {b b' : Breaker} → Leaves k b b' → Grows b b'
Leaves-Grows left = record { states = left.states; limiters = omega (arith, left.limiters) }

pub Leaves-IsServing :
    {n k m : ℕ} {b b' : Breaker} → IsServing n m b → Leaves k b b' → IsServing n k b'
Leaves-IsServing {n} s left = record {
  sound = left.sound;
  small = subst (IsSmall n) (sym left.setting) s.small;
}

pub IsServing-later : {n k m : ℕ} {b : Breaker} → k ≤ m → IsServing n k b → IsServing n m b
IsServing-later le s = record { sound = IsSound-later _ le s.sound; small = s.small }

PointsInto-Grows : {b b' : Breaker} {p l : ℕ} → Grows b b' → PointsInto b p l → PointsInto b' p l
PointsInto-Grows grown into = record {
  state_in = omega (arith, into.state_in, grown.states);
  limiter_in = omega (arith, into.limiter_in, grown.limiters);
}

pub All-remove_at {ℓ κ} :
    {A : Type ℓ} (P : A → Type κ) (xs : List A) (i : ℕ) → All P xs → All P (remove_at xs i)
All-remove_at P [] i h = h
All-remove_at P (x ∷ xs) zero h = h.1
All-remove_at P (x ∷ xs) (suc i) h = (h.0, All-remove_at P xs i h.1)

-- The breaker changes, and the calls stay.
pub IsGood-with :
    {n k m : ℕ} (s : Session) (b : Breaker)
    → IsGood n m s
    → IsServing n k b
    → Grows s.breaker b
    → IsGood n k (record s { breaker = b })
IsGood-with s b good serving grown = record {
  serving = serving;
  entries =
      All-mono (EntryPointsInto s.breaker) (EntryPointsInto b) s.entries
        (λ e. PointsInto-Grows grown) good.entries;
  waiting =
      All-mono (WaitingPointsInto s.breaker) (WaitingPointsInto b) s.waiting
        (λ e. PointsInto-Grows grown) good.waiting;
}

abbrev pub Goes : ℕ → ℕ → Option Session → Type 0
Goes n k m = (s : Session) × (m ≡ some s) × IsGood n k s

pub admit-Goes :
    {n k m : ℕ} (s : Session) (o : Option (Entering × Breaker))
    → IsGood n m s
    → Proceeds k s.breaker o
    → Goes n k (admit s o)
unfolding admit
admit-Goes s o good (entered e, b, same, left, into) =
    let next = IsGood-with s b good (Leaves-IsServing good.serving left) (Leaves-Grows left) in
    (
      _,
      ap (admit s) same,
      record {
        serving = next.serving;
        entries = All-append (EntryPointsInto b) s.entries _ next.entries (into, tt);
        waiting = next.waiting;
      },
    )
admit-Goes s o good (blocked fb_err e, b, same, left, into) = (
  _,
  ap (admit s) same,
  IsGood-with s b good (Leaves-IsServing good.serving left) (Leaves-Grows left),
)
admit-Goes s o good (waits p, b, same, left, into) =
    let next = IsGood-with s b good (Leaves-IsServing good.serving left) (Leaves-Grows left) in
    (
      _,
      ap (admit s) same,
      record {
        serving = next.serving;
        entries = next.entries;
        waiting = All-append (WaitingPointsInto b) s.waiting _ next.waiting (into, tt);
      },
    )

pub with_breaker-Goes {ℓ} :
    {A : Type ℓ} {n k m : ℕ} (s : Session) (o : Option (A × Breaker)) (a : A) (b : Breaker)
    → IsGood n m s
    → o ≡ some (a, b)
    → Leaves k s.breaker b
    → Goes n k (with_breaker s o)
unfolding with_breaker
with_breaker-Goes s o a b good same left = (
  _,
  ap (with_breaker s) same,
  IsGood-with s b good (Leaves-IsServing good.serving left) (Leaves-Grows left),
)
