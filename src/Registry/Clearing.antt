-- ===== src/Registry/Clearing.antt =====
-- resetBreakers of circuitbreaker.go: the names and the breakers after it.
use j_circuit_breaker.Base.{
  ℕ, suc, ◌≡◌, ◌≢◌, ◌<◌, ◌^◌, ◌+◌, refl, sym, ap, ◌∙◌, subst, arith, Option, some, inl, inr, ◌⊎◌,
  List, [], ◌∷◌, length, length-set, get_elem?, get_elem?-set_self, get_elem?-set_ne,
  get_elem?-below, set, All, All-mono, All-set, All-get_elem?,
}
use j_circuit_breaker.Constants.{closed, TransitionReason, is_forced}
use j_circuit_breaker.Clock.{Clock}
use j_circuit_breaker.Events.{Name}
use j_circuit_breaker.Breaker.{Breaker}
use j_circuit_breaker.Breaker.Transition.{reset}
use j_circuit_breaker.Breaker.Moves.{forced_change}
use j_circuit_breaker.Breaker.Decided.{current, current-Changed}
use j_circuit_breaker.Breaker.Returns.{transition_returns}
use j_circuit_breaker.Breaker.Updating.{ClockIsIn, ClockIsIn-Shows, IsServing}
use j_circuit_breaker.Breaker.Serving.{Leaves-IsServing, IsServing-later}
use j_circuit_breaker.Registry.{Registry, delete, on_breaker, reset_all, reset_breakers}
use j_circuit_breaker.Registry.Lookup.{same_name_refl}
use j_circuit_breaker.Registry.Batch.{Below, IsValid}

delete_comm : (j k : Name) (m : List (Name × ℕ)) → delete j (delete k m) ≡ delete k (delete j m)
unfolding delete
delete_comm j k [] = refl
delete_comm j k ((l, p) ∷ m) = ground (arith, delete_comm j k m)

abbrev delete_all : List (Name × ℕ) → List (Name × ℕ) → List (Name × ℕ)
delete_all [] m = m
delete_all ((k, p) ∷ es) m = delete_all es (delete k m)

delete_all-delete :
    (es m : List (Name × ℕ)) (k : Name) → delete_all es (delete k m) ≡ delete k (delete_all es m)
delete_all-delete [] m k = refl
delete_all-delete ((j, p) ∷ es) m k =
    ap (delete_all es) (delete_comm j k m) ∙ delete_all-delete es (delete j m) k

delete_all_self : (m : List (Name × ℕ)) → delete_all m m ≡ []
unfolding delete
delete_all_self [] = refl
delete_all_self ((k, p) ∷ m) =
    let first : delete k ((k, p) ∷ m) ≡ delete k m = ground (arith, same_name_refl k) in
    ap (delete_all m) first ∙ delete_all-delete m m k ∙ ap (delete k) (delete_all_self m)

-- The pointer leads to a breaker that is CLOSED.
abbrev pub ClosedAt : List Breaker → ℕ → Type 0
ClosedAt bs p = (b : Breaker) × (get_elem? bs p ≡ some b) × (current b ≡ some closed)

set-ClosedAt :
    (bs : List Breaker) (q : ℕ) (b : Breaker) (p : ℕ)
    → q < length bs
    → current b ≡ some closed
    → (q ≡ p) ⊎ ClosedAt bs p
    → ClosedAt (set bs q b) p
set-ClosedAt bs q b p inside is_closed (inl same) = (
  b,
  subst (λ t. get_elem? (set bs q b) t ≡ some b) same (get_elem?-set_self bs q b inside),
  is_closed,
)
set-ClosedAt bs q b p inside is_closed (inr (c, at, c_closed)) = elim (split q p) [
  | inl same ↦ (
    b,
    subst (λ t. get_elem? (set bs q b) t ≡ some b) same (get_elem?-set_self bs q b inside),
    is_closed,
  )
  | inr other ↦ (c, get_elem?-set_ne bs b other ∙ at, c_closed)
]
  where
    split : (q p : ℕ) → (q ≡ p) ⊎ (q ≢ p)
    split q p = ground arith

reset_returns :
    {n k : ℕ} (clock : Clock) (b : Breaker)
    → IsServing n k b
    → ClockIsIn n k clock
    → suc k < 2 ^ 63
    → (b' : Breaker) × (reset clock b ≡ some (tt, b'))
      × IsServing n (suc k) b'
      × (current b' ≡ some closed)
unfolding reset is_forced
reset_returns {n} {k} clock b serving shown fit =
    let (p, b', e, left, inside) =
      transition_returns b.state closed TransitionReason.reset clock b serving.sound.state_in
        (ClockIsIn-Shows serving.small shown) fit serving.sound in
    let goes : reset clock b ≡ some (tt, b') = ground (arith, e) in
    (
      b',
      goes,
      Leaves-IsServing serving left,
      current-Changed closed b'.state b b'
          (forced_change closed TransitionReason.reset clock b b' tt refl goes),
    )

ClockIsIn-later : {n k : ℕ} {c : Clock} → ClockIsIn n k c → ClockIsIn n (suc k) c
ClockIsIn-later shown = record {
  cached = omega (arith, shown.cached);
  wall = omega (arith, shown.wall);
  room = shown.room;
}

abbrev pub EntryClosed : List Breaker → Name × ℕ → Type 0
EntryClosed bs (k, p) = ClosedAt bs p

-- What the loop leaves, and that the breakers that were CLOSED are so still.
Reset : ℕ → ℕ → List (Name × ℕ) → Registry → Option Registry → Type 0
Reset n k m r res =
    (r' : Registry) × (res ≡ some r')
    × (r'.names ≡ delete_all m r.names)
    × All (IsServing n k) r'.breakers
    × All (EntryClosed r'.breakers) m
    × ((p : ℕ) → ClosedAt r.breakers p → ClosedAt r'.breakers p)

reset_all-Reset :
    {n k : ℕ} (m : List (Name × ℕ)) (clock : Clock) (r : Registry)
    → Below m (length r.breakers)
    → All (IsServing n k) r.breakers
    → ClockIsIn n k clock
    → k + length m < 2 ^ 63
    → Reset n (k + length m) m r (reset_all m clock r)
unfolding Reset reset_all on_breaker Below
reset_all-Reset {n} {k} [] clock r below serving shown fit = (
  r,
  refl,
  refl,
  All-mono (IsServing n k) (IsServing n (k + 0)) r.breakers (λ b. IsServing-later (omega arith))
      serving,
  tt,
  λ p c. c,
)
reset_all-Reset {n} {k} ((name, p) ∷ m) clock r below serving shown fit =
    let (b, at) = get_elem?-below r.breakers p below.0 in
    let (b', goes, b'_serving, b'_closed) =
      reset_returns clock b (All-get_elem? (IsServing n k) r.breakers p b serving at) shown
        (omega (arith, fit)) in
    let bs = set r.breakers p b' in
    let r₁ : Registry = record { breakers = bs; names = delete name r.names } in
    let same = length-set r.breakers p b' in
    let serving₁ : All (IsServing n (suc k)) bs =
      All-set (IsServing n (suc k)) r.breakers p b'
        (All-mono (IsServing n k) (IsServing n (suc k)) r.breakers
          (λ c. IsServing-later (omega arith)) serving)
        b'_serving in
    let (r', rest, names, served, closed_rest, keeps) =
      reset_all-Reset m clock r₁ (subst (Below m) (sym same) below.1) serving₁
        (ClockIsIn-later shown) (omega (arith, fit)) in
    (
      r',
      ground (arith, at, goes, rest),
      names,
      All-mono (IsServing n (suc k + length m)) (IsServing n (k + suc (length m))) r'.breakers
          (λ c. IsServing-later (omega arith)) served,
      (keeps p (set-ClosedAt r.breakers p b' p below.0 b'_closed (inl refl)), closed_rest),
      λ q c. keeps q (set-ClosedAt r.breakers p b' q below.0 b'_closed (inr c)),
    )

-- In a registry whose names lead to breakers, all sound, and under a clock that fits, resetBreakers
-- returns: no name is left, the breakers that had one are CLOSED, and all are sound.
pub reset_breakers_returns :
    {n k : ℕ} (clock : Clock) (r : Registry)
    → IsValid r
    → All (IsServing n k) r.breakers
    → ClockIsIn n k clock
    → k + length r.names < 2 ^ 63
    → (r' : Registry) × (reset_breakers clock r ≡ some r')
      × (r'.names ≡ [])
      × All (EntryClosed r'.breakers) r.names
      × All (IsServing n (k + length r.names)) r'.breakers
unfolding reset_breakers IsValid Reset
reset_breakers_returns clock r valid serving shown fit =
    let (r', goes, names, served, are_closed, keeps) =
      reset_all-Reset r.names clock r valid serving shown fit in
    (r', goes, names ∙ delete_all_self r.names, are_closed, served)
