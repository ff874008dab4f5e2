-- ===== src/Breaker/Edges.antt =====
-- What the sections of cb.go and entry.go do to the state of a breaker: which kind of state each pointer
-- leads to stays, but for a new state that StateTransition appends.
use mathlib.Core.List.{map-append}
use j_circuit_breaker.Base.{
  ℕ, zero, suc, ◌≡◌, refl, sym, ap, ap₂, ◌∙◌, Bool, Option, some, none, arith, Option-cases, inl,
  inr, length, List, [], ◌∷◌, ◌++◌, map, get_elem?, set,
}
use j_circuit_breaker.Constants.{State}
use j_circuit_breaker.Clock.{Clock, Time}
use j_circuit_breaker.Config.{Setting}
use j_circuit_breaker.Window.{WindowSnapshot}
use j_circuit_breaker.State.{
  StateObject, get_state_type, mode_type, get_window_snapshot, new_state_instance,
}
use j_circuit_breaker.Events.{Event, RequestStats, StateSnapshot}
use j_circuit_breaker.Breaker.{Breaker, load_state, store_state, load_limiter, perform}
use j_circuit_breaker.Breaker.Transition.{
  get_state_snapshot, notify, change_state, on_request_complete,
}

-- If the code returns and does not panic, its result and the breaker after it satisfy `Q`.
abbrev pub Ensures {ℓ} : {A : Type ℓ} → Option (A × Breaker) → (A → Breaker → Type 0) → Type 0
Ensures none Q = Unit
Ensures (some (a, b)) Q = Q a b

-- The breaker that a call leaves, if its own code does not panic.
abbrev pub left {ℓ} : {A : Type ℓ} → Option (A × Breaker) → Option Breaker
left none = none
left (some (a, b)) = some b

pub Ensures-mono {ℓ} :
    {A : Type ℓ} (r : Option (A × Breaker)) (P Q : A → Breaker → Type 0)
    → Ensures r P
    → ((a : A) (b : Breaker) → P a b → Q a b)
    → Ensures r Q
Ensures-mono none P Q h imp = tt
Ensures-mono (some (a, b)) P Q h imp = imp a b h

abbrev pub kinds : Breaker → List State
kinds b = map get_state_type b.states

-- The breaker is in the same state, and all states are of the kinds that they were of.
pub record Kept (b b' : Breaker) : Type 0 where
  pub pointer : b'.state ≡ b.state
  pub same : kinds b' ≡ kinds b

pub Kept-refl : (b : Breaker) → Kept b b
Kept-refl b = record { pointer = refl; same = refl }

pub Kept-trans : {b c d : Breaker} → Kept b c → Kept c d → Kept b d
Kept-trans k l = record { pointer = l.pointer ∙ k.pointer; same = l.same ∙ k.same }

map-set :
    (os : List StateObject) (p : ℕ) (o o' : StateObject)
    → get_elem? os p ≡ some o
    → get_state_type o' ≡ get_state_type o
    → map get_state_type (set os p o') ≡ map get_state_type os
map-set [] p o o' h same = refl
map-set (x ∷ os) zero o o' h same =
    let front : x ≡ o = cc in
    ap (λ k. k ∷ map get_state_type os) (same ∙ ap get_state_type (sym front))
map-set (x ∷ os) (suc p) o o' h same = ap (λ t. get_state_type x ∷ t) (map-set os p o o' h same)

get_window_snapshot-kind :
    (o o' : StateObject) (clock : Clock) (w : WindowSnapshot)
    → get_window_snapshot o clock ≡ some (o', w)
    → get_state_type o' ≡ get_state_type o
unfolding get_window_snapshot
get_window_snapshot-kind o o' clock w h = ground (arith, h)

pub store-Kept :
    (p : ℕ) (o o' : StateObject) (b : Breaker)
    → get_elem? b.states p ≡ some o
    → get_state_type o' ≡ get_state_type o
    → Kept b (record b { states = set b.states p o' })
store-Kept p o o' b at same = record { pointer = refl; same = map-set b.states p o o' at same }

pub get_state_snapshot-Kept :
    (state limiter : ℕ) (clock : Clock) (b : Breaker)
    → Ensures (get_state_snapshot state limiter clock b) (λ _ b'. Kept b b')
unfolding get_state_snapshot load_state store_state load_limiter
get_state_snapshot-Kept state limiter clock b = elim (Option-cases (get_elem? b.states state)) [
  | inl e ↦ rw (e, Ensures) tt
  | inr (o, e) ↦ elim (Option-cases (get_window_snapshot o clock)) [
    | inl f ↦ rw (e, f, Ensures) tt
    | inr ((o', w), f) ↦ elim (Option-cases (get_elem? b.limiters limiter)) [
      | inl g ↦ rw (e, f, g, Ensures) tt
      | inr (l, g) ↦
          rw (e, f, g, Ensures)
            (store-Kept state o o' b e (get_window_snapshot-kind o o' clock w f))
    ]
  ]
]

pub notify-Kept : (event : Event) (b : Breaker) → Ensures (notify event b) (λ _ b'. Kept b b')
unfolding notify perform
notify-Kept event b = ground (arith, Kept-refl b)

pub on_request_complete-Kept :
    (is_timeout : Bool) (stats : RequestStats) (snapshot : StateSnapshot) (end_time : Time)
    (b : Breaker)
    → Ensures (on_request_complete is_timeout stats snapshot end_time b) (λ _ b'. Kept b b')
unfolding on_request_complete perform notify
on_request_complete-Kept is_timeout stats snapshot end_time b = ground arith

-- The breaker is in a new state of the kind `to`, at the pointer `p`.
pub record Changed (to : State) (b : Breaker) (p : ℕ) (b' : Breaker) : Type 0 where
  pub pointer : b'.state ≡ p
  pub fresh : p ≡ length b.states
  pub appended : kinds b' ≡ kinds b ++ to ∷ []

new_state_instance-kind :
    (to : State) (s : Setting) (clock : Clock) → get_state_type (new_state_instance to s clock) ≡ to
unfolding new_state_instance mode_type
new_state_instance-kind to s clock = ground arith

pub length-kinds :
    (os ps : List StateObject)
    → map get_state_type os ≡ map get_state_type ps
    → length os ≡ length ps
length-kinds [] [] h = refl
length-kinds [] (p ∷ ps) h = cc
length-kinds (o ∷ os) [] h = cc
length-kinds (o ∷ os) (p ∷ ps) h = ap suc (length-kinds os ps cc)

append-Changed :
    (to : State) (s : Setting) (clock : Clock) {b c : Breaker}
    → Kept b c
    → Changed to b (length c.states) (record c {
      state = length c.states;
      states = c.states ++ new_state_instance to s clock ∷ [];
    })
append-Changed to s clock {b} {c} k = record {
  pointer = refl;
  fresh = length-kinds c.states b.states k.same;
  appended =
      map-append get_state_type c.states (new_state_instance to s clock ∷ [])
      ∙ ap₂ (λ ks k'. ks ++ k' ∷ []) k.same (new_state_instance-kind to s clock);
}

pub change_state-Changed :
    (to : State) (clock : Clock) (b : Breaker)
    → Ensures (change_state to clock b) (λ p b'. Changed to b p b')
unfolding change_state load_state perform notify
change_state-Changed to clock b = elim (Option-cases (get_elem? b.states b.state)) [
  | inl e ↦ rw (e, Ensures) tt
  | inr (o, e) ↦
      let kept = get_state_snapshot-Kept b.state b.concurrency_limiter clock b in
      elim (Option-cases (get_state_snapshot b.state b.concurrency_limiter clock b)) [
        | inl f ↦ rw (e, f, Ensures) tt
        | inr ((w, c), f) ↦
            let k : Kept b c = rw f at kept in
            let grown = append-Changed to b.setting clock k in
            rw (e, f, Ensures) (ground (arith, grown))
      ]
]
