-- ===== src/Breaker/Decided.antt =====
-- The exit of a call that the breaker's current state let in: where the state's decision leads.
use j_circuit_breaker.Base.{
  ℕ, suc, ◌≡◌, refl, sym, ap, ap₂, ◌∙◌, Bool, true, Option, some, none, arith, Option-cases, inl,
  inr, length, get_elem?, get_elem?-set_self, get_elem?-lt, set, map, List, [], ◌∷◌, ◌++◌, ◌==◌,
  ◌&&◌, ◌||◌,
}
use j_circuit_breaker.Constants.{State, Err, TransitionReason, valid_automatic, is_forced}
use j_circuit_breaker.Clock.{Clock, Time}
use j_circuit_breaker.Window.{WindowSnapshot}
use j_circuit_breaker.Events.{RequestStats}
use j_circuit_breaker.State.{
  StateObject, get_state_type, Decision, TransitionType, should_state_transition, on_request_end,
}
use j_circuit_breaker.State.Decisions.{decide_allowed}
use j_circuit_breaker.Breaker.{Breaker, load_state, store_state}
use j_circuit_breaker.Breaker.Transition.{change_state, transition}
use j_circuit_breaker.Breaker.Enter.{Entry, transition_if}
use j_circuit_breaker.Breaker.Exit.{report_exit, after_record}
use j_circuit_breaker.Breaker.Edges.{
  Ensures, Ensures-mono, kinds, Kept, Changed, change_state-Changed,
}
use j_circuit_breaker.Breaker.Automatic.{
  get_elem?-map, report_exit-Kept, should_state_transition-kind,
}

-- The state that the breaker is in.
abbrev pub current : Breaker → Option State
current b = get_elem? (kinds b) b.state

-- Where a state of the kind `k` goes.
abbrev pub next : State → Decision → State
next k none = k
next k (some (to, _)) = to

get_elem?-snoc {ℓ} :
    {A : Type ℓ} (xs : List A) (x : A) → get_elem? (xs ++ x ∷ []) (length xs) ≡ some x
get_elem?-snoc [] x = refl
get_elem?-snoc (y ∷ xs) x = get_elem?-snoc xs x

length-map {ℓ κ} :
    {A : Type ℓ} {B : Type κ} (f : A → B) (xs : List A) → length (map f xs) ≡ length xs
length-map f [] = refl
length-map f (x ∷ xs) = ap suc (length-map f xs)

pub current-Changed :
    (to : State) (p : ℕ) (b b' : Breaker) → Changed to b p b' → current b' ≡ some to
current-Changed to p b b' c =
    ap₂ get_elem? c.appended (c.pointer ∙ c.fresh ∙ sym (length-map get_state_type b.states))
    ∙ get_elem?-snoc (kinds b) to

pub current-Kept : (b b' : Breaker) → Kept b b' → current b' ≡ current b
current-Kept b b' k = ap₂ get_elem? k.same k.pointer

transition_current :
    (from : ℕ) (to : State) (reason : TransitionReason) (clock : Clock) (b : Breaker)
    (o : StateObject)
    → b.state ≡ from
    → get_elem? b.states from ≡ some o
    → valid_automatic (get_state_type o) to ≡ true
    → Ensures (transition from to reason clock b) (λ _ b'. current b' ≡ some to)
unfolding transition load_state
transition_current from to reason clock b o here at valid =
    let test : (is_forced reason || (from == b.state && valid_automatic (get_state_type o) to))
        ≡ true =
      ground (arith, here, valid) in
    rw (at, test, Ensures)
      (Ensures-mono (change_state to clock b) (Changed to b) _ (change_state-Changed to clock b)
        λ p b' c. current-Changed to p b b' c)

pub transition_if_current :
    (from : ℕ) (d : Decision) (clock : Clock) (b : Breaker) (o : StateObject)
    → b.state ≡ from
    → get_elem? b.states from ≡ some o
    → ((to : State) (reason : TransitionReason)
        → d ≡ some (to, reason)
        → valid_automatic (get_state_type o) to ≡ true)
    → Ensures (transition_if from d clock b) (λ _ b'. current b' ≡ some (next (get_state_type o) d))
unfolding transition_if
transition_if_current from none clock b o here at valid =
    ap (get_elem? (kinds b)) here ∙ get_elem?-map b.states from o at
transition_if_current from (some (to, reason)) clock b o here at valid =
    transition_current from to reason clock b o here at (valid to reason refl)

pub should_state_transition_allowed :
    (o : StateObject) (w : WindowSnapshot) (at : TransitionType) (clock : Clock) (to : State)
    (reason : TransitionReason)
    → (should_state_transition o w at clock).0 ≡ some (to, reason)
    → valid_automatic (get_state_type (should_state_transition o w at clock).1) to ≡ true
unfolding should_state_transition
should_state_transition_allowed o w at clock to reason h =
    let (valid, auto, kind) = decide_allowed o.mode w at clock to reason h in
    ap (λ k. valid_automatic k to) kind ∙ valid

pub after_record_current :
    (e : Entry) (late : Bool) (stats : RequestStats) (w : WindowSnapshot) (o₀ o : StateObject)
    (end_time : Time) (err : Option Err) (clock : Clock) (b : Breaker)
    → b.state ≡ e.state
    → get_elem? b.states e.state ≡ some o₀
    → get_state_type o ≡ get_state_type o₀
    → Ensures (after_record e late stats w o end_time err clock b) (λ _ b'.
      current b'
      ≡ some (next (get_state_type o) (should_state_transition o w on_request_end clock).0))
unfolding after_record store_state
after_record_current e late stats w o₀ o end_time err clock b here at same =
    let o' = (should_state_transition o w on_request_end clock).1 in
    let d = (should_state_transition o w on_request_end clock).0 in
    let c : Breaker = record b { states = set b.states e.state o' } in
    let at' = get_elem?-set_self b.states e.state o' (get_elem?-lt b.states e.state o₀ at) in
    let kind = should_state_transition-kind o w on_request_end clock in
    let moves =
      transition_if_current e.state d clock c o' here at'
        (should_state_transition_allowed o w on_request_end clock) in
    elim (Option-cases (transition_if e.state d clock c)) [
      | inl f ↦ rw (f, Ensures) tt
      | inr ((p, g), f) ↦
          let moved : current g ≡ some (next (get_state_type o') d) = rw f at moves in
          rw (f, Ensures)
            (Ensures-mono (report_exit e late stats w o' end_time err g) (λ _ b'. Kept g b') _
              (report_exit-Kept e late stats w o' end_time err g)
              λ _ b' k. current-Kept g b' k ∙ moved ∙ ap (λ t. some (next t d)) kind)
    ]
