-- ===== src/Breaker/Automatic.antt =====
-- The transitions that a call's exit makes (entry.go, StateTransition of cb.go).
use j_circuit_breaker.Base.{
  ℕ, zero, suc, ◌≡◌, refl, sym, ap, ◌∙◌, Bool, true, false, Option, some, none, arith, Bool-cases,
  Option-cases, inl, inr, List, [], ◌∷◌, ◌++◌, map, get_elem?, set, ◌⊎◌, ◌==◌,
}
use j_circuit_breaker.Constants.{State, Err, TransitionReason, valid_automatic, is_forced}
use j_circuit_breaker.Clock.{Clock, Time, current_time, sub}
use j_circuit_breaker.Config.{is_timeout}
use j_circuit_breaker.Window.{WindowSnapshot}
use j_circuit_breaker.Events.{RequestStats}
use j_circuit_breaker.Options.{FallbackFunc}
use j_circuit_breaker.State.{
  StateObject, TransitionType, get_state_type, should_state_transition, decide, on_error,
  on_success, on_request_end, update_window, get_window_snapshot,
}
use j_circuit_breaker.State.Decisions.{decide_allowed, mode_type-decide}
use j_circuit_breaker.Breaker.{
  Breaker, load_state, store_state, load_limiter, store_limiter, perform,
}
use j_circuit_breaker.Breaker.Transition.{change_state, transition, on_request_complete, notify}
use j_circuit_breaker.Breaker.Enter.{Entry, transition_if}
use j_circuit_breaker.Breaker.Exit.{
  report_exit, after_record, limiter_release, record_result, exit_with_fallback,
}
use j_circuit_breaker.Breaker.Edges.{
  Ensures, Ensures-mono, kinds, Kept, Kept-refl, Kept-trans, store-Kept, Changed, length-kinds,
  change_state-Changed,
}

-- The breaker was in the state at `from`, of the kind `k`, and is in a new one of a kind that
-- validAutomaticStateTransitions allows from there.
pub record Moved (from : ℕ) (b b' : Breaker) : Type 0 where
  pub kind : State
  pub to : State
  pub current : b.state ≡ from
  pub at : get_elem? (kinds b) from ≡ some kind
  pub allowed : valid_automatic kind to ≡ true
  pub changed : Changed to b b'.state b'

abbrev pub Automatic : ℕ → Breaker → Breaker → Type 0
Automatic from b b' = Kept b b' ⊎ Moved from b b'

pub get_elem?-map :
    (os : List StateObject) (p : ℕ) (o : StateObject)
    → get_elem? os p ≡ some o
    → get_elem? (map get_state_type os) p ≡ some (get_state_type o)
get_elem?-map [] p o h = cc
get_elem?-map (x ∷ os) zero o h = let front : x ≡ o = cc in ap (λ u. some (get_state_type u)) front
get_elem?-map (x ∷ os) (suc p) o h = get_elem?-map os p o h

pub transition-Automatic :
    (from : ℕ) (to : State) (reason : TransitionReason) (clock : Clock) (b : Breaker)
    → is_forced reason ≡ false
    → Ensures (transition from to reason clock b) (λ p b'. Automatic from b b')
unfolding transition load_state
transition-Automatic from to reason clock b auto = elim (Option-cases (get_elem? b.states from)) [
  | inl e ↦ rw (e, Ensures) tt
  | inr (o, e) ↦ elim (Bool-cases (from == b.state)) [
    | inl c ↦ elim (Bool-cases (valid_automatic (get_state_type o) to)) [
      | inl v ↦
          rw (e, auto, c, v, Ensures)
            (Ensures-mono (change_state to clock b) (Changed to b) _
              (change_state-Changed to clock b)
              λ p b' changed. inr (record {
                kind = get_state_type o;
                to = to;
                current = ground (arith, c);
                at = get_elem?-map b.states from o e;
                allowed = v;
                changed = record {
                  pointer = refl;
                  fresh = changed.pointer ∙ changed.fresh;
                  appended = changed.appended;
                };
              }))
      | inr v ↦ rw (e, auto, c, v, Ensures) (inl (Kept-refl b))
    ]
    | inr c ↦ rw (e, auto, c, Ensures) (inl (Kept-refl b))
  ]
]

-- What is kept before and after a transition does not count.
pub Automatic-between :
    (from : ℕ) {b c d e : Breaker} → Kept b c → Automatic from c d → Kept d e → Automatic from b e
Automatic-between from before (inl k) after = inl (Kept-trans before (Kept-trans k after))
Automatic-between from {b} {c} before (inr m) after = inr (record {
  kind = m.kind;
  to = m.to;
  current = sym before.pointer ∙ m.current;
  at = ap (λ ks. get_elem? ks from) (sym before.same) ∙ m.at;
  allowed = m.allowed;
  changed = record {
    pointer = refl;
    fresh = after.pointer ∙ m.changed.fresh ∙ length-kinds c.states b.states before.same;
    appended = after.same ∙ m.changed.appended ∙ ap (λ ks. ks ++ m.to ∷ []) before.same;
  };
})

pub record_result-kind :
    (o o' : StateObject) (clock : Clock) (is_timeout : Bool) (run_error : Option Err)
    (w : WindowSnapshot)
    → record_result o clock is_timeout run_error ≡ some (o', w)
    → get_state_type o' ≡ get_state_type o
unfolding record_result on_error on_success update_window get_window_snapshot
record_result-kind o o' clock is_timeout none w h = ground (arith, h)
record_result-kind o o' clock is_timeout (some e) w h = ground (arith, h)

pub should_state_transition-kind :
    (o : StateObject) (w : WindowSnapshot) (at : TransitionType) (clock : Clock)
    → get_state_type (should_state_transition o w at clock).1 ≡ get_state_type o
unfolding should_state_transition
should_state_transition-kind o w at clock = mode_type-decide o.mode w at clock

pub transition_if-Automatic :
    (o : StateObject) (w : WindowSnapshot) (at : TransitionType) (from : ℕ) (clock : Clock)
    (b : Breaker)
    → Ensures
        (transition_if from (should_state_transition o w at clock).0 clock b)
        (λ p b'. Automatic from b b')
unfolding should_state_transition transition_if
transition_if-Automatic o w at from clock b = elim (Option-cases (decide o.mode w at clock).0) [
  | inl e ↦ rw (e, Ensures) (inl (Kept-refl b))
  | inr ((to, reason), e) ↦
      rw (e, Ensures)
        (transition-Automatic from to reason clock b
          (decide_allowed o.mode w at clock to reason e).1)
]

pub report_exit-Kept :
    (e : Entry) (is_timeout : Bool) (stats : RequestStats) (w : WindowSnapshot) (o : StateObject)
    (end_time : Time) (err : Option Err) (b : Breaker)
    → Ensures (report_exit e is_timeout stats w o end_time err b) (λ _ b'. Kept b b')
unfolding report_exit load_limiter on_request_complete perform notify
report_exit-Kept e is_timeout stats w o end_time err b = ground arith

after_record-Automatic :
    (e : Entry) (is_timeout : Bool) (stats : RequestStats) (w : WindowSnapshot) (o₀ o : StateObject)
    (end_time : Time) (err : Option Err) (clock : Clock) (b : Breaker)
    → get_elem? b.states e.state ≡ some o₀
    → get_state_type o ≡ get_state_type o₀
    → Ensures
        (after_record e is_timeout stats w o end_time err clock b)
        (λ _ b'. Automatic e.state b b')
unfolding after_record store_state
after_record-Automatic e is_timeout stats w o₀ o end_time err clock b at same =
    let o' = (should_state_transition o w on_request_end clock).1 in
    let c : Breaker = record b { states = set b.states e.state o' } in
    let before : Kept b c =
      store-Kept e.state o₀ o' b at
        (should_state_transition-kind o w on_request_end clock ∙ same) in
    let moves = transition_if-Automatic o w on_request_end e.state clock c in
    elim (Option-cases
      (transition_if e.state (should_state_transition o w on_request_end clock).0 clock c)) [
        | inl f ↦ rw (f, Ensures) tt
        | inr ((p, d), f) ↦
            let moved : Automatic e.state c d = rw f at moves in
            rw (f, Ensures)
              (Ensures-mono (report_exit e is_timeout stats w o' end_time err d) (λ _ b'. Kept d b')
                _ (report_exit-Kept e is_timeout stats w o' end_time err d)
                λ _ b' after. Automatic-between e.state before moved after)
      ]

-- An exit that returns leaves the breaker in its state, and every state in its kind, or it moves the breaker to one new
-- state: only if the state of the entry is still the breaker's, and only along an edge of
-- validAutomaticStateTransitions.
pub exit_with_fallback-Automatic :
    (e : Entry) (run_error : Option Err) (fallback : Option FallbackFunc) (factor : ℕ)
    (clock : Clock) (b : Breaker)
    → Ensures
        (exit_with_fallback e run_error fallback factor clock b)
        (λ _ b'. Automatic e.state b b')
unfolding exit_with_fallback load_limiter store_limiter load_state store_state
exit_with_fallback-Automatic e run_error fallback factor clock b =
    elim (Option-cases (get_elem? b.limiters e.concurrency_limiter)) [
      | inl f ↦ rw (f, Ensures) tt
      | inr (l, f) ↦ elim (Option-cases (get_elem? b.states e.state)) [
        | inl g ↦ rw (f, g, Ensures) tt
        | inr (o, g) ↦
            let c : Breaker = record b {
              limiters = set b.limiters e.concurrency_limiter (limiter_release l factor);
            } in
            let before : Kept b c = record { pointer = refl; same = refl } in
            let late =
              is_timeout e.setting
                (sub (current_time clock e.setting.config.use_cached_time) e.entry_time) in
            elim (Option-cases (record_result o clock late run_error)) [
              | inl h ↦ rw (f, g, h, Ensures) tt
              | inr ((o', w), h) ↦
                  rw (f, g, h, Ensures)
                    (Ensures-mono _ (λ _ b'. Automatic e.state c b') _
                      (after_record-Automatic e late _ w o o' _ _ clock c g
                        (record_result-kind o o' clock late run_error w h))
                      λ _ b' a. Automatic-between e.state before a (Kept-refl b'))
            ]
      ]
    ]
