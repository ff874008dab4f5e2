-- ===== src/Breaker/Moves.antt =====
-- What each operation of cb.go and entry.go does to the state of a breaker, when it returns.
use j_circuit_breaker.Base.{
  ℕ, ◌≡◌, refl, ◌∙◌, true, Option, some, arith, Option-cases, inl, inr, get_elem?,
}
use j_circuit_breaker.Constants.{
  State, Err, closed, forced_open, forced_closed, manual_transition, TransitionReason, is_forced,
}
use j_circuit_breaker.Clock.{Clock}
use j_circuit_breaker.Options.{FallbackFunc}
use j_circuit_breaker.Breaker.{Breaker, load_state, ◌>>=◌, return}
use j_circuit_breaker.Breaker.Transition.{transition, force_open, force_close, reset}
use j_circuit_breaker.Breaker.Enter.{Entry, Entering, enter_with_fallback}
use j_circuit_breaker.Breaker.Exit.{exit_with_fallback}
use j_circuit_breaker.Breaker.Edges.{Ensures, Changed, change_state-Changed}
use j_circuit_breaker.Breaker.Automatic.{Automatic, exit_with_fallback-Automatic}
use j_circuit_breaker.Breaker.Entries.{enter_with_fallback-Automatic}

-- When enterWithFallback returns, whether it lets the call in, blocks it or must wait, the breaker is in the state that it
-- was in, or it has moved to one new state, of a kind that validAutomaticStateTransitions allows from the old one; every
-- other state is of the kind that it was of.
pub enter_moves :
    (fb : Option FallbackFunc) (factor : ℕ) (clock : Clock) (b b' : Breaker) (r : Entering)
    → enter_with_fallback fb factor clock b ≡ some (r, b')
    → Automatic b.state b b'
enter_moves fb factor clock b b' r h = rw h at (enter_with_fallback-Automatic fb factor clock b)

-- When exitWithFallback returns, the breaker is in the state that it was in, or it has moved to one new state, and then
-- the entry's state was still the breaker's, and validAutomaticStateTransitions allows the move; every other state is
-- of the kind that it was of.
pub exit_moves :
    (e : Entry) (err : Option Err) (fb : Option FallbackFunc) (factor : ℕ) (clock : Clock)
    (b b' : Breaker) (r : Option Err)
    → exit_with_fallback e err fb factor clock b ≡ some (r, b')
    → Automatic e.state b b'
exit_moves e err fb factor clock b b' r h =
    rw h at (exit_with_fallback-Automatic e err fb factor clock b)

transition-forced :
    (from : ℕ) (to : State) (reason : TransitionReason) (clock : Clock) (b : Breaker)
    → is_forced reason ≡ true
    → Ensures (transition from to reason clock b) (Changed to b)
unfolding transition load_state
transition-forced from to reason clock b forced = elim (Option-cases (get_elem? b.states from)) [
  | inl e ↦ rw (e, Ensures) tt
  | inr (o, e) ↦ rw (e, forced, Ensures) (change_state-Changed to clock b)
]

pub forced_change :
    (to : State) (reason : TransitionReason) (clock : Clock) (b b' : Breaker) (u : Unit {0})
    → is_forced reason ≡ true
    → (transition b.state to reason clock >>= λ _. return tt) b ≡ some (u, b')
    → Changed to b b'.state b'
forced_change to reason clock b b' u forced h =
    let moves = transition-forced b.state to reason clock b forced in
    elim (Option-cases (transition b.state to reason clock b)) [
      | inl e ↦ absurd (ground (arith, e, h))
      | inr ((p, c), e) ↦
          let changed : Changed to b p c = rw e at moves in
          let same : c ≡ b' = ground (arith, e, h) in
          let moved : Changed to b c.state c = record {
            pointer = refl;
            fresh = changed.pointer ∙ changed.fresh;
            appended = changed.appended;
          } in
          rw same at moved
    ]

-- When they return, ForceOpen, ForceClose and Reset have moved the breaker to a new state of the kind FORCED_OPEN,
-- FORCED_CLOSED and CLOSED, from whatever state it was in; every other state is of the kind that it was of.
pub operator_moves :
    (clock : Clock) (b b₁ b₂ b₃ : Breaker) (u : Unit {0})
    → force_open clock b ≡ some (u, b₁)
    → force_close clock b ≡ some (u, b₂)
    → reset clock b ≡ some (u, b₃)
    → Changed forced_open b b₁.state b₁
      × Changed forced_closed b b₂.state b₂
      × Changed closed b b₃.state b₃
unfolding force_open force_close reset is_forced
operator_moves clock b b₁ b₂ b₃ u h₁ h₂ h₃ = (
  forced_change forced_open manual_transition clock b b₁ u refl h₁,
  forced_change forced_closed manual_transition clock b b₂ u refl h₂,
  forced_change closed TransitionReason.reset clock b b₃ u refl h₃,
)
