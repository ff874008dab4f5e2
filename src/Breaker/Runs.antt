-- ===== src/Breaker/Runs.antt =====
-- Sequences of the sections of calls on one breaker (cb.go, entry.go), in any order and of any entries, also of those
-- that were made in an earlier state.
use j_circuit_breaker.Base.{
  ℕ, ◌≡◌, sym, ap, ap₂, ◌∙◌, Bool, true, false, Option, some, none, arith, Option-cases, inl, inr,
  get_elem?, List, [], ◌∷◌,
}
use j_circuit_breaker.Constants.{State, Err, forced_open, forced_closed, valid_automatic}
use j_circuit_breaker.Clock.{Clock}
use j_circuit_breaker.Options.{FallbackFunc}
use j_circuit_breaker.Breaker.{Breaker}
use j_circuit_breaker.Breaker.Enter.{Waiting, WaitEnd, enter_with_fallback, resume}
use j_circuit_breaker.Breaker.Exit.{exit_with_fallback}
use j_circuit_breaker.Breaker.Enter.{Entry}
use j_circuit_breaker.Breaker.Edges.{left, Ensures, kinds, Kept}
use j_circuit_breaker.Breaker.Automatic.{Automatic, exit_with_fallback-Automatic}
use j_circuit_breaker.Breaker.Entries.{enter_with_fallback-Automatic, resume-Kept}

pub data Section : Type 0 where
  enters : Option FallbackFunc → ℕ → Section
  resumes : Waiting → WaitEnd → Section
  exits : Entry → Option Err → Option FallbackFunc → ℕ → Section

unfoldable pub step : Section → Clock → Breaker → Option Breaker
step (enters fb factor) clock b = left (enter_with_fallback fb factor clock b)
step (resumes p end) clock b = left (resume p end clock b)
step (exits e err fb factor) clock b = left (exit_with_fallback e err fb factor clock b)

unfoldable pub run : List (Section × Clock) → Breaker → Option Breaker
run [] b = some b
run ((s, clock) ∷ ss) b = elim (step s clock b) [ none ↦ none | some b' ↦ run ss b' ]

left-Ensures {ℓ} :
    {A : Type ℓ} (r : Option (A × Breaker)) (P : Breaker → Type 0) (b' : Breaker)
    → Ensures r (λ _ b. P b)
    → left r ≡ some b'
    → P b'
left-Ensures none P b' h e = cc
left-Ensures (some (a, b)) P b' h e = let same : b ≡ b' = cc in rw same at h

-- A section moves the breaker along an automatic edge, or not at all.
pub step-Automatic :
    (s : Section) (clock : Clock) (b b' : Breaker)
    → step s clock b ≡ some b'
    → (from : ℕ) × Automatic from b b'
unfolding step
step-Automatic (enters fb factor) clock b b' h = (
  b.state,
  left-Ensures _ (Automatic b.state b) b' (enter_with_fallback-Automatic fb factor clock b) h,
)
step-Automatic (resumes p end) clock b b' h =
    (b.state, inl (left-Ensures _ (Kept b) b' (resume-Kept p end clock b) h))
step-Automatic (exits e err fb factor) clock b b' h = (
  e.state,
  left-Ensures _ (Automatic e.state b) b' (exit_with_fallback-Automatic e err fb factor clock b) h,
)

-- The states that only an operator's call leaves.
unfoldable pub is_forced_state : State → Bool
is_forced_state forced_open = true
is_forced_state forced_closed = true
is_forced_state _ = false

no_edge : (k to : State) → is_forced_state k ≡ true → valid_automatic k to ≡ false
unfolding is_forced_state valid_automatic
no_edge k to h = ground (arith, h)

forced_step :
    (k : State) (s : Section) (clock : Clock) (b b' : Breaker)
    → is_forced_state k ≡ true
    → get_elem? (kinds b) b.state ≡ some k
    → step s clock b ≡ some b'
    → Kept b b'
forced_step k s clock b b' forced at h =
    let (from, auto) = step-Automatic s clock b b' h in
    elim auto [
      | inl kept ↦ kept
      | inr m ↦
          let there : some k ≡ some m.kind =
            sym at ∙ ap (λ p. get_elem? (kinds b) p) m.current ∙ m.at in
          let kind : k ≡ m.kind = cc in
          absurd (
            ground (arith, m.allowed, no_edge m.kind m.to (sym (ap is_forced_state kind) ∙ forced)))
    ]

-- A breaker that is in FORCED_OPEN or FORCED_CLOSED is in the same state object after any sequence of
-- enters, ends of waits and exits of any calls that does not panic, and every state is of the kind that it
-- was of.
pub forced_stays :
    (k : State) (ss : List (Section × Clock)) (b b' : Breaker)
    → is_forced_state k ≡ true
    → get_elem? (kinds b) b.state ≡ some k
    → run ss b ≡ some b'
    → (b'.state ≡ b.state) × (kinds b' ≡ kinds b)
unfolding run
forced_stays k [] b b' forced at h =
    let same : b ≡ b' = cc in (ap (λ c. c.state) (sym same), ap kinds (sym same))
forced_stays k ((s, clock) ∷ ss) b b' forced at h = elim (Option-cases (step s clock b)) [
  | inl e ↦ absurd (ground (arith, e, h))
  | inr (c, e) ↦
      let kept = forced_step k s clock b c forced at e in
      let there : get_elem? (kinds c) c.state ≡ some k =
        ap₂ get_elem? kept.same kept.pointer ∙ at in
      let goes : run ss c ≡ some b' = ground (arith, e, h) in
      let rest = forced_stays k ss c b' forced there goes in
      (rest.0 ∙ kept.pointer, rest.1 ∙ kept.same)
]
