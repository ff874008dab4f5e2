-- ===== src/Breaker/Entries.antt =====
-- The transitions that enterWithFallback of cb.go makes.
use j_circuit_breaker.Base.{
  ℕ, ◌≡◌, refl, Bool, true, false, not, Option, some, none, arith, Bool-cases, Option-cases, inl,
  inr, get_elem?, set, ◌⊎◌, ◌&&◌,
}
use j_circuit_breaker.Clock.{Clock, current_time}
use j_circuit_breaker.Config.{Setting}
use j_circuit_breaker.Window.{empty_snapshot}
use j_circuit_breaker.Options.{FallbackFunc}
use j_circuit_breaker.Events.{RequestStats}
use j_circuit_breaker.Limiter.{Limiter, Acquired, acquired, max_concurrency_reached, queued}
use j_circuit_breaker.State.{
  StateObject, get_state_type, mode_type, should_state_transition, on_request_start,
  acquire_permission, acquire_mode, release_permission, release_mode,
  should_check_for_max_concurrency,
}
use j_circuit_breaker.Breaker.{Breaker, load_state, store_state, load_limiter, store_limiter}
use j_circuit_breaker.Breaker.Transition.{get_state_snapshot}
use j_circuit_breaker.Breaker.Enter.{
  Waiting, WaitEnd, transition_if, report_blocked, limiter_acquire, limiter_resume, after_acquire,
  ask_limiter, ask_state, enter_with_fallback, resume,
}
use j_circuit_breaker.Breaker.Edges.{
  Ensures, Ensures-mono, Kept, Kept-refl, Kept-trans, store-Kept, get_state_snapshot-Kept,
  on_request_complete-Kept,
}
use j_circuit_breaker.Breaker.Automatic.{
  Automatic, Automatic-between, transition_if-Automatic, should_state_transition-kind,
}

pub report_blocked-Kept :
    (state limiter : ℕ) (s : Setting) (stats : RequestStats) (clock : Clock) (b : Breaker)
    → Ensures (report_blocked state limiter s stats clock b) (λ _ b'. Kept b b')
unfolding report_blocked
report_blocked-Kept state limiter s stats clock b =
    let reads = get_state_snapshot-Kept state limiter clock b in
    elim (Option-cases (get_state_snapshot state limiter clock b)) [
      | inl f ↦ rw (f, Ensures) tt
      | inr ((w, c), f) ↦
          let before : Kept b c = rw f at reads in
          rw (f, Ensures)
            (Ensures-mono _ (λ _ b'. Kept c b') _
              (on_request_complete-Kept false stats w (current_time clock s.config.use_cached_time)
                c)
              λ _ b' k. Kept-trans before k)
    ]

-- The kind of a state does not change when it is asked for a permission, or given one back.
acquire_permission-kind :
    (o : StateObject) → get_state_type (acquire_permission o).1 ≡ get_state_type o
unfolding acquire_permission acquire_mode mode_type
acquire_permission-kind o = ground arith

release_permission-kind :
    (o : StateObject) → get_state_type (release_permission o) ≡ get_state_type o
unfolding release_permission release_mode mode_type
release_permission-kind o = ground arith

blocked-Kept {ℓ} :
    {A : Type ℓ} (state limiter : ℕ) (s : Setting) (stats : RequestStats) (clock : Clock)
    {b : Breaker} (c : Breaker) (r : A)
    → Kept b c
    → Ensures
        (elim (report_blocked state limiter s stats clock c) [
          | none ↦ none
          | some (_, d) ↦ some (r, d)
        ])
        (λ _ b'. Kept b b')
blocked-Kept state limiter s stats clock c r k =
    let reports = report_blocked-Kept state limiter s stats clock c in
    elim (Option-cases (report_blocked state limiter s stats clock c)) [
      | inl f ↦ rw (f, Ensures) tt
      | inr ((u, d), f) ↦ rw (f, Ensures) (Kept-trans k (rw f at reports))
    ]

after_acquire-Kept :
    (state limiter : ℕ) (s : Setting) (factor : ℕ) (fb : Option FallbackFunc) (clock : Clock)
    (granted : Bool) (b : Breaker)
    → Ensures (after_acquire state limiter s factor fb clock granted b) (λ _ b'. Kept b b')
unfolding after_acquire load_state store_state
after_acquire-Kept state limiter s factor fb clock granted b =
    elim (Option-cases (get_elem? b.states state)) [
      | inl e ↦ rw (e, Ensures) tt
      | inr (o, e) ↦ elim (Bool-cases (should_check_for_max_concurrency o && not granted)) [
        | inl t ↦
            rw (e, t, Ensures)
              (blocked-Kept state limiter s _ clock _ _
                (store-Kept state o (release_permission o) b e (release_permission-kind o)))
        | inr t ↦ rw (e, t, Ensures) (Kept-refl b)
      ]
    ]

pub Acquired-cases :
    (r : Acquired) → (r ≡ acquired) ⊎ (r ≡ max_concurrency_reached) ⊎ ((t : ℕ) × (r ≡ queued t))
Acquired-cases acquired = inl refl
Acquired-cases max_concurrency_reached = inr (inl refl)
Acquired-cases (queued t) = inr (inr (t, refl))

-- The limiter's change is none of the states.
with_limiter-Kept :
    (limiter state : ℕ) (l : Limiter) (s : Setting) (factor : ℕ) (fb : Option FallbackFunc)
    (clock : Clock) (granted : Bool) (b : Breaker)
    → Ensures
        (after_acquire state limiter s factor fb clock granted
          (record b { limiters = set b.limiters limiter l }))
        (λ _ b'. Kept b b')
with_limiter-Kept limiter state l s factor fb clock granted b =
    let c : Breaker = record b { limiters = set b.limiters limiter l } in
    Ensures-mono _ (λ _ b'. Kept c b') _
      (after_acquire-Kept state limiter s factor fb clock granted c)
      λ _ b' k. record { pointer = k.pointer; same = k.same }

ask_limiter-Kept :
    (state limiter : ℕ) (s : Setting) (factor : ℕ) (fb : Option FallbackFunc) (clock : Clock)
    (b : Breaker)
    → Ensures (ask_limiter state limiter s factor fb clock b) (λ _ b'. Kept b b')
unfolding ask_limiter load_limiter store_limiter
ask_limiter-Kept state limiter s factor fb clock b =
    elim (Option-cases (get_elem? b.limiters limiter)) [
      | inl e ↦ rw (e, Ensures) tt
      | inr (l, e) ↦ elim (Acquired-cases (limiter_acquire l factor).0) [
        | inl r ↦ rw (e, r, Ensures) (with_limiter-Kept limiter state _ s factor fb clock true b)
        | inr (inl r) ↦
            rw (e, r, Ensures) (with_limiter-Kept limiter state _ s factor fb clock false b)
        | inr (inr (t, r)) ↦ rw (e, r, Ensures) (record { pointer = refl; same = refl })
      ]
    ]

-- To go on after the wait in acquire() changes no state's kind, and not the breaker's state.
pub resume-Kept :
    (p : Waiting) (end : WaitEnd) (clock : Clock) (b : Breaker)
    → Ensures (resume p end clock b) (λ _ b'. Kept b b')
unfolding resume load_limiter store_limiter
resume-Kept p end clock b = elim (Option-cases (get_elem? b.limiters p.concurrency_limiter)) [
  | inl e ↦ rw (e, Ensures) tt
  | inr (l, e) ↦
      rw (e, Ensures)
        (with_limiter-Kept p.concurrency_limiter p.state _ p.setting p.factor p.fallback clock
          (limiter_resume l p.ticket end).0 b)
]

pub ask_state-Kept :
    (state limiter : ℕ) (s : Setting) (factor : ℕ) (fb : Option FallbackFunc) (clock : Clock)
    (b : Breaker)
    → Ensures (ask_state state limiter s factor fb clock b) (λ _ b'. Kept b b')
unfolding ask_state load_state store_state
ask_state-Kept state limiter s factor fb clock b = elim (Option-cases (get_elem? b.states state)) [
  | inl e ↦ rw (e, Ensures) tt
  | inr (o, e) ↦
      let o' = (acquire_permission o).1 in
      let c : Breaker = record b { states = set b.states state o' } in
      let k : Kept b c = store-Kept state o o' b e (acquire_permission-kind o) in
      elim (Option-cases (acquire_permission o).0) [
        | inl f ↦
            rw (e, f, Ensures)
              (Ensures-mono _ (λ _ b'. Kept c b') _
                (ask_limiter-Kept state limiter s factor fb clock c) λ _ b' l. Kept-trans k l)
        | inr (r, f) ↦ rw (e, f, Ensures) (blocked-Kept state limiter s _ clock c _ k)
      ]
]

-- An enter that returns leaves the breaker in its state, and every state in its kind, or it moves the breaker to one new
-- state, only along an edge of validAutomaticStateTransitions.
pub enter_with_fallback-Automatic :
    (fb : Option FallbackFunc) (factor : ℕ) (clock : Clock) (b : Breaker)
    → Ensures (enter_with_fallback fb factor clock b) (λ _ b'. Automatic b.state b b')
unfolding enter_with_fallback load_state store_state
enter_with_fallback-Automatic fb factor clock b = elim (Option-cases (get_elem? b.states b.state)) [
  | inl e ↦ rw (e, Ensures) tt
  | inr (o, e) ↦
      let o' = (should_state_transition o empty_snapshot on_request_start clock).1 in
      let d = (should_state_transition o empty_snapshot on_request_start clock).0 in
      let c : Breaker = record b { states = set b.states b.state o' } in
      let before : Kept b c =
        store-Kept b.state o o' b e
          (should_state_transition-kind o empty_snapshot on_request_start clock) in
      let moves = transition_if-Automatic o empty_snapshot on_request_start b.state clock c in
      elim (Option-cases (transition_if b.state d clock c)) [
        | inl f ↦ rw (e, f, Ensures) tt
        | inr ((p, a), f) ↦
            let moved : Automatic b.state c a = rw f at moves in
            rw (e, f, Ensures)
              (Ensures-mono _ (λ _ b'. Kept a b') _
                (ask_state-Kept p b.concurrency_limiter b.setting factor fb clock a)
                λ _ b' after. Automatic-between b.state before moved after)
      ]
]
