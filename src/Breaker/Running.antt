-- ===== src/Breaker/Running.antt =====
-- Sequences of events (Session) of cb.go and entry.go: whether their operations panic, and what they leave.
use j_circuit_breaker.Base.{
  ℕ, suc, ◌≡◌, ◌≤◌, ◌<◌, ◌^◌, ◌+◌, ◌*◌, refl, Option, some, none, arith, Option-cases, inl, inr,
  length, get_elem?, List, [], ◌∷◌, All, All-mono, All-get_elem?,
}
use j_circuit_breaker.Constants.{State, TransitionReason}
use j_circuit_breaker.Config.{Config, is_valid_config, fill_defaults_and_get_setting}
use j_circuit_breaker.Clock.{Clock}
use j_circuit_breaker.Breaker.{Breaker}
use j_circuit_breaker.Breaker.Transition.{
  transition, force_open, force_close, reset, update_config, register_event_listener,
}
use j_circuit_breaker.Breaker.Sound.{Shows, Leaves}
use j_circuit_breaker.Breaker.Returns.{transition_returns}
use j_circuit_breaker.Breaker.Calls.{enter_returns, resume_returns}
use j_circuit_breaker.Breaker.Exits.{exit_returns}
use j_circuit_breaker.Breaker.Updating.{
  IsSmall, ClockIsIn, ClockIsIn-Shows, IsServing, update_setting-IsServing,
}
use j_circuit_breaker.Breaker.Session.{
  Session, Event, enters, wait_ends, exits, forces_open, forces_closed, resets, updates, listens,
  remove_at, step, run,
}
use j_circuit_breaker.Breaker.Serving.{
  EntryPointsInto, WaitingPointsInto, IsGood, Grows, IsServing-later, All-remove_at, IsGood-with,
  Goes, admit-Goes, with_breaker-Goes,
}

-- The entries and the waiting calls but one.
drop_entry :
    {n k : ℕ} (s : Session) (i : ℕ)
    → IsGood n k s
    → IsGood n k (record s { entries = remove_at s.entries i })
drop_entry s i good = record {
  serving = good.serving;
  entries = All-remove_at (EntryPointsInto s.breaker) s.entries i good.entries;
  waiting = good.waiting;
}

drop_waiting :
    {n k : ℕ} (s : Session) (i : ℕ)
    → IsGood n k s
    → IsGood n k (record s { waiting = remove_at s.waiting i })
drop_waiting s i good = record {
  serving = good.serving;
  entries = good.entries;
  waiting = All-remove_at (WaitingPointsInto s.breaker) s.waiting i good.waiting;
}

IsGood-later : {n k m : ℕ} {s : Session} → k ≤ m → IsGood n k s → IsGood n m s
IsGood-later le good = record {
  serving = IsServing-later le good.serving;
  entries = good.entries;
  waiting = good.waiting;
}

Goes-later : {n k m : ℕ} {o : Option Session} → k ≤ m → Goes n k o → Goes n m o
Goes-later le (s, e, good) = (s, e, IsGood-later le good)

-- An update is small.
abbrev pub Allows : ℕ → Event → Type 0
Allows n (updates (some c)) = IsSmall n (fill_defaults_and_get_setting c)
Allows n _ = Unit

module _ {n k : ℕ} (clock : Clock) (s : Session) (good : IsGood n k s) (shown : ClockIsIn n k clock)
    (fit : suc (suc k) < 2 ^ 63) where
  shows : Shows k s.breaker.setting clock
  shows = ClockIsIn-Shows good.serving.small shown

  operator_Goes :
      (to : State) (reason : TransitionReason)
      → (p : ℕ) × (b : Breaker) × (transition s.breaker.state to reason clock s.breaker
          ≡ some (p, b))
        × Leaves (suc k) s.breaker b
  operator_Goes to reason =
      let (p, b, e, left, inside) =
        transition_returns s.breaker.state to reason clock s.breaker good.serving.sound.state_in
          shows (omega arith) good.serving.sound in
      (p, b, e, left)

  updated :
      (config : Option Config)
      → Allows n (updates config)
      → IsServing n k (update_config config clock s.breaker).1
        × Grows s.breaker (update_config config clock s.breaker).1
  unfolding update_config
  updated none allows = (good.serving, record { states = omega arith; limiters = omega arith })
  updated (some c) allows = elim (Option-cases (is_valid_config (some c))) [
    | inl e ↦
        let (serving, states, limiters) =
          update_setting-IsServing c clock s.breaker good.serving.sound.windows (λ _. good.serving)
            allows shown (omega arith) in
        rw (e, update_config) (serving, record { states = states; limiters = limiters })
    | inr (err, e) ↦
        rw (e, update_config)
          (good.serving, record { states = omega arith; limiters = omega arith })
  ]

  -- An event goes through.
  step-Goes : (event : Event) → Allows n event → Goes n (suc (suc k)) (step s event clock)
  unfolding step register_event_listener force_open force_close reset
  step-Goes (enters fb factor) allows =
      admit-Goes s _ good
        (enter_returns fb factor clock s.breaker shows (omega arith) good.serving.sound)
  step-Goes (wait_ends i end) allows = elim (Option-cases (get_elem? s.waiting i)) [
    | inl e ↦ rw (e, step) (s, refl, IsGood-later (omega arith) good)
    | inr (p, e) ↦
        rw (e, step)
          (Goes-later (omega arith) (
            admit-Goes (record s { waiting = remove_at s.waiting i }) _ (drop_waiting s i good)
              (resume_returns p end clock s.breaker shown.cached (omega arith) good.serving.sound
                (All-get_elem? (WaitingPointsInto s.breaker) s.waiting i p good.waiting e))))
  ]
  step-Goes (exits i err fb) allows = elim (Option-cases (get_elem? s.entries i)) [
    | inl e ↦ rw (e, step) (s, refl, IsGood-later (omega arith) good)
    | inr (entry, e) ↦
        let (r, b, same, left) =
          exit_returns entry err fb entry.factor clock s.breaker shows fit good.serving.sound
            (All-get_elem? (EntryPointsInto s.breaker) s.entries i entry good.entries e) in
        rw (e, step)
          (with_breaker-Goes (record s { entries = remove_at s.entries i }) _ r b
            (drop_entry s i good) same left)
  ]
  step-Goes forces_open allows =
      let (p, b, e, left) = operator_Goes State.forced_open TransitionReason.manual_transition in
      Goes-later (omega arith) (with_breaker-Goes s _ tt b good (ground (arith, e)) left)
  step-Goes forces_closed allows =
      let (p, b, e, left) = operator_Goes State.forced_closed TransitionReason.manual_transition in
      Goes-later (omega arith) (with_breaker-Goes s _ tt b good (ground (arith, e)) left)
  step-Goes resets allows =
      let (p, b, e, left) = operator_Goes State.closed TransitionReason.reset in
      Goes-later (omega arith) (with_breaker-Goes s _ tt b good (ground (arith, e)) left)
  step-Goes (updates config) allows =
      let (serving, grown) = updated config allows in
      (_, refl, IsGood-later (omega arith) (IsGood-with s _ good serving grown))
  step-Goes (listens callback) allows = (
    _,
    refl,
    IsGood-later (omega arith) (
        IsGood-with s _ good
          (record {
            sound = record {
              state_in = good.serving.sound.state_in;
              limiter_in = good.serving.sound.limiter_in;
              windows = good.serving.sound.windows;
              sane = good.serving.sound.sane;
            };
            small = good.serving.small;
          })
          (record { states = omega arith; limiters = omega arith })),
  )

abbrev pub Happens : ℕ → ℕ → Event × Clock → Type 0
Happens n k (event, clock) = Allows n event × ClockIsIn n k clock

Happens-later : {n k : ℕ} (e : Event × Clock) → Happens n k e → Happens n (suc (suc k)) e
Happens-later (event, clock) (allows, shown) = (
  allows,
  record {
    cached = omega (arith, shown.cached);
    wall = omega (arith, shown.wall);
    room = shown.room;
  },
)

-- Every sequence of events goes through.
pub run_Goes :
    {n k : ℕ} (es : List (Event × Clock)) (s : Session)
    → IsGood n k s
    → All (Happens n k) es
    → k + 2 * length es < 2 ^ 63
    → (s' : Session) × (run s es ≡ some s') × IsGood n (k + 2 * length es) s'
unfolding run
run_Goes {n} {k} [] s good happen fit = (s, refl, IsGood-later (omega arith) good)
run_Goes {n} {k} ((event, clock) ∷ es) s good happen fit =
    let (s', e, good') = step-Goes clock s good happen.0.1 (omega (arith, fit)) event happen.0.0 in
    let (s'', f, good'') =
      run_Goes es s' good'
        (All-mono (Happens n k) (Happens n (suc (suc k))) es Happens-later happen.1)
        (omega (arith, fit)) in
    (s'', ground (arith, e, f), IsGood-later (omega arith) good'')
