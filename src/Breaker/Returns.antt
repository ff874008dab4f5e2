-- ===== src/Breaker/Returns.antt =====
-- The transitions and reports of cb.go on a sound breaker: whether they panic, and what they leave.
use j_circuit_breaker.Base.{
  ℕ, suc, ◌≡◌, ◌≤◌, ◌<◌, ◌^◌, refl, ap, ◌∙◌, Bool, false, not, Option, some, none, arith,
  Bool-cases, Option-cases, inl, inr, length, length-append, get_elem?, List, [], ◌∷◌, ◌++◌,
  All-append, get_elem?-below, ◌==◌, ◌&&◌, ◌||◌,
}
use j_circuit_breaker.Constants.{
  State, closed, opened, semi_open, forced_open, forced_closed, TransitionReason, valid_automatic,
  is_forced,
}
use j_circuit_breaker.Clock.{Clock, current_time, current_cached_time_seconds}
use j_circuit_breaker.Config.{Setting}
use j_circuit_breaker.Window.Sound
use j_circuit_breaker.Window.Sound.{count-IsSound, time-IsSound}
use j_circuit_breaker.State.{StateObject, new_window, new_state_instance, get_state_type, Decision}
use j_circuit_breaker.Events.{
  Effect, RequestStats, StateSnapshot, state_transition, set_breaker_state_metric,
}
use j_circuit_breaker.Breaker.{when, Breaker, load_state, perform}
use j_circuit_breaker.Breaker.Transition.{get_state_snapshot, notify, change_state, transition}
use j_circuit_breaker.Breaker.Enter.{transition_if, report_blocked}
use j_circuit_breaker.Breaker.Sound.{
  HasSoundWindow, IsSane, Shows, Shows-later, IsSound, IsSound-later, Leaves, Leaves-refl,
  Leaves-trans, OnlyEffects, OnlyEffects-Leaves, notify_returns, on_request_complete_returns,
  get_state_snapshot_returns,
}

fresh_window :
    (k : ℕ) (s : Setting) (clock : Clock)
    → IsSane s
    → Shows k s clock
    → k < 2 ^ 63
    → Sound.IsSound k (new_window s clock)
unfolding new_window
fresh_window k s clock sane shows fit =
    time-IsSound k _ _ sane.some_seconds (omega arith) shows.room shows.wall fit

pub new_state_instance-HasSoundWindow :
    {k : ℕ} (to : State) (s : Setting) (clock : Clock)
    → IsSane s
    → Shows k s clock
    → k < 2 ^ 63
    → HasSoundWindow k (new_state_instance to s clock)
unfolding new_state_instance
new_state_instance-HasSoundWindow {k} semi_open s clock sane shows fit =
    count-IsSound k _ sane.some_calls (omega arith)
new_state_instance-HasSoundWindow {k} closed s clock sane shows fit =
    fresh_window k s clock sane shows fit
new_state_instance-HasSoundWindow {k} opened s clock sane shows fit =
    fresh_window k s clock sane shows fit
new_state_instance-HasSoundWindow {k} forced_open s clock sane shows fit =
    fresh_window k s clock sane shows fit
new_state_instance-HasSoundWindow {k} forced_closed s clock sane shows fit =
    fresh_window k s clock sane shows fit

pub report_blocked_returns :
    {k : ℕ} (p l : ℕ) (s : Setting) (stats : RequestStats) (clock : Clock) (b : Breaker)
    → p < length b.states
    → l < length b.limiters
    → current_cached_time_seconds clock ≤ k
    → k < 2 ^ 63
    → IsSound k b
    → (b' : Breaker) × (report_blocked p l s stats clock b ≡ some (tt, b'))
      × Leaves (suc k) b b'
      × (b'.limiters ≡ b.limiters)
unfolding report_blocked
report_blocked_returns p l s stats clock b in_states in_limiters cached fit sound =
    let (snapshot, c, e, left, kept) =
      get_state_snapshot_returns p l clock b in_states in_limiters cached fit sound in
    let (d, f, same) =
      on_request_complete_returns false stats snapshot (current_time clock s.config.use_cached_time)
        c in
    (
      d,
      ground (arith, e, f),
      Leaves-trans left (OnlyEffects-Leaves c d same left.sound),
      same.limiters ∙ kept,
    )

when_returns :
    (test : Bool) (es : List Effect) (b : Breaker)
    → (b' : Breaker) × (when test (perform es) b ≡ some (tt, b')) × OnlyEffects b b'
unfolding perform
when_returns test es b = elim (Option-cases (when test (perform es) b)) [
  | inl e ↦ absurd (ground (arith, e))
  | inr ((u, b'), e) ↦ (b', e, ground (arith, e))
]

append-Leaves :
    {k : ℕ} (to : State) (s : Setting) (clock : Clock) (b : Breaker)
    → IsSound k b
    → IsSane s
    → Shows k s clock
    → k < 2 ^ 63
    → Leaves k b (record b {
      state = length b.states;
      states = b.states ++ new_state_instance to s clock ∷ [];
    })
append-Leaves {k} to s clock b sound sane shows fit =
    let longer = length-append b.states (new_state_instance to s clock ∷ []) in
    record {
      sound = record {
        state_in = omega (arith, longer);
        limiter_in = sound.limiter_in;
        windows =
            All-append (HasSoundWindow k) b.states _ sound.windows
              (new_state_instance-HasSoundWindow to s clock sane shows fit, tt);
        sane = sound.sane;
      };
      states = omega (arith, longer);
      limiters = refl;
      setting = refl;
    }

-- A state to go on with, and the breaker that it belongs to.
abbrev pub GoesOn : ℕ → Breaker → Option (ℕ × Breaker) → Type 0
GoesOn k b r =
    (p : ℕ) × (b' : Breaker) × (r ≡ some (p, b')) × Leaves k b b' × (p < length b'.states)

change_state_lem :
    (to : State) (clock : Clock) (b c d h : Breaker) (o : StateObject) (snapshot : StateSnapshot)
    → get_elem? b.states b.state ≡ some o
    → get_state_snapshot b.state b.concurrency_limiter clock b ≡ some (snapshot, c)
    → when
        (not b.setting.config.metric_config.is_disabled)
        (perform (set_breaker_state_metric b.name to))
        c
      ≡ some (tt, d)
    → notify
        (state_transition (record {
          prev_state = get_state_type o;
          current_state = to;
          name = b.name;
          creation_time = current_time clock b.setting.config.use_cached_time;
          state_snapshot = snapshot;
        }))
        (record d {
          state = length d.states;
          states = d.states ++ new_state_instance to b.setting clock ∷ [];
        })
      ≡ some (tt, h)
    → change_state to clock b ≡ some (length d.states, h)
unfolding change_state load_state
change_state_lem to clock b c d h o snapshot at e f g = ground (arith, at, e, f, g)

change_state_returns :
    {k : ℕ} (to : State) (clock : Clock) (b : Breaker)
    → Shows k b.setting clock
    → suc k < 2 ^ 63
    → IsSound k b
    → GoesOn (suc k) b (change_state to clock b)
change_state_returns {k} to clock b shows fit sound =
    let (o, at) = get_elem?-below b.states b.state sound.state_in in
    let (snapshot, c, e, left, kept) =
      get_state_snapshot_returns b.state b.concurrency_limiter clock b sound.state_in
        sound.limiter_in shows.cached (omega arith) sound in
    let (d, f, same) =
      when_returns (not b.setting.config.metric_config.is_disabled)
        (set_breaker_state_metric b.name to) c in
    let left' : Leaves (suc k) b d = Leaves-trans left (OnlyEffects-Leaves c d same left.sound) in
    let grown =
      append-Leaves to b.setting clock d left'.sound sound.sane (Shows-later (omega arith) shows)
        fit in
    let g : Breaker = record d {
      state = length d.states;
      states = d.states ++ new_state_instance to b.setting clock ∷ [];
    } in
    let (h, n, same') =
      notify_returns
        (state_transition (record {
          prev_state = get_state_type o;
          current_state = to;
          name = b.name;
          creation_time = current_time clock b.setting.config.use_cached_time;
          state_snapshot = snapshot;
        }))
        g in
    (
      length d.states,
      h,
      change_state_lem to clock b c d h o snapshot at e f n,
      Leaves-trans left' (Leaves-trans grown (OnlyEffects-Leaves g h same' grown.sound)),
      omega (
        arith,
        ap length same'.states,
        length-append d.states (new_state_instance to b.setting clock ∷ []),
      ),
    )

pub transition_returns :
    {k : ℕ} (from : ℕ) (to : State) (reason : TransitionReason) (clock : Clock) (b : Breaker)
    → from < length b.states
    → Shows k b.setting clock
    → suc k < 2 ^ 63
    → IsSound k b
    → GoesOn (suc k) b (transition from to reason clock b)
unfolding transition load_state
transition_returns from to reason clock b in_states shows fit sound =
    let (o, at) = get_elem?-below b.states from in_states in
    elim (Bool-cases
      (is_forced reason || (from == b.state && valid_automatic (get_state_type o) to))) [
        | inl t ↦
            let (p, c, e, left, inside) = change_state_returns to clock b shows fit sound in
            (p, c, ground (arith, at, t, e), left, inside)
        | inr t ↦ (
          from,
          b,
          ground (arith, at, t),
          Leaves-refl b (IsSound-later _ (omega arith) sound),
          in_states,
        )
      ]

pub transition_if_returns :
    {k : ℕ} (from : ℕ) (d : Decision) (clock : Clock) (b : Breaker)
    → from < length b.states
    → Shows k b.setting clock
    → suc k < 2 ^ 63
    → IsSound k b
    → GoesOn (suc k) b (transition_if from d clock b)
unfolding transition_if
transition_if_returns from none clock b in_states shows fit sound =
    (from, b, refl, Leaves-refl b (IsSound-later _ (omega arith) sound), in_states)
transition_if_returns from (some (to, reason)) clock b in_states shows fit sound =
    transition_returns from to reason clock b in_states shows fit sound
