-- ===== src/Breaker/Enter.antt =====
-- cb.go: enterWithFallback and its wrappers. A call that must wait for the limiter is parked between two
-- sections: `enter_with_fallback` ends at the select of acquire(), and `resume` goes on from there when the
-- caller is woken or its context is done. The clock does not move within a section.
use j_circuit_breaker.Base.{
  ℕ, Bool, true, false, not, ◌&&◌, List, Option, none, some, if◌then◌else◌,
}
use j_circuit_breaker.Constants.{Err, circuit, err_max_concurrency}
use j_circuit_breaker.Config.{Setting}
use j_circuit_breaker.Clock.{Clock, Time, current_time}
use j_circuit_breaker.Window.{empty_snapshot}
use j_circuit_breaker.Limiter.{
  Limiter, no_op_limiter, weighted_semaphore, Acquired, acquired, max_concurrency_reached, queued,
}
use j_circuit_breaker.Limiter
use j_circuit_breaker.State.{
  Decision, on_request_start, should_state_transition, acquire_permission, release_permission,
  should_check_for_max_concurrency,
}
use j_circuit_breaker.Events.{RequestStats}
use j_circuit_breaker.Options.{FallbackFunc, EntryOption, new_option, apply_entry_options}
use j_circuit_breaker.Breaker.{
  M, ◌>>=◌, ◌>>◌, return, get, load_state, store_state, load_limiter, store_limiter,
}
use j_circuit_breaker.Breaker.Transition.{get_state_snapshot, transition, on_request_complete}

-- What an Entry holds beside its breaker.
pub record Entry : Type 0 where
  pub entry_time : Time
  pub setting : Setting
  pub state : ℕ
  pub concurrency_limiter : ℕ
  pub factor : ℕ

-- A call that waits for the limiter, under its number in the limiter's queue.
pub record Waiting : Type 0 where
  pub setting : Setting
  pub state : ℕ
  pub concurrency_limiter : ℕ
  pub factor : ℕ
  pub fallback : Option FallbackFunc
  pub ticket : ℕ

-- The results of enterWithFallback: an entry, or the fallback's error and the error that blocked the call.
pub data Entering : Type 0 where
  entered : Entry → Entering
  blocked : Option Err → Err → Entering
  waits : Waiting → Entering

abbrev pub new_stats : RequestStats
new_stats = record { elapsed = 0; request_outcome = none; run_error = none; fallback_error = none }

-- ErrorAndFallback: the error that it returns, and the stats.
unfoldable pub error_and_fallback :
    Option FallbackFunc → Err → RequestStats → Option Err × RequestStats
error_and_fallback none e stats =
    (some e, record stats { run_error = some e; fallback_error = none })
error_and_fallback (some fallback) e stats =
    (fallback e, record stats { run_error = some e; fallback_error = fallback e })

-- acquire() on either limiter, up to its select.
unfoldable pub limiter_acquire : Limiter → ℕ → Acquired × Limiter
limiter_acquire no_op_limiter n = (acquired, no_op_limiter)
limiter_acquire (weighted_semaphore w) n =
    let (r, w') = Limiter.acquire w n in (r, weighted_semaphore w')

-- The call is blocked: its stats are reported, with a snapshot of the state.
unfoldable pub report_blocked : ℕ → ℕ → Setting → RequestStats → Clock → M (Unit {0})
report_blocked state limiter setting stats clock = do
  snapshot ← get_state_snapshot state limiter clock
  on_request_complete false stats snapshot (current_time clock setting.config.use_cached_time)

-- StateTransition, if the decision asks for it.
unfoldable pub transition_if : ℕ → Decision → Clock → M ℕ
transition_if from none clock = return from
transition_if from (some (to, reason)) clock = transition from to reason clock

-- What follows acquire(): `granted` says whether it returned nil.
unfoldable pub after_acquire : ℕ → ℕ → Setting → ℕ → Option FallbackFunc → Clock → Bool → M Entering
unfolding report_blocked
after_acquire state limiter setting factor fallback clock granted = do
  o ← load_state state
  if should_check_for_max_concurrency o && not granted
      then (let (fb_err, stats) =
            error_and_fallback fallback (circuit err_max_concurrency) new_stats in
          store_state state (release_permission o)
          >> report_blocked state limiter setting stats clock
          >> return (blocked fb_err (circuit err_max_concurrency)))
      else return (
          entered (record {
            entry_time = current_time clock setting.config.use_cached_time;
            setting = setting;
            state = state;
            concurrency_limiter = limiter;
            factor = factor;
          }))

-- The limiter is asked.
unfoldable pub ask_limiter : ℕ → ℕ → Setting → ℕ → Option FallbackFunc → Clock → M Entering
unfolding limiter_acquire
ask_limiter state limiter setting factor fallback clock = do
  l ← load_limiter limiter
  let (r, l') = limiter_acquire l factor
  store_limiter limiter l'
  elim r [
    | acquired ↦ after_acquire state limiter setting factor fallback clock true
    | max_concurrency_reached ↦ after_acquire state limiter setting factor fallback clock false
    | queued ticket ↦ return (
        waits (record {
          setting = setting;
          state = state;
          concurrency_limiter = limiter;
          factor = factor;
          fallback = fallback;
          ticket = ticket;
        }))
  ]

-- The state is asked.
unfoldable pub ask_state : ℕ → ℕ → Setting → ℕ → Option FallbackFunc → Clock → M Entering
ask_state state limiter setting factor fallback clock = do
  o ← load_state state
  let (refusal, o') = acquire_permission o
  store_state state o'
  elim refusal [
    | none ↦ ask_limiter state limiter setting factor fallback clock
    | some e ↦
        let (fb_err, stats) = error_and_fallback fallback (circuit e) new_stats in
        report_blocked state limiter setting stats clock >> return (blocked fb_err (circuit e))
  ]

unfoldable pub enter_with_fallback : Option FallbackFunc → ℕ → Clock → M Entering
enter_with_fallback fallback factor clock = do
  b ← get
  o ← load_state b.state
  let (decision, o') = should_state_transition o empty_snapshot on_request_start clock
  store_state b.state o'
  state ← transition_if b.state decision clock
  ask_state state b.concurrency_limiter b.setting factor fallback clock

-- How the select in acquire() ends: by the closed channel, or by the context.
pub data WaitEnd : Type 0 where
  ready done : WaitEnd

unfoldable pub limiter_resume : Limiter → ℕ → WaitEnd → Bool × Limiter
limiter_resume no_op_limiter ticket end = (true, no_op_limiter)
limiter_resume (weighted_semaphore w) ticket ready =
    (true, weighted_semaphore (Limiter.wake w ticket))
limiter_resume (weighted_semaphore w) ticket done =
    let (granted, w') = Limiter.cancel w ticket in (granted, weighted_semaphore w')

unfoldable pub resume : Waiting → WaitEnd → Clock → M Entering
unfolding limiter_resume
resume p end clock = do
  l ← load_limiter p.concurrency_limiter
  let (granted, l') = limiter_resume l p.ticket end
  store_limiter p.concurrency_limiter l'
  after_acquire p.state p.concurrency_limiter p.setting p.factor p.fallback clock granted

-- Enter.
unfoldable pub enter : Clock → M Entering
enter clock = enter_with_fallback none 1 clock

-- EnterWithContext.
unfoldable pub enter_with_context : List EntryOption → Clock → M Entering
unfolding apply_entry_options
enter_with_context opts clock =
    enter_with_fallback none (apply_entry_options new_option opts).amplify_factor clock
