-- ===== src/Breaker/Exit.antt =====
-- entry.go and the rest of cb.go: what follows the protected call, and Protect as a whole.
use j_circuit_breaker.Base.{ℕ, Bool, true, List, [], ◌∷◌, Option, none, some, if◌then◌else◌}
use j_circuit_breaker.Constants.{Err}
use j_circuit_breaker.Config
use j_circuit_breaker.Clock.{Clock, Time, current_time, sub}
use j_circuit_breaker.Window.{WindowSnapshot}
use j_circuit_breaker.Limiter.{Limiter, no_op_limiter, weighted_semaphore}
use j_circuit_breaker.Limiter
use j_circuit_breaker.State.{
  StateObject, on_request_end, on_error, on_success, should_state_transition,
  should_check_for_max_concurrency,
}
use j_circuit_breaker.Events.{RequestStats}
use j_circuit_breaker.Options.{
  FallbackFunc, ProtectOption, new_option, apply_all, with_fallback_function,
}
use j_circuit_breaker.Breaker.{
  M, ◌>>=◌, ◌>>◌, return, lift, load_state, store_state, load_limiter, store_limiter,
}
use j_circuit_breaker.Breaker.Transition.{limiter_count, on_request_complete}
use j_circuit_breaker.Breaker.Enter.{
  Entry, entered, blocked, waits, Waiting, new_stats, error_and_fallback, transition_if,
  enter_with_fallback,
}

unfoldable pub limiter_release : Limiter → ℕ → Limiter
limiter_release no_op_limiter n = no_op_limiter
limiter_release (weighted_semaphore w) n = weighted_semaphore (Limiter.release w n)

-- The error of the call is recorded in the state's window, or its success.
unfoldable pub record_result :
    StateObject → Clock → Bool → Option Err → Option (StateObject × WindowSnapshot)
record_result o clock is_timeout none = on_success o clock is_timeout
record_result o clock is_timeout (some e) = on_error o clock is_timeout

abbrev pub fallback_if : Option FallbackFunc → Option Err → RequestStats → Option Err × RequestStats
fallback_if fallback none stats = (none, stats)
fallback_if fallback (some e) stats = error_and_fallback fallback e stats

-- The end of exitWithFallback: OnRequestComplete, with the state object `o` for its count.
unfoldable pub report_exit :
    Entry → Bool → RequestStats → WindowSnapshot → StateObject → Time → Option Err → M (Option Err)
report_exit e is_timeout stats snapshot o end_time err = do
  l ← load_limiter e.concurrency_limiter
  on_request_complete is_timeout stats
      (record {
        window_snapshot = snapshot;
        num_concurrent_calls = limiter_count l (should_check_for_max_concurrency o);
      })
      end_time
  return err

-- exitWithFallback from shouldStateTransition on; `o` is the state after it has recorded the call.
unfoldable pub after_record :
    Entry
    → Bool
    → RequestStats
    → WindowSnapshot
    → StateObject
    → Time
    → Option Err
    → Clock
    → M (Option Err)
unfolding report_exit
after_record e is_timeout stats snapshot o end_time err clock = do
  let (decision, o') = should_state_transition o snapshot on_request_end clock
  store_state e.state o'
  _ ← transition_if e.state decision clock
  report_exit e is_timeout stats snapshot o' end_time err

-- exitWithFallback: the error that it returns.
unfoldable pub exit_with_fallback :
    Entry → Option Err → Option FallbackFunc → ℕ → Clock → M (Option Err)
unfolding after_record
exit_with_fallback e run_error fallback factor clock = do
  l ← load_limiter e.concurrency_limiter
  store_limiter e.concurrency_limiter (limiter_release l factor)
  let end_time = current_time clock e.setting.config.use_cached_time
  let elapsed = sub end_time e.entry_time
  let is_timeout = Config.is_timeout e.setting elapsed
  o ← load_state e.state
  (o', snapshot) ← lift (record_result o clock is_timeout run_error)
  let (err, stats) = fallback_if fallback run_error (record new_stats { elapsed = elapsed })
  after_record e is_timeout stats snapshot o' end_time err clock

-- An Entry with its sync.Once.
pub record Handle : Type 0 where
  pub entry : Entry
  pub exited : Bool

-- `Entry.Exit`
unfoldable pub exit : Handle → Option Err → Clock → M Handle
exit h run_error clock = if h.exited then return h else (do
  _ ← exit_with_fallback h.entry run_error none h.entry.factor clock
  return (record h { exited = true }))

-- What the protected function did.
pub data RunResult : Type 0 where
  returns : Option Err → RunResult
  panics : RunResult

-- The `runErr` that the deferred exit sees: it was not assigned if run() panicked.
unfoldable pub run_error_of : RunResult → Option Err
run_error_of (returns e) = e
run_error_of panics = none

pub data Protected : Type 0 where
  returned : Option Err → Protected
  panicked : Protected
  parked : Waiting → Protected

abbrev pub end_of : RunResult → Option Err → Protected
end_of (returns e) err = returned err
end_of panics err = panicked

-- ProtectWithContext, with nothing else happening to the breaker while run() runs: `begin` and `end` are the
-- clocks before and after it. It stops where the call has to wait for the limiter.
unfoldable pub protect_with_context : List ProtectOption → RunResult → Clock → Clock → M Protected
unfolding run_error_of
protect_with_context opts run begin end = do
  let o = apply_all new_option opts
  r ← enter_with_fallback o.fallback_func o.amplify_factor begin
  elim r [
    | blocked fb_err e ↦ return (returned fb_err)
    | waits p ↦ return (parked p)
    | entered e ↦
        exit_with_fallback e (run_error_of run) o.fallback_func o.amplify_factor end >>= λ err.
        return (end_of run err)
  ]

unfoldable pub protect : RunResult → Option FallbackFunc → Clock → Clock → M Protected
protect run fallback begin end =
    protect_with_context (with_fallback_function fallback ∷ []) run begin end
