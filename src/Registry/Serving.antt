-- ===== src/Registry/Serving.antt =====
-- newCircuitBreaker of cb.go, and what becomes of the breaker that it makes.
use j_circuit_breaker.Base.{
  ℕ, ◌≡◌, ◌≢◌, ◌<◌, ◌^◌, ◌+◌, ◌*◌, ap, subst, arith, Option, some, Option-cases, inl, inr, List,
  length, All, to_uint32,
}
use j_circuit_breaker.Config.{Config, Setting, is_valid_config, fill_defaults_and_get_setting}
use j_circuit_breaker.Config.Defaults.{is_equal_iff}
use j_circuit_breaker.Clock.{Clock}
use j_circuit_breaker.Events.{Name}
use j_circuit_breaker.Breaker.{Breaker}
use j_circuit_breaker.Breaker.Transition.{update_setting}
use j_circuit_breaker.Breaker.Sound.{IsSane}
use j_circuit_breaker.Breaker.Updating.{IsSmall, ClockIsIn, IsServing, update_setting-IsServing}
use j_circuit_breaker.Breaker.Session.{Session, Event, alone, run}
use j_circuit_breaker.Breaker.Serving.{IsGood}
use j_circuit_breaker.Breaker.Running.{Happens, run_Goes}
use j_circuit_breaker.Registry.{ok, zero_config, zero_breaker, or_new_default, new_circuit_breaker}

zero_is_not_sane : (s : Setting) → IsSane s → s.config ≢ zero_config
zero_is_not_sane s sane e =
    let size : s.config.sliding_window_size ≡ 0 = ap (λ (c : Config). c.sliding_window_size) e in
    absurd (omega (arith, sane.some_seconds, ap to_uint32 size))

pub made-IsServing :
    {n k : ℕ} (name : Name) (c : Config) (clock : Clock)
    → IsSmall n (fill_defaults_and_get_setting c)
    → ClockIsIn n k clock
    → k < 2 ^ 63
    → IsServing n k (update_setting c clock (zero_breaker name))
unfolding zero_breaker
made-IsServing name c clock small shown fit =
    let s = fill_defaults_and_get_setting c in
    (update_setting-IsServing c clock (zero_breaker name) tt
      (λ e. absurd (zero_is_not_sane s small.sane ((is_equal_iff s.config zero_config).0 e))) small
      shown fit).0

new_circuit_breaker-IsServing :
    {n k : ℕ} (name : Name) (config : Option Config) (clock : Clock) (b : Breaker)
    → new_circuit_breaker name config clock ≡ ok b
    → IsSmall n (fill_defaults_and_get_setting (or_new_default config))
    → ClockIsIn n k clock
    → k < 2 ^ 63
    → IsServing n k b
unfolding new_circuit_breaker
new_circuit_breaker-IsServing {n} {k} name config clock b e small shown fit =
    let made = made-IsServing name (or_new_default config) clock small shown fit in
    elim (Option-cases (is_valid_config (some (or_new_default config)))) [
      | inl f ↦
          let same : update_setting (or_new_default config) clock (zero_breaker name) ≡ b =
            ground (arith, e, f) in
          subst (IsServing n k) same made
      | inr (p, f) ↦ absurd (ground (arith, e, f))
    ]

-- No call panics: a breaker that NewCircuitBreaker made comes through every sequence of enters, ends
-- of waits, exits, forced transitions, resets, updates of its configuration and listeners, of any
-- callers in any order; it and its calls are well-formed after it. The windows of all settings have n
-- seconds at most and their sizes are not 0 as uint32, the wall clock is at least n seconds after
-- 1970, and no clock shows a second after k, with k plus twice the number of events below 2^63.
pub made_run_returns :
    {n k : ℕ} (name : Name) (config : Option Config) (clock : Clock) (b : Breaker)
    (es : List (Event × Clock))
    → new_circuit_breaker name config clock ≡ ok b
    → IsSmall n (fill_defaults_and_get_setting (or_new_default config))
    → ClockIsIn n k clock
    → All (Happens n k) es
    → k + 2 * length es < 2 ^ 63
    → (s : Session) × (run (alone b) es ≡ some s) × IsGood n (k + 2 * length es) s
made_run_returns name config clock b es made small shown happen fit =
    run_Goes es (alone b)
      (record {
        serving =
            new_circuit_breaker-IsServing name config clock b made small shown (omega (arith, fit));
        entries = tt;
        waiting = tt;
      })
      happen fit
