-- ===== src/Breaker/Panics.antt =====
-- ProtectWithContext of cb.go when the protected function panics.
use j_circuit_breaker.Base.{◌≡◌, refl, none, List, Option-cases, inl, inr}
use j_circuit_breaker.Clock.{Clock}
use j_circuit_breaker.Options.{ProtectOption, new_option, apply_all}
use j_circuit_breaker.Breaker.{Breaker}
use j_circuit_breaker.Breaker.Edges.{left}
use j_circuit_breaker.Breaker.Enter.{entered, blocked, waits, enter_with_fallback}
use j_circuit_breaker.Breaker.Exit.{
  returns, panics, protect_with_context, exit_with_fallback, run_error_of,
}

-- A call of ProtectWithContext whose function panics leaves the breaker, with all that was recorded, reported
-- and counted, as one whose function returns nil does.
pub panic_as_success :
    (opts : List ProtectOption) (begin end : Clock) (b : Breaker)
    → left (protect_with_context opts panics begin end b)
      ≡ left (protect_with_context opts (returns none) begin end b)
unfolding protect_with_context run_error_of
panic_as_success opts begin end b =
    let o = apply_all new_option opts in
    elim (Option-cases (enter_with_fallback o.fallback_func o.amplify_factor begin b)) [
      | inl e ↦ rw (e, left) refl
      | inr ((blocked f r, c), e) ↦ rw (e, left) refl
      | inr ((waits p, c), e) ↦ rw (e, left) refl
      | inr ((entered n, c), e) ↦
          elim (Option-cases (exit_with_fallback n none o.fallback_func o.amplify_factor end c)) [
            | inl f ↦ rw (e, f, left) refl
            | inr ((r, d), f) ↦ rw (e, f, left) refl
          ]
    ]
