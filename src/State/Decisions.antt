-- ===== src/State/Decisions.antt =====
-- shouldStateTransition: where each state wants to go, and that StateTransition lets it.
use j_circuit_breaker.Base.{
  ◌≡◌, refl, true, false, List, [], ◌∷◌, leb, not, ◌&&◌, if◌then◌else◌, none, some, arith,
}
use j_circuit_breaker.Constants.{
  State, semi_open, TransitionReason, wait_in_open_elapsed, valid_automatic, is_forced,
}
use j_circuit_breaker.Config.{
  Config, HealthChecker, timeout_percent_checker, error_percent_checker, first_exceeded, Setting,
  is_thresholds_exceed,
}
use j_circuit_breaker.Clock.{Clock, Timer, try_receive}
use j_circuit_breaker.Window.{WindowSnapshot}
use j_circuit_breaker.State.{
  Mode, closed_mode, open_mode, semi_open_mode, forced_closed_mode, forced_open_mode,
  TransitionType, on_request_start, on_request_end, mode_type, decide,
}

-- The reasons of the checkers are not those of a forced transition.
first_reason :
    (hs : List HealthChecker) (w : WindowSnapshot) (c : Config)
    → is_forced (first_exceeded hs w c).1 ≡ false
unfolding is_forced first_exceeded
first_reason [] w c = refl
first_reason (timeout_percent_checker ∷ hs) w c = ground (arith, first_reason hs w c)
first_reason (error_percent_checker ∷ hs) w c = ground (arith, first_reason hs w c)

exceeded_reason :
    (s : Setting) (w : WindowSnapshot) → is_forced (is_thresholds_exceed s w).1 ≡ false
unfolding is_thresholds_exceed
exceeded_reason s w = first_reason s.checkers w s.config

-- A state that asks for a transition asks for one that validAutomaticStateTransitions allows from it, and
-- not with a reason of a forced transition; and asking does not change which state it is.
pub decide_allowed :
    (m : Mode) (w : WindowSnapshot) (at : TransitionType) (c : Clock) (to : State)
    (r : TransitionReason)
    → (decide m w at c).0 ≡ some (to, r)
    → (valid_automatic (mode_type m) to ≡ true)
      × (is_forced r ≡ false)
      × (mode_type (decide m w at c).1 ≡ mode_type m)
unfolding decide mode_type valid_automatic is_forced
decide_allowed (closed_mode s) w on_request_end c to r h = ground (arith, exceeded_reason s w)
decide_allowed (closed_mode s) w on_request_start c to r h = cc
decide_allowed (open_mode t) w on_request_start c to r h = ground arith
decide_allowed (open_mode t) w on_request_end c to r h = cc
decide_allowed (semi_open_mode s) w on_request_end c to r h =
    ground (arith, exceeded_reason s.setting w)
decide_allowed (semi_open_mode s) w on_request_start c to r h = cc
decide_allowed (forced_closed_mode s) w on_request_start c to r h = cc
decide_allowed (forced_closed_mode s) w on_request_end c to r h = cc
decide_allowed (forced_open_mode s) w on_request_start c to r h = cc
decide_allowed (forced_open_mode s) w on_request_end c to r h = cc

-- Asking keeps the kind of state.
pub mode_type-decide :
    (m : Mode) (w : WindowSnapshot) (at : TransitionType) (c : Clock)
    → mode_type (decide m w at c).1 ≡ mode_type m
unfolding decide mode_type
mode_type-decide (closed_mode s) w on_request_end c = refl
mode_type-decide (closed_mode s) w on_request_start c = refl
mode_type-decide (open_mode t) w on_request_start c = ground arith
mode_type-decide (open_mode t) w on_request_end c = refl
mode_type-decide (semi_open_mode s) w on_request_end c = refl
mode_type-decide (semi_open_mode s) w on_request_start c = refl
mode_type-decide (forced_closed_mode s) w on_request_end c = refl
mode_type-decide (forced_closed_mode s) w on_request_start c = refl
mode_type-decide (forced_open_mode s) w on_request_end c = refl
mode_type-decide (forced_open_mode s) w on_request_start c = refl

-- An open breaker asks to go to SEMI_OPEN at the start of a call exactly when its timer has fired and was
-- not received from before, and it does not ask again after that, whatever the clocks.
pub open_asks_once :
    (t : Timer) (w w' : WindowSnapshot) (c c' : Clock)
    → let (d, m) = decide (open_mode t) w on_request_start c in
      let fired = λ (k : Clock). not t.received && leb t.when k.monotonic_nanos in
      (d ≡ (if fired c then some (semi_open, wait_in_open_elapsed) else none))
      × ((decide m w' on_request_start c').0
          ≡ (if fired c' && not (fired c) then some (semi_open, wait_in_open_elapsed) else none))
unfolding decide try_receive
open_asks_once t w w' c c' = (ground arith, ground arith)
