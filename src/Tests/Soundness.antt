-- ===== src/Tests/Soundness.antt =====
-- The breaker of Tests/Brisk is sound all along.
use j_circuit_breaker.Base.{refl, ℕ, ◌≡◌, sym, subst, arith, [], ◌∷◌, Option, some, none}
use j_circuit_breaker.Constants.{State, forced_open, TransitionReason}
use j_circuit_breaker.Config.Defaults.{Fits}
use j_circuit_breaker.Config.{is_valid_config, new_default_config, filled}
use j_circuit_breaker.Clock.{unix_now, current_cached_time_seconds}
use j_circuit_breaker.Breaker.{Breaker}
use j_circuit_breaker.Breaker.Transition.{transition, force_open}
use j_circuit_breaker.Breaker.Sound.{Shows, Shows-later, IsSound, IsSound-later, Leaves}
use j_circuit_breaker.Breaker.Returns.{transition_returns}
use j_circuit_breaker.Breaker.Calls.{PointsInto, enter_returns}
use j_circuit_breaker.Breaker.Exits.{exit_returns}
use j_circuit_breaker.Breaker.Updating.{
  filled-IsSmall, IsSmall, ClockIsIn, ClockIsIn-Shows, IsServing,
}
use j_circuit_breaker.Registry.Serving.{made-IsServing}
use j_circuit_breaker.Tests.Brisk.{
  at_hundred, at_hundred_twenty, brisk, setting, made, after_enter, entry, failure, broken,
  recovering, second_entry, held_open, returns, inside,
}

brisk-Fits : Fits brisk
unfolding new_default_config
brisk-Fits = record {
  error_percent = omega arith;
  timeout_percent = omega arith;
  timeout = omega arith;
  minimum = omega arith;
  semi_open = omega arith;
  wait = omega arith;
  concurrent = omega arith;
  max_wait = omega arith;
  window = omega arith;
}

pub small : IsSmall 10 setting
unfolding new_default_config filled is_valid_config
small = filled-IsSmall 10 brisk brisk-Fits refl (omega arith) (omega arith) (omega arith)

pub hundred : ClockIsIn 10 100 at_hundred
unfolding current_cached_time_seconds unix_now
hundred = record { cached = omega arith; wall = omega arith; room = omega arith }

pub twenty : ClockIsIn 10 120 at_hundred_twenty
unfolding current_cached_time_seconds unix_now
twenty = record { cached = omega arith; wall = omega arith; room = omega arith }

pub made-Sound : IsServing 10 100 made
made-Sound = made-IsServing (100 ∷ 98 ∷ []) brisk at_hundred small hundred (omega arith)

same_breaker {ℓ} :
    {A : Type ℓ} {m : Option (A × Breaker)} {a a' : A} {b b' : Breaker}
    → m ≡ some (a, b)
    → m ≡ some (a', b')
    → b ≡ b'
same_breaker e f = cc

-- A breaker that keeps its setting is sound, and its clock fits.
Leaves-Serving :
    {k m : ℕ} {b b' c : Breaker} → IsServing 10 m b → Leaves k b b' → b' ≡ c → IsServing 10 k c
Leaves-Serving {k} s left same =
    subst (IsServing 10 k) same
      (record { sound = left.sound; small = subst (IsSmall 10) (sym left.setting) s.small })

pub made-Shows : Shows 100 made.setting at_hundred
made-Shows = ClockIsIn-Shows made-Sound.small hundred

after_enter-Serving : IsServing 10 102 after_enter
after_enter-Serving =
    let (r, b', same, left, into) =
      enter_returns {k = 100} none 1 at_hundred made made-Shows (omega arith) made-Sound.sound in
    Leaves-Serving made-Sound left (same_breaker same returns.0)

hundred_later : ClockIsIn 10 110 at_hundred
unfolding current_cached_time_seconds unix_now
hundred_later = record { cached = omega arith; wall = omega arith; room = omega arith }

pub after_enter-Shows : Shows 110 after_enter.setting at_hundred
after_enter-Shows = ClockIsIn-Shows after_enter-Serving.small hundred_later

pub entry_into : PointsInto after_enter entry.state entry.concurrency_limiter
entry_into = record { state_in = inside.1; limiter_in = inside.2 }

pub after_enter-Sound : IsSound 110 after_enter
after_enter-Sound = IsSound-later 110 (omega arith) after_enter-Serving.sound

pub broken-Serving : IsServing 10 112 broken
broken-Serving =
    let (r, b', same, left) =
      exit_returns entry failure none 1 at_hundred after_enter after_enter-Shows (omega arith)
        after_enter-Sound entry_into in
    Leaves-Serving after_enter-Serving left (same_breaker same returns.1)

pub broken-Shows : Shows 120 broken.setting at_hundred
broken-Shows = Shows-later (omega arith) (ClockIsIn-Shows broken-Serving.small hundred_later)

pub broken-Sound : IsSound 120 broken
broken-Sound = IsSound-later 120 (omega arith) broken-Serving.sound

pub broken-Shows_later : Shows 120 broken.setting at_hundred_twenty
broken-Shows_later = ClockIsIn-Shows broken-Serving.small twenty

pub recovering-Serving : IsServing 10 122 recovering
recovering-Serving =
    let (r, b', same, left, into) =
      enter_returns none 1 at_hundred_twenty broken broken-Shows_later (omega arith) broken-Sound in
    Leaves-Serving broken-Serving left (same_breaker same returns.2)

pub recovering-Shows : Shows 122 recovering.setting at_hundred_twenty
recovering-Shows = Shows-later (omega arith) (ClockIsIn-Shows recovering-Serving.small twenty)

pub second_into : PointsInto recovering second_entry.state second_entry.concurrency_limiter
second_into = record { state_in = inside.4; limiter_in = inside.5 }

-- ForceOpen and ForceClose.
abbrev Forced : ℕ → State → Type 0
Forced k to =
    (p : ℕ) × (b : Breaker) × (transition after_enter.state to TransitionReason.manual_transition
        at_hundred after_enter
      ≡ some (p, b))
    × Leaves k after_enter b

Forced-returns : (to : State) → Forced 111 to
Forced-returns to =
    let (p, b, e, left, into) =
      transition_returns after_enter.state to TransitionReason.manual_transition at_hundred
        after_enter after_enter-Sound.state_in after_enter-Shows (omega arith) after_enter-Sound in
    (p, b, e, left)

pub held_open-Serving : IsServing 10 111 held_open
unfolding force_open
held_open-Serving =
    let (p, b, e, left) = Forced-returns forced_open in
    Leaves-Serving after_enter-Serving left (cc (e, returns.3))

pub held_open-Shows : Shows 111 held_open.setting at_hundred
held_open-Shows = Shows-later (omega arith) (ClockIsIn-Shows held_open-Serving.small hundred_later)
