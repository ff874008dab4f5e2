-- ===== src/Breaker/Updating.antt =====
-- UpdateConfig and the making of a breaker (cb.go), and when the new setting allows new windows.
use j_circuit_breaker.Base.{
  some, none, ℕ, ◌≡◌, ◌≤◌, ◌<◌, ◌^◌, true, arith, Bool-cases, inl, inr, length, length-append, [],
  ◌∷◌, All, All-append, to_uint32,
}
use j_circuit_breaker.Constants.{closed}
use j_circuit_breaker.Config.Defaults.{Fits, filled-IsUsable}
use j_circuit_breaker.Config.{
  is_valid_config, filled, Config, Setting, is_equal, fill_defaults_and_get_setting,
}
use j_circuit_breaker.Clock.{Clock, unix_now, current_cached_time_seconds}
use j_circuit_breaker.State.{new_state_instance, new_closed_state}
use j_circuit_breaker.Breaker.{Breaker}
use j_circuit_breaker.Breaker.Transition.{update_setting}
use j_circuit_breaker.Breaker.Sound.{HasSoundWindow, IsSane, Shows, IsSound}
use j_circuit_breaker.Breaker.Returns.{new_state_instance-HasSoundWindow}

-- A setting that gives windows of `n` seconds at most.
pub record IsSmall (n : ℕ) (s : Setting) : Type 0 where
  pub sane : IsSane s
  pub seconds : to_uint32 s.config.sliding_window_size ≤ n

-- The setting of every configuration that IsValidConfig accepts is small, if its sizes are below 2^32.
pub filled-IsSmall :
    (n : ℕ) (c : Config)
    → Fits c
    → is_valid_config (some c) ≡ none
    → (filled c).sliding_window_size ≤ n
    → n < 2 ^ 32
    → (filled c).number_of_calls_in_semi_open_state < 2 ^ 32
    → IsSmall n (fill_defaults_and_get_setting c)
unfolding fill_defaults_and_get_setting
filled-IsSmall n c fits valid le small calls =
    let u = filled-IsUsable c fits valid in
    record {
      sane = record {
        some_seconds = omega (arith, u.window_pos, le, small);
        some_calls = omega (arith, u.semi_open_pos, calls);
      };
      seconds = omega (arith, le, small);
    }

-- The clock shows no second after `k`, and the wall clock is at least `n` seconds after 1970.
pub record ClockIsIn (n k : ℕ) (c : Clock) : Type 0 where
  pub cached : current_cached_time_seconds c ≤ k
  pub wall : unix_now c ≤ k
  pub room : n ≤ unix_now c

pub ClockIsIn-Shows :
    {n k : ℕ} {s : Setting} {c : Clock} → IsSmall n s → ClockIsIn n k c → Shows k s c
ClockIsIn-Shows small c = record {
  cached = c.cached;
  wall = c.wall;
  room = omega (arith, small.seconds, c.room);
}

-- A breaker that is sound, and stays so with small settings.
pub record IsServing (n k : ℕ) (b : Breaker) : Type 0 where
  pub sound : IsSound k b
  pub small : IsSmall n b.setting

closed-HasSoundWindow :
    {k : ℕ} (s : Setting) (clock : Clock)
    → IsSane s
    → Shows k s clock
    → k < 2 ^ 63
    → HasSoundWindow k (new_closed_state s clock)
unfolding new_state_instance
closed-HasSoundWindow s clock sane shows fit =
    new_state_instance-HasSoundWindow closed s clock sane shows fit

pub update_setting-IsServing :
    {n k : ℕ} (c : Config) (clock : Clock) (b : Breaker)
    → All (HasSoundWindow k) b.states
    → (is_equal (fill_defaults_and_get_setting c).config b.setting.config ≡ true → IsServing n k b)
    → IsSmall n (fill_defaults_and_get_setting c)
    → ClockIsIn n k clock
    → k < 2 ^ 63
    → IsServing n k (update_setting c clock b)
      × (length b.states ≤ length (update_setting c clock b).states)
      × (length b.limiters ≤ length (update_setting c clock b).limiters)
unfolding update_setting
update_setting-IsServing {n} {k} c clock b windows old small shown fit =
    let s = fill_defaults_and_get_setting c in
    elim (Bool-cases (is_equal s.config b.setting.config)) [
      | inl e ↦ rw e (old e, omega arith, omega arith)
      | inr e ↦
          let longer = length-append b.states (new_closed_state s clock ∷ []) in
          rw e (
            record {
              sound = record {
                state_in = omega (arith, longer);
                limiter_in = omega (arith, length-append b.limiters (_ ∷ []));
                windows = All-append (HasSoundWindow k) b.states _ windows (
                  closed-HasSoundWindow s clock small.sane (ClockIsIn-Shows small shown) fit,
                  tt,
                );
                sane = small.sane;
              };
              small = small;
            },
            omega (arith, longer),
            omega (arith, length-append b.limiters (_ ∷ [])),
          )
    ]
