-- ===== src/Breaker/Sound.antt =====
-- When a breaker of cb.go is sound: the pointers lead to states and limiters, the windows of all states are
-- well-formed, and the setting allows new windows.
use j_circuit_breaker.Base.{
  ℕ, suc, ◌≡◌, ◌≤◌, ◌<◌, ◌^◌, refl, sym, ap, ◌∙◌, Bool, some, arith, Option-cases, inl, inr, length,
  length-set, set, All, All-mono, All-get_elem?, All-set, subst, get_elem?-below, to_uint32,
}
use j_circuit_breaker.Clock.{Clock, Time, unix_now, current_cached_time_seconds}
use j_circuit_breaker.Config.{Setting}
use j_circuit_breaker.Window.Sound
use j_circuit_breaker.Window.Sound.{get_snapshot-IsSound, IsSound-mono}
use j_circuit_breaker.Limiter.{Limiter}
use j_circuit_breaker.State.{StateObject, get_window_snapshot, should_check_for_max_concurrency}
use j_circuit_breaker.Events.{Event, RequestStats, StateSnapshot}
use j_circuit_breaker.Breaker.{Breaker, load_state, store_state, load_limiter, perform}
use j_circuit_breaker.Breaker.Transition.{
  get_state_snapshot, limiter_count, notify, on_request_complete,
}

abbrev pub HasSoundWindow : ℕ → StateObject → Type 0
HasSoundWindow k o = Sound.IsSound k o.window_metrics

-- The sizes that are converted to uint32 are not 0 after that.
pub record IsSane (s : Setting) : Type 0 where
  pub some_seconds : 0 < to_uint32 s.config.sliding_window_size
  pub some_calls : 0 < to_uint32 s.config.number_of_calls_in_semi_open_state

-- The clock shows no second after `k`, and the wall clock is as many seconds after 1970 as a window is long.
pub record Shows (k : ℕ) (s : Setting) (c : Clock) : Type 0 where
  pub cached : current_cached_time_seconds c ≤ k
  pub wall : unix_now c ≤ k
  pub room : to_uint32 s.config.sliding_window_size ≤ unix_now c

pub Shows-later : {k n : ℕ} {s : Setting} {c : Clock} → k ≤ n → Shows k s c → Shows n s c
Shows-later le w = record {
  cached = omega (arith, w.cached, le);
  wall = omega (arith, w.wall, le);
  room = w.room;
}

pub record IsSound (k : ℕ) (b : Breaker) : Type 0 where
  pub state_in : b.state < length b.states
  pub limiter_in : b.concurrency_limiter < length b.limiters
  pub windows : All (HasSoundWindow k) b.states
  pub sane : IsSane b.setting

-- What an operation leaves: pointers of before lead somewhere still.
pub record Leaves (k : ℕ) (b b' : Breaker) : Type 0 where
  pub sound : IsSound k b'
  pub states : length b.states ≤ length b'.states
  pub limiters : length b'.limiters ≡ length b.limiters
  pub setting : b'.setting ≡ b.setting

pub Leaves-refl : {k : ℕ} (b : Breaker) → IsSound k b → Leaves k b b
Leaves-refl b s = record { sound = s; states = omega arith; limiters = refl; setting = refl }

pub Leaves-trans : {k n : ℕ} {b c d : Breaker} → Leaves k b c → Leaves n c d → Leaves n b d
Leaves-trans x y = record {
  sound = y.sound;
  states = omega (arith, x.states, y.states);
  limiters = y.limiters ∙ x.limiters;
  setting = y.setting ∙ x.setting;
}

pub IsSound-later : {k : ℕ} (n : ℕ) {b : Breaker} → k ≤ n → IsSound k b → IsSound n b
IsSound-later {k} n {b} le s = record {
  state_in = s.state_in;
  limiter_in = s.limiter_in;
  windows =
      All-mono (HasSoundWindow k) (HasSoundWindow n) b.states
        (λ o. IsSound-mono o.window_metrics le) s.windows;
  sane = s.sane;
}

-- A state is stored over another.
pub store-Leaves :
    {k : ℕ} (n p : ℕ) (o : StateObject) (b : Breaker)
    → k ≤ n
    → IsSound k b
    → HasSoundWindow n o
    → Leaves n b (record b { states = set b.states p o })
store-Leaves {k} n p o b le s w =
    let same = length-set b.states p o in
    let later = IsSound-later n le s in
    record {
      sound = record {
        state_in = omega (arith, s.state_in, same);
        limiter_in = s.limiter_in;
        windows = All-set (HasSoundWindow n) b.states p o later.windows w;
        sane = s.sane;
      };
      states = omega (arith, same);
      limiters = refl;
      setting = refl;
    }

-- A limiter is stored over another.
pub store_limiter-Leaves :
    {k : ℕ} (p : ℕ) (l : Limiter) (b : Breaker)
    → IsSound k b
    → Leaves k b (record b { limiters = set b.limiters p l })
store_limiter-Leaves p l b s =
    let same = length-set b.limiters p l in
    record {
      sound = record {
        state_in = s.state_in;
        limiter_in = omega (arith, s.limiter_in, same);
        windows = s.windows;
        sane = s.sane;
      };
      states = omega arith;
      limiters = same;
      setting = refl;
    }

-- Nothing but what was handed out is new.
pub record OnlyEffects (b b' : Breaker) : Type 0 where
  pub states : b'.states ≡ b.states
  pub limiters : b'.limiters ≡ b.limiters
  pub state : b'.state ≡ b.state
  pub limiter : b'.concurrency_limiter ≡ b.concurrency_limiter
  pub setting : b'.setting ≡ b.setting

pub OnlyEffects-Leaves : {k : ℕ} (b b' : Breaker) → OnlyEffects b b' → IsSound k b → Leaves k b b'
OnlyEffects-Leaves b b' same s = record {
  sound = record {
    state_in = omega (arith, s.state_in, same.state, ap length same.states);
    limiter_in = omega (arith, s.limiter_in, same.limiter, ap length same.limiters);
    windows = subst (All (HasSoundWindow _)) (sym same.states) s.windows;
    sane = subst IsSane (sym same.setting) s.sane;
  };
  states = omega (arith, ap length same.states);
  limiters = ap length same.limiters;
  setting = same.setting;
}

pub notify_returns :
    (event : Event) (b : Breaker)
    → (b' : Breaker) × (notify event b ≡ some (tt, b')) × OnlyEffects b b'
unfolding notify perform
notify_returns event b = elim (Option-cases (notify event b)) [
  | inl e ↦ absurd (ground (arith, e))
  | inr ((u, b'), e) ↦ (b', e, ground (arith, e))
]

pub on_request_complete_returns :
    (is_timeout : Bool) (stats : RequestStats) (snapshot : StateSnapshot) (end_time : Time)
    (b : Breaker)
    → (b' : Breaker) × (on_request_complete is_timeout stats snapshot end_time b ≡ some (tt, b'))
      × OnlyEffects b b'
unfolding on_request_complete notify perform
on_request_complete_returns is_timeout stats snapshot end_time b =
    elim (Option-cases (on_request_complete is_timeout stats snapshot end_time b)) [
      | inl e ↦ absurd (ground (arith, e))
      | inr ((u, b'), e) ↦ (b', e, ground (arith, e))
    ]

-- The window of the state at `p` is read, and the limiter at `l` is asked for its count.
pub get_state_snapshot_returns :
    {k : ℕ} (p l : ℕ) (clock : Clock) (b : Breaker)
    → p < length b.states
    → l < length b.limiters
    → current_cached_time_seconds clock ≤ k
    → k < 2 ^ 63
    → IsSound k b
    → (snapshot : StateSnapshot) × (b' : Breaker) × (get_state_snapshot p l clock b
        ≡ some (snapshot, b'))
      × Leaves (suc k) b b'
      × (b'.limiters ≡ b.limiters)
unfolding get_state_snapshot load_state store_state load_limiter get_window_snapshot
get_state_snapshot_returns {k} p l clock b in_states in_limiters cached fit s =
    let (o, at) = get_elem?-below b.states p in_states in
    let (lim, at_l) = get_elem?-below b.limiters l in_limiters in
    let (w, snapshot, e, w_sound) =
      get_snapshot-IsSound o.window_metrics (current_cached_time_seconds clock) cached fit
        (All-get_elem? (HasSoundWindow k) b.states p o s.windows at) in
    let o' : StateObject = record o { window_metrics = w } in
    (
      record {
        window_snapshot = snapshot;
        num_concurrent_calls = limiter_count lim (should_check_for_max_concurrency o);
      },
      record b { states = set b.states p o' },
      ground (arith, at, e, at_l),
      store-Leaves (suc k) p o' b (omega arith) s w_sound,
      refl,
    )
