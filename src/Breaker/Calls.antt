-- ===== src/Breaker/Calls.antt =====
-- enterWithFallback of cb.go and the end of the wait in acquire(), on a sound breaker.
use j_circuit_breaker.Base.{
  ℕ, suc, ◌≡◌, ◌≤◌, ◌<◌, ◌^◌, ◌∙◌, Bool, true, false, not, Option, some, arith, Bool-cases,
  Option-cases, inl, inr, length, set, All-get_elem?, get_elem?-below, ◌&&◌,
}
use j_circuit_breaker.Constants.{circuit, err_max_concurrency}
use j_circuit_breaker.Clock.{Clock, current_time, current_cached_time_seconds}
use j_circuit_breaker.Config.{Setting}
use j_circuit_breaker.Window.{empty_snapshot}
use j_circuit_breaker.Options.{FallbackFunc}
use j_circuit_breaker.State.{
  StateObject, should_state_transition, on_request_start, acquire_permission, release_permission,
  should_check_for_max_concurrency,
}
use j_circuit_breaker.Breaker.{Breaker, load_state, store_state, load_limiter, store_limiter}
use j_circuit_breaker.Breaker.Enter.{
  Entering, entered, blocked, waits, Waiting, WaitEnd, new_stats, error_and_fallback,
  limiter_acquire, limiter_resume, after_acquire, ask_limiter, ask_state, enter_with_fallback,
  resume,
}
use j_circuit_breaker.Breaker.Entries.{Acquired-cases}
use j_circuit_breaker.Breaker.Sound.{
  HasSoundWindow, Shows, IsSound, IsSound-later, Leaves, Leaves-refl, Leaves-trans, store-Leaves,
  store_limiter-Leaves,
}
use j_circuit_breaker.Breaker.Returns.{report_blocked_returns, transition_if_returns}

-- The pointers of a call lead somewhere.
pub record PointsInto (b : Breaker) (state limiter : ℕ) : Type 0 where
  pub state_in : state < length b.states
  pub limiter_in : limiter < length b.limiters

pub PointsInto-Leaves :
    {k : ℕ} {b b' : Breaker} {p l : ℕ} → Leaves k b b' → PointsInto b p l → PointsInto b' p l
PointsInto-Leaves left into = record {
  state_in = omega (arith, into.state_in, left.states);
  limiter_in = omega (arith, into.limiter_in, left.limiters);
}

abbrev pub CallPointsInto : Breaker → Entering → Type 0
CallPointsInto b (entered e) = PointsInto b e.state e.concurrency_limiter
CallPointsInto b (blocked fb_err e) = Unit
CallPointsInto b (waits p) = PointsInto b p.state p.concurrency_limiter

-- A section of a call returns, and leaves the breaker sound.
abbrev pub Proceeds : ℕ → Breaker → Option (Entering × Breaker) → Type 0
Proceeds k b m =
    (r : Entering) × (b' : Breaker) × (m ≡ some (r, b')) × Leaves k b b' × CallPointsInto b' r

Proceeds-after :
    {k n : ℕ} {b c : Breaker} {m m' : Option (Entering × Breaker)}
    → Leaves k b c
    → Proceeds n c m
    → m' ≡ m
    → Proceeds n b m'
Proceeds-after left (r, d, e, left', into) same = (r, d, same ∙ e, Leaves-trans left left', into)

module _ {k : ℕ} (p l : ℕ) (s : Setting) (clock : Clock)
    (cached : current_cached_time_seconds clock ≤ k) (fit : k < 2 ^ 63) where
  after_acquire_returns :
      (factor : ℕ) (fb : Option FallbackFunc) (granted : Bool) (b : Breaker)
      → IsSound k b
      → PointsInto b p l
      → Proceeds (suc k) b (after_acquire p l s factor fb clock granted b)
  unfolding after_acquire load_state store_state
  after_acquire_returns factor fb granted b sound into =
      let (o, at) = get_elem?-below b.states p into.state_in in
      elim (Bool-cases (should_check_for_max_concurrency o && not granted)) [
        | inl t ↦
            let (fb_err, stats) = error_and_fallback fb (circuit err_max_concurrency) new_stats in
            let c : Breaker = record b { states = set b.states p (release_permission o) } in
            let left : Leaves k b c =
              store-Leaves k p (release_permission o) b (omega arith) sound (
                release-HasSoundWindow o
                  (All-get_elem? (HasSoundWindow k) b.states p o sound.windows at)) in
            let into' : PointsInto c p l = PointsInto-Leaves left into in
            let (d, e, left', kept) =
              report_blocked_returns p l s stats clock c into'.state_in into'.limiter_in cached fit
                left.sound in
            (
              blocked fb_err (circuit err_max_concurrency),
              d,
              ground (arith, at, t, e),
              Leaves-trans left left',
              tt,
            )
        | inr t ↦ (
          entered (record {
            entry_time = current_time clock s.config.use_cached_time;
            setting = s;
            state = p;
            concurrency_limiter = l;
            factor = factor;
          }),
          b,
          ground (arith, at, t),
          Leaves-refl b (IsSound-later (suc k) (omega arith) sound),
          into,
        )
      ]
    where
      release-HasSoundWindow :
          (o : StateObject) → HasSoundWindow k o → HasSoundWindow k (release_permission o)
      release-HasSoundWindow o h = unfold release_permission in h

  ask_limiter_returns :
      (factor : ℕ) (fb : Option FallbackFunc) (b : Breaker)
      → IsSound k b
      → PointsInto b p l
      → Proceeds (suc k) b (ask_limiter p l s factor fb clock b)
  unfolding ask_limiter load_limiter store_limiter
  ask_limiter_returns factor fb b sound into =
      let (lim, at) = get_elem?-below b.limiters l into.limiter_in in
      let c : Breaker = record b { limiters = set b.limiters l (limiter_acquire lim factor).1 } in
      let left : Leaves k b c = store_limiter-Leaves l _ b sound in
      let into' : PointsInto c p l = PointsInto-Leaves left into in
      elim (Acquired-cases (limiter_acquire lim factor).0) [
        | inl r ↦
            Proceeds-after left (after_acquire_returns factor fb true c left.sound into')
              (ground (arith, at, r))
        | inr (inl r) ↦
            Proceeds-after left (after_acquire_returns factor fb false c left.sound into')
              (ground (arith, at, r))
        | inr (inr (t, r)) ↦ (
          waits (record {
            setting = s;
            state = p;
            concurrency_limiter = l;
            factor = factor;
            fallback = fb;
            ticket = t;
          }),
          c,
          ground (arith, at, r),
          Leaves-trans left (Leaves-refl c (IsSound-later (suc k) (omega arith) left.sound)),
          into',
        )
      ]

  ask_state_returns :
      (factor : ℕ) (fb : Option FallbackFunc) (b : Breaker)
      → IsSound k b
      → PointsInto b p l
      → Proceeds (suc k) b (ask_state p l s factor fb clock b)
  unfolding ask_state load_state store_state
  ask_state_returns factor fb b sound into =
      let (o, at) = get_elem?-below b.states p into.state_in in
      let o' = (acquire_permission o).1 in
      let c : Breaker = record b { states = set b.states p o' } in
      let left : Leaves k b c = store-Leaves k p o' b (omega arith) sound (
        acquire-HasSoundWindow o
          (All-get_elem? (HasSoundWindow k) b.states p o sound.windows at)) in
      let into' : PointsInto c p l = PointsInto-Leaves left into in
      elim (Option-cases (acquire_permission o).0) [
        | inl f ↦
            Proceeds-after left (ask_limiter_returns factor fb c left.sound into')
              (ground (arith, at, f))
        | inr (r, f) ↦
            let (fb_err, stats) = error_and_fallback fb (circuit r) new_stats in
            let (d, e, left', kept) =
              report_blocked_returns p l s stats clock c into'.state_in into'.limiter_in cached fit
                left.sound in
            (blocked fb_err (circuit r), d, ground (arith, at, f, e), Leaves-trans left left', tt)
      ]
    where
      acquire-HasSoundWindow :
          (o : StateObject) → HasSoundWindow k o → HasSoundWindow k (acquire_permission o).1
      acquire-HasSoundWindow o h = unfold acquire_permission in h

-- On a sound breaker, under a clock that fits, enterWithFallback returns: it lets the call in, blocks
-- it, or parks it at the limiter, the breaker is sound again, and the state and limiter of an entry or
-- a parked call exist.
pub enter_returns :
    {k : ℕ} (fb : Option FallbackFunc) (factor : ℕ) (clock : Clock) (b : Breaker)
    → Shows k b.setting clock
    → suc k < 2 ^ 63
    → IsSound k b
    → Proceeds (suc (suc k)) b (enter_with_fallback fb factor clock b)
unfolding enter_with_fallback load_state store_state
enter_returns {k} fb factor clock b shows fit sound =
    let (o, at) = get_elem?-below b.states b.state sound.state_in in
    let (d, o') = should_state_transition o empty_snapshot on_request_start clock in
    let c : Breaker = record b { states = set b.states b.state o' } in
    let left : Leaves k b c = store-Leaves k b.state o' b (omega arith) sound (
      ask-HasSoundWindow o
        (All-get_elem? (HasSoundWindow k) b.states b.state o sound.windows at)) in
    let (p, e, goes, left', inside) =
      transition_if_returns b.state d clock c left.sound.state_in shows fit left.sound in
    let into : PointsInto e p b.concurrency_limiter = record {
      state_in = inside;
      limiter_in = omega (arith, left.sound.limiter_in, left'.limiters);
    } in
    let cached : current_cached_time_seconds clock ≤ suc k = omega (arith, shows.cached) in
    Proceeds-after (Leaves-trans left left')
      (ask_state_returns p b.concurrency_limiter b.setting clock cached fit factor fb e left'.sound
        into)
      (ground (arith, at, goes))
  where
    ask-HasSoundWindow :
        (o : StateObject)
        → HasSoundWindow k o
        → HasSoundWindow k (should_state_transition o empty_snapshot on_request_start clock).1
    ask-HasSoundWindow o h = unfold should_state_transition in h

-- The call goes on after its wait in acquire(), however that ended.
pub resume_returns :
    {k : ℕ} (p : Waiting) (end : WaitEnd) (clock : Clock) (b : Breaker)
    → current_cached_time_seconds clock ≤ k
    → k < 2 ^ 63
    → IsSound k b
    → PointsInto b p.state p.concurrency_limiter
    → Proceeds (suc k) b (resume p end clock b)
unfolding resume load_limiter store_limiter
resume_returns {k} p end clock b cached fit sound into =
    let (lim, at) = get_elem?-below b.limiters p.concurrency_limiter into.limiter_in in
    let (granted, lim') = limiter_resume lim p.ticket end in
    let c : Breaker = record b { limiters = set b.limiters p.concurrency_limiter lim' } in
    let left : Leaves k b c = store_limiter-Leaves p.concurrency_limiter lim' b sound in
    Proceeds-after left
      (after_acquire_returns p.state p.concurrency_limiter p.setting clock cached fit p.factor
        p.fallback granted c left.sound (PointsInto-Leaves left into))
      (ground (arith, at))
