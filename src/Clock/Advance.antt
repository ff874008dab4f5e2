-- ===== src/Clock/Advance.antt =====
-- What advance of mockClock (time.go) does to the timers.
use j_circuit_breaker.Base.{
  ℕ, ◌≡◌, ◌≤◌, ◌<◌, ◌+◌, ◌^◌, Bool, true, false, ◌&&◌, refl, ap, ◌∙◌, arith, Option, none, some,
  List, [], ◌∷◌, All, ltb, if◌then◌else◌,
}
use j_circuit_breaker.Clock.Mock.{MockTimer, MockClock, time_add, fire, advance}

-- The timers that an advance by `d` fires.
abbrev pub is_due : ℕ → MockTimer → Bool
is_due d t = ltb t.duration d

abbrev is_empty : Option ℕ → Bool
is_empty none = true
is_empty (some v) = false

-- Every timer that is due has had its last value received.
abbrev pub is_free : ℕ → List MockTimer → Bool
is_free d [] = true
is_free d (t ∷ ts) = (if is_due d t then is_empty t.channel else true) && is_free d ts

abbrev pub fired : ℕ → ℕ → List MockTimer → List MockTimer
fired d now [] = []
fired d now (t ∷ ts) = (if is_due d t then record t { channel = some now } else t) ∷ fired d now ts

-- A duration that is not negative.
abbrev pub IsPositive : MockTimer → Type 0
IsPositive t = t.duration < 2 ^ 63

fire_lem :
    (d old : ℕ) (ts : List MockTimer)
    → All IsPositive ts
    → fire old (old + d) ts ≡ (if is_free d ts then some (fired d (old + d) ts) else none)
unfolding fire time_add
fire_lem d old [] h = refl
fire_lem d old (t ∷ ts) h = ground (arith, h.0, fire_lem d old ts h.1)

-- With durations that are not negative, advance of the mock clock puts the new time into the channel
-- of every timer whose duration is shorter than the step, counted from the time before the step, and
-- waits for a receiver if such a channel is full.
pub advance_lem :
    (d : ℕ) (m : MockClock)
    → d < 2 ^ 63
    → All IsPositive m.timers
    → advance d m ≡ (
        if is_free d m.timers
        then some (record {
          current_mock_time = m.current_mock_time + d;
          timers = fired d (m.current_mock_time + d) m.timers;
        })
        else none)
unfolding advance time_add
advance_lem d m small h = ground (arith, small, fire_lem d m.current_mock_time m.timers h)

unfoldable pub advance_all : List ℕ → MockClock → Option MockClock
advance_all [] m = some m
advance_all (d ∷ ds) m = elim (advance d m) [ none ↦ none | some m' ↦ advance_all ds m' ]

abbrev pub total : List ℕ → ℕ
total [] = 0
total (d ∷ ds) = d + total ds

none_due-is_free :
    (d n : ℕ) (ts : List MockTimer) → d ≤ n → All (λ t. n ≤ t.duration) ts → is_free d ts ≡ true
none_due-is_free d n [] le h = refl
none_due-is_free d n (t ∷ ts) le h = ground (arith, le, h.0, none_due-is_free d n ts le h.1)

none_due-fired :
    (d n now : ℕ) (ts : List MockTimer) → d ≤ n → All (λ t. n ≤ t.duration) ts → fired d now ts ≡ ts
none_due-fired d n now [] le h = refl
none_due-fired d n now (t ∷ ts) le h = ground (arith, le, h.0, none_due-fired d n now ts le h.1)

-- However far the mock clock goes in steps that are no longer than the durations of its timers, no
-- timer fires.
pub small_steps :
    (n : ℕ) (ds : List ℕ) (m : MockClock)
    → n < 2 ^ 63
    → All (λ d. d ≤ n) ds
    → All (λ t. n ≤ t.duration) m.timers
    → All IsPositive m.timers
    → advance_all ds m ≡ some (record m { current_mock_time = m.current_mock_time + total ds })
unfolding advance_all
small_steps n [] m small steps long positive =
    ap (λ t. some (record m { current_mock_time = t })) (omega arith)
small_steps n (d ∷ ds) m small steps long positive =
    let m' : MockClock = record m { current_mock_time = m.current_mock_time + d } in
    let goes : advance d m ≡ some m' = ground (
      arith,
      advance_lem d m (omega (arith, small, steps.0)) positive,
      none_due-is_free d n m.timers steps.0 long,
      none_due-fired d n (m.current_mock_time + d) m.timers steps.0 long,
    ) in
    rw (goes, advance_all)
      (small_steps n ds m' small steps.1 long positive
        ∙ ap (λ t. some (record m { current_mock_time = t })) (omega arith))
