-- ===== src/Window/Behind.antt =====
-- The time window (Window/Time) when the clock that update() reads is behind the window's latest bucket.
-- That happens when the clock steps back, and also because newTimeWindowMetricWithTime is given
-- time.Now() while update() reads the cached time, which is behind it.
use j_circuit_breaker.Base.{
  ℕ, zero, suc, ◌+◌, ◌-◌, ◌^◌, ◌≤◌, ◌<◌, ◌≡◌, refl, sym, ap, ap₂, subst, ◌∙◌, List, [], ◌∷◌, ◌++◌,
  true, some, arith, length, get_elem?, drop, sub64, sle64, snoc-injective, All, All-append,
  All-drop,
}
use j_circuit_breaker.Window.{
  WindowOutcome, success_outcome, error_outcome, timeout_success_outcome, timeout_error_outcome,
  reset, add, new_snapshot,
}
use j_circuit_breaker.Window.Ring.{latest_lem}
use j_circuit_breaker.Window.Tally.{sum, plus}
use j_circuit_breaker.Window.Time.{
  Bucket, TimeWindow, reset_bucket, new_time_window, move_loop, move_by,
  move_window_to_current_second, update,
}
use j_circuit_breaker.Window.Moves.{view, counters, IsValid, length-view, record_outcome_lem}
use j_circuit_breaker.Window.MoveLoop.{move_loop_last}
use j_circuit_breaker.Window.Seconds.{Call, pick, bucket_of, seconds}
use j_circuit_breaker.Window.Records.{seconds-split}
use j_circuit_breaker.Window.LastSeconds.{new-Records, run}

abbrev AtMostOne : Bucket → Type 0
AtMostOne b = b.counter.total_count ≤ 1

-- A window whose latest bucket starts at `s`, and which holds one call in each bucket at most.
record Runaway (n : ℕ) (t : TimeWindow) (s : ℕ) : Type 0 where
  valid : IsValid t
  capacity : t.capacity ≡ n
  front : List Bucket
  latest : Bucket
  ends : view t ≡ front ++ latest ∷ []
  starts : latest.start_time ≡ s
  few : All AtMostOne (view t)

sum-few : (bs : List Bucket) → All AtMostOne bs → (sum (counters bs)).total_count ≤ length bs
unfolding sum plus
sum-few [] few = omega arith
sum-few (b ∷ bs) few = omega (arith, few.0, sum-few bs few.1)

add-one-call : (o : WindowOutcome) → (add reset o).total_count ≤ 1
unfolding add
add-one-call success_outcome = omega arith
add-one-call error_outcome = omega arith
add-one-call timeout_success_outcome = omega arith
add-one-call timeout_error_outcome = omega arith

module _ {n : ℕ} {t : TimeWindow} {s : ℕ} (r : Runaway n t s) (u : ℕ) (behind : u < s)
    (fit : s < 2 ^ 63 - 1) where
  latest_start : (b : Bucket) × (get_elem? t.buckets t.end_index ≡ some b) × (b.start_time ≡ s)
  latest_start =
      let entry = latest_lem t.buckets t.end_index (omega (arith, r.valid)) in
      (
        entry.latest,
        entry.stands_at,
        ap (λ b. b.start_time) (snoc-injective entry.others _ (sym entry.split ∙ r.ends)).1
            ∙ r.starts,
      )

  next_start : sub64 u (sub64 (sub64 u s) 1) ≡ suc s
  next_start = omega arith

  is_last : sle64 (sub64 (sub64 u s) 1) 0 ≡ true
  is_last = ground arith

  move_by_one : move_by t u (sub64 u s) ≡ move_loop (suc t.capacity) t u (sub64 u s)
  unfolding move_by
  move_by_one = ground (arith, r.valid)

  -- Every call opens a bucket that starts a second after the one before it.
  move-Runaway :
      (t' : TimeWindow) × (move_window_to_current_second t u ≡ some (t', t'.end_index))
      × IsValid t'
      × (t'.capacity ≡ n)
      × (view t' ≡ drop 1 (view t) ++ reset_bucket (suc s) ∷ [])
  unfolding move_window_to_current_second
  move-Runaway =
      let (b, at, start) = latest_start in
      let (t', moves, v, views, cap) = move_loop_last t.capacity u (sub64 u s) r.valid is_last in
      (
        t',
        rw at (ap (λ w. move_by t u (sub64 u w)) start ∙ move_by_one ∙ moves),
        v,
        cap ∙ r.capacity,
        views ∙ ap (λ w. drop 1 (view t) ++ reset_bucket w ∷ []) next_start,
      )

  update-Runaway :
      (o : WindowOutcome)
      → (t' : TimeWindow) × (update t u o ≡ some (t', new_snapshot t'.total)) × Runaway n t' (suc s)
  unfolding update
  update-Runaway o =
      let (t₁, moves, v₁, cap₁, views₁) = move-Runaway in
      let (front, b, t₂, views, records, v₂, views₂, cap₂) = record_outcome_lem v₁ o in
      let parts = snoc-injective front _ (sym views ∙ views₁) in
      let new_views : view t₂
          ≡ drop 1 (view t) ++ record { counter = add reset o; start_time = suc s } ∷ [] =
        views₂
        ∙ ap₂ {B = Bucket}
            (λ f c. f ++ record { counter = add c.counter o; start_time = c.start_time } ∷ [])
            parts.0 parts.1 in
      (
        t₂,
        ground (arith, moves, records),
        record {
          valid = v₂;
          capacity = cap₂ ∙ cap₁;
          front = drop 1 (view t);
          latest = record { counter = add reset o; start_time = suc s };
          ends = new_views;
          starts = refl;
          few = subst (All AtMostOne) (sym new_views) (
              All-append AtMostOne (drop 1 (view t)) _ (All-drop AtMostOne 1 (view t) r.few)
                (add-one-call o, tt));
        },
      )

seconds-few : (n s : ℕ) → All AtMostOne (seconds n s [])
seconds-few zero s = tt
seconds-few (suc n) s = (few_at (s - n), seconds-few n s)
  where
    few_at : (u : ℕ) → AtMostOne (bucket_of u [])
    few_at u = unfold pick in omega arith

new-Runaway :
    (n start : ℕ)
    → 0 < n
    → n < 2 ^ 32
    → n ≤ start
    → start < 2 ^ 63
    → Runaway n (new_time_window n start) start
new-Runaway n start pos small room fit =
    let r = new-Records n start pos small room fit in
    record {
      valid = r.valid;
      capacity = r.capacity;
      front = seconds (n - 1) (start - 1) [];
      latest = bucket_of start [];
      ends = r.held ∙ seconds-split n start [] pos room;
      starts = refl;
      few = subst (All AtMostOne) (sym r.held) (seconds-few n start);
    }

-- The calls are all told of at times before `s`.
abbrev pub Before : ℕ → List Call → Type 0
Before s = All λ c. c.0 < s

run-Runaway :
    {n : ℕ} (s : ℕ) {t : TimeWindow} (h : List Call)
    → Runaway n t s
    → Before s h
    → s + length h < 2 ^ 63
    → (t' : TimeWindow) × (run t h ≡ some t') × Runaway n t' (s + length h)
unfolding run
run-Runaway s {t} [] r before fit = (t, refl, let e : s + 0 ≡ s = omega arith in rw e r)
run-Runaway s ((u, o) ∷ h) r before fit =
    let (t₁, e, r₁) = update-Runaway r u before.0 (omega arith) o in
    let (t₂, e₂, r₂) = run-Runaway (suc s) h r₁ (Before-suc h before.1) (omega arith) in
    (t₂, rw e e₂, (let e : s + suc (length h) ≡ suc s + length h = omega arith in rw e r₂))
  where
    Before-suc : (h : List Call) → Before s h → Before (suc s) h
    Before-suc [] b = tt
    Before-suc (c ∷ h) b = (omega (arith, b.0), Before-suc h b.1)

-- A window of `n` seconds that is made in the second `start`, and told only of calls at times before it,
-- holds at most `n` calls, however many it was told of.
pub run_behind :
    (n start : ℕ) (h : List Call)
    → 0 < n
    → n < 2 ^ 32
    → n ≤ start
    → Before start h
    → start + length h < 2 ^ 63
    → (t : TimeWindow) × (run (new_time_window n start) h ≡ some t) × (t.total.total_count ≤ n)
run_behind n start h pos small room before fit =
    let (t, e, r) =
      run-Runaway start h (new-Runaway n start pos small room (omega arith)) before fit in
    (
      t,
      e,
      omega (
        arith,
        ap (λ c. c.total_count) r.valid.summed,
        sum-few (view t) r.few,
        length-view r.valid,
        r.capacity,
      ),
    )
