-- ===== src/Window/Records.antt =====
-- The time window (Window/Time) after a list of calls with their times: each bucket holds the tally of its
-- second, and the window's operations keep it so. The clock does not go back here.
use j_circuit_breaker.Base.{
  ℕ, suc, ◌-◌, ◌^◌, ◌≤◌, ◌<◌, ◌≡◌, sym, ap, ap₂, ◌∙◌, ◌⊎◌, inl, inr, List, [], ◌∷◌, ◌++◌, some,
  arith, get_elem?, drop, sub64, snoc-injective, All-append,
}
use j_circuit_breaker.Window.{WindowOutcome, add, new_snapshot}
use j_circuit_breaker.Window.Ring.{latest_lem}
use j_circuit_breaker.Window.Tally.{tally, sum}
use j_circuit_breaker.Window.Time.{
  Bucket, TimeWindow, move_loop, move_by, move_window_to_current_second, record_outcome, update,
  get_snapshot,
}
use j_circuit_breaker.Window.Moves.{view, counters, IsValid, record_outcome_lem}
use j_circuit_breaker.Window.MoveLoop.{fresh, move_loop_lem}
use j_circuit_breaker.Window.Seconds.{
  Call, within, bucket_of, seconds, UpTo, UpTo-mono, drop-seconds, seconds-append, fresh-seconds,
  seconds_earlier, bucket_of-snoc, sum-seconds,
}

-- A window of `n` seconds whose latest bucket is that of the second `s`, after the calls `h`.
pub record Records (n : ℕ) (t : TimeWindow) (s : ℕ) (h : List Call) : Type 0 where
  pub valid : IsValid t
  pub capacity : t.capacity ≡ n
  pub past : UpTo s h
  pub held : view t ≡ seconds n s h
  pub room : n ≤ s
  pub range : s < 2 ^ 63

pub seconds-split :
    (n s : ℕ) (h : List Call)
    → 0 < n
    → n ≤ s
    → seconds n s h ≡ seconds (n - 1) (s - 1) h ++ bucket_of s h ∷ []
seconds-split n s h pos le = sym (
    ap (λ u. seconds (n - 1) (s - 1) h ++ bucket_of u h ∷ []) {x = s} {y = s - 0} (omega arith)
    ∙ seconds-append (n - 1) 1 (s - 1) s h (omega arith) (omega arith)
    ∙ ap (λ k. seconds k s h) {y = n} (omega arith))

module _ {n : ℕ} {t : TimeWindow} {s : ℕ} {h : List Call} (r : Records n t s h) where
  -- The latest bucket is that of the second `s`.
  latest_start : (b : Bucket) × (get_elem? t.buckets t.end_index ≡ some b) × (b.start_time ≡ s)
  latest_start =
      let latest = latest_lem t.buckets t.end_index (omega (arith, r.valid)) in
      (
        latest.latest,
        latest.stands_at,
        ap (λ b. b.start_time)
            (snoc-injective latest.others _ (
              sym latest.split
              ∙ r.held
              ∙ seconds-split n s h (omega (arith, r.valid, r.capacity)) r.room)).1,
      )

  move-move_by : (now : ℕ) → move_window_to_current_second t now ≡ move_by t now (sub64 now s)
  unfolding move_window_to_current_second
  move-move_by now =
      let (b, at, start) = latest_start in rw at (ap (λ u. move_by t now (sub64 now u)) start)

  -- `m + 1` of the seconds since then lie within the window.
  move_by_loop :
      (now m : ℕ)
      → s < now
      → now < 2 ^ 63
      → (((suc m ≡ now - s) × (now - s ≤ n)) ⊎ ((suc m ≡ n) × (n < now - s)))
      → move_by t now (sub64 now s) ≡ move_loop (suc t.capacity) t now (suc m)
  unfolding move_by
  move_by_loop now m later fit cases = ground (arith, r.valid, r.capacity, r.range, r.room)

  view-moved :
      (now m : ℕ)
      → s < now
      → now < 2 ^ 63
      → (((suc m ≡ now - s) × (now - s ≤ n)) ⊎ ((suc m ≡ n) × (n < now - s)))
      → drop (suc m) (view t) ++ fresh (suc m) now ≡ seconds n now h
  view-moved now m later fit cases =
      ap (λ bs. drop (suc m) bs ++ fresh (suc m) now) r.held
      ∙ ap (λ bs. bs ++ fresh (suc m) now) (drop-seconds (suc m) n s h)
      ∙ ap (λ bs. seconds (n - suc m) s h ++ bs)
          (fresh-seconds (suc m) now s h r.past (omega arith) (omega arith))
      ∙ joined
    where
      joined : seconds (n - suc m) s h ++ seconds (suc m) now h ≡ seconds n now h
      joined = elim cases [
        | inl (passed, fits) ↦
            seconds-append (n - suc m) (suc m) s now h (omega arith) (omega (arith, r.room))
            ∙ ap (λ k. seconds k now h) {y = n} (omega arith)
        | inr (all, more) ↦
            ap (λ k. seconds k s h ++ seconds (suc m) now h) {y = 0} (omega arith)
            ∙ ap (λ k. seconds k now h) all
      ]

  -- The seconds to move.
  passed :
      (now : ℕ)
      → s < now
      → (m : ℕ) × (((suc m ≡ now - s) × (now - s ≤ n)) ⊎ ((suc m ≡ n) × (n < now - s)))
  passed now later = elim (split (now - s)) [
    | inl le ↦ (now - s - 1, inl (omega arith, le))
    | inr gt ↦ (n - 1, inr (omega (arith, r.valid, r.capacity), gt))
  ]
    where
      split : (d : ℕ) → (d ≤ n) ⊎ (n < d)
      split d = omega arith

  moved_later :
      (now : ℕ)
      → s < now
      → now < 2 ^ 63
      → (t' : TimeWindow) × (move_window_to_current_second t now ≡ some (t', t'.end_index))
        × Records n t' now h
  moved_later now later fit =
      let (m, cases) = passed now later in
      let (t', moves, v, views, cap) =
        move_loop_lem (suc t.capacity) m now r.valid (omega (arith, r.capacity))
          (omega (arith, r.capacity)) in
      (
        t',
        move-move_by now ∙ move_by_loop now m later fit cases ∙ moves,
        record {
          valid = v;
          capacity = cap ∙ r.capacity;
          past = UpTo-mono h (omega arith) r.past;
          held = views ∙ view-moved now m later fit cases;
          room = omega (arith, r.room);
          range = fit;
        },
      )

  stay : move_by t s (sub64 s s) ≡ some (t, t.end_index)
  unfolding move_by
  stay = ground arith

  -- Moving to a second that is not past keeps the calls, and makes `now` the latest second.
  pub move-Records :
      (now : ℕ)
      → s ≤ now
      → now < 2 ^ 63
      → (t' : TimeWindow) × (move_window_to_current_second t now ≡ some (t', t'.end_index))
        × Records n t' now h
  move-Records now le fit = elim (split now le) [
    | inl e ↦ rw (← e) (t, move-move_by s ∙ stay, r)
    | inr later ↦ moved_later now later fit
  ]
    where
      split : (now : ℕ) → s ≤ now → (s ≡ now) ⊎ (s < now)
      split now le = omega arith

  -- Recording a call of the latest second.
  pub record-Records :
      (o : WindowOutcome)
      → (t' : TimeWindow) × (record_outcome o (t, t.end_index) ≡ some t')
        × Records n t' s (h ++ (s, o) ∷ [])
  record-Records o =
      let (front, b, t', views, records, v, views', cap) = record_outcome_lem r.valid o in
      let parts =
        snoc-injective front _
          (sym views ∙ r.held ∙ seconds-split n s h (omega (arith, r.valid, r.capacity)) r.room) in
      (
        t',
        records,
        record {
          valid = v;
          capacity = cap ∙ r.capacity;
          past = All-append (λ c. c.0 ≤ s) h _ r.past (omega arith, tt);
          held =
              views'
              ∙ ap₂ {B = Bucket} (λ f c. f ++ record c { counter = add c.counter o } ∷ []) parts.0
                  parts.1
              ∙ ap₂ (λ f c. f ++ c ∷ [])
                  (sym (
                    seconds_earlier (n - 1) (s - 1) s o h
                      (omega (arith, r.room, r.valid, r.capacity))))
                  (sym (bucket_of-snoc s o h))
              ∙ sym (
                  seconds-split n s (h ++ (s, o) ∷ []) (omega (arith, r.valid, r.capacity)) r.room);
          room = r.room;
          range = r.range;
        },
      )

  -- The total of the window is the tally of the calls of its seconds.
  pub total-tally : t.total ≡ tally (within n s h)
  total-tally =
      r.valid.summed
      ∙ ap (λ bs. sum (counters bs)) r.held
      ∙ sum-seconds n s h (omega (arith, r.room))

module _ {n : ℕ} {t : TimeWindow} {s : ℕ} {h : List Call} (r : Records n t s h) (now : ℕ)
    (le : s ≤ now) (fit : now < 2 ^ 63) where
  -- A call that is recorded in a second that is not past.
  pub update-Records :
      (o : WindowOutcome)
      → (t' : TimeWindow) × (update t now o ≡ some (t', new_snapshot t'.total))
        × Records n t' now (h ++ (now, o) ∷ [])
  unfolding update
  update-Records o =
      let (t₁, moves, r₁) = move-Records r now le fit in
      let (t₂, records, r₂) = record-Records r₁ o in (t₂, ground (arith, moves, records), r₂)

  pub get_snapshot-Records :
      (t' : TimeWindow) × (get_snapshot t now ≡ some (t', new_snapshot (tally (within n now h))))
      × Records n t' now h
  unfolding get_snapshot
  get_snapshot-Records =
      let (t₁, moves, r₁) = move-Records r now le fit in
      (t₁, ground (arith, moves, total-tally r₁), r₁)
