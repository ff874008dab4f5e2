-- ===== src/Window/Total.antt =====
-- The moves of the time window (Window/Time) under any clock. A bound on the latest bucket's second rules out
-- the overflow of the difference, at which the code's loop would run for 2^63 rounds.
use mathlib.Core.List.{append_assoc}
use j_circuit_breaker.Base.{
  ℕ, zero, suc, ◌-◌, ◌^◌, ◌≤◌, ◌<◌, ◌≡◌, refl, sym, ap, ◌∙◌, ◌⊎◌, inl, inr, List, [], ◌∷◌, ◌++◌,
  true, some, arith, get_elem?, drop, sub64, sle64, snoc-injective,
}
use j_circuit_breaker.Window.{WindowOutcome, add, new_snapshot}
use j_circuit_breaker.Window.Ring.{latest_lem}
use j_circuit_breaker.Window.Time.{
  Bucket, TimeWindow, reset_bucket, move_loop, move_by, move_window_to_current_second, update,
  get_snapshot,
}
use j_circuit_breaker.Window.Moves.{view, IsValid, record_outcome_lem}
use j_circuit_breaker.Window.MoveLoop.{fresh, move_loop_lem, move_loop_last}

-- A valid window whose latest bucket starts at the second `k` at most.
pub record Ready (k : ℕ) (t : TimeWindow) : Type 0 where
  pub valid : IsValid t
  pub front : List Bucket
  pub latest : Bucket
  pub ends : view t ≡ front ++ latest ∷ []
  pub starts : latest.start_time ≤ k

pub Ready-mono : {k n : ℕ} {t : TimeWindow} → k ≤ n → Ready k t → Ready n t
Ready-mono le r = record {
  valid = r.valid;
  front = r.front;
  latest = r.latest;
  ends = r.ends;
  starts = omega (arith, r.starts, le);
}

fresh-ends :
    (m now : ℕ)
    → (front : List Bucket) × (fresh (suc m) now ≡ front ++ reset_bucket (sub64 now 0) ∷ [])
fresh-ends zero now = ([], refl)
fresh-ends (suc m) now =
    let (front, e) = fresh-ends m now in
    (reset_bucket (sub64 now (suc m)) ∷ front, ap (λ bs. reset_bucket (sub64 now (suc m)) ∷ bs) e)

-- The window after a move, and what a caller needs to know of it.
abbrev pub Moved : ℕ → TimeWindow → ℕ → Type 0
Moved k t now =
    (t' : TimeWindow) × (move_window_to_current_second t now ≡ some (t', t'.end_index))
    × Ready (suc k) t'
    × (t'.capacity ≡ t.capacity)

module _ {k : ℕ} {t : TimeWindow} (r : Ready k t) (now : ℕ) (fit : k < 2 ^ 63) where
  latest_at : get_elem? t.buckets t.end_index ≡ some r.latest
  latest_at =
      let entry = latest_lem t.buckets t.end_index (omega (arith, r.valid)) in
      entry.stands_at ∙ ap some (snoc-injective entry.others _ (sym entry.split ∙ r.ends)).1

  move_at : move_window_to_current_second t now ≡ move_by t now (sub64 now r.latest.start_time)
  unfolding move_window_to_current_second
  move_at = rw latest_at refl

  same_second : now ≡ r.latest.start_time → Moved k t now
  unfolding move_by
  same_second same = (t, move_at ∙ ground (arith, same), Ready-mono (omega arith) r, refl)

  clock_behind : now < r.latest.start_time → Moved k t now
  clock_behind behind =
      let s = r.latest.start_time in
      let last : sle64 (sub64 (sub64 now s) 1) 0 ≡ true = ground (arith, r.starts) in
      let (t', moves, v, views, cap) = move_loop_last t.capacity now (sub64 now s) r.valid last in
      let by : move_by t now (sub64 now s) ≡ move_loop (suc t.capacity) t now (sub64 now s) =
        unfold move_by in ground (arith, r.valid, r.starts) in
      (
        t',
        move_at ∙ by ∙ moves,
        record {
          valid = v;
          front = drop 1 (view t);
          latest = reset_bucket (sub64 now (sub64 (sub64 now s) 1));
          ends = views;
          starts = omega (arith, r.starts);
        },
        cap,
      )

  -- The seconds to move, less one.
  passed :
      r.latest.start_time < now
      → (m : ℕ) × (((suc m ≡ now - r.latest.start_time) × (suc m ≤ t.capacity))
          ⊎ ((suc m ≡ t.capacity) × (t.capacity < now - r.latest.start_time)))
  passed later = elim (split (now - r.latest.start_time)) [
    | inl le ↦ (now - r.latest.start_time - 1, inl (omega arith, omega arith))
    | inr gt ↦ (t.capacity - 1, inr (omega (arith, r.valid), gt))
  ]
    where
      split : (d : ℕ) → (d ≤ t.capacity) ⊎ (t.capacity < d)
      split d = omega arith

  clock_ahead : now < 2 ^ 63 → now ≤ suc k → r.latest.start_time < now → Moved k t now
  clock_ahead range le later =
      let s = r.latest.start_time in
      let (m, cases) = passed later in
      let (t', moves, v, views, cap) =
        move_loop_lem (suc t.capacity) m now r.valid (omega (arith, cases))
          (omega (arith, cases)) in
      let by : move_by t now (sub64 now s) ≡ move_loop (suc t.capacity) t now (suc m) =
        unfold move_by in ground (arith, r.valid, cases) in
      let (front, e) = fresh-ends m now in
      (
        t',
        move_at ∙ by ∙ moves,
        record {
          valid = v;
          front = drop (suc m) (view t) ++ front;
          latest = reset_bucket (sub64 now 0);
          ends =
              views
              ∙ ap (λ bs. drop (suc m) (view t) ++ bs) e
              ∙ sym (append_assoc (drop (suc m) (view t)) front _);
          starts = omega arith;
        },
        cap,
      )

pub move_lem :
    {k : ℕ} {t : TimeWindow} → Ready k t → (now : ℕ) → now ≤ k → k < 2 ^ 63 → Moved k t now
move_lem {k} r now le fit = elim (split now r.latest.start_time) [
  | inl same ↦ same_second r now fit same
  | inr (inl behind) ↦ clock_behind r now fit behind
  | inr (inr later) ↦ clock_ahead r now fit (omega arith) (omega arith) later
]
  where
    split : (a b : ℕ) → (a ≡ b) ⊎ (a < b) ⊎ (b < a)
    split a b = ground arith

module _ {k : ℕ} {t : TimeWindow} (r : Ready k t) (now : ℕ) (le : now ≤ k) (fit : k < 2 ^ 63) where
  pub update-Ready :
      (o : WindowOutcome)
      → (t' : TimeWindow) × (update t now o ≡ some (t', new_snapshot t'.total)) × Ready (suc k) t'
  unfolding update
  update-Ready o =
      let (t₁, moves, r₁, cap₁) : Moved k t now = move_lem r now le fit in
      let (front, b, t₂, views, records, v₂, views₂, cap₂) = record_outcome_lem r₁.valid o in
      let same : b ≡ r₁.latest = (snoc-injective front r₁.front (sym views ∙ r₁.ends)).1 in
      (
        t₂,
        ground (arith, moves, records),
        record {
          valid = v₂;
          front = front;
          latest = record b { counter = add b.counter o };
          ends = views₂;
          starts = omega (arith, r₁.starts, ap (λ c. c.start_time) same);
        },
      )

  pub get_snapshot-Ready :
      (t' : TimeWindow) × (get_snapshot t now ≡ some (t', new_snapshot t'.total)) × Ready (suc k) t'
  unfolding get_snapshot
  get_snapshot-Ready =
      let (t₁, moves, r₁, cap₁) : Moved k t now = move_lem r now le fit in
      (t₁, ground (arith, moves), r₁)
