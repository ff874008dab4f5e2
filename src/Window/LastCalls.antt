-- ===== src/Window/LastCalls.antt =====
-- The count window (Window/Count) against the list of all outcomes that it was given.
use mathlib.Core.List.{append_assoc, map-append, append-nil}
use j_circuit_breaker.Base.{
  ℕ, zero, suc, ◌-◌, ◌%◌, ◌^◌, ◌<◌, ◌≡◌, refl, sym, ap, subst, ◌∙◌, List, [], ◌∷◌, ◌++◌, map,
  Option, some, arith, length, length-append, length-replicate, length-set, get_elem?-set_self, set,
  set-set, All, All-append, All-drop, All-replicate, replicate-snoc, drop, drop-snoc, replicate,
  keep_last, add64, ◌>>=◌,
}
use j_circuit_breaker.Window.{WindowOutcome, Counter, reset, add, subtract, new_snapshot}
use j_circuit_breaker.Window.Ring.{ring, Steps, step_lem}
use j_circuit_breaker.Window.Tally.{
  tally, Fits, sum, sum-slide, tally-nil, single, sum-drop, reset-Fits, add-Fits,
}
use j_circuit_breaker.Window.Count.{
  CountWindow, new_count_window, recycle, move_forward_one_step, record_outcome, update,
}

-- The entries after the outcomes `os`: the last `n` of the unused ones followed by one for each call.
abbrev pub entries : ℕ → List WindowOutcome → List Counter
entries n os = keep_last n (replicate n reset ++ map single os)

-- A count window of `n` entries that was given the outcomes `os`, oldest first.
pub record Holds (n : ℕ) (c : CountWindow) (os : List WindowOutcome) : Type 0 where
  pub capacity : c.capacity ≡ n
  pub some_entry : 0 < n
  pub small : n < 2 ^ 32
  pub sized : length c.array ≡ n
  pub inside : c.end_index < n
  pub filled : ring c.end_index c.array ≡ entries n os
  pub summed : c.total ≡ sum (entries n os)

length-map : (os : List WindowOutcome) → length (map single os) ≡ length os
length-map [] = refl
length-map (o ∷ os) = ap suc (length-map os)

-- The total of the entries is the tally of the last `n` calls.
pub sum-entries : (n : ℕ) (os : List WindowOutcome) → sum (entries n os) ≡ tally (keep_last n os)
sum-entries n os = sum-drop (length (replicate n reset ++ map single os) - n) n (length os - n) os (
    omega (
      arith,
      length-append (replicate n reset) (map single os),
      length-replicate n reset,
      length-map os,
    ))

entries-snoc :
    (n : ℕ) (os : List WindowOutcome) (o : WindowOutcome) {x : Counter} {rest : List Counter}
    → entries n os ≡ x ∷ rest
    → entries n (os ++ o ∷ []) ≡ rest ++ single o ∷ []
entries-snoc n os o {x} {rest} e =
    ap (λ k. drop k (replicate n reset ++ map single (os ++ o ∷ []))) longer
    ∙ ap (drop (suc (length unused_and_used - n))) regrouped
    ∙ drop-snoc unused_and_used (length unused_and_used - n) (single o) e
  where
    unused_and_used : List Counter
    unused_and_used = replicate n reset ++ map single os

    regrouped : replicate n reset ++ map single (os ++ o ∷ []) ≡ unused_and_used ++ single o ∷ []
    regrouped =
        ap (λ t. replicate n reset ++ t) (map-append single os (o ∷ []))
        ∙ sym (append_assoc (replicate n reset) (map single os) (single o ∷ []))

    longer :
        length (replicate n reset ++ map single (os ++ o ∷ [])) - n
        ≡ suc (length unused_and_used - n)
    longer = omega (
      arith,
      ap length regrouped,
      length-append unused_and_used (single o ∷ []),
      length-append (replicate n reset) (map single os),
      length-replicate n reset,
    )

All-singles : (os : List WindowOutcome) → All Fits (map single os)
All-singles [] = tt
All-singles (o ∷ os) = (add-Fits reset o reset-Fits, All-singles os)

entries-Fits : (n : ℕ) (os : List WindowOutcome) → All Fits (entries n os)
entries-Fits n os = All-drop Fits (length (replicate n reset ++ map single os) - n) _ (
    All-append Fits (replicate n reset) (map single os) (All-replicate Fits n reset reset-Fits)
      (All-singles os))

entries-nil : (n : ℕ) → entries n [] ≡ replicate n reset
entries-nil n =
    ap (λ xs. keep_last n xs) (append-nil (replicate n reset))
    ∙ ap (λ k. drop k (replicate n reset)) {y = 0} (omega (arith, length-replicate n reset))

ring-replicate : (n : ℕ) → 0 < n → ring 0 (replicate n reset) ≡ replicate n reset
ring-replicate zero pos = absurd (omega arith)
ring-replicate (suc n) pos = replicate-snoc n reset

-- A window that has just been made holds no call.
pub new-Holds : (n : ℕ) → 0 < n → n < 2 ^ 32 → Holds n (new_count_window n) []
unfolding new_count_window
new-Holds n pos small = record {
  capacity = refl;
  some_entry = pos;
  small = small;
  sized = length-replicate n reset;
  inside = pos;
  filled = ring-replicate n pos ∙ sym (entries-nil n);
  summed = sym (sum-entries n [] ∙ ap (λ k. tally (drop k [])) {y = 0} (omega arith) ∙ tally-nil);
}

module _ {n : ℕ} {c : CountWindow} {os : List WindowOutcome} (h : Holds n c os)
    (o : WindowOutcome) where
  next_index : ℕ
  next_index = add64 c.end_index 1 % c.capacity

  steps : Steps c.end_index next_index c.array
  unfolding next_index
  steps = step_lem c.array c.end_index next_index (omega (arith, h)) (grind (arith, h))

  -- The window after the call.
  updated : CountWindow
  updated = record c {
    end_index = next_index;
    array = set c.array next_index (single o);
    total = add (subtract c.total steps.oldest) o;
  }

  update-updated : update c o ≡ some (updated, new_snapshot updated.total)
  unfolding update updated next_index move_forward_one_step recycle record_outcome
  update-updated = ground (
    arith,
    h,
    steps.stands_at,
    get_elem?-set_self c.array next_index reset,
    set-set c.array next_index reset (single o),
  )

  split_entries : entries n os ≡ steps.oldest ∷ steps.others
  split_entries = sym h.filled ∙ steps.split

  oldest-Fits : Fits steps.oldest
  oldest-Fits = (subst (All Fits) split_entries (entries-Fits n os)).0

  updated-Holds : Holds n updated (os ++ o ∷ [])
  unfolding updated next_index
  updated-Holds = record {
    capacity = h.capacity;
    some_entry = h.some_entry;
    small = h.small;
    sized = length-set c.array next_index (single o) ∙ h.sized;
    inside = grind (arith, h);
    filled = steps.written (single o) ∙ sym (entries-snoc n os o split_entries);
    summed =
        ap (λ d. add (subtract d steps.oldest) o) (h.summed ∙ ap sum split_entries)
        ∙ sum-slide steps.oldest steps.others o oldest-Fits
        ∙ ap sum (sym (entries-snoc n os o split_entries));
  }

  -- A call that the window is told of does not panic, and the new window holds it as the latest.
  pub update-Holds :
      (c' : CountWindow) × (update c o ≡ some (c', new_snapshot c'.total))
      × Holds n c' (os ++ o ∷ [])
  update-Holds = (updated, update-updated, updated-Holds)

-- The window after a list of calls.
unfoldable pub run : CountWindow → List WindowOutcome → Option CountWindow
run c [] = some c
run c (o ∷ os) = update c o >>= λ (c', _). run c' os

run_from-Holds :
    {n : ℕ} (c : CountWindow) (before os : List WindowOutcome)
    → Holds n c before
    → (c' : CountWindow) × (run c os ≡ some c') × Holds n c' (before ++ os)
unfolding run
run_from-Holds {n} c before [] h = (c, refl, rw (append-nil before) h)
run_from-Holds {n} c before (o ∷ os) h =
    let (c₁, e, h₁) = update-Holds h o in
    let (c₂, e₂, h₂) = run_from-Holds c₁ (before ++ o ∷ []) os h₁ in
    (c₂, rw e e₂, rw (append_assoc before (o ∷ []) os) at h₂)

-- A window of `n` entries that is given any list of outcomes never panics, and its total is then the
-- tally of the last `n` of them.
pub run-last_calls :
    (n : ℕ) (os : List WindowOutcome)
    → 0 < n
    → n < 2 ^ 32
    → (c : CountWindow) × (run (new_count_window n) os ≡ some c)
      × (c.total ≡ tally (keep_last n os))
run-last_calls n os pos small =
    let (c, e, h) = run_from-Holds (new_count_window n) [] os (new-Holds n pos small) in
    (c, e, h.summed ∙ sum-entries n os)
