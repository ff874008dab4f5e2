-- ===== src/Window/Moves.antt =====
-- How the time window (Window/Time) moves: which buckets it drops and which it opens, and that its total
-- stays the sum of its buckets.
use mathlib.Core.List.{map-append}
use j_circuit_breaker.Base.{
  ℕ, zero, suc, ◌+◌, ◌%◌, ◌^◌, ◌≤◌, ◌<◌, ◌≡◌, refl, sym, ap, subst, ◌∙◌, List, [], ◌∷◌, ◌++◌, map,
  some, arith, length, length-append, length-set, set, All, All-append, All-left, All-right, take,
  drop, add64,
}
use j_circuit_breaker.Window.{WindowOutcome, Counter, add, subtract}
use j_circuit_breaker.Window.Ring.{ring, Steps, step_lem, Latest, latest_lem}
use j_circuit_breaker.Window.Tally.{
  Fits, sum, subtract-sum, sum-append_reset, sum-append_add, reset-Fits, add-Fits,
}
use j_circuit_breaker.Window.Time.{Bucket, TimeWindow, reset_bucket, open_bucket, record_outcome}

-- The buckets, oldest first.
abbrev pub view : TimeWindow → List Bucket
view t = ring t.end_index t.buckets

abbrev pub counters : List Bucket → List Counter
counters = map λ b. b.counter

abbrev pub BucketFits : Bucket → Type 0
BucketFits b = Fits b.counter

pub record IsValid (t : TimeWindow) : Type 0 where
  pub some_bucket : 0 < t.capacity
  pub small : t.capacity < 2 ^ 32
  pub sized : length t.buckets ≡ t.capacity
  pub inside : t.end_index < t.capacity
  pub summed : t.total ≡ sum (counters (view t))
  pub fits : All BucketFits (view t)

length-ring : (e : ℕ) (xs : List Bucket) → e < length xs → length (ring e xs) ≡ length xs
length-ring e xs h =
    length-append (drop (suc e) xs) (take (suc e) xs) ∙ parts xs (suc e) (omega arith)
  where
    parts :
        (ys : List Bucket) (k : ℕ)
        → k ≤ length ys
        → length (drop k ys) + length (take k ys) ≡ length ys
    parts ys zero p = omega arith
    parts [] (suc k) p = omega arith
    parts (y ∷ ys) (suc k) p = omega (arith, parts ys k (omega arith))

pub length-view : {t : TimeWindow} → IsValid t → length (view t) ≡ t.capacity
length-view {t} v = length-ring t.end_index t.buckets (omega (arith, v)) ∙ v.sized

module _ {t : TimeWindow} (v : IsValid t) where
  abbrev pub next_index : ℕ
  next_index = add64 t.end_index 1 % t.capacity

  steps : Steps t.end_index next_index t.buckets
  steps = step_lem t.buckets t.end_index next_index (omega (arith, v)) (grind (arith, v))

  -- The window in which the oldest bucket was recycled for the second `start_time`.
  opened : ℕ → TimeWindow
  opened start_time = record t {
    end_index = next_index;
    buckets = set t.buckets next_index (reset_bucket start_time);
    total = subtract t.total steps.oldest.counter;
  }

  open_bucket-opened : (s : ℕ) → open_bucket t next_index s ≡ some (opened s)
  unfolding open_bucket opened
  open_bucket-opened s = ground (arith, steps.stands_at)

  view-opened : (s : ℕ) → view (opened s) ≡ steps.others ++ reset_bucket s ∷ []
  unfolding opened
  view-opened s = steps.written (reset_bucket s)

  split_fits : All BucketFits (steps.oldest ∷ steps.others)
  split_fits = subst (All BucketFits) steps.split v.fits

  opened-IsValid : (s : ℕ) → IsValid (opened s)
  unfolding opened
  opened-IsValid s = record {
    some_bucket = v.some_bucket;
    small = v.small;
    sized = length-set t.buckets next_index (reset_bucket s) ∙ v.sized;
    inside = grind (arith, v);
    summed =
        ap (λ c. subtract c steps.oldest.counter)
          (v.summed ∙ ap (λ bs. sum (counters bs)) steps.split)
        ∙ subtract-sum steps.oldest.counter (counters steps.others) split_fits.0
        ∙ sym (sum-append_reset (counters steps.others))
        ∙ ap sum (sym (map-append _ steps.others (reset_bucket s ∷ [])))
        ∙ ap (λ bs. sum (counters bs)) (sym (view-opened s));
    fits =
        subst (All BucketFits) (sym (view-opened s))
          (All-append BucketFits steps.others _ split_fits.1 (reset-Fits, tt));
  }

  -- One bucket is recycled.
  pub open_bucket_lem :
      (s : ℕ)
      → (t' : TimeWindow) × (open_bucket t next_index s ≡ some t')
        × IsValid t'
        × (view t' ≡ drop 1 (view t) ++ reset_bucket s ∷ [])
        × (t'.capacity ≡ t.capacity)
        × (t'.end_index ≡ next_index)
  unfolding opened
  open_bucket_lem s = (
    opened s,
    open_bucket-opened s,
    opened-IsValid s,
    view-opened s ∙ ap (λ bs. drop 1 bs ++ reset_bucket s ∷ []) (sym steps.split),
    refl,
    refl,
  )

  latest_entry : Latest t.end_index t.buckets
  latest_entry = latest_lem t.buckets t.end_index (omega (arith, v))

  recorded : WindowOutcome → TimeWindow
  recorded o = record t {
    buckets =
        set t.buckets t.end_index
          (record latest_entry.latest { counter = add latest_entry.latest.counter o });
    total = add t.total o;
  }

  split_latest : All BucketFits (latest_entry.others ++ latest_entry.latest ∷ [])
  split_latest = subst (All BucketFits) latest_entry.split v.fits

  latest-Fits : Fits latest_entry.latest.counter
  latest-Fits = (All-right BucketFits latest_entry.others _ split_latest).0

  sum-split :
      (b : Bucket)
      → sum (counters (latest_entry.others ++ b ∷ []))
        ≡ sum (counters latest_entry.others ++ b.counter ∷ [])
  sum-split b = ap sum (map-append _ latest_entry.others (b ∷ []))

  recorded-IsValid : (o : WindowOutcome) → IsValid (recorded o)
  unfolding recorded
  recorded-IsValid o = record {
    some_bucket = v.some_bucket;
    small = v.small;
    sized = length-set t.buckets t.end_index _ ∙ v.sized;
    inside = v.inside;
    summed =
        ap (λ c. add c o)
          (v.summed
            ∙ ap (λ bs. sum (counters bs)) latest_entry.split
            ∙ sum-split latest_entry.latest)
        ∙ sym (
            sum-append_add (counters latest_entry.others) latest_entry.latest.counter o latest-Fits)
        ∙ sym (sum-split _)
        ∙ ap (λ bs. sum (counters bs)) (sym (latest_entry.written _));
    fits = subst (All BucketFits) (sym (latest_entry.written _)) (
        All-append BucketFits latest_entry.others _
          (All-left BucketFits latest_entry.others _ split_latest)
          (add-Fits latest_entry.latest.counter o latest-Fits, tt));
  }

  -- The outcome is recorded in the latest bucket, which the pointer denotes.
  pub record_outcome_lem :
      (o : WindowOutcome)
      → (front : List Bucket) × (b : Bucket) × (t' : TimeWindow) × (view t ≡ front ++ b ∷ [])
        × (record_outcome o (t, t.end_index) ≡ some t')
        × IsValid t'
        × (view t' ≡ front ++ record b { counter = add b.counter o } ∷ [])
        × (t'.capacity ≡ t.capacity)
  unfolding recorded record_outcome
  record_outcome_lem o = (
    latest_entry.others,
    latest_entry.latest,
    recorded o,
    latest_entry.split,
    ground (arith, latest_entry.stands_at),
    recorded-IsValid o,
    latest_entry.written _,
    refl,
  )
