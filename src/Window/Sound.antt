-- ===== src/Window/Sound.antt =====
-- iWindowMetric: when a window, of either kind, is well-formed, and what an update and a snapshot leave.
use j_circuit_breaker.Base.{
  ℕ, suc, ◌^◌, ◌-◌, ◌∙◌, ◌≤◌, ◌<◌, ◌≡◌, refl, List, ◌∷◌, [], ◌++◌, some, arith,
}
use j_circuit_breaker.Window.{WindowOutcome, WindowSnapshot, new_snapshot}
use j_circuit_breaker.Window.Count.{new_count_window}
use j_circuit_breaker.Window.LastCalls.{Holds, new-Holds, update-Holds}
use j_circuit_breaker.Window.Time.{TimeWindow, new_time_window}
use j_circuit_breaker.Window.Records.{Records, seconds-split}
use j_circuit_breaker.Window.LastSeconds.{new-Records}
use j_circuit_breaker.Window.Seconds.{Call, seconds, bucket_of}
use j_circuit_breaker.Window.Total.{Ready, Ready-mono, update-Ready, get_snapshot-Ready}
use j_circuit_breaker.Window.Metric.{WindowMetric, count_metric, time_metric, update, get_snapshot}

-- Either kind of window is well-formed; a time window has no bucket that starts after the second `k`.
abbrev pub IsSound : ℕ → WindowMetric → Type 0
IsSound k (count_metric c) = (n : ℕ) × (os : List WindowOutcome) × Holds n c os
IsSound k (time_metric t) = Ready k t

pub IsSound-mono : {k n : ℕ} (w : WindowMetric) → k ≤ n → IsSound k w → IsSound n w
IsSound-mono (count_metric c) le s = s
IsSound-mono (time_metric t) le s = Ready-mono le s

pub update-IsSound :
    {k : ℕ} (w : WindowMetric) (now : ℕ) (o : WindowOutcome)
    → now ≤ k
    → k < 2 ^ 63
    → IsSound k w
    → (w' : WindowMetric) × (snapshot : WindowSnapshot) × (update w now o ≡ some (w', snapshot))
      × IsSound (suc k) w'
unfolding update
update-IsSound (count_metric c) now o le fit (n, os, h) =
    let (c', e, h') = update-Holds h o in
    (count_metric c', new_snapshot c'.total, ground (arith, e), (n, os ++ o ∷ [], h'))
update-IsSound (time_metric t) now o le fit r =
    let (t', e, r') = update-Ready r now le fit o in
    (time_metric t', new_snapshot t'.total, ground (arith, e), r')

pub get_snapshot-IsSound :
    {k : ℕ} (w : WindowMetric) (now : ℕ)
    → now ≤ k
    → k < 2 ^ 63
    → IsSound k w
    → (w' : WindowMetric) × (snapshot : WindowSnapshot) × (get_snapshot w now ≡ some (w', snapshot))
      × IsSound (suc k) w'
unfolding get_snapshot
get_snapshot-IsSound (count_metric c) now le fit s = (count_metric c, _, refl, s)
get_snapshot-IsSound (time_metric t) now le fit r =
    let (t', e, r') = get_snapshot-Ready r now le fit in
    (time_metric t', new_snapshot t'.total, ground (arith, e), r')

pub count-IsSound : (k n : ℕ) → 0 < n → n < 2 ^ 32 → IsSound k (count_metric (new_count_window n))
count-IsSound k n pos small = (n, [], new-Holds n pos small)

pub Records-Ready :
    {k n : ℕ} {t : TimeWindow} {s : ℕ} {h : List Call} → s ≤ k → Records n t s h → Ready k t
Records-Ready {n} {s} {h} le r = record {
  valid = r.valid;
  front = seconds (n - 1) (s - 1) h;
  latest = bucket_of s h;
  ends = r.held ∙ seconds-split n s h (omega (arith, r.valid, r.capacity)) r.room;
  starts = le;
}

pub time-IsSound :
    (k n now : ℕ)
    → 0 < n
    → n < 2 ^ 32
    → n ≤ now
    → now ≤ k
    → k < 2 ^ 63
    → IsSound k (time_metric (new_time_window n now))
time-IsSound k n now pos small room le fit =
    Records-Ready le (new-Records n now pos small room (omega arith))
