-- ===== src/Window/LastSeconds.antt =====
-- The time window (Window/Time) against the list of all calls that it was told of, with their times. The
-- clock does not go back here; Window/Behind has the other case.
use mathlib.Core.List.{append-nil, append_assoc}
use j_circuit_breaker.Base.{
  ℕ, zero, suc, ◌^◌, ◌≤◌, ◌<◌, ◌≡◌, refl, sym, ap, ap₂, subst, ◌∙◌, List, [], ◌∷◌, ◌++◌, Option,
  some, arith, length, sub64, ◌>>=◌, All,
}
use j_circuit_breaker.Window.{new_snapshot}
use j_circuit_breaker.Window.Ring.{drop-length, take-length}
use j_circuit_breaker.Window.Tally.{tally, tally-nil, tally-Fits, sum}
use j_circuit_breaker.Window.Time.{TimeWindow, fill_buckets, new_time_window, update, get_snapshot}
use j_circuit_breaker.Window.Moves.{view, counters, BucketFits}
use j_circuit_breaker.Window.Seconds.{
  Call, pick, within, seconds, fill_buckets-seconds, sum-seconds,
}
use j_circuit_breaker.Window.Records.{Records, update-Records, get_snapshot-Records}

length-seconds : (n s : ℕ) (h : List Call) → length (seconds n s h) ≡ n
length-seconds zero s h = refl
length-seconds (suc n) s h = ap suc (length-seconds n s h)

seconds-Fits : (n s : ℕ) (h : List Call) → All BucketFits (seconds n s h)
seconds-Fits zero s h = tt
seconds-Fits (suc n) s h = (tally-Fits _, seconds-Fits n s h)

module _ (n now : ℕ) (pos : 0 < n) (small : n < 2 ^ 32) (room : n ≤ now) (fit : now < 2 ^ 63) where
  made : fill_buckets n now [] ≡ seconds n now []
  made = fill_buckets-seconds n now [] room (omega arith) ∙ append-nil (seconds n now [])

  view-new : view (new_time_window n now) ≡ seconds n now []
  unfolding new_time_window
  view-new =
      ap₂ ◌++◌ (drop-length _ (suc (sub64 n 1)) sizes) (take-length _ (suc (sub64 n 1)) sizes)
      ∙ made
    where
      sizes : suc (sub64 n 1) ≡ length (fill_buckets n now [])
      sizes = omega (arith, ap length made, length-seconds n now [])

  -- A window that has just been made holds no call.
  pub new-Records : Records n (new_time_window n now) now []
  unfolding new_time_window
  new-Records = record {
    valid = record {
      some_bucket = pos;
      small = small;
      sized = ap length made ∙ length-seconds n now [];
      inside = omega arith;
      summed = sym (
          ap (λ bs. sum (counters bs)) view-new
          ∙ sum-seconds n now [] (omega arith)
          ∙ (unfold pick in tally-nil));
      fits = subst (All BucketFits) (sym view-new) (seconds-Fits n now []);
    };
    capacity = refl;
    past = tt;
    held = view-new;
    room = room;
    range = fit;
  }

-- The window after a list of calls.
unfoldable pub run : TimeWindow → List Call → Option TimeWindow
run t [] = some t
run t ((now, o) ∷ h) = update t now o >>= λ (t', _). run t' h

-- The times of the calls do not go back, from `s` on.
abbrev pub From : ℕ → List Call → Type 0
From s [] = Unit
From s ((now, o) ∷ h) = (s ≤ now) × (now < 2 ^ 63) × From now h

-- The second of the last call.
abbrev pub last_second : ℕ → List Call → ℕ
last_second s [] = s
last_second s ((now, o) ∷ h) = last_second now h

run_after-Records :
    {n : ℕ} (s : ℕ) {t : TimeWindow} (before h : List Call)
    → Records n t s before
    → From s h
    → (t' : TimeWindow) × (run t h ≡ some t') × Records n t' (last_second s h) (before ++ h)
unfolding run
run_after-Records {n} s {t} before [] r from = (t, refl, rw (append-nil before) r)
run_after-Records {n} s {t} before ((now, o) ∷ h) r from =
    let (t₁, e, r₁) = update-Records r now from.0 from.1 o in
    let (t₂, e₂, r₂) = run_after-Records now (before ++ (now, o) ∷ []) h r₁ from.2 in
    (t₂, rw e e₂, rw (append_assoc before ((now, o) ∷ []) h) at r₂)

-- A window of `n` seconds that is made in the second `start` and told of any calls whose times do not go
-- back never panics, and a snapshot taken at `now`, which is no earlier than the last call, is that of
-- the tally of the calls of the last `n` seconds.
pub run-last_seconds :
    (n start now : ℕ) (h : List Call)
    → 0 < n
    → n < 2 ^ 32
    → n ≤ start
    → start < 2 ^ 63
    → From start h
    → last_second start h ≤ now
    → now < 2 ^ 63
    → (t t' : TimeWindow) × (run (new_time_window n start) h ≡ some t)
      × (get_snapshot t now ≡ some (t', new_snapshot (tally (within n now h))))
run-last_seconds n start now h pos small room fit from last fits =
    let (t, e, r) = run_after-Records start [] h (new-Records n start pos small room fit) from in
    let (t', e', r') = get_snapshot-Records r now last fits in (t, t', e, e')
