-- ===== src/Window/Seconds.antt =====
-- What the time window should hold: for each of the last seconds the tally of that second's outcomes.
use mathlib.Core.List.{append-nil, append_assoc}
use j_circuit_breaker.Base.{
  ℕ, zero, suc, ◌+◌, ◌-◌, ◌^◌, ◌≤◌, ◌<◌, ◌≡◌, refl, sym, ap, ap₂, ◌∙◌, Bool, false, ◌&&◌, ◌||◌,
  List, [], ◌∷◌, ◌++◌, arith, All, drop, sub64, ltb, leb, ◌==◌, if◌then◌else◌,
}
use j_circuit_breaker.Window.{WindowOutcome, add}
use j_circuit_breaker.Window.Tally.{
  tally, tally-nil, tally-snoc, plus, plus_assoc, plus_comm, plus-tally, sum,
}
use j_circuit_breaker.Window.Time.{Bucket, reset_bucket, fill_buckets}
use j_circuit_breaker.Window.Moves.{counters}
use j_circuit_breaker.Window.MoveLoop.{fresh}

-- A finished call: the second in which it ended and its outcome.
abbrev pub Call : Type 0
Call = ℕ × WindowOutcome

-- The outcomes of the calls in the seconds that `p` picks.
unfoldable pub pick : (ℕ → Bool) → List Call → List WindowOutcome
pick p [] = []
pick p ((u, o) ∷ h) = let rest = pick p h in if p u then o ∷ rest else rest

-- The outcomes of the `n` seconds up to `s`.
abbrev pub within : ℕ → ℕ → List Call → List WindowOutcome
within n s = pick λ u. ltb s (u + n) && leb u s

abbrev pub bucket_of : ℕ → List Call → Bucket
bucket_of s h = record { counter = tally (pick (λ u. u == s) h); start_time = s }

-- The buckets of the `n` seconds up to `s`, oldest first.
abbrev pub seconds : ℕ → ℕ → List Call → List Bucket
seconds zero s h = []
seconds (suc n) s h = bucket_of (s - n) h ∷ seconds n s h

abbrev pub UpTo : ℕ → List Call → Type 0
UpTo s = All λ c. c.0 ≤ s

pub drop-seconds : (j n s : ℕ) (h : List Call) → drop j (seconds n s h) ≡ seconds (n - j) s h
drop-seconds zero n s h = ap (λ k. seconds k s h) (omega arith)
drop-seconds (suc j) zero s h = ap (λ k. seconds k s h) {x = 0} (omega arith)
drop-seconds (suc j) (suc n) s h = drop-seconds j n s h ∙ ap (λ k. seconds k s h) (omega arith)

pub seconds-append :
    (a b s e : ℕ) (h : List Call)
    → e ≡ s + b
    → a ≤ suc s
    → seconds a s h ++ seconds b e h ≡ seconds (a + b) e h
seconds-append zero b s e h p q = ap (λ k. seconds k e h) (omega arith)
seconds-append (suc a) b s e h p q =
    let start : s - a ≡ e - (a + b) = omega arith in
    let more : suc a + b ≡ suc (a + b) = omega arith in
    rw (more, start)
      (ap (λ bs. bucket_of (e - (a + b)) h ∷ bs) (seconds-append a b s e h p (omega arith)))

pick_later : (u s : ℕ) (h : List Call) → UpTo s h → s < u → pick (λ v. v == u) h ≡ []
unfolding pick
pick_later u s [] all lt = refl
pick_later u s ((v, o) ∷ h) all lt = ground (arith, pick_later u s h all.1 lt, all.0)

bucket_of_later : (u s : ℕ) (h : List Call) → UpTo s h → s < u → bucket_of u h ≡ reset_bucket u
bucket_of_later u s h all lt =
    ap (λ os. record { counter = tally os; start_time = u }) (pick_later u s h all lt)
    ∙ ap (λ c. record { counter = c; start_time = u }) tally-nil

-- Seconds in which no call has ended yet.
pub fresh-seconds :
    (m now s : ℕ) (h : List Call)
    → UpTo s h
    → s + m ≤ now
    → now < 2 ^ 64
    → fresh m now ≡ seconds m now h
fresh-seconds zero now s h all le fit = refl
fresh-seconds (suc m) now s h all le fit =
    let start : sub64 now m ≡ now - m = omega arith in
    rw start (
      ap₂ ◌∷◌ (sym (bucket_of_later (now - m) s h all (omega arith)))
        (fresh-seconds m now s h all (omega arith) fit))

pub pick-snoc :
    (p : ℕ → Bool) (h : List Call) (u : ℕ) (o : WindowOutcome)
    → pick p (h ++ (u, o) ∷ []) ≡ pick p h ++ (if p u then o ∷ [] else [])
unfolding pick
pick-snoc p [] u o = refl
pick-snoc p ((v, x) ∷ h) u o = ground (arith, pick-snoc p h u o)

-- A call of the present second leaves the earlier seconds alone.
pub seconds_earlier :
    (n s u : ℕ) (o : WindowOutcome) (h : List Call)
    → s < u
    → seconds n s (h ++ (u, o) ∷ []) ≡ seconds n s h
seconds_earlier zero s u o h lt = refl
seconds_earlier (suc n) s u o h lt = ap₂ ◌∷◌ same (seconds_earlier n s u o h lt)
  where
    same : bucket_of (s - n) (h ++ (u, o) ∷ []) ≡ bucket_of (s - n) h
    same =
        ap (λ os. record { counter = tally os; start_time = s - n })
          (pick-snoc (λ v. v == s - n) h u o
            ∙ ground (arith, append-nil (pick (λ v. v == s - n) h)))

-- It is added to its own.
pub bucket_of-snoc :
    (s : ℕ) (o : WindowOutcome) (h : List Call)
    → bucket_of s (h ++ (s, o) ∷ [])
      ≡ record { counter = add (bucket_of s h).counter o; start_time = s }
bucket_of-snoc s o h =
    ap (λ os. record { counter = tally os; start_time = s }) (pick-snoc (λ v. v == s) h s o ∙ hit)
    ∙ ap (λ c. record { counter = c; start_time = s }) (tally-snoc (pick (λ v. v == s) h) o)
  where
    hit : pick (λ v. v == s) h ++ (if s == s then o ∷ [] else []) ≡ pick (λ v. v == s) h ++ o ∷ []
    hit = ground arith

pub UpTo-mono : {s u : ℕ} (h : List Call) → s ≤ u → UpTo s h → UpTo u h
UpTo-mono [] le all = tt
UpTo-mono (c ∷ h) le all = (omega (arith, all.0), UpTo-mono h le all.1)

-- The buckets of a window that has just been made.
pub fill_buckets-seconds :
    (n now : ℕ) (made : List Bucket)
    → n ≤ now
    → now < 2 ^ 64
    → fill_buckets n now made ≡ seconds n now [] ++ made
unfolding fill_buckets
fill_buckets-seconds zero now made le fit = refl
fill_buckets-seconds (suc n) now made le fit =
    ap (λ u. fill_buckets n u (reset_bucket now ∷ made)) before
    ∙ fill_buckets-seconds n (now - 1) (reset_bucket now ∷ made) (omega arith) (omega arith)
    ∙ ap (λ b. seconds n (now - 1) [] ++ b ∷ made)
        (sym (bucket_of_later now 0 [] tt (omega arith))
          ∙ ap (λ u. bucket_of u []) {y = now - 0} (omega arith))
    ∙ sym (append_assoc (seconds n (now - 1) []) (seconds 1 now []) made)
    ∙ ap (λ bs. bs ++ made)
        (seconds-append n 1 (now - 1) now [] (omega arith) (omega arith)
          ∙ ap (λ k. seconds k now []) {y = suc n} (omega arith))
  where
    before : sub64 now 1 ≡ now - 1
    before = omega arith

tally-cons :
    (o : WindowOutcome) (os : List WindowOutcome)
    → tally (o ∷ os) ≡ plus (tally (o ∷ [])) (tally os)
tally-cons o os = sym (plus-tally (o ∷ []) os)

plus_left :
    (o : WindowOutcome) (os ps qs : List WindowOutcome)
    → plus (tally os) (tally ps) ≡ tally qs
    → plus (tally (o ∷ os)) (tally ps) ≡ tally (o ∷ qs)
plus_left o os ps qs e =
    ap (λ c. plus c (tally ps)) (tally-cons o os)
    ∙ plus_assoc (tally (o ∷ [])) (tally os) (tally ps)
    ∙ ap (plus (tally (o ∷ []))) e
    ∙ sym (tally-cons o qs)

plus_right :
    (o : WindowOutcome) (os ps qs : List WindowOutcome)
    → plus (tally os) (tally ps) ≡ tally qs
    → plus (tally os) (tally (o ∷ ps)) ≡ tally (o ∷ qs)
plus_right o os ps qs e =
    plus_comm (tally os) (tally (o ∷ ps))
    ∙ plus_left o ps os qs (plus_comm (tally ps) (tally os) ∙ e)

-- Tallies over seconds that do not overlap add up.
plus-pick :
    (p q r : ℕ → Bool) (h : List Call)
    → ((u : ℕ) → r u ≡ (p u || q u))
    → ((u : ℕ) → (p u && q u) ≡ false)
    → plus (tally (pick p h)) (tally (pick q h)) ≡ tally (pick r h)
unfolding pick
plus-pick p q r [] both apart = plus-tally [] []
plus-pick p q r ((u, o) ∷ h) both apart =
    let rest = plus-pick p q r h both apart in
    ground (
      arith,
      both u,
      apart u,
      rest,
      plus_left o (pick p h) (pick q h) (pick r h) rest,
      plus_right o (pick p h) (pick q h) (pick r h) rest,
    )

pick_none : (p : ℕ → Bool) (h : List Call) → ((u : ℕ) → p u ≡ false) → pick p h ≡ []
unfolding pick
pick_none p [] never = refl
pick_none p ((u, o) ∷ h) never = ground (arith, never u, pick_none p h never)

-- The counters of the last `n` seconds add up to the tally of their calls.
pub sum-seconds :
    (n s : ℕ) (h : List Call) → n ≤ suc s → sum (counters (seconds n s h)) ≡ tally (within n s h)
unfolding sum
sum-seconds zero s h le = sym tally-nil ∙ ap tally (sym (pick_none _ h (λ u. ground arith)))
sum-seconds (suc n) s h le =
    ap (plus (tally (pick (λ v. v == s - n) h))) (sum-seconds n s h (omega arith))
    ∙ plus-pick _ _ _ h (λ u. ground arith) (λ u. ground arith)
