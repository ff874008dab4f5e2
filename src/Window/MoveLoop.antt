-- ===== src/Window/MoveLoop.antt =====
-- The loop of moveWindowToCurrentSecond: as many buckets are recycled as seconds have passed.
use mathlib.Core.List.{append_assoc}
use j_circuit_breaker.Base.{
  ℕ, zero, suc, ◌^◌, ◌<◌, ◌≡◌, refl, ap, ◌∙◌, true, List, [], ◌∷◌, ◌++◌, some, arith, length,
  length-drop, drop, drop-append_le, drop-drop_one, sub64, sle64, ◌>>=◌,
}
use j_circuit_breaker.Window.Time.{Bucket, TimeWindow, reset_bucket, open_bucket, move_loop}
use j_circuit_breaker.Window.Moves.{view, IsValid, length-view, next_index, open_bucket_lem}

-- New buckets for the last `m` seconds up to `now`.
abbrev pub fresh : ℕ → ℕ → List Bucket
fresh zero now = []
fresh (suc m) now = reset_bucket (sub64 now m) ∷ fresh m now

-- The loop ends when no second is left after this round.
pub move_loop_last :
    (fuel now seconds : ℕ) {t : TimeWindow} (v : IsValid t)
    → sle64 (sub64 seconds 1) 0 ≡ true
    → (t' : TimeWindow) × (move_loop (suc fuel) t now seconds ≡ some (t', t'.end_index))
      × IsValid t'
      × (view t' ≡ drop 1 (view t) ++ reset_bucket (sub64 now (sub64 seconds 1)) ∷ [])
      × (t'.capacity ≡ t.capacity)
unfolding move_loop
move_loop_last fuel now seconds {t} v last =
    let (t', opens, v', views, cap, end) = open_bucket_lem v (sub64 now (sub64 seconds 1)) in
    (t', ground (arith, v, opens, end), v', views, cap)

-- Otherwise it goes on.
move_loop_step :
    (fuel m now : ℕ) {t : TimeWindow} (v : IsValid t)
    → suc m < 2 ^ 63
    → move_loop (suc fuel) t now (suc (suc m))
      ≡ (open_bucket t (next_index v) (sub64 now (suc m)) >>= λ t'. move_loop fuel t' now (suc m))
unfolding move_loop
move_loop_step fuel m now {t} v small =
    let left : sub64 (suc (suc m)) 1 ≡ suc m = omega arith in rw left (ground (arith, v))

recycled :
    (n s : ℕ) (new bs : List Bucket)
    → n < length bs
    → drop n (drop 1 bs ++ reset_bucket s ∷ []) ++ new ≡ drop n (drop 1 bs) ++ reset_bucket s ∷ new
recycled n s new bs h =
    ap (λ xs. xs ++ new)
      (drop-append_le n (drop 1 bs) (reset_bucket s ∷ []) (omega (arith, length-drop 1 bs)))
    ∙ append_assoc (drop n (drop 1 bs)) (reset_bucket s ∷ []) new

-- `m + 1` seconds that lie within the window recycle `m + 1` buckets.
pub move_loop_lem :
    (fuel m now : ℕ) {t : TimeWindow} (v : IsValid t)
    → m < fuel
    → m < t.capacity
    → (t' : TimeWindow) × (move_loop fuel t now (suc m) ≡ some (t', t'.end_index))
      × IsValid t'
      × (view t' ≡ drop (suc m) (view t) ++ fresh (suc m) now)
      × (t'.capacity ≡ t.capacity)
move_loop_lem zero m now v f c = absurd (omega arith)
move_loop_lem (suc fuel) zero now v f c = move_loop_last fuel now 1 v refl
move_loop_lem (suc fuel) (suc m) now {t} v f c =
    let left : sub64 (suc (suc m)) 1 ≡ suc m = omega (arith, v) in
    let (t₁, opens, v₁, views₁, cap₁, end₁) = open_bucket_lem v (sub64 now (suc m)) in
    let (t₂, loops, v₂, views₂, cap₂) =
      move_loop_lem fuel m now v₁ (omega arith) (omega (arith, cap₁)) in
    (
      t₂,
      move_loop_step fuel m now v (omega (arith, v))
          ∙ ap (λ r. r >>= λ t'. move_loop fuel t' now (suc m)) opens
          ∙ loops,
      v₂,
      views₂
          ∙ ap (λ bs. drop (suc m) bs ++ fresh (suc m) now) views₁
          ∙ recycled (suc m) (sub64 now (suc m)) (fresh (suc m) now) (view t)
              (omega (arith, length-view v))
          ∙ ap (λ bs. bs ++ fresh (suc (suc m)) now) (drop-drop_one m (view t)),
      cap₂ ∙ cap₁,
    )
