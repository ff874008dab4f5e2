-- ===== src/Window/Tally.antt =====
-- What a window should hold: the number of calls, of errors and of timeouts among a list of outcomes.
-- Sums of counters connect it with the totals that the windows maintain.
use j_circuit_breaker.Base.{
  ℕ, suc, ◌+◌, ◌%◌, ◌^◌, ◌≤◌, ◌<◌, ◌≡◌, refl, sym, ap, ◌∙◌, Bool, true, false, List, [], ◌∷◌, ◌++◌,
  map, drop, replicate, zero, ◌-◌, arith, length, length-append, add64, if◌then◌else◌,
}
use j_circuit_breaker.Window.{
  WindowOutcome, success_outcome, error_outcome, timeout_success_outcome, timeout_error_outcome,
  Counter, reset, add, subtract,
}

abbrev pub is_error : WindowOutcome → Bool
is_error error_outcome = true
is_error timeout_error_outcome = true
is_error _ = false

abbrev pub is_timeout : WindowOutcome → Bool
is_timeout timeout_success_outcome = true
is_timeout timeout_error_outcome = true
is_timeout _ = false

pub count_of : (WindowOutcome → Bool) → List WindowOutcome → ℕ
count_of p [] = 0
count_of p (o ∷ os) = if p o then suc (count_of p os) else count_of p os

-- The counter of a list of outcomes: its length, its errors and its timeouts.
abbrev pub tally : List WindowOutcome → Counter
tally os = record {
  total_count = length os % 2 ^ 64;
  error_count = count_of is_error os % 2 ^ 64;
  timeout_count = count_of is_timeout os % 2 ^ 64;
}

pub count_of-append :
    (p : WindowOutcome → Bool) (os ps : List WindowOutcome)
    → count_of p (os ++ ps) ≡ count_of p os + count_of p ps
unfolding count_of
count_of-append p [] ps = omega arith
count_of-append p (o ∷ os) ps = ground (arith, count_of-append p os ps)

pub count_of-le : (p : WindowOutcome → Bool) (os : List WindowOutcome) → count_of p os ≤ length os
unfolding count_of
count_of-le p [] = omega arith
count_of-le p (o ∷ os) = ground (arith, count_of-le p os)

-- The fields of a counter are int64 bit patterns.
pub record Fits (c : Counter) : Type 0 where
  pub total : c.total_count < 2 ^ 64
  pub errors : c.error_count < 2 ^ 64
  pub timeouts : c.timeout_count < 2 ^ 64

unfoldable pub plus : Counter → Counter → Counter
plus c d = record {
  total_count = add64 c.total_count d.total_count;
  error_count = add64 c.error_count d.error_count;
  timeout_count = add64 c.timeout_count d.timeout_count;
}

unfoldable pub sum : List Counter → Counter
sum [] = reset
sum (c ∷ cs) = plus c (sum cs)

pub sum-Fits : (cs : List Counter) → Fits (sum cs)
unfolding sum plus
sum-Fits [] = omega arith
sum-Fits (c ∷ cs) = omega arith

pub reset-Fits : Fits reset
reset-Fits = omega arith

pub add-Fits : (c : Counter) (o : WindowOutcome) → Fits c → Fits (add c o)
unfolding add
add-Fits c success_outcome f = omega arith
add-Fits c error_outcome f = omega arith
add-Fits c timeout_success_outcome f = omega arith
add-Fits c timeout_error_outcome f = omega arith

pub plus_assoc : (a b c : Counter) → plus (plus a b) c ≡ plus a (plus b c)
unfolding plus
plus_assoc a b c = ground arith

pub plus_comm : (a b : Counter) → plus a b ≡ plus b a
unfolding plus
plus_comm a b = ground arith

pub plus-reset : (a : Counter) → Fits a → plus a reset ≡ a
unfolding plus
plus-reset a f = ground arith

pub reset-plus : (a : Counter) → Fits a → plus reset a ≡ a
unfolding plus
reset-plus a f = ground arith

pub subtract-plus : (a b : Counter) → Fits a → Fits b → subtract (plus a b) a ≡ b
unfolding subtract plus
subtract-plus a b f g = ground arith

pub sum-append : (cs ds : List Counter) → sum (cs ++ ds) ≡ plus (sum cs) (sum ds)
unfolding sum
sum-append [] ds = sym (reset-plus (sum ds) (sum-Fits ds))
sum-append (c ∷ cs) ds = ap (plus c) (sum-append cs ds) ∙ sym (plus_assoc c (sum cs) (sum ds))

-- What leaves the window as its oldest entry leaves the total.
pub subtract-sum : (c : Counter) (cs : List Counter) → Fits c → subtract (sum (c ∷ cs)) c ≡ sum cs
unfolding sum
subtract-sum c cs f = subtract-plus c (sum cs) f (sum-Fits cs)

pub sum-append_reset : (cs : List Counter) → sum (cs ++ reset ∷ []) ≡ sum cs
unfolding sum
sum-append_reset cs =
    sum-append cs (reset ∷ [])
    ∙ ap (plus (sum cs)) (plus-reset reset reset-Fits)
    ∙ plus-reset (sum cs) (sum-Fits cs)

add-plus : (a b : Counter) (o : WindowOutcome) → plus a (add b o) ≡ add (plus a b) o
unfolding plus add
add-plus a b success_outcome = ground arith
add-plus a b error_outcome = ground arith
add-plus a b timeout_success_outcome = ground arith
add-plus a b timeout_error_outcome = ground arith

-- An outcome recorded in the latest entry and in the total keeps them in step.
pub sum-append_add :
    (cs : List Counter) (c : Counter) (o : WindowOutcome)
    → Fits c
    → sum (cs ++ add c o ∷ []) ≡ add (sum (cs ++ c ∷ [])) o
unfolding sum
sum-append_add cs c o f =
    sum-append cs (add c o ∷ [])
    ∙ ap (plus (sum cs))
        (plus-reset (add c o) (add-Fits c o f) ∙ ap (λ d. add d o) (sym (plus-reset c f)))
    ∙ add-plus (sum cs) (plus c reset) o
    ∙ ap (λ d. add d o) (sym (sum-append cs (c ∷ [])))

-- The tallies of two lists make up that of both.
pub plus-tally : (os ps : List WindowOutcome) → plus (tally os) (tally ps) ≡ tally (os ++ ps)
unfolding plus
plus-tally os ps =
    ground
      (arith, length-append os ps, count_of-append is_error os ps, count_of-append is_timeout os ps)

tally-one : (o : WindowOutcome) → tally (o ∷ []) ≡ add reset o
unfolding add count_of
tally-one success_outcome = refl
tally-one error_outcome = refl
tally-one timeout_success_outcome = refl
tally-one timeout_error_outcome = refl

pub tally-nil : tally [] ≡ reset
unfolding count_of
tally-nil = refl

pub tally-Fits : (os : List WindowOutcome) → Fits (tally os)
tally-Fits os = omega arith

-- Recording one more outcome.
pub tally-snoc :
    (os : List WindowOutcome) (o : WindowOutcome) → tally (os ++ o ∷ []) ≡ add (tally os) o
tally-snoc os o =
    sym (plus-tally os (o ∷ []))
    ∙ ap (plus (tally os)) (tally-one o)
    ∙ add-plus (tally os) reset o
    ∙ ap (λ d. add d o) (plus-reset (tally os) (tally-Fits os))

-- The counter of an entry that holds one call.
abbrev pub single : WindowOutcome → Counter
single o = add reset o

pub sum-singles : (os : List WindowOutcome) → sum (map single os) ≡ tally os
unfolding sum
sum-singles [] = sym tally-nil
sum-singles (o ∷ os) =
    ap (plus (single o)) (sum-singles os)
    ∙ ap (λ c. plus c (tally os)) (sym (tally-one o))
    ∙ plus-tally (o ∷ []) os

sum-drop_singles :
    (m : ℕ) (os : List WindowOutcome) → sum (drop m (map single os)) ≡ tally (drop m os)
sum-drop_singles zero os = sum-singles os
sum-drop_singles (suc m) [] = unfold sum in sym tally-nil
sum-drop_singles (suc m) (o ∷ os) = sum-drop_singles m os

-- What remains of unused entries followed by one entry for each call.
pub sum-drop :
    (m n k : ℕ) (os : List WindowOutcome)
    → k ≡ m - n
    → sum (drop m (replicate n reset ++ map single os)) ≡ tally (drop k os)
unfolding sum
sum-drop m zero k os e = let e' : k ≡ m = omega arith in rw e' (sum-drop_singles m os)
sum-drop zero (suc n) k os e =
    reset-plus _ (sum-Fits (replicate n reset ++ map single os))
    ∙ sum-drop zero n k os (omega arith)
sum-drop (suc m) (suc n) k os e = sum-drop m n k os (omega arith)

-- Replacing the oldest entry by a new one for the outcome, in the total.
pub sum-slide :
    (c : Counter) (cs : List Counter) (o : WindowOutcome)
    → Fits c
    → add (subtract (sum (c ∷ cs)) c) o ≡ sum (cs ++ single o ∷ [])
sum-slide c cs o f =
    ap (λ d. add d o) (subtract-sum c cs f ∙ sym (sum-append_reset cs))
    ∙ sym (sum-append_add cs reset o reset-Fits)
