-- ===== src/Window/Float/Rounding.antt =====
-- Bounds on what the float64 arithmetic of window.go's percentages rounds to, and when it is exact.
use j_circuit_breaker.Base.{
  ℕ, zero, suc, ◌≡◌, ◌≤◌, ◌<◌, ◌⊎◌, ◌+◌, ◌-◌, ◌*◌, ◌/◌, ◌%◌, ◌^◌, refl, sym, ap, ap₂, ◌∙◌, subst,
  true, false, ◌==◌, arith, Bool-cases, inl, inr, if◌then◌else◌, slt64,
}
use native.Mathlib.Nat.{
  div-le_of_le-mul, div-add-mod, mul_comm, mul_assoc, mul-le-mul, mul-le-mul_right, pow-suc,
  mul-le-mul_left, mul-suc, mul-pos,
}
use j_circuit_breaker.Window.Float.{
  Float64, round, round_quotient, doublings, halvings, of_int64, divide, multiply, to_int, xor,
}

halvings_zero : (fuel n d : ℕ) → n < d * 2 ^ 53 → halvings fuel n d ≡ 0
unfolding halvings
halvings_zero zero n d h = refl
halvings_zero (suc fuel) n d h = ground (arith, h)

split_lt : (a b : ℕ) → a ≤ b → (a < b) ⊎ (a ≡ b)
split_lt a b h = omega (arith, h)

-- A quotient that is at most `c` is rounded to at most `c`.
round_quotient-le : (c n d : ℕ) → 0 < d → n ≤ d * c → round_quotient n d ≤ c
unfolding round_quotient
round_quotient-le c n d pos h =
    let q : n / d ≤ c = div-le_of_le-mul d h in
    elim (split_lt (n / d) c q) [
      | inl lt ↦ ground (arith, lt)
      | inr same ↦
          let whole : d * (n / d) ≡ d * c = ap (λ t. d * t) same in
          let none_left : n % d ≡ 0 = omega (arith, div-add-mod n d, whole, h) in
          ground (arith, none_left, same, pos)
    ]

round_quotient_one : (n : ℕ) → round_quotient n 1 ≡ n
unfolding round_quotient
round_quotient_one n = ground (arith)

pow_pos : (k : ℕ) → 0 < 2 ^ k
pow_pos zero = omega arith
pow_pos (suc k) = omega (arith, pow_pos k, pow-suc 2 k)

-- The float is the fraction, or 0.
abbrev pub AtMost : ℕ → Float64 → Type 0
AtMost c x = (x.neg ≡ false) × (x.num ≤ 2 ^ x.shift * c)

-- Without a halving, the fraction is rounded at its number of doublings.
rounded : ℕ → ℕ → ℕ → Float64
rounded n d k = record {
  neg = false;
  num = round_quotient (n * 2 ^ k) (d * 2 ^ 0) * 2 ^ 0;
  shift = k;
}

round_lem :
    (n d : ℕ)
    → (n == 0) ≡ false
    → halvings 128 n d ≡ 0
    → round false n d ≡ rounded n d (doublings 128 n d)
unfolding round rounded
round_lem n d e j =
    ap
      (λ b. if b then record { neg = false; num = 0; shift = 0 } else record {
        neg = false;
        num =
            round_quotient (n * 2 ^ doublings 128 n d) (d * 2 ^ halvings 128 n d)
            * 2 ^ halvings 128 n d;
        shift = doublings 128 n d;
      })
      e
    ∙ ap
        (λ j. record {
          neg = false;
          num = round_quotient (n * 2 ^ doublings 128 n d) (d * 2 ^ j) * 2 ^ j;
          shift = doublings 128 n d;
        })
        j

round_zero :
    (n d : ℕ) → (n == 0) ≡ true → round false n d ≡ record { neg = false; num = 0; shift = 0 }
unfolding round
round_zero n d e = rw (e, round) refl

le_mul : (c n d : ℕ) → 0 < d → n ≤ d * c → c < 2 ^ 53 → n < d * 2 ^ 53
le_mul c n d pos h small =
    let grow : d * suc c ≤ d * 2 ^ 53 = mul-le-mul_left d (omega (arith, small)) in
    omega (arith, h, grow, mul-suc d c, pos)

swapped : (a b c : ℕ) → a * b * c ≡ a * (c * b)
swapped a b c = mul_assoc a b c ∙ ap (λ t. a * t) (mul_comm b c)

times_one : (d : ℕ) → d * 2 ^ 0 ≡ d
times_one d = omega arith

rounded-AtMost : (c n d k : ℕ) → 0 < d → n ≤ d * c → AtMost c (rounded n d k)
unfolding rounded
rounded-AtMost c n d k pos h =
    let scaled : n * 2 ^ k ≤ d * 2 ^ 0 * (2 ^ k * c) = omega (
      arith,
      mul-le-mul_right (2 ^ k) h,
      swapped d c (2 ^ k),
      ap (λ t. t * (2 ^ k * c)) (times_one d),
    ) in
    (
      refl,
      omega (
        arith,
        round_quotient-le (2 ^ k * c) (n * 2 ^ k) (d * 2 ^ 0) (omega (arith, pos)) scaled,
      ),
    )

-- A fraction that is at most `c` is rounded to at most `c`.
round-AtMost : (c n d : ℕ) → 0 < d → n ≤ d * c → c < 2 ^ 53 → AtMost c (round false n d)
round-AtMost c n d pos h small = elim (Bool-cases (n == 0)) [
  | inl e ↦ subst (AtMost c) (sym (round_zero n d e)) (refl, omega arith)
  | inr e ↦
      let j = halvings_zero 128 n d (le_mul c n d pos h small) in
      subst (AtMost c) (sym (round_lem n d e j)) (rounded-AtMost c n d (doublings 128 n d) pos h)
]

-- The float is the number `a`, exactly.
abbrev pub Exactly : ℕ → Float64 → Type 0
Exactly a x = (x.neg ≡ false) × (x.num ≡ a * 2 ^ x.shift)

rounded-Exactly : (a k : ℕ) → Exactly a (rounded a 1 k)
unfolding rounded
rounded-Exactly a k = (refl, omega (arith, round_quotient_one (a * 2 ^ k)))

nonneg : (a : ℕ) → a < 2 ^ 53 → slt64 a 0 ≡ false
nonneg a small = ground (arith, small)

is_zero : (a : ℕ) → (a == 0) ≡ true → 0 ≡ a * 2 ^ 0
is_zero a e = ground (arith, e)

of_int64_lem : (a : ℕ) → a < 2 ^ 53 → of_int64 a ≡ round false a 1
unfolding of_int64
of_int64_lem a small =
    ap (λ b. if b then round true (2 ^ 64 - a) 1 else round false a 1) (nonneg a small)

-- An int64 below 2 ^ 53 is a float64.
pub of_int64-Exactly : (a : ℕ) → a < 2 ^ 53 → Exactly a (of_int64 a)
of_int64-Exactly a small =
    subst (Exactly a) (sym (of_int64_lem a small)) (elim (Bool-cases (a == 0)) [
      | inl e ↦ subst (Exactly a) (sym (round_zero a 1 e)) (refl, is_zero a e)
      | inr e ↦
          subst (Exactly a) (sym (round_lem a 1 e (halvings_zero 128 a 1 (omega (arith, small)))))
            (rounded-Exactly a (doublings 128 a 1))
    ])

pow_add : (a b : ℕ) → 2 ^ (a + b) ≡ 2 ^ a * 2 ^ b
pow_add a zero = ap (λ t. 2 ^ t) {y = a} (omega arith) ∙ sym (times_one (2 ^ a))
pow_add a (suc b) =
    ap (λ t. 2 ^ t) {y = suc (a + b)} (omega arith)
    ∙ pow-suc 2 (a + b)
    ∙ ap (λ t. t * 2) (pow_add a b)
    ∙ mul_assoc (2 ^ a) (2 ^ b) 2
    ∙ ap (λ t. 2 ^ a * t) (sym (pow-suc 2 b))

-- A quotient of numbers of which the first is not greater is at most 1.
pub divide-AtMost :
    (p w : ℕ) (x y : Float64) → 0 < w → p ≤ w → Exactly p x → Exactly w y → AtMost 1 (divide x y)
unfolding divide
divide-AtMost p w x y pos le ex ey =
    let n = x.num * 2 ^ y.shift in
    let d = y.num * 2 ^ x.shift in
    let top : n ≡ p * 2 ^ x.shift * 2 ^ y.shift = ap (λ t. t * 2 ^ y.shift) ex.1 in
    let bottom : d ≡ w * (2 ^ x.shift * 2 ^ y.shift) =
      ap (λ t. t * 2 ^ x.shift) ey.1 ∙ swapped w (2 ^ y.shift) (2 ^ x.shift) in
    let grow = mul-le-mul_right (2 ^ x.shift * 2 ^ y.shift) le in
    let le' : n ≤ d * 1 =
      omega (arith, top, bottom, grow, mul_assoc p (2 ^ x.shift) (2 ^ y.shift)) in
    let pos' : 0 < d =
      omega (arith, bottom, mul-pos pos (mul-pos (pow_pos x.shift) (pow_pos y.shift))) in
    subst (AtMost 1) (sym (ap₂ (λ a b. round (xor a b) n d) ex.0 ey.0))
      (round-AtMost 1 n d pos' le' (omega arith))

-- A hundred times what is at most 1 is at most 100.
pub multiply-AtMost : (x y : Float64) → AtMost 1 x → Exactly 100 y → AtMost 100 (multiply x y)
unfolding multiply
multiply-AtMost x y ex ey =
    let n = x.num * y.num in
    let d = 2 ^ (x.shift + y.shift) in
    let same : d ≡ 2 ^ x.shift * 2 ^ y.shift = pow_add x.shift y.shift in
    let le : n ≤ 2 ^ x.shift * 1 * (100 * 2 ^ y.shift) = mul-le-mul ex.1 (omega (arith, ey.1)) in
    let le' : n ≤ d * 100 = omega (
      arith,
      le,
      same,
      ap (λ t. t * (100 * 2 ^ y.shift)) (times_one (2 ^ x.shift)),
      moved (2 ^ x.shift) (2 ^ y.shift),
    ) in
    subst (AtMost 100) (sym (ap₂ (λ a b. round (xor a b) n d) ex.0 ey.0))
      (round-AtMost 100 n d (pow_pos (x.shift + y.shift)) le' (omega arith))
  where
    moved : (a b : ℕ) → a * (100 * b) ≡ a * b * 100
    moved a b = ap (λ t. a * t) (mul_comm 100 b) ∙ sym (mul_assoc a b 100)

pub to_int-AtMost : (x : Float64) → AtMost 100 x → to_int x ≤ 100
unfolding to_int
to_int-AtMost x h =
    let q : x.num / 2 ^ x.shift ≤ 100 = div-le_of_le-mul (2 ^ x.shift) h.1 in ground (arith, h.0, q)
