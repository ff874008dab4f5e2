-- ===== src/Window/Float.antt =====
-- The float64 arithmetic of window.go's percentages: IEEE 754 binary64 with rounding to the nearest value,
-- ties to even. The values met are quotients and products of int64 values, so no result overflows or is
-- subnormal, and a float is a sign and a fraction `num / 2 ^ shift`.
pub mod Rounding
use j_circuit_breaker.Base.{
  ℕ, zero, suc, ◌+◌, ◌-◌, ◌*◌, ◌/◌, ◌%◌, ◌^◌, Bool, true, false, leb, ltb, ◌==◌, slt64, sub64,
  if◌then◌else◌,
}

pub record Float64 : Type 0 where
  pub neg : Bool
  pub num : ℕ
  pub shift : ℕ

-- The quotient `n / d` rounded to the nearest integer, ties to even.
round_quotient : ℕ → ℕ → ℕ
round_quotient n d =
    let q = n / d in
    if ltb (2 * (n % d)) d then q else if ltb d (2 * (n % d)) then q + 1 else q + q % 2

-- The least number of doublings after which `n / d` is at least `2 ^ 52`.
doublings : ℕ → ℕ → ℕ → ℕ
doublings zero n d = 0
doublings (suc fuel) n d =
    let rest = doublings fuel (2 * n) d in if leb (d * 2 ^ 52) n then 0 else suc rest

-- The least number of halvings after which `n / d` is below `2 ^ 53`.
halvings : ℕ → ℕ → ℕ → ℕ
halvings zero n d = 0
halvings (suc fuel) n d =
    let rest = halvings fuel n (2 * d) in if ltb n (d * 2 ^ 53) then 0 else suc rest

-- The float nearest to `n / d`, with 53 bits of precision. The operands below lie between 2 ^ -64 and
-- 2 ^ 71, so 128 rounds are enough.
unfoldable pub round : Bool → ℕ → ℕ → Float64
unfolding round_quotient doublings halvings
round neg n d =
    if n == 0
    then record { neg = neg; num = 0; shift = 0 }
    else let k = doublings 128 n d in
      let j = halvings 128 n d in
      record { neg = neg; num = round_quotient (n * 2 ^ k) (d * 2 ^ j) * 2 ^ j; shift = k }

abbrev xor : Bool → Bool → Bool
xor true true = false
xor true false = true
xor false b = b

-- float64(a) of an int64.
unfoldable pub of_int64 : ℕ → Float64
unfolding round
of_int64 a = if slt64 a 0 then round true (2 ^ 64 - a) 1 else round false a 1

unfoldable pub divide : Float64 → Float64 → Float64
unfolding round
divide x y = round (xor x.neg y.neg) (x.num * 2 ^ y.shift) (y.num * 2 ^ x.shift)

unfoldable pub multiply : Float64 → Float64 → Float64
unfolding round
multiply x y = round (xor x.neg y.neg) (x.num * y.num) (2 ^ (x.shift + y.shift))

-- int(x), which drops the fraction.
unfoldable pub to_int : Float64 → ℕ
to_int x = let n = x.num / 2 ^ x.shift in if x.neg then sub64 0 n else n % 2 ^ 64
