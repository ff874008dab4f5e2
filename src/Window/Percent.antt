-- ===== src/Window/Percent.antt =====
-- The percentages of newSnapshot (window.go), as the float64 arithmetic computes them.
use j_circuit_breaker.Base.{ℕ, ◌≤◌, ◌<◌, ◌^◌, arith, Bool-cases, inl, inr, slt64}
use j_circuit_breaker.Window.Float.{of_int64, divide, multiply}
use j_circuit_breaker.Window.Float.Rounding.{
  AtMost, of_int64-Exactly, divide-AtMost, multiply-AtMost, to_int-AtMost,
}
use j_circuit_breaker.Window.{Counter, new_snapshot, percent}

percent_le : (part whole : ℕ) → 0 < whole → whole < 2 ^ 53 → part ≤ whole → percent part whole ≤ 100
unfolding percent
percent_le part whole pos small le =
    let x = of_int64 part in
    let y = of_int64 whole in
    let q : AtMost 1 (divide x y) =
      divide-AtMost part whole x y pos le (of_int64-Exactly part (omega (arith, le, small)))
        (of_int64-Exactly whole small) in
    to_int-AtMost (multiply (divide x y) (of_int64 100))
      (multiply-AtMost (divide x y) (of_int64 100) q (of_int64-Exactly 100 (omega arith)))

-- With fewer than 2^53 calls, of which no more failed or came too late than there were, both
-- percentages of a snapshot, computed in float64 and truncated, are at most 100.
pub new_snapshot-le :
    (c : Counter)
    → c.total_count < 2 ^ 53
    → c.error_count ≤ c.total_count
    → c.timeout_count ≤ c.total_count
    → ((new_snapshot c).error_percent ≤ 100) × ((new_snapshot c).timeout_percent ≤ 100)
unfolding new_snapshot
new_snapshot-le c small errors timeouts = elim (Bool-cases (slt64 0 c.total_count)) [
  | inl t ↦
      let pos : 0 < c.total_count = ground (arith, t) in
      rw (t, new_snapshot)
        (
          percent_le c.error_count c.total_count pos small errors,
          percent_le c.timeout_count c.total_count pos small timeouts,
        )
  | inr t ↦ rw (t, new_snapshot) (omega arith, omega arith)
]
