-- ===== src/Arith/Pow.antt =====
-- `math_pow` multiplies once more than its exponent says.
use aphrodite.Base.{ℕ, zero, suc, ◌*◌, ◌^◌, ◌<◌, ◌≡◌, ◌≤◌, arith, ltb, if◌then◌else◌}
use native.Mathlib.Nat.{mul-one, pow-zero, mul_comm, pow-suc, one-le-pow}
use aphrodite.Base.{dec_lt, none, some}
use aphrodite.Arith.{check_mul, pow_loop, math_pow}

shift_factor : (a b p : ℕ) → a * (p * b) ≡ a * b * p
shift_factor a b p = grind arith

factor-le : (a p : ℕ) → 1 ≤ p → a ≤ a * p
factor-le a p h = grind arith

-- The loop's result is the start times a power of the base, unless that passes 2^64.
pow_loop-pow :
    (base left result : ℕ)
    → result < 2 ^ 64
    → pow_loop base left result ≡ check_mul result (base ^ left)
unfolding pow_loop check_mul
pow_loop-pow base zero result fits = rw (pow-zero, mul-one) (ground arith)
pow_loop-pow base (suc left) result fits = elim (dec_lt (result * base) (2 ^ 64)) [
  | yes h ↦ ground (
    arith,
    pow_loop-pow base left (result * base) h,
    pow-suc base left,
    shift_factor result base (base ^ left),
  )
  | no h ↦ ground (
    arith,
    pow-suc base left,
    shift_factor result base (base ^ left),
    factor-le (result * base) (base ^ left) (one-le-pow left base (grind arith)),
  )
]

-- `math_pow` gives the power one above the exponent, and fails exactly if that power passes 2^64.
pub math_pow-pow :
    (base exp : ℕ)
    → base < 2 ^ 64
    → math_pow base exp ≡ (if ltb (base ^ suc exp) (2 ^ 64) then some (base ^ suc exp) else none)
unfolding math_pow check_mul
math_pow-pow base exp fits =
    ground (arith, pow_loop-pow base exp base fits, pow-suc base exp, mul_comm base (base ^ exp))
