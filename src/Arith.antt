-- ===== src/Arith.antt =====
-- lib/overflow.h, lib/align.c, lib/align.h, lib/math.c and the tests of lib/util.c on numbers.
-- All values are `uint64_t`. What a call leaves in its out parameter when it fails is not modelled.
use aphrodite.Base.{ℕ, zero, suc, ◌+◌, ◌-◌, ◌*◌, ◌/◌, ◌%◌, ◌^◌, ltb, leb, ◌==◌, if◌then◌else◌}
use aphrodite.Base.{Bool, not, ◌&&◌, ◌||◌, Option, none, some, bit_and, not64, sub64}
use aphrodite.Base.{Outcome, ok, assert, ◌>>=◌, ◌>>◌}
pub mod Align
pub mod Pow

-- `check_add`, `check_sub` and `check_mul`: `none` is an overflow.
unfoldable pub check_add : ℕ → ℕ → Option ℕ
check_add lhs rhs = if ltb (lhs + rhs) (2 ^ 64) then some (lhs + rhs) else none

unfoldable pub check_sub : ℕ → ℕ → Option ℕ
check_sub lhs rhs = if ltb lhs rhs then none else some (lhs - rhs)

unfoldable pub check_mul : ℕ → ℕ → Option ℕ
check_mul lhs rhs = if ltb (lhs * rhs) (2 ^ 64) then some (lhs * rhs) else none

-- `check_mul_assert` where the first factor is a `uint32_t`.
unfoldable pub check_mul_assert : ℕ → ℕ → Outcome ℕ
check_mul_assert lhs rhs = do assert (ltb (lhs * rhs) (2 ^ 32)); ok (lhs * rhs)

unfoldable pub offset_from_boundary : ℕ → ℕ → Outcome ℕ
offset_from_boundary number boundary = do
  assert (not (boundary == 0))
  ok (bit_and number (boundary - 1))

unfoldable pub amount_to_boundary : ℕ → ℕ → Outcome ℕ
unfolding offset_from_boundary
amount_to_boundary number boundary = do
  assert (not (boundary == 0))
  offset ← offset_from_boundary number boundary
  ok (sub64 boundary offset)

unfoldable pub has_align : ℕ → ℕ → Outcome Bool
unfolding offset_from_boundary
has_align number boundary = do
  assert (not (boundary == 0))
  offset ← offset_from_boundary number boundary
  ok (offset == 0)

unfoldable pub align_down : ℕ → ℕ → Outcome ℕ
align_down number boundary = do
  assert (not (boundary == 0))
  let mask = not64 (boundary - 1)
  ok (bit_and number mask)

-- The inner `none` is the result `false`.
unfoldable pub align_up : ℕ → ℕ → Outcome (Option ℕ)
unfolding check_add align_down
align_up number boundary =
    if boundary == 0 then ok none else elim (check_add number (boundary - 1)) [
      | none ↦ ok none
      | some result ↦ do down ← align_down result boundary; ok (some down)
    ]

unfoldable pub round_up : ℕ → ℕ → Outcome (Option ℕ)
unfolding check_add check_mul
round_up number multiple = do
  assert (not (multiple == 0))
  if number == 0 then ok (some multiple) else elim (check_add number (multiple - 1)) [
    | none ↦ ok none
    | some sum ↦ ok (check_mul (sum / multiple) multiple)
  ]

-- The loop of `math_pow`, with the rounds that are left.
unfoldable pub pow_loop : ℕ → ℕ → ℕ → Option ℕ
unfolding check_mul
pow_loop base zero result = some result
pow_loop base (suc left) result = elim (check_mul result base) [
  | none ↦ none
  | some product ↦ pow_loop base left product
]

unfoldable pub math_pow : ℕ → ℕ → Option ℕ
unfolding pow_loop
math_pow base exp = pow_loop base exp base

-- `div_round_up` of lib/macros.h
unfoldable pub div_round_up : ℕ → ℕ → ℕ
div_round_up a b = if a % b == 0 then a / b else a / b + 1

unfoldable pub index_in_bounds : ℕ → ℕ → Bool
index_in_bounds index bounds = ltb index bounds

unfoldable pub ordinal_in_bounds : ℕ → ℕ → Bool
ordinal_in_bounds ordinal bounds = not (ordinal == 0) && leb ordinal bounds
