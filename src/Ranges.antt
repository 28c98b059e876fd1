-- ===== src/Ranges.antt =====
-- lib/adt/range.c, lib/adt/range.h and `index_range_in_bounds` of lib/util.c: a range of locations
-- by its front and its size. A function that asserts returns an `Outcome`; one that reports failure
-- through its result and an out parameter returns an `Option`, and the out parameter of a failing
-- call is not modelled. `check_add` reads `front + size` without wrap-around; every other
-- difference in the C code is taken after a test that it does not wrap.
use aphrodite.Base.{ℕ, ◌+◌, ◌-◌, ◌/◌, ◌^◌, ltb, leb, ◌==◌, if◌then◌else◌, u64, sub64}
use aphrodite.Base.{Bool, true, false, not, ◌&&◌, ◌||◌, Option, none, some}
use aphrodite.Base.{Outcome, ok, assert, ◌>>=◌, ◌>>◌}
use aphrodite.Arith.{check_add, check_mul, align_up, align_down, round_up, has_align}
use aphrodite.Arith.{div_round_up, index_in_bounds}
pub mod Members
pub mod Aligned
pub mod Moves

pub record Range : Type 0 where
  pub front : ℕ
  pub size : ℕ

-- `RANGE_INIT`
abbrev pub range_init : ℕ → ℕ → Range
range_init front size = record { front = front; size = size }

unfoldable pub range_create_and_verify : ℕ → ℕ → Option Range
unfolding check_add
range_create_and_verify base size = elim (check_add base size) [
  | none ↦ none
  | some _ ↦ some (range_init base size)
]

unfoldable pub range_create_upto : ℕ → Range
range_create_upto size = range_init 0 size

unfoldable pub range_create_end : ℕ → ℕ → Outcome Range
range_create_end front end = do assert (leb front end); ok (range_init front (end - front))

unfoldable pub range_multiply : Range → ℕ → Option Range
unfolding check_mul
range_multiply range mult = elim (check_mul range.front mult) [
  | none ↦ none
  | some front ↦ elim (check_mul range.size mult) [
    | none ↦ none
    | some size ↦ some (range_init front size)
  ]
]

unfoldable pub range_divide : Range → ℕ → Outcome Range
range_divide range div = do
  assert (not (div == 0))
  ok (range_init (range.front / div) (range.size / div))

unfoldable pub range_divide_out : Range → ℕ → Outcome Range
unfolding div_round_up
range_divide_out range div = do
  assert (not (div == 0))
  ok (range_init (range.front / div) (div_round_up range.size div))

unfoldable pub range_has_index : Range → ℕ → Bool
unfolding index_in_bounds
range_has_index range index = index_in_bounds index range.size

unfoldable pub range_has_loc : Range → ℕ → Bool
range_has_loc range loc = leb range.front loc && ltb (loc - range.front) range.size

unfoldable pub range_has_end : Range → ℕ → Bool
range_has_end range end = ltb range.front end && leb (end - range.front) range.size

unfoldable pub range_from_index : Range → ℕ → Outcome Range
unfolding range_has_index
range_from_index range index = do
  assert (range_has_index range index)
  ok (range_init (u64 (range.front + index)) (range.size - index))

unfoldable pub range_from_loc : Range → ℕ → Outcome Range
unfolding range_has_loc
range_from_loc range loc = do
  assert (range_has_loc range loc)
  ok (range_init loc (range.size - (loc - range.front)))

-- `range_align_in` after its `align_up`, whose failure is `none`. The inner `none` of the result is
-- the result `false`.
align_in_from : Range → ℕ → Option ℕ → Outcome (Option Range)
align_in_from range boundary none = ok none
align_in_from range boundary (some front) =
    if leb range.size (sub64 front range.front) then ok none else do
      size ← align_down range.size boundary
      if size == 0 then ok none else ok (some (range_init front size))

unfoldable pub range_align_in : Range → ℕ → Outcome (Option Range)
unfolding align_in_from
range_align_in range boundary = align_up range.front boundary >>= align_in_from range boundary

align_out_from : Range → ℕ → Option ℕ → Outcome (Option Range)
align_out_from range boundary none = ok none
align_out_from range boundary (some size) = do
  front ← align_down range.front boundary
  ok (some (range_init front size))

unfoldable pub range_align_out : Range → ℕ → Outcome (Option Range)
unfolding align_out_from
range_align_out range boundary = align_up range.size boundary >>= align_out_from range boundary

unfoldable pub range_round_up : Range → ℕ → Outcome (Option Range)
range_round_up range mult = do
  rounded ← round_up range.front mult
  elim rounded [
    | none ↦ ok none
    | some front ↦ do
      rounded_size ← round_up range.size mult
      elim rounded_size [ none ↦ ok none | some size ↦ ok (some (range_init front size)) ]
  ]

round_up_from : Range → Option ℕ → Outcome (Option Range)
round_up_from range none = ok none
round_up_from range (some front) =
    let diff = sub64 front range.front in
    if leb range.size diff then ok none else ok (some (range_init front (range.size - diff)))

unfoldable pub range_round_up_subrange : Range → ℕ → Outcome (Option Range)
unfolding round_up_from
range_round_up_subrange range mult = round_up range.front mult >>= round_up_from range

unfoldable pub range_get_end : Range → Option ℕ
unfolding check_add
range_get_end range = check_add range.front range.size

unfoldable pub range_overflows : Range → Bool
unfolding check_add
range_overflows range = elim (check_add range.front range.size) [ none ↦ true | some _ ↦ false ]

unfoldable pub range_get_end_assert : Range → Outcome ℕ
unfolding range_get_end
range_get_end_assert range = elim (range_get_end range) [ none ↦ Outcome.panic | some end ↦ ok end ]

unfoldable pub range_is_loc_above : Range → ℕ → Bool
range_is_loc_above range loc = leb range.front loc && leb range.size (loc - range.front)

unfoldable pub range_is_loc_below : Range → ℕ → Bool
range_is_loc_below range loc = ltb loc range.front

unfoldable pub range_above : Range → Range → Bool
unfolding range_is_loc_above
range_above range above = range_is_loc_above range above.front

unfoldable pub range_below : Range → Range → Bool
unfolding range_is_loc_below
range_below range below = range_is_loc_below range below.front

unfoldable pub range_empty : Range → Bool
range_empty range = range.size == 0

unfoldable pub range_has_align : Range → ℕ → Outcome Bool
range_has_align range align = do
  front ← has_align range.front align
  if front then has_align range.size align else ok false

unfoldable pub subrange_from_index : Range → ℕ → Outcome Range
unfolding range_has_index
subrange_from_index range index = do
  assert (range_has_index range index)
  ok (range_init index (range.size - index))

unfoldable pub range_has_index_range : Range → Range → Bool
unfolding range_has_index
range_has_index_range range other =
    if range_has_index range other.front then leb other.size (range.size - other.front) else false

unfoldable pub subrange_to_full : Range → Range → Outcome Range
unfolding range_has_index_range
subrange_to_full range index = do
  assert (range_has_index_range range index)
  ok (range_init (u64 (range.front + index.front)) index.size)

unfoldable pub range_loc_for_index : Range → ℕ → Outcome ℕ
unfolding range_has_index
range_loc_for_index range index = do
  assert (range_has_index range index)
  ok (u64 (range.front + index))

unfoldable pub range_index_for_loc : Range → ℕ → Outcome ℕ
unfolding range_has_loc
range_index_for_loc range loc = do assert (range_has_loc range loc); ok (loc - range.front)

unfoldable pub range_has : Range → Range → Outcome Bool
unfolding range_has_loc range_index_for_loc range_has_index
range_has range other =
    if range_has_loc range other.front
    then range_index_for_loc range other.front >>= (λ index.
      if range_has_index range index then ok (leb other.size (range.size - index)) else ok false)
    else ok false

unfoldable pub range_overlaps : Range → Range → Bool
unfolding range_has_loc
range_overlaps range other = range_has_loc range other.front || range_has_loc other range.front

unfoldable pub index_range_in_bounds : Range → ℕ → Bool
unfolding range_get_end
index_range_in_bounds range bounds = elim (range_get_end range) [
  | none ↦ false
  | some end ↦ leb end bounds
]
