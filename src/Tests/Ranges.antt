-- ===== src/Tests/Ranges.antt =====
-- Runs and instances for Arith and Ranges.
use aphrodite.Base.{ℕ, ◌+◌, ◌≤◌, ◌≡◌, ◌↔◌, refl, arith, Bool, true, some, ok}
use aphrodite.Arith.{check_add, align_down, align_up, math_pow}
use aphrodite.Arith.Pow.{math_pow-pow}
use aphrodite.Ranges.{
  Range, range_init, range_has, range_has_index_range, index_range_in_bounds, range_multiply,
  range_divide,
}
use aphrodite.Ranges.Members.{Inside, range_has_subset}
use aphrodite.Ranges.Moves.{index_range_in_bounds_end, multiply-divide}

align_up_runs : align_up 4097 4096 ≡ ok (some 8192)
unfolding align_up align_down check_add
align_up_runs = refl

-- 2 to the power 3 by its exponent, 16 by the code.
math_pow_runs : math_pow 2 3 ≡ some 16
unfolding math_pow
math_pow_runs = refl

math_pow-pow_example : math_pow 3 2 ≡ some 27
math_pow-pow_example = math_pow-pow 3 2 (omega arith)

abbrev pages : Range
pages = range_init 16 32

abbrev inner : Range
inner = range_init 20 8

range_has_subset_example :
    (b : Bool) × (range_has pages inner ≡ ok b)
    × ((b ≡ true) ↔ ((x : ℕ) → Inside inner x → Inside pages x))
range_has_subset_example = range_has_subset pages inner (omega arith)

first_eight : range_has_index_range pages (range_init 0 8) ≡ true
unfolding range_has_index_range
first_eight = ground arith

index_range_in_bounds_end_example : (index_range_in_bounds pages 48 ≡ true) ↔ (16 + 32 ≤ 48)
index_range_in_bounds_end_example = index_range_in_bounds_end pages 48 (omega arith)

doubled : range_multiply pages 2 ≡ some (range_init 32 64)
unfolding range_multiply
doubled = refl

multiply-divide_example : range_divide (range_init 32 64) 2 ≡ ok pages
multiply-divide_example = multiply-divide pages 2 (omega arith) doubled
