-- ===== src/Ranges/Moves.antt =====
-- Moving between locations, indices and subranges.
use native.Mathlib.Nat.{mul-div_cancel}
use aphrodite.Base.{
  ℕ, ◌+◌, ◌-◌, ◌≤◌, ◌<◌, ◌^◌, ◌≡◌, ◌↔◌, arith, true, Outcome, ok, some, none, ltb, false,
  if◌then◌else◌, ◌>>=◌,
}
use aphrodite.Ranges.{
  Range, range_init, range_index_for_loc, range_loc_for_index, range_from_loc, range_from_index,
  subrange_to_full, range_has_index_range, index_range_in_bounds, range_multiply, range_divide,
  range_create_end, range_get_end, range_create_and_verify, range_overflows,
}
use aphrodite.Ranges.Members.{Inside}

-- The range ends at 2^64 or before.
abbrev pub Fits : Range → Type 0
Fits r = r.front + r.size ≤ 2 ^ 64

-- In a range that fits, the locations and the indices below the size correspond: each conversion
-- succeeds on its domain and undoes the other.
pub loc_index_inverse :
    (r : Range)
    → Fits r
    → ((x : ℕ) → Inside r x → range_index_for_loc r x >>= range_loc_for_index r ≡ ok x)
      × ((i : ℕ) → i < r.size → range_loc_for_index r i >>= range_index_for_loc r ≡ ok i)
unfolding range_index_for_loc range_loc_for_index
loc_index_inverse r fits = (λ x h. ground arith, λ i h. ground arith)

-- Cutting at a location and cutting at its index give the same range. It starts at the location,
-- has the same end, and is refused exactly outside the range.
pub from_loc_from_index :
    (r : Range) (i : ℕ)
    → Fits r
    → (range_from_index r i
        ≡ (if ltb i r.size then ok (range_init (r.front + i) (r.size - i)) else Outcome.panic))
      × (range_from_loc r (r.front + i) ≡ range_from_index r i)
unfolding range_from_index range_from_loc
from_loc_from_index r i fits = ground arith

-- A subrange given by indices, placed in its range: it succeeds exactly for a nonempty start that
-- stays within, and its locations are the locations of the range with such an index.
pub subrange_to_full_locations :
    (r s : Range)
    → Fits r
    → range_has_index_range r s ≡ true
    → (full : Range) × (subrange_to_full r s ≡ ok full)
      × ((x : ℕ) → Inside full x ↔ (Inside r x × Inside s (x - r.front)))
unfolding subrange_to_full range_has_index_range
subrange_to_full_locations r s fits h =
    (range_init (r.front + s.front) s.size, ground arith, λ x. ground arith)

-- `index_range_in_bounds` is the bound on the end taken without wrap-around.
pub index_range_in_bounds_end :
    (r : Range) (bounds : ℕ)
    → bounds < 2 ^ 64
    → (index_range_in_bounds r bounds ≡ true) ↔ (r.front + r.size ≤ bounds)
unfolding index_range_in_bounds
index_range_in_bounds_end r bounds h = ground arith

-- A successful scaling is undone by the division by the same number.
pub multiply-divide :
    (r : Range) (m : ℕ) {out : Range}
    → 0 < m
    → range_multiply r m ≡ some out
    → range_divide out m ≡ ok r
unfolding range_multiply range_divide
multiply-divide r m pos e = ground (arith, mul-div_cancel r.front pos, mul-div_cancel r.size pos)

-- A range can be made from a base and a size exactly if it does not overflow, and then its end can
-- be had back; the range from the base to that end is the same range.
pub create_get_end :
    (base size : ℕ)
    → (range_overflows (range_init base size) ≡ false
        → (range_create_and_verify base size ≡ some (range_init base size))
          × (range_get_end (range_init base size) ≡ some (base + size))
          × (range_create_end base (base + size) ≡ ok (range_init base size)))
      × (range_overflows (range_init base size) ≡ true
          → (range_create_and_verify base size ≡ none)
            × (range_get_end (range_init base size) ≡ none))
unfolding range_overflows range_create_and_verify range_get_end range_create_end
create_get_end base size = ground arith
