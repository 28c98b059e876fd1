-- ===== src/Ranges/Members.antt =====
-- The tests on ranges decide facts about the sets of locations that the ranges stand for.
use aphrodite.Base.{ℕ, ◌+◌, ◌-◌, ◌≤◌, ◌<◌, ◌≡◌, ◌↔◌, arith, Bool, max, leb, ◌&&◌, true, ok}
use aphrodite.Ranges.{
  Range, range_has_loc, range_is_loc_above, range_is_loc_below, range_has, range_overlaps,
}

-- A location of the range, as a natural number with no wrap-around.
abbrev pub Inside : Range → ℕ → Type 0
Inside r x = (r.front ≤ x) × (x < r.front + r.size)

-- A location stands below the range, in it, or above it: one of the three tests is true, and it
-- is the one that the bounds give.
pub loc_trichotomy :
    (r : Range) (x : ℕ)
    → ((range_is_loc_below r x ≡ true) ↔ (x < r.front))
      × ((range_has_loc r x ≡ true) ↔ Inside r x)
      × ((range_is_loc_above r x ≡ true) ↔ (r.front + r.size ≤ x))
unfolding range_is_loc_below range_has_loc range_is_loc_above
loc_trichotomy r x = ground arith

-- `range_has` never trips its inner assertion, and for a nonempty second range it is true exactly
-- if every location of the second lies in the first.
pub range_has_subset :
    (r s : Range)
    → 0 < s.size
    → (b : Bool) × (range_has r s ≡ ok b) × ((b ≡ true) ↔ ((x : ℕ) → Inside s x → Inside r x))
unfolding range_has
range_has_subset r s pos = (
  range_has_loc r s.front && leb s.size (r.size - (s.front - r.front)),
  unfold range_has_loc in ground arith,
  (
    λ e x i. unfold range_has_loc in ground arith,
    λ h. unfold range_has_loc in ground (arith, h s.front, h (s.front + s.size - 1)),
  ),
)

-- Two nonempty ranges overlap by the test exactly if they share a location.
pub range_overlaps_shared :
    (r s : Range)
    → 0 < r.size
    → 0 < s.size
    → (range_overlaps r s ≡ true) ↔ ((x : ℕ) × Inside r x × Inside s x)
unfolding range_overlaps
range_overlaps_shared r s pr ps =
    (λ e. (max r.front s.front, ground arith, ground arith), λ p. let (x, i, j) = p in ground arith)
