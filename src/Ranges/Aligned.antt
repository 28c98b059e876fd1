-- ===== src/Ranges/Aligned.antt =====
-- What the aligning functions return, and when their result keeps to the range.
use native.Mathlib.Nat.{
  mod-le, mod-lt, mod-eq_of_lt, add-mod, mul-mod_left, div-mul-le_self, div-add-mod',
}
use aphrodite.Base.{
  ℕ, ◌+◌, ◌-◌, ◌≤◌, ◌<◌, ◌%◌, ◌^◌, ◌≡◌, ◌↔◌, ◌*◌, ◌/◌, ◌⊎◌, inl, inr, dec_lt, arith, Option,
  Outcome, ok, some, none, ◌>>=◌, dec_le,
}
use aphrodite.Arith.{align_up, round_up}
use aphrodite.Arith.Align.{IsLeastAbove, align_up_least, mod-sub-mod, align_down-sub-mod}
use aphrodite.Ranges.{
  Range, align_in_from, align_out_from, range_init, range_align_in, range_align_out,
  range_round_up_subrange,
}

-- Both fields fit in 64 bits.
abbrev pub IsWord : Range → Type 0
IsWord r = (r.front < 2 ^ 64) × (r.size < 2 ^ 64)

-- The outcome of an `align_up` to a power of two.
data AlignedUp (n b : ℕ) : Outcome (Option ℕ) → Type 0 where
  failed : AlignedUp n b (ok none)
  aligned : (a : ℕ) → IsLeastAbove n b a → a < 2 ^ 64 → AlignedUp n b (ok (some a))

align_up-AlignedUp : (n k : ℕ) → n < 2 ^ 64 → k < 64 → AlignedUp n (2 ^ k) (align_up n (2 ^ k))
align_up-AlignedUp n k hn hk = elim (dec_le (n + 2 ^ k) (2 ^ 64)) [
  | yes h ↦
      let (a, e, least) = (align_up_least n k hn hk).0 h in rw e (aligned a least (omega arith))
  | no h ↦ rw ((align_up_least n k hn hk).1 (omega arith)) failed
]

module _ (r : Range) (k : ℕ) {out : Range} (w : IsWord r) (hk : k < 64) where
  -- When `range_align_in` succeeds for a power of two, front and size of the result are multiples
  -- of it and the front is the least multiple in the range. The result ends inside the range
  -- exactly if what was skipped at the front is at most what the size is above a multiple.
  pub align_in_result :
      range_align_in r (2 ^ k) ≡ ok (some out)
      → IsLeastAbove r.front (2 ^ k) out.front
        × (out.size % 2 ^ k ≡ 0)
        × (out.front < r.front + r.size)
        × ((out.front + out.size ≤ r.front + r.size) ↔ (out.front - r.front ≤ r.size % 2 ^ k))
  unfolding range_align_in
  align_in_result = go (align_up r.front (2 ^ k)) (align_up-AlignedUp r.front k w.0 hk)
    where
      go :
          (o : Outcome (Option ℕ))
          → AlignedUp r.front (2 ^ k) o
          → o >>= align_in_from r (2 ^ k) ≡ ok (some out)
          → IsLeastAbove r.front (2 ^ k) out.front
            × (out.size % 2 ^ k ≡ 0)
            × (out.front < r.front + r.size)
            × ((out.front + out.size ≤ r.front + r.size) ↔ (out.front - r.front ≤ r.size % 2 ^ k))
      go _ failed e = absurd (cc)
      go _ (aligned a least fits) e =
          ground
            (arith, align_down-sub-mod r.size k, mod-sub-mod r.size (2 ^ k), mod-le r.size (2 ^ k))

  -- When `range_align_out` succeeds for a power of two, its front is the greatest multiple that is
  -- not above the front and its size the least multiple that is not below the size. The result
  -- covers the range exactly if what the front was moved back is at most what the size grew.
  pub align_out_result :
      range_align_out r (2 ^ k) ≡ ok (some out)
      → (out.front ≡ r.front - r.front % 2 ^ k)
        × IsLeastAbove r.size (2 ^ k) out.size
        × ((r.front + r.size ≤ out.front + out.size) ↔ (r.front % 2 ^ k ≤ out.size - r.size))
  unfolding range_align_out
  align_out_result = go (align_up r.size (2 ^ k)) (align_up-AlignedUp r.size k w.1 hk)
    where
      go :
          (o : Outcome (Option ℕ))
          → AlignedUp r.size (2 ^ k) o
          → o >>= align_out_from r (2 ^ k) ≡ ok (some out)
          → (out.front ≡ r.front - r.front % 2 ^ k)
            × IsLeastAbove r.size (2 ^ k) out.size
            × ((r.front + r.size ≤ out.front + out.size) ↔ (r.front % 2 ^ k ≤ out.size - r.size))
      go _ failed e = absurd (cc)
      go _ (aligned a least fits) e =
          ground (arith, align_down-sub-mod r.front k, mod-le r.front (2 ^ k))

-- `round_up` of a number that is not 0 finds the least multiple that is not below it, or fails
-- because the search passes 2^64; of 0 it gives the multiple itself.
pub round_up_least :
    (n m : ℕ)
    → 0 < m
    → (round_up 0 m ≡ ok (some m))
      × (0 < n → n + m ≤ 2 ^ 64 → (a : ℕ) × (round_up n m ≡ ok (some a)) × IsLeastAbove n m a)
      × (0 < n → 2 ^ 64 < n + m → round_up n m ≡ ok none)
unfolding round_up
round_up_least n m pos = (ground arith, fits, λ p h. ground arith)
  where
    fits : 0 < n → n + m ≤ 2 ^ 64 → (a : ℕ) × (round_up n m ≡ ok (some a)) × IsLeastAbove n m a
    fits p h =
        let s = n + (m - 1) in
        (
          s / m * m,
          ground (arith, div-mul-le_self s m),
          (
            mul-mod_left (s / m) m,
            omega (arith, div-add-mod' s m, mod-lt s {m = m} pos),
            omega (arith, div-mul-le_self s m),
          ),
        )

-- There is one least multiple.
least-le : (n m a b : ℕ) → 0 < m → IsLeastAbove n m a → IsLeastAbove n m b → a ≤ b
least-le n m a b pos la lb = elim (dec_le a b) [
  | yes h ↦ h
  | no h ↦
      let d = a - b in
      let small : d % m ≡ d = mod-eq_of_lt (omega arith) in
      let split : (b + d) % m ≡ (b % m + d % m) % m = add-mod b d m in
      let whole : b + d ≡ a = omega arith in
      let zero_sum : 0 + d ≡ d = omega arith in
      let zero_mod : 0 ≡ d = rw (whole, la.0, lb.0, small, zero_sum, small) at split in
      absurd (omega arith)
]

-- For a range that does not start at 0 `range_round_up_subrange` keeps the end and moves the front
-- to the least multiple in the range; it fails exactly if there is none below the end.
pub round_up_subrange_result :
    (r : Range) (m : ℕ)
    → 0 < m
    → 0 < r.front
    → r.front + m ≤ 2 ^ 64
    → r.size < 2 ^ 64
    → ((out : Range) × (range_round_up_subrange r m ≡ ok (some out))
        × IsLeastAbove r.front m out.front
        × (out.front + out.size ≡ r.front + r.size)
        × (0 < out.size))
      ⊎ ((range_round_up_subrange r m ≡ ok none)
          × ((a : ℕ) → IsLeastAbove r.front m a → r.front + r.size ≤ a))
unfolding range_round_up_subrange
round_up_subrange_result r m pos front fits small =
    let (a, e, least) = (round_up_least r.front m pos).1 front fits in
    elim (dec_lt (a - r.front) r.size) [
      | yes h ↦
          inl (range_init a (r.size - (a - r.front)), ground arith, least, omega arith, omega arith)
      | no h ↦
          inr (ground arith, λ a' least'. omega (arith, least-le r.front m a a' pos least least'))
    ]
