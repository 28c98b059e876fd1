-- ===== src/Arith/Align.antt =====
-- What alignment to a power of two does, as arithmetic.
use native.Mathlib.Nat.{one-le-pow, div-add-mod', mod-lt, mul-mod_left}
use aphrodite.Base.{ℕ, ◌+◌, ◌-◌, ◌*◌, ◌/◌, ◌%◌, ◌^◌, ◌≤◌, ◌<◌, ◌≡◌, arith, ◌==◌}
use aphrodite.Base.{none, some, ok}
use aphrodite.Base.Bits.{bit_and_low, bit_and_high}
use aphrodite.Arith.{offset_from_boundary, has_align, align_down, align_up}
use aphrodite.Arith.{check_add}

module _ (n k : ℕ) where
  pub offset_from_boundary-mod : offset_from_boundary n (2 ^ k) ≡ ok (n % 2 ^ k)
  unfolding offset_from_boundary
  offset_from_boundary-mod = ground (arith, one-le-pow k 2, bit_and_low n k)

  pub has_align-mod : has_align n (2 ^ k) ≡ ok (n % 2 ^ k == 0)
  unfolding has_align
  has_align-mod = ground (arith, one-le-pow k 2, bit_and_low n k)

  pub align_down-sub-mod : n < 2 ^ 64 → k < 64 → align_down n (2 ^ k) ≡ ok (n - n % 2 ^ k)
  unfolding align_down
  align_down-sub-mod hn hk = ground (arith, one-le-pow k 2, bit_and_high n k hn (omega arith))

-- `r` is the least multiple of `b` that is not below `n`.
abbrev pub IsLeastAbove : ℕ → ℕ → ℕ → Type 0
IsLeastAbove n b r = (r % b ≡ 0) × (n ≤ r) × (r < n + b)

pub mod-sub-mod : (m b : ℕ) → (m - m % b) % b ≡ 0
mod-sub-mod m b =
    let e : m - m % b ≡ m / b * b = omega (arith, div-add-mod' m b) in
    rw (e, mul-mod_left (m / b) b)

-- For a power of two `align_up` finds the least multiple that is not below the number, and fails
-- exactly if that search would pass 2^64.
pub align_up_least :
    (n k : ℕ)
    → n < 2 ^ 64
    → k < 64
    → (n + 2 ^ k ≤ 2 ^ 64 → (r : ℕ) × (align_up n (2 ^ k) ≡ ok (some r)) × IsLeastAbove n (2 ^ k) r)
      × (2 ^ 64 < n + 2 ^ k → align_up n (2 ^ k) ≡ ok none)
unfolding align_up check_add
align_up_least n k hn hk = (fits, fails)
  where
    fits :
        n + 2 ^ k ≤ 2 ^ 64 → (r : ℕ) × (align_up n (2 ^ k) ≡ ok (some r)) × IsLeastAbove n (2 ^ k) r
    fits h =
        let m = n + (2 ^ k - 1) in
        let q = one-le-pow k 2 in
        (
          m - m % 2 ^ k,
          ground (arith, q, align_down-sub-mod m k (omega arith) hk),
          (
            mod-sub-mod m (2 ^ k),
            omega (arith, q, mod-lt m {m = 2 ^ k} (omega arith)),
            omega (arith, q),
          ),
        )

    fails : 2 ^ 64 < n + 2 ^ k → align_up n (2 ^ k) ≡ ok none
    fails h = ground (arith, one-le-pow k 2)
