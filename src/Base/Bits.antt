-- ===== src/Base/Bits.antt =====
-- `&` with a low mask and with a high mask, as arithmetic, at every width.
use mathlib.Core.Path.{◌≡◌, ap, sym, ◌∙◌}
use native.Mathlib.Omega.{arith}
use native.Mathlib.Nat.{pow-suc, one-le-pow, div-add-mod', add-zero, add-suc}
use Prim.Native.Nat.{
  ℕ, zero, suc, ◌+◌, ◌-◌, ◌*◌, ◌/◌, ◌%◌, ◌^◌, ◌≤◌, ◌<◌, min, bit_and, digits, bit_and-bitwise,
}

-- The digits of `a & mask`, at most `n` of them.
abbrev masked : ℕ → ℕ → ℕ → ℕ
masked n a mask = digits (λ _. 0) min n a mask

masked_low : (n a k q r : ℕ) → a ≤ n → a ≡ q * 2 ^ k + r → r < 2 ^ k → masked n a (2 ^ k - 1) ≡ r
masked_low zero a k q r bound split fits = omega arith
masked_low (suc n) zero k q r bound split fits = omega arith
masked_low (suc n) (suc a) zero q r bound split fits =
    ground (arith, masked_low n (suc a / 2) zero (suc a / 2) 0)
masked_low (suc n) (suc a) (suc k) q r bound split fits =
    let twice : q * 2 ^ suc k ≡ 2 * (q * 2 ^ k) =
      omega (arith, ap (λ (t : ℕ). q * t) (pow-suc 2 k)) in
    ground (arith, pow-suc 2 k, one-le-pow k 2, masked_low n (suc a / 2) k q (r / 2))

-- The fields of `a` from the top: `q` above the mask, `m` under it, and `r` below.
masked_high :
    (n a w k q m r mask : ℕ)
    → a ≤ n
    → a ≡ (q * 2 ^ w + m) * 2 ^ k + r
    → m < 2 ^ w
    → r < 2 ^ k
    → mask ≡ (2 ^ w - 1) * 2 ^ k
    → masked n a mask ≡ m * 2 ^ k
masked_high n a w zero q m r mask bound split hm hr e =
    let plain : mask ≡ 2 ^ w - 1 = omega arith in
    rw plain (omega (arith, masked_low n a w q m bound (omega arith) hm))
masked_high zero a w (suc k) q m r mask bound split hm hr e =
    grind (arith, pow-suc 2 k, one-le-pow k 2)
masked_high (suc n) zero w (suc k) q m r mask bound split hm hr e =
    grind (arith, pow-suc 2 k, one-le-pow k 2)
masked_high (suc n) (suc a) w (suc k) q m r mask bound split hm hr e =
    let twice : (t : ℕ) → t * 2 ^ suc k ≡ 2 * (t * 2 ^ k) =
      λ t. omega (arith, ap (λ (p : ℕ). t * p) (pow-suc 2 k)) in
    ground (
      arith,
      twice (2 ^ w - 1),
      twice (q * 2 ^ w + m),
      twice m,
      pow-suc 2 k,
      masked_high n (suc a / 2) w k q m (r / 2) (mask / 2),
    )

-- `a & (2^k - 1)` is the remainder by `2^k`.
pub bit_and_low : (a k : ℕ) → bit_and a (2 ^ k - 1) ≡ a % 2 ^ k
bit_and_low a k =
    bit_and-bitwise a (2 ^ k - 1)
    ∙ ground (arith, one-le-pow k 2, masked_low a a k (a / 2 ^ k) (a % 2 ^ k))

exponents_add : (i j : ℕ) → 2 ^ (i + j) ≡ 2 ^ i * 2 ^ j
exponents_add i zero = rw add-zero (omega arith)
exponents_add i (suc j) = rw (add-suc, pow-suc, pow-suc) (grind (arith, exponents_add i j))

word_split : (k : ℕ) → k ≤ 64 → 2 ^ (64 - k) * 2 ^ k ≡ 2 ^ 64
word_split k h =
    let whole : 64 - k + k ≡ 64 = omega arith in
    sym (exponents_add (64 - k) k) ∙ ap (λ (t : ℕ). 2 ^ t) whole

-- The part of a 64-bit number above its low `k` bits.
above-lt : (a k : ℕ) → a < 2 ^ 64 → k ≤ 64 → a / 2 ^ k < 2 ^ (64 - k)
above-lt a k ha hk = grind (arith, word_split k hk, one-le-pow k 2)

less_one_mul : (p q : ℕ) → (p - 1) * q ≡ p * q - q
less_one_mul zero q = omega arith
less_one_mul (suc p) q = grind arith

-- `a & ~(2^k - 1)` in 64 bits clears the low `k` bits.
pub bit_and_high :
    (a k : ℕ) → a < 2 ^ 64 → k ≤ 64 → bit_and a (2 ^ 64 - 1 - (2 ^ k - 1)) ≡ a - a % 2 ^ k
bit_and_high a k ha hk =
    let mask = 2 ^ 64 - 1 - (2 ^ k - 1) in
    let cleared =
      masked_high a a (64 - k) k 0 (a / 2 ^ k) (a % 2 ^ k) mask (omega arith)
        (omega (arith, div-add-mod' a (2 ^ k))) (above-lt a k ha hk) (omega (arith, one-le-pow k 2))
        (omega (arith, word_split k hk, one-le-pow k 2, less_one_mul (2 ^ (64 - k)) (2 ^ k))) in
    bit_and-bitwise a mask ∙ cleared ∙ omega (arith, div-add-mod' a (2 ^ k))
