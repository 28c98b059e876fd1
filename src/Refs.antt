-- ===== src/Refs.antt =====
-- lib/refcount.c and refcount.h: a count of the owners of an object.
--
-- The count is an `int32_t` in two's complement, here its 32 bits as a number; atomic addition wraps.
-- An operation that fails an assertion is `panic`.
pub mod Owners
use aphrodite.Base.{
  ℕ, ◌+◌, ◌^◌, ◌-◌, ltb, leb, ◌==◌, Bool, not, Outcome, ok, assert, ◌>>=◌, ◌>>◌, u32, sub32,
}

-- `REFCOUNT_MAX`
abbrev pub refcount_max : ℕ
refcount_max = 2 ^ 31 - 1

-- `a <= b` for the signed values of two words.
unfoldable pub signed_leb : ℕ → ℕ → Bool
signed_leb a b = leb (u32 (a + 2 ^ 31)) (u32 (b + 2 ^ 31))

unfoldable pub refcount_init : ℕ
refcount_init = 1

unfoldable pub refcount_increment : ℕ → ℕ → Outcome ℕ
refcount_increment old amount = do
  assert (signed_leb 0 old)
  assert (not (old == refcount_max))
  ok (u32 (old + amount))

-- The result tells if the count was 1.
unfoldable pub refcount_decrement : ℕ → ℕ → Outcome (Bool × ℕ)
refcount_decrement old amount = do
  assert (signed_leb amount old)
  assert (not (old == refcount_max))
  ok (old == 1, sub32 old amount)

unfoldable pub ref_up : ℕ → Outcome ℕ
ref_up count = refcount_increment count 1

unfoldable pub ref_down : ℕ → Outcome (Bool × ℕ)
ref_down count = refcount_decrement count 1

unfoldable pub ref_get : ℕ → ℕ
ref_get count = count
