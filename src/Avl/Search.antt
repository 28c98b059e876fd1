-- ===== src/Avl/Search.antt =====
-- The comparison of numbers in the searches of lib/adt/avltree.c, with its outcome.
use aphrodite.Base.{ℕ, ◌<◌, ◌≡◌, arith, ◌⊎◌, inl, inr, dec_lt}
use Prim.Native.Nat.{compare}
use Prim.Native.Nat.Ordering.{lt, eq, gt}

abbrev pub Compared : ℕ → ℕ → Type 0
Compared q k =
    ((compare q k ≡ lt) × (q < k)) ⊎ ((compare q k ≡ gt) × (k < q)) ⊎ ((compare q k ≡ eq) × (q ≡ k))

pub compare-Compared : (q k : ℕ) → Compared q k
compare-Compared q k = elim (dec_lt q k) [
  | yes h ↦ inl (ground arith, h)
  | no h ↦ elim (dec_lt k q) [
    | yes h' ↦ inr (inl (ground arith, h'))
    | no h' ↦ inr (inr (ground arith, omega arith))
  ]
]
