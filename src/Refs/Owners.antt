-- ===== src/Refs/Owners.antt =====
-- The operations of lib/refcount.c by the owners of an object, in any order.
use aphrodite.Base.{
  ℕ, ◌+◌, ◌-◌, ◌^◌, ◌<◌, ◌≤◌, ◌≡◌, refl, ap, arith, leb, ◌==◌, if◌then◌else◌, true, false, List, [],
  ◌∷◌, Outcome, ok, ◌>>=◌, u32, sub32, dec_lt,
}
use mathlib.Core.Path.{subst}
use aphrodite.Refs.{
  refcount_max, signed_leb, refcount_init, refcount_increment, refcount_decrement, ref_up, ref_down,
}

-- An owner takes one more reference, or gives its own up.
pub data Use : Type 0 where
  up : Use
  down : Use

-- The count after these uses, and how many of them were told to release the object.
unfoldable pub run_uses : ℕ → List Use → Outcome (ℕ × ℕ)
run_uses count [] = ok (count, 0)
run_uses count (up ∷ uses) = ref_up count >>= λ count'. run_uses count' uses
run_uses count (down ∷ uses) = ref_down count >>= λ (last, count').
    run_uses count' uses >>= λ (left, released). ok (left, (if last then 1 else 0) + released)

-- The uses are by owners, and there are never more than REFCOUNT_MAX - 1 of these.
unfoldable pub AreOwned : ℕ → List Use → Type 0
AreOwned owners [] = Unit
AreOwned owners (up ∷ uses) =
    (0 < owners) × (owners + 1 < refcount_max) × AreOwned (owners + 1) uses
AreOwned owners (down ∷ uses) = (0 < owners) × AreOwned (owners - 1) uses

-- The owners that are left.
unfoldable pub owners_after : ℕ → List Use → ℕ
owners_after owners [] = owners
owners_after owners (up ∷ uses) = owners_after (owners + 1) uses
owners_after owners (down ∷ uses) = owners_after (owners - 1) uses

up_owned : (n : ℕ) → n + 1 < refcount_max → ref_up n ≡ ok (n + 1)
unfolding ref_up refcount_increment signed_leb
up_owned n h =
    let positive : leb (u32 (0 + 2 ^ 31)) (u32 (n + 2 ^ 31)) ≡ true = ground arith in
    let below : (n == refcount_max) ≡ false = ground arith in
    let sum : u32 (n + 1) ≡ n + 1 = ground arith in rw (positive, below, sum) refl

-- A decrement by a positive amount, not more than the count, subtracts it and reports a release
-- exactly if the count was 1: a decrement by 2 or more to 0 reports none.
pub refcount_decrement-last :
    (old amount : ℕ)
    → 0 < amount
    → amount ≤ old
    → old < refcount_max
    → (refcount_decrement old amount ≡ ok (old == 1, old - amount))
      × (1 < amount → (old == 1) ≡ false)
unfolding refcount_decrement signed_leb
refcount_decrement-last old amount pos le small =
    let covered : leb (u32 (amount + 2 ^ 31)) (u32 (old + 2 ^ 31)) ≡ true = ground arith in
    let below : (old == refcount_max) ≡ false = ground arith in
    let rest : sub32 old amount ≡ old - amount = ground arith in
    (rw (covered, below, rest) refl, λ many. ground arith)

run_none : (uses : List Use) → AreOwned 0 uses → run_uses 0 uses ≡ ok (0, 0)
unfolding run_uses AreOwned
run_none [] o = refl
run_none (up ∷ uses) o = absurd (omega (arith, o.0))
run_none (down ∷ uses) o = absurd (omega (arith, o.0))

owners_none : (uses : List Use) → AreOwned 0 uses → owners_after 0 uses ≡ 0
unfolding owners_after AreOwned
owners_none [] o = refl
owners_none (up ∷ uses) o = absurd (omega (arith, o.0))
owners_none (down ∷ uses) o = absurd (omega (arith, o.0))

run_some :
    (n : ℕ) (uses : List Use)
    → 0 < n
    → n < refcount_max
    → AreOwned n uses
    → run_uses n uses ≡ ok (owners_after n uses, (if owners_after n uses == 0 then 1 else 0))
unfolding run_uses AreOwned owners_after ref_down
run_some n [] pos small o = let more : (n == 0) ≡ false = ground arith in rw more refl
run_some n (up ∷ uses) pos small (_, few, o) =
    rw (up_owned n few) (run_some (n + 1) uses (omega arith) few o)
run_some n (down ∷ uses) pos small (_, o) =
    let given : ref_down n ≡ ok (n == 1, n - 1) =
      (refcount_decrement-last n 1 (omega arith) (omega arith) small).0 in
    elim (dec_lt 1 n) [
      | yes more ↦
          let other : (n == 1) ≡ false = ground arith in
          let e : ℕ = if owners_after (n - 1) uses == 0 then 1 else 0 in
          let same : 0 + e ≡ e = omega arith in
          rw (given, other, run_some (n - 1) uses (omega arith) (omega arith) o)
            (ap (λ k. ok (owners_after (n - 1) uses, k)) same)
      | no last ↦
          let one : n ≡ 1 = omega (arith, last, pos) in
          let zeroed : AreOwned 0 uses = subst (λ m. AreOwned (m - 1) uses) one o in
          rw (given, one, run_none uses zeroed, owners_none uses zeroed) refl
    ]

-- However the owners of a new object take references and give them up, if there are never as many
-- as REFCOUNT_MAX - 1 and none uses a reference that it has not, no assertion fails, the count is
-- the number of owners, and exactly one use is told to release the object if there are no owners at
-- the end, none if there are.
pub run_uses-released :
    (uses : List Use)
    → AreOwned 1 uses
    → run_uses refcount_init uses
      ≡ ok (owners_after 1 uses, (if owners_after 1 uses == 0 then 1 else 0))
unfolding refcount_init
run_uses-released uses o = run_some 1 uses (omega arith) (omega arith) o
