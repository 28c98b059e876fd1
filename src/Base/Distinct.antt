-- ===== src/Base/Distinct.antt =====
-- Lists of distinct numbers: `n` numbers below `n` at most.
use aphrodite.Base.{
  ℕ, zero, suc, ◌<◌, ◌≤◌, ◌≢◌, arith, List, [], ◌∷◌, length, ◌==◌, if◌then◌else◌, Bool-cases, inl,
  inr,
}
use mathlib.Core.Path.{subst}

-- A number that is not on a list.
unfoldable pub NotIn : ℕ → List ℕ → Type 0
NotIn i [] = Unit
NotIn i (j ∷ js) = (i ≢ j) × NotIn i js

unfoldable pub Distinct : List ℕ → Type 0
Distinct [] = Unit
Distinct (i ∷ is) = NotIn i is × Distinct is

unfoldable pub Below : ℕ → List ℕ → Type 0
Below n [] = Unit
Below n (i ∷ is) = (i < n) × Below n is

-- The list without the first `n`.
unfoldable without : ℕ → List ℕ → List ℕ
without n [] = []
without n (i ∷ is) = if i == n then is else i ∷ without n is

NotIn-without : (j n : ℕ) (is : List ℕ) → NotIn j is → NotIn j (without n is)
unfolding NotIn without
NotIn-without j n [] out = tt
NotIn-without j n (i ∷ is) (ne, out) = elim (Bool-cases (i == n)) [
  | inl e ↦ rw e out
  | inr e ↦ rw e (ne, NotIn-without j n is out)
]

Distinct-without : (n : ℕ) (is : List ℕ) → Distinct is → Distinct (without n is)
unfolding Distinct without
Distinct-without n [] d = tt
Distinct-without n (i ∷ is) (out, d) = elim (Bool-cases (i == n)) [
  | inl e ↦ rw e d
  | inr e ↦ rw e (NotIn-without i n is out, Distinct-without n is d)
]

Below-NotIn : (n : ℕ) (is : List ℕ) → Below (suc n) is → NotIn n is → Below n is
unfolding Below NotIn
Below-NotIn n [] b out = tt
Below-NotIn n (i ∷ is) (h, b) (ne, out) = (ground arith, Below-NotIn n is b out)

Below-without : (n : ℕ) (is : List ℕ) → Below (suc n) is → Distinct is → Below n (without n is)
unfolding Below Distinct NotIn without
Below-without n [] b d = tt
Below-without n (i ∷ is) (h, b) (out, d) = elim (Bool-cases (i == n)) [
  | inl e ↦ rw e (Below-NotIn n is b (subst (λ k. NotIn k is) (ground arith) out))
  | inr e ↦ rw e (ground arith, Below-without n is b d)
]

length-without : (n : ℕ) (is : List ℕ) → length is ≤ suc (length (without n is))
unfolding without
length-without n [] = omega arith
length-without n (i ∷ is) = ground (arith, length-without n is)

-- Distinct numbers below `n` are at most `n`.
pub length-Distinct : (n : ℕ) (is : List ℕ) → Distinct is → Below n is → length is ≤ n
unfolding Below
length-Distinct n [] d b = omega arith
length-Distinct zero (i ∷ is) d (h, b) = omega arith
length-Distinct (suc n) (i ∷ is) d b =
    let rest = without n (i ∷ is) in
    omega (
      arith,
      length-without n (i ∷ is),
      length-Distinct n rest (Distinct-without n (i ∷ is) d) (Below-without n (i ∷ is) b d),
    )
