-- ===== src/Base/Results.antt =====
-- The result of code with assertions: `panic` is a failed `assert`, an undefined access, or any
-- other stop of the kernel.
use mathlib.Core.Bool.{Bool, true, false}

pub data Outcome {ℓ} (A : Type ℓ) : Type ℓ where
  ok : A → Outcome A
  panic : Outcome A

infixl 5 ◌>>=◌
abbrev pub ◌>>=◌ {κ ℓ} :
    {Next : Type κ} {A : Type ℓ} → Outcome A → (A → Outcome Next) → Outcome Next
panic >>= rest = panic
ok a >>= rest = rest a

infixl 5 ◌>>◌
abbrev pub ◌>>◌ {ℓ} : {Next : Type ℓ} → Outcome (Unit {0}) → Outcome Next → Outcome Next
panic >> rest = panic
ok tt >> rest = rest

-- `assert(b)`
abbrev pub assert : Bool → Outcome (Unit {0})
assert true = ok tt
assert false = panic
