-- ===== src/Buffer/Bytes.antt =====
-- The bytes that a buffer of lib/adt/growable_buffer.c holds.
use aphrodite.Base.{
  ℕ, zero, suc, ◌+◌, ◌-◌, ◌^◌, ◌<◌, ◌≤◌, ◌≡◌, ◌∙◌, refl, ap, arith, Option, none, some, List, [],
  ◌∷◌, ◌++◌, length, take, drop,
}
use aphrodite.Buffer.{GrowableBuffer}

abbrev pub block_of : Option (List ℕ) → List ℕ
block_of none = []
block_of (some block) = block

-- The bytes in use.
unfoldable pub contents : GrowableBuffer → List ℕ
contents gb = take gb.index (block_of gb.begin)

-- The capacity is the length of the block, and the bytes in use lie in it.
pub record IsBuffer (gb : GrowableBuffer) : Type 0 where
  pub sized : length (block_of gb.begin) ≡ gb.capacity
  pub used : gb.index ≤ gb.capacity
  pub small : gb.capacity < 2 ^ 31

pub take_whole : (n : ℕ) (xs ys : List ℕ) → length xs ≡ n → take n (xs ++ ys) ≡ xs
take_whole zero [] ys e = refl
take_whole zero (x ∷ xs) ys e = absurd (omega arith)
take_whole (suc n) [] ys e = absurd (omega arith)
take_whole (suc n) (x ∷ xs) ys e = ap (◌∷◌ x) (take_whole n xs ys (omega arith))

pub take_none : (n : ℕ) → ◌≡◌ {A = List ℕ} [] (take n [])
take_none zero = refl
take_none (suc n) = refl

pub drop_none : (n : ℕ) → ◌≡◌ {A = List ℕ} [] (drop n [])
drop_none zero = refl
drop_none (suc n) = refl

pub append_assoc : (xs ys zs : List ℕ) → (xs ++ ys) ++ zs ≡ xs ++ (ys ++ zs)
append_assoc [] ys zs = refl
append_assoc (x ∷ xs) ys zs = ap (◌∷◌ x) (append_assoc xs ys zs)

-- The bytes from the middle on.
pub drop-take : (i n : ℕ) (xs : List ℕ) → i ≤ n → drop i (take n xs) ≡ take (n - i) (drop i xs)
drop-take zero n xs h = ap (λ k. take k xs) (omega arith)
drop-take (suc i) zero xs h = absurd (omega arith)
drop-take (suc i) (suc n) [] h = take_none (suc n - suc i)
drop-take (suc i) (suc n) (x ∷ xs) h =
    drop-take i n xs (omega arith) ∙ ap (λ k. take k (drop i xs)) (omega arith)

pub take-take : (m n : ℕ) (xs : List ℕ) → m ≤ n → take m (take n xs) ≡ take m xs
take-take zero n xs h = refl
take-take (suc m) zero xs h = absurd (omega arith)
take-take (suc m) (suc n) [] h = refl
take-take (suc m) (suc n) (x ∷ xs) h = ap (◌∷◌ x) (take-take m n xs (omega arith))

pub append_nil : (xs : List ℕ) → xs ++ [] ≡ xs
append_nil [] = refl
append_nil (x ∷ xs) = ap (◌∷◌ x) (append_nil xs)

-- The first bytes of two parts, past the first part.
pub take_past :
    (n k : ℕ) (xs ys : List ℕ) → length xs ≡ n → take (n + k) (xs ++ ys) ≡ xs ++ take k ys
take_past zero k [] ys e = let none_more : 0 + k ≡ k = omega arith in ap (λ m. take m ys) none_more
take_past zero k (x ∷ xs) ys e = absurd (omega arith)
take_past (suc n) k [] ys e = absurd (omega arith)
take_past (suc n) k (x ∷ xs) ys e =
    let shift : suc n + k ≡ suc (n + k) = omega arith in
    ap (λ m. take m (x ∷ (xs ++ ys))) shift ∙ ap (◌∷◌ x) (take_past n k xs ys (omega arith))
