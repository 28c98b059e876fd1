-- ===== src/Arrays/Items.antt =====
-- The objects of an array of lib/adt/array.c, one after the other in its buffer.
use aphrodite.Base.{
  ℕ, zero, suc, ◌+◌, ◌*◌, ◌<◌, ◌≤◌, ◌≡◌, ◌∙◌, refl, sym, ap, arith, List, [], ◌∷◌, ◌++◌, length,
  length-append, take, drop,
}
use aphrodite.Buffer.Bytes.{IsBuffer, contents, append_assoc, take_none, drop_none}
use aphrodite.Arrays.{Array}

-- The bytes of these objects.
unfoldable pub join : List (List ℕ) → List ℕ
join [] = []
join (item ∷ items) = item ++ join items

unfoldable pub AllSized : ℕ → List (List ℕ) → Type 0
AllSized n [] = Unit
AllSized n (item ∷ items) = (length item ≡ n) × AllSized n items

-- The array has these objects.
pub record Holds (array : Array) (items : List (List ℕ)) : Type 0 where
  pub usable : IsBuffer array.gbuffer
  pub some_size : 0 < array.object_size
  pub sized : AllSized array.object_size items
  pub bytes : contents array.gbuffer ≡ join items

pub length-join :
    (n : ℕ) (items : List (List ℕ)) → AllSized n items → length (join items) ≡ n * length items
unfolding join AllSized
length-join n [] s = omega arith
length-join n (item ∷ items) (e, s) =
    grind (arith, length-append item (join items), length-join n items s, e)

pub join-append : (xs ys : List (List ℕ)) → join (xs ++ ys) ≡ join xs ++ join ys
unfolding join
join-append [] ys = refl
join-append (x ∷ xs) ys =
    ap (λ l. x ++ l) (join-append xs ys) ∙ sym (append_assoc x (join xs) (join ys))

pub append-AllSized :
    (n : ℕ) (xs ys : List (List ℕ)) → AllSized n xs → AllSized n ys → AllSized n (xs ++ ys)
unfolding AllSized
append-AllSized n [] ys s t = t
append-AllSized n (x ∷ xs) ys (e, s) t = (e, append-AllSized n xs ys s t)

pub take-AllSized : (n k : ℕ) (xs : List (List ℕ)) → AllSized n xs → AllSized n (take k xs)
unfolding AllSized
take-AllSized n zero xs s = tt
take-AllSized n (suc k) [] s = tt
take-AllSized n (suc k) (x ∷ xs) (e, s) = (e, take-AllSized n k xs s)

pub drop-AllSized : (n k : ℕ) (xs : List (List ℕ)) → AllSized n xs → AllSized n (drop k xs)
unfolding AllSized
drop-AllSized n zero xs s = s
drop-AllSized n (suc k) [] s = tt
drop-AllSized n (suc k) (x ∷ xs) (e, s) = drop-AllSized n k xs s

take_past : (xs ys : List ℕ) (m : ℕ) → take (length xs + m) (xs ++ ys) ≡ xs ++ take m ys
take_past [] ys m = ap (λ k. take k ys) (omega arith)
take_past (x ∷ xs) ys m =
    let e : suc (length xs) + m ≡ suc (length xs + m) = omega arith in
    ap (λ k. take k (x ∷ (xs ++ ys))) e ∙ ap (λ l. x ∷ l) (take_past xs ys m)

drop_past : (xs ys : List ℕ) (m : ℕ) → drop (length xs + m) (xs ++ ys) ≡ drop m ys
drop_past [] ys m = ap (λ k. drop k ys) (omega arith)
drop_past (x ∷ xs) ys m =
    let e : suc (length xs) + m ≡ suc (length xs + m) = omega arith in
    ap (λ k. drop k (x ∷ (xs ++ ys))) e ∙ drop_past xs ys m

pub take-join :
    (n k : ℕ) (items : List (List ℕ))
    → AllSized n items
    → take (n * k) (join items) ≡ join (take k items)
unfolding join AllSized
take-join n zero items s = let e : n * 0 ≡ 0 = omega arith in ap (λ m. take m (join items)) e
take-join n (suc k) [] s = sym (take_none (n * suc k))
take-join n (suc k) (item ∷ items) (e, s) =
    let m : n * suc k ≡ length item + n * k = grind arith in
    ap (λ i. take i (item ++ join items)) m
    ∙ take_past item (join items) (n * k)
    ∙ ap (λ l. item ++ l) (take-join n k items s)

pub drop-join :
    (n k : ℕ) (items : List (List ℕ))
    → AllSized n items
    → drop (n * k) (join items) ≡ join (drop k items)
unfolding join AllSized
drop-join n zero items s = let e : n * 0 ≡ 0 = omega arith in ap (λ m. drop m (join items)) e
drop-join n (suc k) [] s = sym (drop_none (n * suc k))
drop-join n (suc k) (item ∷ items) (e, s) =
    let m : n * suc k ≡ length item + n * k = grind arith in
    ap (λ i. drop i (item ++ join items)) m
    ∙ drop_past item (join items) (n * k)
    ∙ drop-join n k items s

-- Bytes within the first ones are the same in the whole block.
pub take-drop-take :
    (n m k : ℕ) (xs : List ℕ) → n + m ≤ k → take m (drop n (take k xs)) ≡ take m (drop n xs)
take-drop-take n zero k xs h = refl
take-drop-take n (suc m) zero xs h = absurd (omega arith)
take-drop-take zero (suc m) (suc k) [] h = refl
take-drop-take zero (suc m) (suc k) (x ∷ xs) h =
    ap (λ l. x ∷ l) (take-drop-take zero m k xs (omega arith))
take-drop-take (suc n) (suc m) (suc k) [] h = refl
take-drop-take (suc n) (suc m) (suc k) (x ∷ xs) h = take-drop-take n (suc m) k xs (omega arith)
