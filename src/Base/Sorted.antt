-- ===== src/Base/Sorted.antt =====
-- Strictly increasing lists of numbers, with the insertion and the removal of a number.
use aphrodite.Base.{
  ℕ, ◌<◌, ◌≡◌, refl, arith, ltb, ◌==◌, if◌then◌else◌, Bool, true, false, List, [], ◌∷◌, ◌++◌,
}

unfoldable pub AllAbove : ℕ → List ℕ → Type 0
AllAbove x [] = Unit
AllAbove x (y ∷ ys) = (x < y) × AllAbove x ys

unfoldable pub AllBelow : ℕ → List ℕ → Type 0
AllBelow x [] = Unit
AllBelow x (y ∷ ys) = (y < x) × AllBelow x ys

unfoldable pub IsSorted : List ℕ → Type 0
IsSorted [] = Unit
IsSorted (x ∷ xs) = AllAbove x xs × IsSorted xs

unfoldable pub has : ℕ → List ℕ → Bool
has q [] = false
has q (x ∷ xs) = if x == q then true else has q xs

unfoldable pub insert_key : ℕ → List ℕ → List ℕ
insert_key q [] = q ∷ []
insert_key q (x ∷ xs) = if ltb q x then q ∷ (x ∷ xs) else x ∷ insert_key q xs

unfoldable pub remove_key : ℕ → List ℕ → List ℕ
remove_key q [] = []
remove_key q (x ∷ xs) = if x == q then xs else x ∷ remove_key q xs

AllAbove-trans : (x y : ℕ) (zs : List ℕ) → x < y → AllAbove y zs → AllAbove x zs
unfolding AllAbove
AllAbove-trans x y [] h a = tt
AllAbove-trans x y (z ∷ zs) h (b, a) = (omega arith, AllAbove-trans x y zs h a)

AllAbove-insert_key : (x q : ℕ) (ys : List ℕ) → x < q → AllAbove x ys → AllAbove x (insert_key q ys)
unfolding AllAbove insert_key
AllAbove-insert_key x q [] h a = (h, tt)
AllAbove-insert_key x q (y ∷ ys) h (b, a) = ground (arith, AllAbove-insert_key x q ys h a)

AllAbove-remove_key : (x q : ℕ) (ys : List ℕ) → AllAbove x ys → AllAbove x (remove_key q ys)
unfolding AllAbove remove_key
AllAbove-remove_key x q [] a = tt
AllAbove-remove_key x q (y ∷ ys) (b, a) = ground (arith, AllAbove-remove_key x q ys a)

pub insert_key-IsSorted :
    (q : ℕ) (xs : List ℕ) → has q xs ≡ false → IsSorted xs → IsSorted (insert_key q xs)
unfolding IsSorted insert_key has AllAbove
insert_key-IsSorted q [] out s = (tt, tt)
insert_key-IsSorted q (x ∷ xs) out (a, s) =
    ground (arith, insert_key-IsSorted q xs, AllAbove-insert_key x q xs, AllAbove-trans q x xs)

pub remove_key-IsSorted : (q : ℕ) (xs : List ℕ) → IsSorted xs → IsSorted (remove_key q xs)
unfolding IsSorted remove_key
remove_key-IsSorted q [] s = tt
remove_key-IsSorted q (x ∷ xs) (a, s) =
    ground (arith, remove_key-IsSorted q xs s, AllAbove-remove_key x q xs a)

-- A sorted list about one of its numbers.
pub record Split (ls : List ℕ) (x : ℕ) (rs : List ℕ) : Type 0 where
  pub below : AllBelow x ls
  pub above : AllAbove x rs
  pub left : IsSorted ls
  pub right : IsSorted rs

AllAbove-append :
    (y : ℕ) (ls : List ℕ) (x : ℕ) (rs : List ℕ)
    → AllAbove y (ls ++ (x ∷ rs))
    → AllAbove y ls × (y < x)
unfolding AllAbove
AllAbove-append y [] x rs (h, a) = (tt, h)
AllAbove-append y (l ∷ ls) x rs (h, a) = let (b, c) = AllAbove-append y ls x rs a in ((h, b), c)

pub IsSorted-Split : (ls : List ℕ) (x : ℕ) (rs : List ℕ) → IsSorted (ls ++ (x ∷ rs)) → Split ls x rs
unfolding IsSorted AllBelow
IsSorted-Split [] x rs (a, s) = record { below = tt; above = a; left = tt; right = s }
IsSorted-Split (l ∷ ls) x rs (a, s) =
    let rest = IsSorted-Split ls x rs s in
    let (b, c) = AllAbove-append l ls x rs a in
    record {
      below = (c, rest.below);
      above = rest.above;
      left = (b, rest.left);
      right = rest.right;
    }

-- Below all of a list, nothing is on it.
pub has-AllAbove : (q x : ℕ) (xs : List ℕ) → q < x → AllAbove x xs → has q xs ≡ false
unfolding has AllAbove
has-AllAbove q x [] h a = refl
has-AllAbove q x (y ∷ ys) h (b, a) = ground (arith, has-AllAbove q x ys h a)

pub has_left :
    (q : ℕ) (ls : List ℕ) (x : ℕ) (rs : List ℕ)
    → q < x
    → AllAbove x rs
    → has q (ls ++ (x ∷ rs)) ≡ has q ls
unfolding has
has_left q [] x rs h a = ground (arith, has-AllAbove q x rs h a)
has_left q (l ∷ ls) x rs h a = ground (arith, has_left q ls x rs h a)

pub has_right :
    (q : ℕ) (ls : List ℕ) (x : ℕ) (rs : List ℕ)
    → x < q
    → AllBelow x ls
    → has q (ls ++ (x ∷ rs)) ≡ has q rs
unfolding has AllBelow
has_right q [] x rs h b = ground arith
has_right q (l ∷ ls) x rs h (c, b) = ground (arith, has_right q ls x rs h b)

pub has_middle : (q : ℕ) (ls rs : List ℕ) → has q (ls ++ (q ∷ rs)) ≡ true
unfolding has
has_middle q [] rs = ground arith
has_middle q (l ∷ ls) rs = ground (arith, has_middle q ls rs)

pub insert_left :
    (q : ℕ) (ls : List ℕ) (x : ℕ) (rs : List ℕ)
    → q < x
    → insert_key q (ls ++ (x ∷ rs)) ≡ insert_key q ls ++ (x ∷ rs)
unfolding insert_key
insert_left q [] x rs h = ground arith
insert_left q (l ∷ ls) x rs h = ground (arith, insert_left q ls x rs h)

pub insert_right :
    (q : ℕ) (ls : List ℕ) (x : ℕ) (rs : List ℕ)
    → x < q
    → AllBelow x ls
    → insert_key q (ls ++ (x ∷ rs)) ≡ ls ++ (x ∷ insert_key q rs)
unfolding insert_key AllBelow
insert_right q [] x rs h b = ground arith
insert_right q (l ∷ ls) x rs h (c, b) = ground (arith, insert_right q ls x rs h b)

remove-AllAbove : (q x : ℕ) (xs : List ℕ) → q < x → AllAbove x xs → remove_key q xs ≡ xs
unfolding remove_key AllAbove
remove-AllAbove q x [] h a = refl
remove-AllAbove q x (y ∷ ys) h (b, a) = ground (arith, remove-AllAbove q x ys h a)

pub remove_left :
    (q : ℕ) (ls : List ℕ) (x : ℕ) (rs : List ℕ)
    → q < x
    → AllAbove x rs
    → remove_key q (ls ++ (x ∷ rs)) ≡ remove_key q ls ++ (x ∷ rs)
unfolding remove_key
remove_left q [] x rs h a = ground (arith, remove-AllAbove q x rs h a)
remove_left q (l ∷ ls) x rs h a = ground (arith, remove_left q ls x rs h a)

pub remove_right :
    (q : ℕ) (ls : List ℕ) (x : ℕ) (rs : List ℕ)
    → x < q
    → AllBelow x ls
    → remove_key q (ls ++ (x ∷ rs)) ≡ ls ++ (x ∷ remove_key q rs)
unfolding remove_key AllBelow
remove_right q [] x rs h b = ground arith
remove_right q (l ∷ ls) x rs h (c, b) = ground (arith, remove_right q ls x rs h b)

pub remove_middle :
    (q : ℕ) (ls rs : List ℕ) → AllBelow q ls → remove_key q (ls ++ (q ∷ rs)) ≡ ls ++ rs
unfolding remove_key AllBelow
remove_middle q [] rs b = ground arith
remove_middle q (l ∷ ls) rs (c, b) = ground (arith, remove_middle q ls rs b)
