-- ===== src/Strings/Compare.antt =====
-- What the comparisons of lib/adt/string_view.c and kernel/src/sys/stdlib.c tell.
use aphrodite.Base.{
  ℕ, zero, suc, ◌-◌, ◌<◌, ◌≤◌, ◌≡◌, ◌↔◌, refl, ap, sym, arith, ltb, ◌==◌, Bool, true, false,
  Bool-cases, inl, inr, List, [], ◌∷◌, drop, take, length, Outcome, ok, length-drop, length-take,
  dec_lt,
}
use aphrodite.Buffer.Bytes.{take-take, drop-take}
use aphrodite.Strings.Views.{
  ℤ, pos, sub_char, is_zero, strcmp, compare_from, strncmp, StringView, sv_compare, same_chars,
  sv_equals, sv_has_prefix, sv_has_suffix,
}

-- Two strings of the same length always compare as equal.
pub strcmp-same_length : (xs ys : List ℕ) → length xs ≡ length ys → strcmp xs ys ≡ pos 0
unfolding strcmp sub_char
strcmp-same_length [] [] e = refl
strcmp-same_length [] (y ∷ ys) e = absurd (omega (arith, e))
strcmp-same_length (x ∷ xs) [] e = absurd (omega (arith, e))
strcmp-same_length (x ∷ xs) (y ∷ ys) e = strcmp-same_length xs ys (omega (arith, e))

sub_char-is_zero : (a b : ℕ) → (a == b) ≡ false → is_zero (sub_char a b) ≡ false
unfolding sub_char is_zero
sub_char-is_zero a b e = ground (arith, e)

zero_is_zero : is_zero (pos 0) ≡ true
unfolding is_zero
zero_is_zero = refl

different : {b : Bool} → b ≡ true → b ≡ false → ⊥
different e f = cc

different_heads :
    (a b : ℕ) (xs ys : List ℕ) → (a == b) ≡ false → ◌≡◌ {A = List ℕ} (a ∷ xs) (b ∷ ys) → ⊥
different_heads a b xs ys other e = let one : a ≡ b = cc in ground (arith, one, other)

tails : (a b : ℕ) (xs ys : List ℕ) → ◌≡◌ {A = List ℕ} (a ∷ xs) (b ∷ ys) → xs ≡ ys
tails a b xs ys e = cc

-- Whether the first characters are the same.
unfoldable pub Tells : ℕ → List ℕ → List ℕ → Outcome ℤ → Type 0
Tells n xs ys r = (d : ℤ) × (r ≡ ok d) × ((is_zero d ≡ true) ↔ (take n xs ≡ take n ys))

compare_from-Tells :
    (n a b : ℕ) (xs ys : List ℕ)
    → n ≤ length xs
    → n ≤ length ys
    → Tells n (a ∷ xs) (b ∷ ys) (compare_from n a b xs ys)
unfolding Tells compare_from
compare_from-Tells zero a b xs ys h k = (pos 0, refl, (λ e. refl, λ e. zero_is_zero))
compare_from-Tells (suc n) a b [] ys h k = absurd (omega (arith, h))
compare_from-Tells (suc n) a b (x ∷ xs) [] h k = absurd (omega (arith, k))
compare_from-Tells (suc n) a b (x ∷ xs) (y ∷ ys) h k = elim (Bool-cases (a == b)) [
  | inr other ↦ rw other (
    sub_char a b,
    refl,
    (
      λ e. absurd (different e (sub_char-is_zero a b other)),
      λ e. absurd (different_heads a b (take n (x ∷ xs)) (take n (y ∷ ys)) other e),
    ),
  )
  | inl same ↦
      let one : a ≡ b = ground (arith, same) in
      let (d, e, (there, back)) =
        compare_from-Tells n x y xs ys (omega (arith, h)) (omega (arith, k)) in
      rw same (
        d,
        e,
        (λ z. (let f = there z in cc), λ l. back (tails a b (take n (x ∷ xs)) (take n (y ∷ ys)) l)),
      )
]

strncmp-Tells :
    (n : ℕ) (xs ys : List ℕ) → n < length xs → n < length ys → Tells n xs ys (strncmp xs ys n)
unfolding strncmp
strncmp-Tells n [] ys h k = absurd (omega (arith, h))
strncmp-Tells n (x ∷ xs) [] h k = absurd (omega (arith, k))
strncmp-Tells n (x ∷ xs) (y ∷ ys) h k =
    compare_from-Tells n x y xs ys (omega (arith, h)) (omega (arith, k))

-- What a Boolean answer says.
unfoldable pub Decides : Type 0 → Outcome Bool → Type 0
Decides P r = (b : Bool) × (r ≡ ok b) × ((b ≡ true) ↔ P)

same_chars-Decides :
    (n : ℕ) (xs ys : List ℕ)
    → n < length xs
    → n < length ys
    → Decides (take n xs ≡ take n ys) (same_chars xs ys n)
unfolding same_chars Decides Tells
same_chars-Decides n xs ys h k =
    let (d, e, iff) = strncmp-Tells n xs ys h k in (is_zero d, rw e refl, iff)

-- The characters of a view.
unfoldable pub chars : StringView → List ℕ
chars sv = take sv.length sv.begin

length-chars : (sv : StringView) → sv.length < length sv.begin → length (chars sv) ≡ sv.length
unfolding chars
length-chars sv h = omega (arith, length-take sv.length sv.begin, h)

-- No list of one length is one of another.
never : (xs ys : List ℕ) → length xs < length ys → Decides (xs ≡ ys) (ok false)
unfolding Decides
never xs ys h = (false, refl, (λ e. cc, λ e. absurd (omega (arith, ap length e, h))))

equals-Decides :
    (sv sv2 : StringView)
    → sv.length < length sv.begin
    → sv2.length < length sv2.begin
    → Decides (chars sv ≡ chars sv2) (sv_equals sv sv2)
unfolding sv_equals chars Decides
equals-Decides sv sv2 h k = elim (Bool-cases (sv.length == sv2.length)) [
  | inr other ↦ rw other (
    false,
    refl,
    (
      λ e. cc,
      λ e. absurd (ground (arith, other, ap length e, length-chars sv h, length-chars sv2 k)),
    ),
  )
  | inl same ↦
      let one : sv2.length ≡ sv.length = ground (arith, same) in
      elim (Bool-cases (sv.length == 0)) [
        | inl empty ↦
            let none_there : sv.length ≡ 0 = ground (arith, empty) in
            rw (same, empty, one, none_there) (true, refl, (λ e. refl, λ e. refl))
        | inr some_char ↦
            let lists = same_chars-Decides sv.length sv.begin sv2.begin h (omega (arith, one, k)) in
            rw (same, some_char, one) lists
      ]
]

prefix-Decides :
    (sv prefix : StringView)
    → sv.length < length sv.begin
    → prefix.length < length prefix.begin
    → Decides (take prefix.length (chars sv) ≡ chars prefix) (sv_has_prefix sv prefix)
unfolding sv_has_prefix chars
prefix-Decides sv prefix h k = elim (dec_lt sv.length prefix.length) [
  | yes longer ↦
      let e : ltb sv.length prefix.length ≡ true = ground arith in
      rw e (
        never (take prefix.length (chars sv)) (chars prefix) (
          omega (
            arith,
            length-take prefix.length (chars sv),
            length-chars sv h,
            length-chars prefix k,
            longer,
          )))
  | no within ↦
      let e : ltb sv.length prefix.length ≡ false = ground arith in
      rw (e, take-take prefix.length sv.length sv.begin (omega (arith, within)))
        (same_chars-Decides prefix.length sv.begin prefix.begin (omega (arith, within, h)) k)
]

suffix-Decides :
    (sv suffix : StringView)
    → sv.length < length sv.begin
    → suffix.length < length suffix.begin
    → Decides (drop (sv.length - suffix.length) (chars sv) ≡ chars suffix) (sv_has_suffix sv suffix)
unfolding sv_has_suffix chars
suffix-Decides sv suffix h k =
    let index = sv.length - suffix.length in
    elim (dec_lt sv.length suffix.length) [
      | yes longer ↦
          let e : ltb sv.length suffix.length ≡ true = ground arith in
          rw e (
            never (drop index (chars sv)) (chars suffix) (
              omega (
                arith,
                length-drop index (chars sv),
                length-chars sv h,
                length-chars suffix k,
                longer,
              )))
      | no within ↦
          let e : ltb sv.length suffix.length ≡ false = ground arith in
          let rest : sv.length - index ≡ suffix.length = omega (arith, within) in
          rw (e, drop-take index sv.length sv.begin (omega arith), rest)
            (same_chars-Decides suffix.length (drop index sv.begin) suffix.begin
              (omega (arith, length-drop index sv.begin, within, h)) k)
    ]

-- Of two views after each of which a byte can still be read: `sv_equals` tells if they have the same
-- characters, `sv_has_prefix` if the first of the one are those of the other, and `sv_has_suffix` if the last
-- are; none of them panics.
pub sv_tests-Decides :
    (sv sv2 : StringView)
    → sv.length < length sv.begin
    → sv2.length < length sv2.begin
    → Decides (chars sv ≡ chars sv2) (sv_equals sv sv2)
      × Decides (take sv2.length (chars sv) ≡ chars sv2) (sv_has_prefix sv sv2)
      × Decides (drop (sv.length - sv2.length) (chars sv) ≡ chars sv2) (sv_has_suffix sv sv2)
sv_tests-Decides sv sv2 h k =
    (equals-Decides sv sv2 h k, prefix-Decides sv sv2 h k, suffix-Decides sv sv2 h k)

-- A view and a longer view that begins with its characters, which are not none, compare as equal.
pub sv_compare-prefix :
    (sv sv2 : StringView)
    → 0 < sv.length
    → sv.length < sv2.length
    → sv.length < length sv.begin
    → sv2.length < length sv2.begin
    → take sv.length sv2.begin ≡ chars sv
    → (d : ℤ) × (sv_compare sv sv2 ≡ ok d) × (is_zero d ≡ true)
unfolding sv_compare chars Tells
sv_compare-prefix sv sv2 some_char longer h k prefix =
    let (d, e, (there, back)) =
      strncmp-Tells sv.length sv.begin sv2.begin h (omega (arith, k, longer)) in
    let first : ltb sv2.length sv.length ≡ false = ground arith in
    let second : ltb sv.length sv2.length ≡ true = ground arith in
    let third : (sv.length == 0) ≡ false = ground arith in
    (d, rw (first, second, third) e, back (sym prefix))
