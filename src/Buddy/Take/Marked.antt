-- ===== src/Buddy/Take/Marked.antt =====
-- The states that are noted in the first pages of the blocks on the free lists of
-- kernel/src/mm/page_alloc.c, as long as no two blocks overlap.
use aphrodite.Base.{
  ℕ, zero, suc, ◌+◌, ◌-◌, ◌^◌, ◌<◌, ◌≤◌, ◌≡◌, ◌⊎◌, inl, inr, refl, sym, ap, ◌∙◌, arith, ◌==◌, true,
  false, Bool-cases, dec_lt, List, [], ◌∷◌,
}
use native.Mathlib.Nat.{one-le-pow, pow-le-pow_right}
use aphrodite.Base.Sorted.{has, remove_key}
use aphrodite.Sched.{put}
use aphrodite.Buddy.{PageState, PageState.free_list_head, mark_block}
use aphrodite.Buddy.Tiles.{Block, push_all, mark_all}
use aphrodite.Buddy.Take.Sum.{
  Measure, covers, sum_list, sum_lists, OrdersBelow, sum_lists-put, sum_lists-push_all,
}

-- The first page of every block of the first orders notes the order.
abbrev pub IsMarked : ℕ → (ℕ → List ℕ) → (ℕ → PageState) → Type 0
IsMarked n lists states = (o p : ℕ) → o < n → has p (lists o) ≡ true → states p ≡ free_list_head o

-- No page is in two blocks.
abbrev pub IsDisjoint : ℕ → (ℕ → List ℕ) → Type 0
IsDisjoint n lists = (q : ℕ) → sum_lists (covers q) n lists ≤ 1

-- A block covers its pages.
pub covers_own : (q p o : ℕ) → p ≤ q → q < p + 2 ^ o → (covers q).of p (2 ^ o) ≡ 1
unfolding covers
covers_own q p o h k = ground arith

sum_list-has : (o p : ℕ) (pages : List ℕ) → has p pages ≡ true → 1 ≤ sum_list (covers p) o pages
unfolding sum_list has
sum_list-has o p [] h = cc
sum_list-has o p (x ∷ xs) h = elim (Bool-cases (x == p)) [
  | inl same ↦
      let one : x ≡ p = ground arith in
      omega (
        arith,
        ap (λ z. (covers p).of z (2 ^ o)) one,
        covers_own p p o (omega arith) (omega (arith, one-le-pow o 2)),
      )
  | inr other ↦ omega (arith, sum_list-has o p xs (ground arith))
]

-- The first page of a block is covered.
pub sum_lists-has :
    (n o p : ℕ) (lists : ℕ → List ℕ)
    → o < n
    → has p (lists o) ≡ true
    → 1 ≤ sum_lists (covers p) n lists
unfolding sum_lists
sum_lists-has zero o p lists h k = absurd (omega (arith, h))
sum_lists-has (suc n) o p lists h k = elim (dec_lt o n) [
  | yes below ↦ omega (arith, sum_lists-has n o p lists below k)
  | no here ↦
      let same : o ≡ n = omega (arith, h, here) in
      omega (arith, sum_list-has o p (lists o) k, ap (λ z. sum_list (covers p) z (lists z)) same)
]

sum_lists-push :
    (m : Measure) (n o p : ℕ) (lists : ℕ → List ℕ)
    → o < n
    → sum_lists m n (put lists o (p ∷ lists o)) ≡ sum_lists m n lists + m.of p (2 ^ o)
unfolding sum_list
sum_lists-push m n o p lists h = omega (arith, sum_lists-put m n o lists (p ∷ lists o) h)

-- Pages of a new block are not the first pages of old ones.
push_apart :
    (n o p : ℕ) (lists : ℕ → List ℕ) (o' p' : ℕ)
    → o < n
    → o' < n
    → IsDisjoint n (put lists o (p ∷ lists o))
    → has p' (lists o') ≡ true
    → p ≤ p'
    → p' < p + 2 ^ o
    → ⊥
push_apart n o p lists o' p' h h' apart k from below = omega (
  arith,
  apart p',
  sum_lists-push (covers p') n o p lists h,
  covers_own p' p o from below,
  sum_lists-has n o' p' lists h' k,
)

-- What marking a block does to the state of a page.
mark_block-outside :
    (states : ℕ → PageState) (o p q : ℕ)
    → (q < p) ⊎ (p + 2 ^ o ≤ q)
    → mark_block states o p q ≡ states q
unfolding mark_block put
mark_block-outside states o p q h =
    let some_pages = one-le-pow o 2 in
    let first : (p == q) ≡ false = ground (arith, h, some_pages) in
    let last : (p + 2 ^ o - 1 == q) ≡ false = ground (arith, h, some_pages) in
    elim (Bool-cases (o == 0)) [ inl e ↦ rw (e, first) refl | inr e ↦ rw (e, last, first) refl ]

mark_block-first : (states : ℕ → PageState) (o p : ℕ) → mark_block states o p p ≡ free_list_head o
unfolding mark_block put
mark_block-first states o p =
    let first : (p == p) ≡ true = ground arith in
    elim (Bool-cases (o == 0)) [
      | inl e ↦ rw (e, first) refl
      | inr e ↦
          let pos : 1 ≤ o = ground (arith, e) in
          let two = pow-le-pow_right {n = 2} (omega arith) pos in
          let last : (p + 2 ^ o - 1 == p) ≡ false = ground (arith, two) in rw (e, last, first) refl
    ]

has_more : (q p : ℕ) (pages : List ℕ) → has q (remove_key p pages) ≡ true → has q pages ≡ true
unfolding has remove_key
has_more q p [] h = h
has_more q p (x ∷ xs) h = ground (arith, has_more q p xs)

-- An old block next to a new one keeps its mark.
old_mark :
    (n o p : ℕ) (lists : ℕ → List ℕ) (states : ℕ → PageState) (o' p' : ℕ)
    → o < n
    → IsMarked n lists states
    → IsDisjoint n (put lists o (p ∷ lists o))
    → o' < n
    → has p' (lists o') ≡ true
    → mark_block states o p p' ≡ free_list_head o'
old_mark n o p lists states o' p' h marked apart h' k = elim (dec_lt p' p) [
  | yes before ↦ mark_block-outside states o p p' (inl before) ∙ marked o' p' h' k
  | no from ↦ elim (dec_lt p' (p + 2 ^ o)) [
    | no after ↦ mark_block-outside states o p p' (inr (omega (arith, after))) ∙ marked o' p' h' k
    | yes inside ↦ absurd (push_apart n o p lists o' p' h h' apart k (omega (arith, from)) inside)
  ]
]

-- A new block that overlaps none.
pub push-IsMarked :
    (n o p : ℕ) (lists : ℕ → List ℕ) (states : ℕ → PageState)
    → o < n
    → IsMarked n lists states
    → IsDisjoint n (put lists o (p ∷ lists o))
    → IsMarked n (put lists o (p ∷ lists o)) (mark_block states o p)
unfolding put has
push-IsMarked n o p lists states h marked apart o' p' h' = elim (Bool-cases (o == o')) [
  | inr other ↦ rw other (λ k. old_mark n o p lists states o' p' h marked apart h' k)
  | inl same ↦
      let one : o ≡ o' = ground arith in
      rw same (elim (Bool-cases (p == p')) [
        | inl it ↦ rw it λ k.
            let page : p ≡ p' = ground arith in
            ap (mark_block states o p) (sym page)
            ∙ mark_block-first states o p
            ∙ ap free_list_head one
        | inr not_it ↦ rw not_it λ k.
            old_mark n o p lists states o' p' h marked apart h'
              (ap (λ z. has p' (lists z)) (sym one) ∙ k)
      ])
]

pub push_all-IsMarked :
    (n : ℕ) (lists : ℕ → List ℕ) (states : ℕ → PageState) (blocks : List Block)
    → OrdersBelow n blocks
    → IsMarked n lists states
    → IsDisjoint n (push_all lists blocks)
    → IsMarked n (push_all lists blocks) (mark_all states blocks)
unfolding push_all mark_all OrdersBelow
push_all-IsMarked n lists states [] b marked apart = marked
push_all-IsMarked n lists states ((o, p) ∷ blocks) (h, b) marked apart =
    let pushed = put lists o (p ∷ lists o) in
    let apart' : IsDisjoint n pushed =
      λ q. omega (arith, apart q, sum_lists-push_all (covers q) n pushed blocks b) in
    push_all-IsMarked n pushed (mark_block states o p) blocks b
      (push-IsMarked n o p lists states h marked apart') apart

-- Taking a block off leaves the other marks.
pub remove-IsMarked :
    (n o p : ℕ) (lists : ℕ → List ℕ) (states : ℕ → PageState)
    → IsMarked n lists states
    → IsMarked n (put lists o (remove_key p (lists o))) states
unfolding put
remove-IsMarked n o p lists states marked o' p' h' = elim (Bool-cases (o == o')) [
  | inr other ↦ rw other (marked o' p' h')
  | inl same ↦
      let one : o ≡ o' = ground arith in
      rw same
        λ k. marked o' p' h' (ap (λ z. has p' (lists z)) (sym one) ∙ has_more p' p (lists o) k)
]
