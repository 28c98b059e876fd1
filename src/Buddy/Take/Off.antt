-- ===== src/Buddy/Take/Off.antt =====
-- What taking a block off the free lists of kernel/src/mm/page_alloc.c leaves.
use aphrodite.Base.{
  ℕ, zero, suc, ◌+◌, ◌-◌, ◌^◌, ◌<◌, ◌≤◌, ◌≡◌, inl, inr, refl, ap, ◌∙◌, arith, ◌==◌, true,
  Bool-cases, dec_lt, List, [], ◌∷◌, sub64,
}
use native.Mathlib.Nat.{one-le-pow, pow-le-pow_right}
use aphrodite.Base.Sorted.{has, remove_key}
use aphrodite.Sched.{put}
use aphrodite.Buddy.{PageSection}
use aphrodite.Buddy.Take.{
  take_off_freelist_to_add_later, is_free_head, take_last, take_off_freelist_order,
}
use aphrodite.Buddy.Take.Sum.{Measure, size, sum_list, sum_lists, sum_lists-put}
use aphrodite.Buddy.Take.Bounds.{IsRanged, take_off-IsRanged, remove_none}
use aphrodite.Buddy.Take.Marked.{IsMarked, IsDisjoint, remove-IsMarked}

-- A section with so many orders: its bounds hold, its number of free pages is that of the pages in its
-- blocks, each block's first page notes the order, and no page is in two blocks.
pub record IsSound (n : ℕ) (s : PageSection) : Type 0 where
  pub ranged : IsRanged s.freelist_list s.min_order s.max_order
  pub bounded : s.max_order ≤ n
  pub counted : s.total_free ≡ sum_lists size n s.freelist_list
  pub small : s.total_free < 2 ^ 64
  pub marked : IsMarked n s.freelist_list s.states
  pub apart : IsDisjoint n s.freelist_list

-- A block of one order is off the lists, and the pages of another order are no longer counted.
pub record Took (n : ℕ) (s : PageSection) (a r page : ℕ) (s' : PageSection) : Type 0 where
  pub ranged : IsRanged s'.freelist_list s'.min_order s'.max_order
  pub bounded : s'.max_order ≤ n
  pub total : s'.total_free + 2 ^ r ≡ s.total_free
  pub sums :
      (m : Measure)
      → sum_lists m n s'.freelist_list + m.of page (2 ^ a) ≡ sum_lists m n s.freelist_list
  pub marked : IsMarked n s'.freelist_list s'.states

-- No blocks measure nothing.
sum_list-zero : (o : ℕ) (pages : List ℕ) → sum_list size o pages ≡ 0 → pages ≡ []
unfolding sum_list size
sum_list-zero o [] e = refl
sum_list-zero o (p ∷ ps) e = absurd (omega (arith, e, one-le-pow o 2))

sum_lists-zero :
    (n : ℕ) (lists : ℕ → List ℕ) (o : ℕ) → sum_lists size n lists ≡ 0 → o < n → lists o ≡ []
unfolding sum_lists
sum_lists-zero zero lists o e h = absurd (omega (arith, h))
sum_lists-zero (suc n) lists o e h = elim (dec_lt o n) [
  | yes below ↦ sum_lists-zero n lists o (omega (arith, e)) below
  | no here ↦
      let same : o ≡ n = omega (arith, h, here) in
      ap lists same ∙ sum_list-zero n (lists n) (omega (arith, e))
]

pub removed-sums :
    (n : ℕ) (s : PageSection) (a page : ℕ) (pages : List ℕ) (m : Measure)
    → a < n
    → s.freelist_list a ≡ page ∷ pages
    → sum_lists m n (put s.freelist_list a (remove_key page (s.freelist_list a)))
        + m.of page (2 ^ a)
      ≡ sum_lists m n s.freelist_list
unfolding sum_list remove_key
removed-sums n s a page pages m h e =
    let self : (page == page) ≡ true = ground arith in
    let rest : remove_key page (page ∷ pages) ≡ pages = rw self refl in
    let removed = ap (remove_key page) e ∙ rest in
    omega (
      arith,
      sum_lists-put m n a s.freelist_list (remove_key page (s.freelist_list a)) h,
      ap (sum_list m a) e,
      ap (sum_list m a) removed,
    )

front-has :
    (s : PageSection) (a page : ℕ) (pages : List ℕ)
    → s.freelist_list a ≡ page ∷ pages
    → has page (s.freelist_list a) ≡ true
unfolding has
front-has s a page pages e =
    let self : (page == page) ≡ true = ground arith in
    let there : has page (page ∷ pages) ≡ true = rw self refl in ap (has page) e ∙ there

pub take_off-Took :
    (n : ℕ) (s : PageSection) (a r page : ℕ) (pages : List ℕ)
    → IsSound n s
    → a < s.max_order
    → r ≤ a
    → s.freelist_list a ≡ page ∷ pages
    → Took n s a r page (take_off_freelist_order n s a page r)
unfolding take_off_freelist_order take_off_freelist_to_add_later take_last size is_free_head
take_off-Took n s a r page pages ok h le e =
    let lists = put s.freelist_list a (remove_key page (s.freelist_list a)) in
    let below : a < n = omega (arith, h, ok.bounded) in
    let sums = λ (m : Measure). removed-sums n s a page pages m below e in
    let pages_left = sums size in
    let powers = pow-le-pow_right {n = 2} (omega arith) le in
    let counted = ok.counted in
    let small = ok.small in
    let left : sub64 s.total_free (2 ^ r) ≡ s.total_free - 2 ^ r = ground arith in
    let enough : 2 ^ r ≤ s.total_free = omega arith in
    let marks = remove-IsMarked n a page s.freelist_list s.states ok.marked in
    elim (Bool-cases (sub64 s.total_free (2 ^ r) == 0)) [
      | inr more ↦
          let counted_off = record s { total_free = sub64 s.total_free (2 ^ r) } in
          let (ranged, same) = take_off-IsRanged n counted_off a page ok.ranged h in
          rw more (record {
            ranged = ranged;
            bounded = omega (arith, same, ok.bounded);
            total = omega (arith, left, enough);
            sums = sums;
            marked = marks;
          })
      | inl last ↦
          let none_left : s.total_free ≡ 2 ^ r = ground (arith, last, left, enough) in
          let no_pages : sum_lists size n lists ≡ 0 =
            omega (arith, none_left, counted, pages_left, powers) in
          let head = ap is_free_head (ok.marked a page below (front-has s a page pages e)) in
          rw (last, head)
            (record {
              ranged = λ o. elim (dec_lt o n) [
                | yes here ↦ inl (sum_lists-zero n lists o no_pages here)
                | no beyond ↦ elim (ok.ranged o) [
                  | inl none_there ↦ inl (remove_none s.freelist_list a page o none_there)
                  | inr (from, o_below) ↦ absurd (omega (arith, beyond, o_below, ok.bounded))
                ]
              ];
              bounded = omega arith;
              total = omega (arith, left, enough);
              sums = sums;
              marked = marks;
            })
    ]
