-- ===== src/Buddy/Take/Taken.antt =====
-- Allocation of pages from a section of kernel/src/mm/page_alloc.c: the free blocks before and after.
use aphrodite.Base.{
  ℕ, zero, suc, ◌+◌, ◌-◌, ◌^◌, max, ◌<◌, ◌≤◌, ◌≡◌, ◌⊎◌, inl, inr, refl, sym, ap, ◌∙◌, arith, ltb,
  leb, ◌&&◌, true, Bool-cases, dec_lt, Option, none, some, List, [], ◌∷◌,
}
use mathlib.Core.Path.{subst}
use aphrodite.Base.Sorted.{has}
use aphrodite.Buddy.{PageSection, free_extra_pages_if_from_higher_order}
use aphrodite.Buddy.Tiles.{Block, push_all}
use aphrodite.Buddy.Split.{Between, free_extra_pages-Split}
use aphrodite.Buddy.Take.{
  setup_pages_off_freelist, take_front, get_from_freelist_order, finish_alloc, alloc_orders,
  alloc_in_section, take_off_freelist_order,
}
use aphrodite.Buddy.Take.Sum.{
  Measure, size, covers, sum_lists, OrdersBelow, sum_lists-push_all, sum_blocks-TilesDown,
}
use aphrodite.Buddy.Take.Bounds.{free_extra-IsRanged}
use aphrodite.Buddy.Take.Marked.{IsDisjoint, sum_lists-has, push_all-IsMarked, covers_own}
use aphrodite.Buddy.Take.Off.{IsSound, Took, take_off-Took}

-- An allocation of 2 ^ order pages: what is free afterwards, and these pages, are what was free before,
-- in every measure; the section stays sound.
pub record Allocated (n : ℕ) (s : PageSection) (order page : ℕ) (s' : PageSection) : Type 0 where
  pub sound : IsSound n s'
  pub total : s'.total_free + 2 ^ order ≡ s.total_free
  pub sums :
      (m : Measure)
      → sum_lists m n s'.freelist_list + m.of page (2 ^ order) ≡ sum_lists m n s.freelist_list

Between-below :
    (n high low : ℕ) (blocks : List Block)
    → high ≤ n
    → Between high low blocks
    → OrdersBelow n blocks
unfolding Between OrdersBelow
Between-below n high low [] h b = tt
Between-below n high low ((order, _) ∷ blocks) h (lt, _, b) =
    (omega (arith, lt, h), Between-below n order low blocks (omega (arith, lt, h)) b)

-- The rest of the block goes back.
split_off :
    (n : ℕ) (s : PageSection) (a r page : ℕ) (s1 : PageSection)
    → IsSound n s
    → r < a
    → a ≤ n
    → Took n s a r page s1
    → Took n s r r page (free_extra_pages_if_from_higher_order page s1 a r)
split_off n s a r page s1 ok lt le t =
    let s2 = free_extra_pages_if_from_higher_order page s1 a r in
    let f = free_extra_pages-Split page s1 a r lt in
    let b = Between-below n a r f.blocks le f.orders in
    let (ranged, within) = free_extra-IsRanged s1 page a r f.blocks t.ranged lt f.orders f.lists in
    let sums : (m : Measure)
        → sum_lists m n s2.freelist_list + m.of page (2 ^ r) ≡ sum_lists m n s.freelist_list =
      λ m. omega (
        arith,
        ap (sum_lists m n) f.lists,
        sum_lists-push_all m n s1.freelist_list f.blocks b,
        sum_blocks-TilesDown m page (2 ^ r) (2 ^ a) f.blocks f.tiled,
        t.sums m,
      ) in
    let apart : IsDisjoint n (push_all s1.freelist_list f.blocks) =
      λ q. omega (arith, ap (sum_lists (covers q) n) f.lists, sums (covers q), ok.apart q) in
    let marked = push_all-IsMarked n s1.freelist_list s1.states f.blocks b t.marked apart in
    record {
      ranged = ranged;
      bounded = within n t.bounded le;
      total = omega (arith, f.counted, t.total);
      sums = sums;
      marked = λ o p h k.
          ap (λ st. st p) f.marks ∙ marked o p h (ap (λ l. has p (l o)) (sym f.lists) ∙ k);
    }

-- The taken pages are marked as out of the lists.
setup-Allocated :
    (n : ℕ) (s : PageSection) (r page : ℕ) (s2 : PageSection)
    → IsSound n s
    → Took n s r r page s2
    → Allocated n s r page (setup_pages_off_freelist s2 page r)
unfolding setup_pages_off_freelist size
setup-Allocated n s r page s2 ok t = record {
  sound = record {
    ranged = t.ranged;
    bounded = t.bounded;
    counted = omega (arith, t.total, t.sums size, ok.counted);
    small = omega (arith, t.total, ok.small);
    marked = λ o p h k. elim (Bool-cases (leb page p && ltb p (page + 2 ^ r))) [
      | inl inside ↦
          let own = covers_own p page r (ground arith) (ground arith) in
          absurd (
            omega
              (arith, ok.apart p, t.sums (covers p), own, sum_lists-has n o p s2.freelist_list h k))
      | inr outside ↦ rw outside (t.marked o p h k)
    ];
    apart = λ q. omega (arith, t.sums (covers q), ok.apart q);
  };
  total = t.total;
  sums = t.sums;
}

finish_alloc-Allocated :
    (n : ℕ) (s : PageSection) (a r page : ℕ) (s1 : PageSection)
    → IsSound n s
    → r ≤ a
    → a ≤ n
    → Took n s a r page s1
    → Allocated n s r page ((finish_alloc a r (page, s1)).1)
unfolding finish_alloc free_extra_pages_if_from_higher_order
finish_alloc-Allocated n s a r page s1 ok le within t = elim (dec_lt r a) [
  | yes lower ↦
      setup-Allocated n s r page (free_extra_pages_if_from_higher_order page s1 a r) ok
        (split_off n s a r page s1 ok lower within t)
  | no same ↦
      let one : a ≡ r = omega (arith, le, same) in
      let e : leb a r ≡ true = ground arith in
      rw e (setup-Allocated n s r page s1 ok (subst (λ o. Took n s o r page s1) one t))
]

pub list-cases :
    (pages : List ℕ) → (pages ≡ []) ⊎ ((page : ℕ) × (rest : List ℕ) × (pages ≡ page ∷ rest))
list-cases [] = inl refl
list-cases (page ∷ rest) = inr (page, rest, refl)

-- The answers to a search from an order on.
unfoldable pub Answers : ℕ → PageSection → ℕ → ℕ → Option (ℕ × PageSection) → Type 0
Answers n s a order r =
    ((r ≡ none) × ((o : ℕ) → a ≤ o → s.freelist_list o ≡ []))
    ⊎ ((page : ℕ) × (s' : PageSection) × (r ≡ some (page, s')) × Allocated n s order page s')

-- None of the orders from this one on has a block.
next-Answers :
    (n : ℕ) (s : PageSection) (a order : ℕ) (r : Option (ℕ × PageSection))
    → s.freelist_list a ≡ []
    → Answers n s (a + 1) order r
    → Answers n s a order r
unfolding Answers
next-Answers n s a order r e (inr found) = inr found
next-Answers n s a order r e (inl (none_found, empty)) = inl (
  none_found,
  λ o le. elim (dec_lt a o) [
    | yes later ↦ empty o (omega (arith, later))
    | no here ↦ let same : o ≡ a = omega (arith, le, here) in ap s.freelist_list same ∙ e
  ],
)

pub get_none :
    (n : ℕ) (s : PageSection) (a order : ℕ)
    → s.freelist_list a ≡ []
    → get_from_freelist_order n s a order ≡ none
unfolding get_from_freelist_order take_front
get_none n s a order e = ap (take_front n s a order) e

get_some :
    (n : ℕ) (s : PageSection) (a order page : ℕ) (rest : List ℕ)
    → s.freelist_list a ≡ page ∷ rest
    → get_from_freelist_order n s a order ≡ some (page, take_off_freelist_order n s a page order)
unfolding get_from_freelist_order take_front
get_some n s a order page rest e = ap (take_front n s a order) e

alloc_orders-Answers :
    (tries n : ℕ) (s : PageSection) (a order : ℕ)
    → IsSound n s
    → order ≤ a
    → s.max_order ≤ a + tries
    → Answers n s a order (alloc_orders tries n s a order)
unfolding alloc_orders Answers finish_alloc
alloc_orders-Answers zero n s a order ok le enough = inl (
  refl,
  λ o from. elim (ok.ranged o) [
    | inl e ↦ e
    | inr (_, below) ↦ absurd (omega (arith, from, below, enough))
  ],
)
alloc_orders-Answers (suc tries) n s a order ok le enough = elim (list-cases (s.freelist_list a)) [
  | inl e ↦
      let got = get_none n s a order e in
      rw (got, alloc_orders)
        (next-Answers n s a order (alloc_orders tries n s (a + 1) order) e (
          alloc_orders-Answers tries n s (a + 1) order ok (omega (arith, le))
            (omega (arith, enough))))
  | inr (page, rest, e) ↦
      let got = get_some n s a order page rest e in
      let below : a < s.max_order = elim (ok.ranged a) [
        | inl none_there ↦ absurd (filled page rest (sym e ∙ none_there))
        | inr (_, h) ↦ h
      ] in
      let t = take_off-Took n s a order page rest ok below le e in
      rw (got, alloc_orders)
        (inr (
          page,
          (finish_alloc a order (page, take_off_freelist_order n s a page order)).1,
          refl,
          finish_alloc-Allocated n s a order page (take_off_freelist_order n s a page order) ok le
              (omega (arith, below, ok.bounded)) t,
        ))
]
  where
    filled : (page : ℕ) (rest : List ℕ) → ◌≡◌ {A = List ℕ} (page ∷ rest) [] → ⊥
    filled page rest e = cc

-- Allocation of 2 ^ order pages from a sound section fails exactly if no order from that one on has a
-- free block. Otherwise the pages that were free before are, in every measure, those that are
-- free afterwards and the 2 ^ order pages from the result on, so that these were free and are no longer; their
-- number is taken off the count, and the section stays sound: no page is in two blocks.
pub alloc_in_section-Answers :
    (n : ℕ) (s : PageSection) (order : ℕ)
    → IsSound n s
    → Answers n s order order (alloc_in_section n s order)
unfolding alloc_in_section Answers
alloc_in_section-Answers n s order ok =
    let start = max order s.min_order in
    elim (alloc_orders-Answers (s.max_order - start) n s start order ok (omega arith)
      (omega arith)) [
        | inr found ↦ inr found
        | inl (none_found, empty) ↦ inl (
          none_found,
          λ o from. elim (ok.ranged o) [
            | inl e ↦ e
            | inr (low, _) ↦ empty o (omega (arith, from, low))
          ],
        )
      ]
