-- ===== src/Buddy/Early/Sound.antt =====
-- The sections that kernel/src/mm/early.c hands to the page allocator are sound.
use aphrodite.Base.{
  u64, ℕ, zero, suc, ◌+◌, ◌-◌, ◌^◌, ◌<◌, ◌≤◌, ◌≡◌, inl, inr, refl, sym, ap, arith, ◌==◌, false,
  Bool-cases, [],
}
use mathlib.Core.Path.{subst}
use native.Mathlib.Nat.{one-le-pow, pow-le-pow_right}
use aphrodite.Sched.{put}
use aphrodite.Buddy.{
  PageState, PageSection, lower_order, lower_min, raise_max, add_to_freelist_order,
  add_to_freelist_order_from_higher,
}
use aphrodite.Base.Sorted.{has}
use aphrodite.Buddy.Tiles.{lower_order-fits, lower_order-le}
use aphrodite.Buddy.Take.Sum.{Measure, size, sum_list, covers, sum_lists}
use aphrodite.Buddy.Take.Bounds.{IsRanged}
use aphrodite.Buddy.Take.Off.{IsSound}
use aphrodite.Buddy.Merge.Returned.{add-Returned}
use aphrodite.Buddy.Early.{
  page_section_init, early_free_pages_from_section, same_section_order, free_block, free_all_pages,
}

-- A range of pages is in no block of the section.
abbrev pub IsFree : ℕ → PageSection → ℕ → ℕ → Type 0
IsFree n s page amount =
    (q : ℕ) → sum_lists (covers q) n s.freelist_list + (covers q).of page amount ≤ 1

-- The free blocks of the first sections.
unfoldable pub sum_sections : Measure → ℕ → ℕ → (ℕ → PageSection) → ℕ
sum_sections m n zero sections = 0
sum_sections m n (suc count) sections =
    sum_sections m n count sections + sum_lists m n (sections count).freelist_list

raised-IsRanged :
    (s : PageSection) (page order : ℕ)
    → IsRanged s.freelist_list s.min_order s.max_order
    → (let s' = free_block s page order in IsRanged s'.freelist_list s'.min_order s'.max_order)
unfolding free_block lower_min raise_max early_free_pages_from_section put
raised-IsRanged s page order ranged o = elim (Bool-cases (order == o)) [
  | inl same ↦ inr (ground arith)
  | inr other ↦ elim (ranged o) [ inl e ↦ inl (rw other e) | inr (low, high) ↦ inr (ground arith) ]
]

-- Freeing a block keeps a section sound.
pub free_block-IsSound :
    (n : ℕ) (s : PageSection) (page order : ℕ)
    → IsSound n s
    → order < n
    → s.total_free + 2 ^ order < 2 ^ 64
    → IsFree n s page (2 ^ order)
    → IsSound n (free_block s page order)
      × ((m : Measure)
          → sum_lists m n (free_block s page order).freelist_list
            ≡ sum_lists m n s.freelist_list + m.of page (2 ^ order))
unfolding free_block lower_min raise_max early_free_pages_from_section add_to_freelist_order
    add_to_freelist_order_from_higher size
free_block-IsSound n s page order ok h small free =
    let r = add-Returned n s page order ok.marked h free in
    (
      record {
        ranged = raised-IsRanged s page order ok.ranged;
        bounded = ground (arith, h, ok.bounded);
        counted = omega (arith, r.sums size, ok.counted, small);
        small = omega (arith, small);
        marked = r.marked;
        apart = r.apart;
      },
      r.sums,
    )

same_section-le :
    (section_of : ℕ → ℕ) (page order : ℕ) → same_section_order section_of page order ≤ order
unfolding same_section_order
same_section-le section_of page zero = omega arith
same_section-le section_of page (suc order) =
    elim (Bool-cases (section_of page == section_of (page + 2 ^ suc order - 1))) [
      | inl same ↦ rw same (omega arith)
      | inr other ↦ rw other (omega (arith, same_section-le section_of page order))
    ]

pub nothing_listed : (m : Measure) (n : ℕ) → sum_lists m n (λ order. []) ≡ 0
unfolding sum_lists sum_list
nothing_listed m zero = refl
nothing_listed m (suc n) = omega (arith, nothing_listed m n)

-- A new section has no free blocks, and is sound.
pub page_section_init-IsSound :
    (n pfn page_count : ℕ) (states : ℕ → PageState)
    → IsSound n (page_section_init n pfn page_count states)
unfolding page_section_init has
page_section_init-IsSound n pfn page_count states = record {
  ranged = λ o. inl refl;
  bounded = omega arith;
  counted = sym (nothing_listed size n);
  small = omega arith;
  marked = λ o p h e. cc;
  apart = λ q. omega (arith, nothing_listed (covers q) n);
}

sum_sections-later :
    (m : Measure) (n count k : ℕ) (sections : ℕ → PageSection) (s : PageSection)
    → count ≤ k
    → sum_sections m n count (put sections k s) ≡ sum_sections m n count sections
unfolding sum_sections put
sum_sections-later m n zero k sections s h = refl
sum_sections-later m n (suc count) k sections s h =
    let e : (k == count) ≡ false = ground (arith, h) in
    rw e (omega (arith, sum_sections-later m n count k sections s (omega (arith, h))))

-- What changes with one section.
sum_sections-put :
    (m : Measure) (n count k : ℕ) (sections : ℕ → PageSection) (s : PageSection)
    → k < count
    → sum_sections m n count (put sections k s) + sum_lists m n (sections k).freelist_list
      ≡ sum_sections m n count sections + sum_lists m n s.freelist_list
unfolding sum_sections put
sum_sections-put m n zero k sections s h = absurd (omega (arith, h))
sum_sections-put m n (suc count) k sections s h = elim (Bool-cases (k == count)) [
  | inl here ↦
      let same : k ≡ count = ground (arith, here) in
      let later = sum_sections-later m n count k sections s (omega (arith, same)) in
      rw here (omega (arith, later, ap (λ i. sum_lists m n (sections i).freelist_list) same))
  | inr other ↦
      rw other (omega (arith, sum_sections-put m n count k sections s (ground (arith, h, other))))
]

-- Sections that are sound and have none of some pages in their blocks.
pub record Ready (n count : ℕ) (sections : ℕ → PageSection) (page avail : ℕ) : Type 0 where
  pub sound : (i : ℕ) → i < count → IsSound n (sections i)
  pub free : (i : ℕ) → i < count → IsFree n (sections i) page avail
  pub small : (i : ℕ) → i < count → (sections i).total_free + avail < 2 ^ 64

free_block_total :
    (s : PageSection) (page order : ℕ)
    → (free_block s page order).total_free ≡ u64 (s.total_free + 2 ^ order)
unfolding free_block lower_min raise_max early_free_pages_from_section
free_block_total s page order = refl

free_block-Ready :
    (n count : ℕ) (sections : ℕ → PageSection) (page order left k : ℕ)
    → order < n
    → k < count
    → Ready n count sections page (2 ^ order + left)
    → (let sections' = put sections k (free_block (sections k) page order) in
        Ready n count sections' (page + 2 ^ order) left
        × ((m : Measure)
            → sum_sections m n count sections'
              ≡ sum_sections m n count sections + m.of page (2 ^ order)))
unfolding put
free_block-Ready n count sections page order left k h within ready =
    let s = sections k in
    let joins = λ (q : ℕ). (covers q).joins page (2 ^ order) left in
    let (ok, sums) =
      free_block-IsSound n s page order (ready.sound k within) h
        (omega (arith, ready.small k within))
        (λ q. omega (arith, joins q, ready.free k within q)) in
    (
      record {
        sound = λ i below. elim (Bool-cases (k == i)) [
          | inl same ↦ rw same ok
          | inr other ↦ rw other (ready.sound i below)
        ];
        free = λ i below q. elim (Bool-cases (k == i)) [
          | inl same ↦ rw same (omega (arith, sums (covers q), joins q, ready.free k within q))
          | inr other ↦ rw other (omega (arith, joins q, ready.free i below q))
        ];
        small = λ i below. elim (Bool-cases (k == i)) [
          | inl same ↦ rw same (omega (arith, free_block_total s page order, ready.small k within))
          | inr other ↦ rw other (omega (arith, ready.small i below))
        ];
      },
      λ m.
          omega
            (arith, sums m, sum_sections-put m n count k sections (free_block s page order) within),
    )

-- When a range of pages that is in no free block is given to the sections that its pages note, then
-- sections that were sound stay sound, and the free blocks of all of them measure what they did and the
-- range: each page is free once. As many rounds as pages are enough.
pub free_all_pages-Ready :
    (rounds n count : ℕ) (section_of : ℕ → ℕ) (sections : ℕ → PageSection) (page avail order : ℕ)
    → order < n
    → 0 < avail
    → avail ≤ rounds
    → ((q : ℕ) → section_of q < count)
    → Ready n count sections page avail
    → (let sections' = free_all_pages rounds section_of sections page avail order in
        ((i : ℕ) → i < count → IsSound n (sections' i))
        × ((m : Measure)
            → sum_sections m n count sections' ≡ sum_sections m n count sections + m.of page avail))
unfolding free_all_pages
free_all_pages-Ready zero n count section_of sections page avail order h pos enough within ready =
    absurd (omega (arith, pos, enough))
free_all_pages-Ready (suc rounds) n count section_of sections page avail order h pos enough within
      ready =
    let iorder = lower_order order avail in
    let jorder = same_section_order section_of page iorder in
    let k = section_of page in
    let freed = put sections k (free_block (sections k) page jorder) in
    let left = avail - 2 ^ jorder in
    let j_le = same_section-le section_of page iorder in
    let i_le = lower_order-le order avail in
    let fits = lower_order-fits order avail pos in
    let power = pow-le-pow_right {n = 2} (omega arith) j_le in
    let some_pages = one-le-pow jorder 2 in
    let all : avail ≡ 2 ^ jorder + left = omega (arith, fits, power) in
    let (next, sums) =
      free_block-Ready n count sections page jorder left k (omega (arith, h, i_le, j_le))
        (within page) (subst (Ready n count sections page) all ready) in
    elim (Bool-cases (left == 0)) [
      | inl done ↦
          let whole : avail ≡ 2 ^ jorder = ground (arith, done, all) in
          rw done (next.sound, λ m. omega (arith, sums m, ap (m.of page) whole))
      | inr more ↦
          let (sound, later) =
            free_all_pages-Ready rounds n count section_of freed (page + 2 ^ jorder) left iorder
              (omega (arith, h, i_le)) (ground (arith, more)) (omega (arith, enough, some_pages))
              within next in
          rw more (
            sound,
            λ m. omega (arith, later m, sums m, m.joins page (2 ^ jorder) left, ap (m.of page) all),
          )
    ]
