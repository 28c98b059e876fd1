-- ===== src/Tests/Pages.antt =====
-- Runs of kernel/src/mm/page_alloc.c and kernel/src/mm/early.c.
use mathlib.Core.Path.{subst}
use aphrodite.Base.Sorted.{has}
use aphrodite.Sched.{put}
use aphrodite.Base.{ok, ℕ, ◌<◌, ap, false, ◌+◌, ◌≤◌, ◌≡◌, refl, arith, ltb, if◌then◌else◌, true}
use aphrodite.Buddy.{PageSection, PageState.other_state, lower_min, raise_max, mark_block}
use aphrodite.Buddy.Take.{alloc_in_section, is_free_head}
use aphrodite.Buddy.Take.Sum.{Measure, covers, sum_lists}
use aphrodite.Buddy.Take.Off.{IsSound}
use aphrodite.Buddy.Take.Taken.{Answers, alloc_in_section-Answers}
use aphrodite.Buddy.Merge.{Nearby, noted_order, free_pages, find_nearby_free_pages}
use aphrodite.Buddy.Merge.Around.{IsNoted}
use aphrodite.Buddy.Merge.Returned.{Returned, free_pages-Returned}
use aphrodite.Buddy.Zone.{PageZone, try_alloc_pages_from_zone}
use aphrodite.Buddy.Zone.Tries.{ZoneAnswers, all_free, try_alloc-ZoneAnswers}
use aphrodite.Buddy.Early.{
  early_free_pages_from_section, page_section_init, free_block, free_all_pages,
}
use aphrodite.Buddy.Early.Sound.{
  IsFree, Ready, sum_sections, free_block-IsSound, nothing_listed, page_section_init-IsSound,
  free_all_pages-Ready,
}

-- A section with no free pages and four orders, and with a block of four pages.
abbrev used_up : PageSection
used_up = page_section_init 4 0 64 (λ page. other_state)

abbrev stocked : PageSection
stocked = free_block used_up 8 2

-- The same with a single page.
abbrev single : PageSection
single = free_block used_up 8 0

all_used : (page amount : ℕ) → IsFree 4 used_up page amount
unfolding covers page_section_init
all_used page amount q = ground (arith, nothing_listed (covers q) 4)

stocked-IsSound : IsSound 4 stocked
unfolding page_section_init
stocked-IsSound =
    (free_block-IsSound 4 used_up 8 2 (page_section_init-IsSound 4 0 64 (λ page. other_state))
      (omega arith) (omega arith) (all_used 8 4)).0

single-IsSound : IsSound 4 single
unfolding page_section_init
single-IsSound =
    (free_block-IsSound 4 used_up 8 0 (page_section_init-IsSound 4 0 64 (λ page. other_state))
      (omega arith) (omega arith) (all_used 8 1)).0

alloc_in_section-Answers_example : Answers 4 stocked 1 1 (alloc_in_section 4 stocked 1)
alloc_in_section-Answers_example = alloc_in_section-Answers 4 stocked 1 stocked-IsSound

absurd_equation : false ≡ true → ⊥
absurd_equation e = cc

before_single : IsNoted 4 single 8
unfolding free_block early_free_pages_from_section lower_min raise_max mark_block page_section_init
    put noted_order has
before_single o e =
    let first : 0 ≡ o = ap noted_order e in
    (omega (arith, first), subst (λ k. has 8 (single.freelist_list k) ≡ true) first refl)

after_single : IsNoted 4 single 10
unfolding free_block early_free_pages_from_section lower_min raise_max mark_block page_section_init
    put is_free_head
after_single o e = let wrong : false ≡ true = ap is_free_head e in absurd (absurd_equation wrong)

next_to_single : (q : ℕ) → sum_lists (covers q) 4 single.freelist_list + (covers q).of 9 1 ≤ 1
unfolding covers page_section_init
next_to_single q =
    let (_, sums) =
      free_block-IsSound 4 used_up 8 0 (page_section_init-IsSound 4 0 64 (λ page. other_state))
        (omega arith) (omega arith) (all_used 8 1) in
    ground (arith, sums (covers q), nothing_listed (covers q) 4)

free_pages-Returned_example :
    (found : Nearby) × (s' : PageSection) × (find_nearby_free_pages 4 single 9 1 ≡ ok found)
    × (free_pages 4 single 9 0 ≡ ok s')
    × (1 ≤ found.amount)
    × Returned 4 single 9 1 found.amount s'
unfolding page_section_init free_block lower_min raise_max early_free_pages_from_section
free_pages-Returned_example =
    free_pages-Returned 4 single 9 0 (single-IsSound.marked) before_single after_single
      (omega arith) (omega arith) next_to_single

abbrev two_sections : PageZone
two_sections = record { total_free = 8; sections = λ i. stocked; section_count = 2 }

try_alloc-ZoneAnswers_example :
    ZoneAnswers 4 two_sections 1 0 (try_alloc_pages_from_zone (all_free 2) 4 3 two_sections 1)
unfolding free_block early_free_pages_from_section lower_min raise_max page_section_init
try_alloc-ZoneAnswers_example =
    try_alloc-ZoneAnswers 4 3 two_sections 1 (λ i h. stocked-IsSound) (λ i h. omega arith)
      (omega arith)

-- The pages from 4 on are of the second section.
abbrev halves : ℕ → ℕ
halves q = if ltb q 4 then 0 else 1

halves_below : (q : ℕ) → halves q < 2
halves_below q = ground arith

all-Ready : Ready 4 2 (λ i. used_up) 1 7
unfolding page_section_init
all-Ready = record {
  sound = λ i h. page_section_init-IsSound 4 0 64 (λ page. other_state);
  free = λ i h. all_used 1 7;
  small = λ i h. omega arith;
}

free_all_pages-Ready_example :
    (let sections' = free_all_pages 7 halves (λ i. used_up) 1 7 3 in
      ((i : ℕ) → i < 2 → IsSound 4 (sections' i))
      × ((m : Measure)
          → sum_sections m 4 2 sections' ≡ sum_sections m 4 2 (λ i. used_up) + m.of 1 7))
free_all_pages-Ready_example =
    free_all_pages-Ready 7 4 2 halves (λ i. used_up) 1 7 3 (omega arith) (omega arith) (omega arith)
      halves_below all-Ready
