-- ===== src/Buddy.antt =====
-- kernel/src/mm/page_alloc.c: the free lists of a section of pages, by the order of their blocks.
--
-- A page is its number. A free list is the list of the first pages of its blocks, front first, and
-- its `count` is the length of that list. Of the states that are noted in the pages only those of
-- the free lists are told apart. The zone's total, which changes as the section's does, and the locks are left
-- out. Orders are below 63, so that no shift or sum of pages wraps.
pub mod Tiles
pub mod Split
pub mod Take
pub mod Merge
pub mod Zone
pub mod Early
use aphrodite.Base.{
  ℕ, u64, zero, suc, ◌+◌, ◌-◌, ◌^◌, ltb, leb, ◌==◌, if◌then◌else◌, Bool, true, false, List, [], ◌∷◌,
}
use aphrodite.Sched.{put}

-- The first page of a free block notes its order, and the last one, if there are more, the first.
pub data PageState : Type 0 where
  free_list_head : ℕ → PageState
  free_list_tail : ℕ → PageState
  other_state : PageState

pub record PageSection : Type 0 where
  pub pfn : ℕ
  pub page_count : ℕ
  pub states : ℕ → PageState
  pub freelist_list : ℕ → List ℕ
  pub min_order : ℕ
  pub max_order : ℕ
  pub total_free : ℕ

-- The states of the first and the last page of a block that is added to a free list.
unfoldable pub mark_block : (ℕ → PageState) → ℕ → ℕ → ℕ → PageState
mark_block states order page =
    let marked = put states page (free_list_head order) in
    if order == 0 then marked else put marked (page + 2 ^ order - 1) (free_list_tail page)

-- A block goes to the front of a free list.
unfoldable pub add_to_freelist_order_from_higher : PageSection → ℕ → ℕ → PageSection
add_to_freelist_order_from_higher s freelist_order page = record s {
  freelist_list = put s.freelist_list freelist_order (page ∷ s.freelist_list freelist_order);
  states = mark_block s.states freelist_order page;
}

unfoldable pub add_to_freelist_order : PageSection → ℕ → ℕ → PageSection
add_to_freelist_order s freelist_order page =
    record (add_to_freelist_order_from_higher s freelist_order page) {
      total_free = u64 (s.total_free + 2 ^ freelist_order);
    }

-- The loop for the order to begin with, and the order where the loop ends by itself.
unfoldable pub first_order : ℕ → ℕ → ℕ → ℕ → ℕ
first_order zero order_i avail otherwise = otherwise
first_order (suc tries) order_i avail otherwise =
    if ltb avail (2 ^ order_i) then order_i - 1 else first_order tries (order_i + 1) avail otherwise

-- The inner loop: an order of which there is a block in what is left, which is not 0.
unfoldable pub lower_order : ℕ → ℕ → ℕ
lower_order zero avail = zero
lower_order (suc order) avail =
    if leb (2 ^ suc order) avail then suc order else lower_order order avail

unfoldable pub lower_min : PageSection → ℕ → PageSection
lower_min s order = record s { min_order = if ltb order s.min_order then order else s.min_order }

unfoldable pub raise_max : PageSection → ℕ → PageSection
raise_max s highest_order = record s {
  max_order = if leb s.max_order highest_order then highest_order + 1 else s.max_order;
}

-- The outer loop; each round frees at least one page, so that as many rounds as pages are enough.
unfoldable pub free_rounds : ℕ → PageSection → ℕ → ℕ → ℕ → PageSection
free_rounds zero s order page avail = s
free_rounds (suc rounds) s order page avail =
    let added = add_to_freelist_order s order page in
    let left = avail - 2 ^ order in
    let rest = free_rounds rounds added (lower_order order left) (page + 2 ^ order) left in
    if left == 0 then lower_min added order else rest

unfoldable pub free_range_of_pages : ℕ → PageSection → ℕ → ℕ → PageSection
free_range_of_pages page s amount max_order =
    let order = first_order (max_order + 1) 0 amount (max_order - 1) in
    free_rounds amount (raise_max s order) order page amount

-- The loop from a higher order down.
unfoldable pub split_down : ℕ → PageSection → ℕ → ℕ → PageSection
split_down zero s page order = s
split_down (suc higher_order) s page order =
    let rest =
      split_down higher_order
        (add_to_freelist_order_from_higher s higher_order (page + 2 ^ higher_order)) page order in
    if ltb order (suc higher_order) then rest else s

unfoldable pub free_extra_pages_if_from_higher_order : ℕ → PageSection → ℕ → ℕ → PageSection
free_extra_pages_if_from_higher_order page s higher_order order =
    if leb higher_order order
    then s
    else lower_min (split_down higher_order (raise_max s (higher_order - 1)) page order) order
