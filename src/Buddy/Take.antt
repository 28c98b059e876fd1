-- ===== src/Buddy/Take.antt =====
-- kernel/src/mm/page_alloc.c: the allocation of pages from a section. `MAX_ORDER`, the number of free
-- lists, is an argument, since the architectures differ in it.
pub mod Sum
pub mod Bounds
pub mod Marked
pub mod Off
pub mod Taken
use aphrodite.Base.{
  ℕ, zero, suc, ◌+◌, ◌-◌, ◌^◌, max, ltb, leb, ◌==◌, ◌&&◌, if◌then◌else◌, Bool, true, false, Option,
  none, some, List, [], ◌∷◌, sub64,
}
use aphrodite.Base.Sorted.{remove_key}
use aphrodite.Sched.{put}
use aphrodite.Buddy.{
  PageState, PageState.free_list_head, PageState.free_list_tail, PageState.other_state, PageSection,
  free_extra_pages_if_from_higher_order,
}

-- `count == 0`
unfoldable pub is_empty : List ℕ → Bool
is_empty [] = true
is_empty (page ∷ pages) = false

-- The first order from one on with a block, or the end.
unfoldable pub next_order : ℕ → (ℕ → List ℕ) → ℕ → ℕ
next_order zero lists order = order
next_order (suc tries) lists order =
    let later = next_order tries lists (order + 1) in
    if is_empty (lists order) then later else order

-- One more than the last order with a block.
unfoldable pub last_order : ℕ → (ℕ → List ℕ) → ℕ
last_order zero lists = 0
last_order (suc order) lists =
    let earlier = last_order order lists in if is_empty (lists order) then earlier else suc order

unfoldable pub take_off_freelist_to_add_later : ℕ → PageSection → ℕ → ℕ → PageSection
take_off_freelist_to_add_later orders s order page =
    let lists = put s.freelist_list order (remove_key page (s.freelist_list order)) in
    let empty = is_empty (remove_key page (s.freelist_list order)) in
    record s {
      freelist_list = lists;
      min_order =
          if empty && s.min_order == order
          then next_order (orders - order) lists order
          else s.min_order;
      max_order = if empty && s.max_order == order then last_order orders lists else s.max_order;
    }

unfoldable pub is_free_head : PageState → Bool
is_free_head (free_list_head order) = true
is_free_head (free_list_tail head) = false
is_free_head other_state = false

-- `take_off_freelist_order` of the last free pages.
unfoldable pub take_last : PageSection → ℕ → ℕ → PageSection
take_last s order page = record s {
  min_order = 0;
  max_order = 0;
  freelist_list =
      if is_free_head (s.states page)
      then put s.freelist_list order (remove_key page (s.freelist_list order))
      else s.freelist_list;
}

unfoldable pub take_off_freelist_order : ℕ → PageSection → ℕ → ℕ → ℕ → PageSection
take_off_freelist_order orders s order page remove_page_order =
    let total_free = sub64 s.total_free (2 ^ remove_page_order) in
    let counted = record s { total_free = total_free } in
    if total_free == 0
    then take_last counted order page
    else take_off_freelist_to_add_later orders counted order page

-- The first page of the list, if there is one.
unfoldable pub take_front : ℕ → PageSection → ℕ → ℕ → List ℕ → Option (ℕ × PageSection)
take_front orders s order remove_page_order [] = none
take_front orders s order remove_page_order (page ∷ pages) =
    some (page, take_off_freelist_order orders s order page remove_page_order)

unfoldable pub get_from_freelist_order : ℕ → PageSection → ℕ → ℕ → Option (ℕ × PageSection)
get_from_freelist_order orders s order page_remove_order =
    take_front orders s order page_remove_order (s.freelist_list order)

-- `setup_pages_off_freelist`: none of the pages is in a free list. (Of a table only the first page is set, but tables
-- have one page.)
unfoldable pub setup_pages_off_freelist : PageSection → ℕ → ℕ → PageSection
setup_pages_off_freelist s page order = record s {
  states = λ q. if leb page q && ltb q (page + 2 ^ order) then other_state else s.states q;
}

-- After the search: the rest of a block of a higher order goes back.
unfoldable pub finish_alloc : ℕ → ℕ → ℕ × PageSection → ℕ × PageSection
finish_alloc alloced_order order (page, s) = (
  page,
  setup_pages_off_freelist (free_extra_pages_if_from_higher_order page s alloced_order order) page
      order,
)

-- The loop over the orders of one section in `try_alloc_pages_from_zone`, from an order on.
unfoldable pub alloc_orders : ℕ → ℕ → PageSection → ℕ → ℕ → Option (ℕ × PageSection)
alloc_orders zero orders s alloced_order order = none
alloc_orders (suc tries) orders s alloced_order order =
    let later = alloc_orders tries orders s (alloced_order + 1) order in
    elim (get_from_freelist_order orders s alloced_order order) [
      | none ↦ later
      | some taken ↦ some (finish_alloc alloced_order order taken)
    ]

-- What `try_alloc_pages_from_zone` does in a section whose lock it has.
unfoldable pub alloc_in_section : ℕ → PageSection → ℕ → Option (ℕ × PageSection)
alloc_in_section orders s order =
    let start = max order s.min_order in alloc_orders (s.max_order - start) orders s start order
