-- ===== src/Buddy/Merge.antt =====
-- kernel/src/mm/page_alloc.c: pages that are freed, with the free blocks next to them.
pub mod Around
pub mod Returned
use aphrodite.Base.{
  ℕ, zero, suc, ◌+◌, ◌-◌, ◌^◌, ltb, leb, ◌==◌, ◌&&◌, if◌then◌else◌, Bool, true, false, not, Option,
  none, some, u64, Outcome, ok, panic, assert, ◌>>=◌, ◌>>◌,
}
use aphrodite.Arith.{check_sub}
use aphrodite.Buddy.{
  PageState, PageState.free_list_head, PageState.free_list_tail, PageState.other_state, PageSection,
  add_to_freelist_order, free_range_of_pages,
}
use aphrodite.Buddy.Take.{take_off_freelist_to_add_later}

-- `freelist_head.order` of a page; of a page that is no such head the field is not read where tails note
-- their heads.
unfoldable pub noted_order : PageState → ℕ
noted_order (free_list_head order) = order
noted_order (free_list_tail head) = 0
noted_order other_state = 0

-- The variables of `find_nearby_free_pages`. `page_pfn` counts from the section's `pfn`.
pub record Nearby : Type 0 where
  pub section : PageSection
  pub free_page : ℕ
  pub page_pfn : ℕ
  pub amount : ℕ
  pub merged_range : Bool

-- Nothing is merged.
abbrev pub not_merged : PageSection → ℕ → ℕ → ℕ → Nearby
not_merged s page page_pfn amount = record {
  section = s;
  free_page = page;
  page_pfn = page_pfn;
  amount = amount;
  merged_range = false;
}

-- The block before, by the state of the page before. `extra` is `page - free_page`, and `free_page` is `page` there.
unfoldable pub merge_previous : ℕ → PageSection → ℕ → ℕ → ℕ → PageState → Nearby
merge_previous orders s page page_pfn amount (free_list_tail free_head) =
    let free_page = page in
    let extra = page - free_page in
    let order = noted_order (s.states free_head) in
    if ltb order (orders - 1) && leb (2 ^ (order + 1)) (2 ^ order + extra)
    then record {
      section = take_off_freelist_to_add_later orders s order free_head;
      free_page = free_head;
      page_pfn = page_pfn - extra;
      amount = amount + extra;
      merged_range = true;
    }
    else not_merged s page page_pfn amount
merge_previous orders s page page_pfn amount (free_list_head order) =
    if order == 0
    then record {
      section = take_off_freelist_to_add_later orders s order (page - 1);
      free_page = page - 1;
      page_pfn = page_pfn - 1;
      amount = amount + 1;
      merged_range = true;
    }
    else not_merged s page page_pfn amount
merge_previous orders s page page_pfn amount other_state = record {
  section = s;
  free_page = page;
  page_pfn = page_pfn;
  amount = amount;
  merged_range = false;
}

-- The block after, by the state of the page after.
unfoldable pub merge_next : ℕ → Nearby → PageState → Nearby
merge_next orders found (free_list_head order) =
    if leb (2 ^ (order + 1)) (2 ^ order + found.amount)
    then record found {
      section =
          take_off_freelist_to_add_later orders found.section order
            (found.free_page + found.amount);
      amount = found.amount + 2 ^ order;
      merged_range = true;
    }
    else found
merge_next orders found (free_list_tail head) = found
merge_next orders found other_state = found

-- The first page of a section has none before it.
unfoldable pub find_previous : ℕ → PageSection → ℕ → ℕ → ℕ → Nearby
find_previous orders s page page_pfn amount =
    if page_pfn == 0
    then not_merged s page page_pfn amount
    else merge_previous orders s page page_pfn amount (s.states (page - 1))

unfoldable pub find_next : ℕ → Nearby → Nearby
find_next orders found =
    let end_pfn = u64 (found.page_pfn + found.amount) in
    let section_end_pfn = u64 (found.section.pfn + found.section.page_count) in
    if end_pfn == section_end_pfn
    then found
    else merge_next orders found (found.section.states (found.free_page + found.amount))

-- `check_sub_assert` is a panic where the page is before its section.
unfoldable pub find_nearby_free_pages : ℕ → PageSection → ℕ → ℕ → Outcome Nearby
find_nearby_free_pages orders s page amount = elim (check_sub page s.pfn) [
  | none ↦ panic
  | some page_pfn ↦ ok (find_next orders (find_previous orders s page page_pfn amount))
]

unfoldable pub free_amount_of_pages : ℕ → PageSection → ℕ → ℕ → Outcome PageSection
free_amount_of_pages orders s page amount = do
  assert (not (amount == 0))
  found ← find_nearby_free_pages orders s page amount
  ok (free_range_of_pages found.free_page found.section found.amount orders)

-- What `free_pages` does with what is found.
unfoldable pub free_found : ℕ → ℕ → ℕ → Nearby → PageSection
free_found orders page order found =
    if found.merged_range
    then free_range_of_pages found.free_page found.section found.amount orders
    else add_to_freelist_order found.section order page

-- `free_pages` of a page that is not the head of a large page.
unfoldable pub free_pages : ℕ → PageSection → ℕ → ℕ → Outcome PageSection
free_pages orders s page order =
    let freed =
      find_nearby_free_pages orders s page (2 ^ order)
      >>= (λ found. ok (free_found orders page order found)) in
    if leb orders order then ok s else freed
