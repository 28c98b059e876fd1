-- ===== src/Buddy/Early.antt =====
-- The first free pages of the sections: `page_section_init` of kernel/src/mm/section.c,
-- `early_free_pages_from_section` of kernel/src/mm/page_alloc.c and the loop of `free_all_pages` of
-- kernel/src/mm/early.c for one range of pages. `section_of` is what the pages note as their section.
pub mod Sound
use aphrodite.Base.{
  u64, ℕ, zero, suc, ◌+◌, ◌-◌, ◌^◌, ltb, leb, ◌==◌, if◌then◌else◌, Bool, List, [], ◌∷◌,
}
use aphrodite.Sched.{put}
use aphrodite.Buddy.{PageState, PageSection, mark_block, lower_order, lower_min, raise_max}

-- The pages of a new section are not in a free list; the pages themselves are not touched.
unfoldable pub page_section_init : ℕ → ℕ → ℕ → (ℕ → PageState) → PageSection
page_section_init orders pfn page_count states = record {
  pfn = pfn;
  page_count = page_count;
  states = states;
  freelist_list = λ order. [];
  min_order = orders;
  max_order = 0;
  total_free = 0;
}

unfoldable pub early_free_pages_from_section : ℕ → PageSection → ℕ → PageSection
early_free_pages_from_section page s order = record s {
  freelist_list = put s.freelist_list order (page ∷ s.freelist_list order);
  states = mark_block s.states order page;
  total_free = u64 (s.total_free + 2 ^ order);
}

-- The loop for `jorder`: the last page of the block is in the section of the first, as it is of a single page.
unfoldable pub same_section_order : (ℕ → ℕ) → ℕ → ℕ → ℕ
same_section_order section_of page zero = zero
same_section_order section_of page (suc jorder) =
    let lower = same_section_order section_of page jorder in
    if section_of page == section_of (page + 2 ^ suc jorder - 1) then suc jorder else lower

-- A block for the section, whose bounds are adjusted.
unfoldable pub free_block : PageSection → ℕ → ℕ → PageSection
free_block s page jorder =
    lower_min (early_free_pages_from_section page (raise_max s jorder) jorder) jorder

-- Each round frees at least one page, so that as many rounds as pages are enough.
unfoldable pub free_all_pages : ℕ → (ℕ → ℕ) → (ℕ → PageSection) → ℕ → ℕ → ℕ → (ℕ → PageSection)
free_all_pages zero section_of sections page avail order = sections
free_all_pages (suc rounds) section_of sections page avail order =
    let iorder = lower_order order avail in
    let jorder = same_section_order section_of page iorder in
    let section = section_of page in
    let freed = put sections section (free_block (sections section) page jorder) in
    let left = avail - 2 ^ jorder in
    let rest = free_all_pages rounds section_of freed (page + 2 ^ jorder) left iorder in
    if left == 0 then freed else rest
