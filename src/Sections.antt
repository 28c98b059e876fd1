-- ===== src/Sections.antt =====
-- kernel/src/mm/section.c: the sections of the memory by physical address and by page number. The shift of a page
-- is an argument, and so is what the pages note as their section, from 1 on, for `page_to_section` of
-- kernel/src/mm/page.c. `verify_not_reached()` is a panic.
pub mod Lookup
use aphrodite.Base.{
  ℕ, zero, suc, ◌+◌, ◌-◌, ◌*◌, ◌/◌, ◌%◌, ◌^◌, ltb, leb, ◌&&◌, ◌==◌, if◌then◌else◌, Bool, not, List,
  [], ◌∷◌, Option, none, some, get_elem?, u64, Outcome, ok, panic, assert, ◌>>◌, ◌>>=◌,
}
use aphrodite.Arith.{check_sub}
use aphrodite.Ranges.{Range, range_init, range_has_loc, range_index_for_loc}

-- `range` and `pfn` of `struct page_section`.
pub record MemSection : Type 0 where
  pub range : Range
  pub pfn : ℕ

-- `PAGE_COUNT`
unfoldable pub page_count : ℕ → ℕ → ℕ
page_count shift size = size / 2 ^ shift

unfoldable pub phys_to_section : List MemSection → ℕ → Outcome MemSection
phys_to_section [] phys = panic
phys_to_section (iter ∷ sections) phys =
    let later = phys_to_section sections phys in
    if range_has_loc iter.range phys then ok iter else later

unfoldable pub pfn_to_section : ℕ → List MemSection → ℕ → Outcome MemSection
pfn_to_section shift [] pfn = panic
pfn_to_section shift (iter ∷ sections) pfn =
    let later = pfn_to_section shift sections pfn in
    let pfn_range = range_init pfn (page_count shift iter.range.front) in
    if range_has_loc pfn_range pfn then ok iter else later

unfoldable pub phys_to_pfn : ℕ → List MemSection → ℕ → Outcome ℕ
phys_to_pfn shift [] phys = panic
phys_to_pfn shift (iter ∷ sections) phys =
    let later = phys_to_pfn shift sections phys in
    if range_has_loc iter.range phys
    then ok (u64 (iter.pfn + page_count shift (phys - iter.range.front)))
    else later

-- `page_to_section`; an index beyond the sections reads memory that is not theirs, here a panic.
unfoldable pub page_to_section : List MemSection → ℕ → Outcome MemSection
page_to_section sections section = do
  assert (not (section == 0))
  elim (get_elem? sections (section - 1)) [ none ↦ panic | some found ↦ ok found ]

-- The array of pages: `PAGE_OFFSET` and `PAGE_END`.
pub record PageArray : Type 0 where
  pub offset : ℕ
  pub end : ℕ

-- `SIZEOF_STRUCTPAGE`
abbrev pub page_bytes : ℕ
page_bytes = 40

-- `verify_page_pointer`
unfoldable pub verify_page_pointer : PageArray → ℕ → Bool
verify_page_pointer array page =
    leb array.offset page && ltb page array.end && (page - array.offset) % page_bytes == 0

-- A page is its address from here on.
unfoldable pub pfn_to_page : PageArray → ℕ → Outcome ℕ
pfn_to_page array pfn = do
  assert (ltb (page_bytes * pfn) (2 ^ 64))
  assert (verify_page_pointer array (u64 (array.offset + page_bytes * pfn)))
  ok (u64 (array.offset + page_bytes * pfn))

unfoldable pub page_to_pfn : PageArray → ℕ → Outcome ℕ
page_to_pfn array page = do
  assert (verify_page_pointer array page)
  ok ((page - array.offset) / page_bytes)

-- `page_to_phys` once the section is known; `none` of `check_sub_assert` is a panic.
unfoldable pub phys_in_section : ℕ → MemSection → ℕ → Outcome ℕ
phys_in_section shift section page_pfn = elim (check_sub page_pfn section.pfn) [
  | none ↦ panic
  | some relative_pfn ↦ ok (u64 (section.range.front + u64 (relative_pfn * 2 ^ shift)))
]

unfoldable pub page_to_phys : ℕ → PageArray → List MemSection → (ℕ → ℕ) → ℕ → Outcome ℕ
page_to_phys shift array sections section_of page = do
  assert (leb array.offset page && ltb page array.end)
  section ← page_to_section sections (section_of page)
  page_pfn ← page_to_pfn array page
  phys_in_section shift section page_pfn

unfoldable pub pfn_to_phys_manual : ℕ → List MemSection → ℕ → Outcome ℕ
pfn_to_phys_manual shift [] pfn = panic
pfn_to_phys_manual shift (iter ∷ sections) pfn =
    let later = pfn_to_phys_manual shift sections pfn in
    let pfn_range = range_init iter.pfn (page_count shift (page_count shift iter.range.size)) in
    if range_has_loc pfn_range pfn
    then range_index_for_loc pfn_range pfn
      >>= (λ index. ok (u64 (iter.range.front + u64 (index * 2 ^ shift))))
    else later
