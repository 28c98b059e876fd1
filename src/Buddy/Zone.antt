-- ===== src/Buddy/Zone.antt =====
-- kernel/src/mm/page_alloc.c: the allocation of pages from the sections of a zone, and from a zone or its fallbacks.
--
-- The sections of a zone are numbered in the order of its list. Other processors hold a section's lock or not: a
-- list has the results of the successive calls of `spin_try_acquire_save_irq`, and the model ends when that list
-- does. What the others do to the sections meanwhile is left out.
pub mod Tries
use aphrodite.Base.{
  ℕ, zero, suc, ◌+◌, ◌/◌, ◌%◌, ◌^◌, ltb, leb, ◌==◌, if◌then◌else◌, Bool, true, false, Option, none,
  some, List, [], ◌∷◌, sub64,
}
use aphrodite.Sched.{put}
use aphrodite.Buddy.{PageSection}
use aphrodite.Buddy.Take.{alloc_in_section}

-- `total_free` and `section_list`, with its length.
pub record PageZone : Type 0 where
  pub total_free : ℕ
  pub sections : ℕ → PageSection
  pub section_count : ℕ

-- What a call has come to: it still waits for locks, or it has returned NULL or a page.
pub data Attempt : Type 0 where
  waiting : Attempt
  no_pages : Attempt
  pages : ℕ → PageZone → Attempt

-- `mask | 1ull << index`
unfoldable pub with_bit : ℕ → ℕ → ℕ
with_bit mask index = if (mask / 2 ^ index) % 2 == 0 then mask + 2 ^ index else mask

-- The answer when a section has given its answer: the zone counts the pages as taken, or the search goes on.
unfoldable pub taken_from : PageZone → ℕ → ℕ → Option (ℕ × PageSection) → Attempt → Attempt
taken_from zone iter order none otherwise = otherwise
taken_from zone iter order (some (page, section)) otherwise = pages page (record zone {
  total_free = sub64 zone.total_free (2 ^ order);
  sections = put zone.sections iter section;
})

-- The loop of `try_alloc_pages_from_zone`; `full` is `mm_get_full_section_mask()`.
unfoldable pub try_sections : List Bool → ℕ → ℕ → PageZone → ℕ → ℕ → ℕ → ℕ → Attempt
try_sections [] orders full zone order iter section_index locked_section_mask = waiting
try_sections (false ∷ locks) orders full zone order iter section_index locked_section_mask =
    let again = try_sections locks orders full zone order 0 0 locked_section_mask in
    let next =
      try_sections locks orders full zone order (iter + 1) section_index locked_section_mask in
    if iter + 1 == zone.section_count
    then if locked_section_mask == full then no_pages else again
    else next
try_sections (true ∷ locks) orders full zone order iter section_index locked_section_mask =
    let next =
      try_sections locks orders full zone order (iter + 1) (section_index + 1)
        (with_bit locked_section_mask section_index) in
    taken_from zone iter order (alloc_in_section orders (zone.sections iter) order)
      (if iter + 1 == zone.section_count then no_pages else next)

unfoldable pub try_alloc_pages_from_zone : List Bool → ℕ → ℕ → PageZone → ℕ → Attempt
try_alloc_pages_from_zone locks orders full zone order =
    if ltb zone.total_free (2 ^ order)
    then no_pages
    else try_sections locks orders full zone order 0 0 0
