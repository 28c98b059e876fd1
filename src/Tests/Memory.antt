-- ===== src/Tests/Memory.antt =====
-- Runs of kernel/src/mm/section.c.
use aphrodite.Base.{◌≡◌, refl, arith, [], ◌∷◌, ok}
use aphrodite.Ranges.{range_init, range_has_loc}
use aphrodite.Sections.{
  PageArray, pfn_to_page, MemSection, phys_to_section, page_to_section, phys_to_pfn, page_to_phys,
}
use aphrodite.Sections.Lookup.{phys_round_trip}

-- The pages from 16 to 31 are the first ones by number.
abbrev low : MemSection
low = record { range = range_init 65536 65536; pfn = 0 }

-- The array of 64 pages at an address.
abbrev array : PageArray
array = record { offset = 1048576; end = 1051136 }

phys_round_trip_example :
    (phys_to_pfn 12 (low ∷ []) 73728 ≡ ok 2)
    × (pfn_to_page array 2 ≡ ok 1048656)
    × (page_to_phys 12 array (low ∷ []) (λ page. 1) 1048656 ≡ ok 73728)
unfolding phys_to_section page_to_section range_has_loc
phys_round_trip_example =
    phys_round_trip 12 array (low ∷ []) (λ page. 1) low 16 2 refl refl refl (omega arith)
      (omega arith) (omega arith)
