-- ===== src/Sections/Lookup.antt =====
-- Round trips between addresses and page numbers, in kernel/src/mm/section.c.
use aphrodite.Base.{
  leb, ◌&&◌, ℕ, ◌+◌, ◌-◌, ◌*◌, ◌/◌, ◌^◌, ◌<◌, ◌≡◌, refl, arith, ltb, if◌then◌else◌, sym, ap, ◌∙◌,
  Bool, true, false, Bool-cases, inl, inr, List, [], ◌∷◌, u64, Outcome, ok, some,
}
use mathlib.Core.Path.{subst}
use aphrodite.Arith.{check_sub}
use native.Mathlib.Nat.{one-le-pow, add-mul, mul-div_cancel}
use aphrodite.Ranges.{range_has_loc}
use aphrodite.Sections.{
  MemSection, page_count, phys_to_section, pfn_to_section, phys_to_pfn, page_to_section,
  page_to_phys, phys_in_section, PageArray, page_bytes, verify_page_pointer, pfn_to_page,
  page_to_pfn,
}

ok_injective : (a b : MemSection) → ◌≡◌ {A = Outcome MemSection} (ok a) (ok b) → a ≡ b
ok_injective a b e = cc

-- The number of the page of an address in a section.
found-pfn :
    (shift : ℕ) (sections : List MemSection) (phys : ℕ) (s : MemSection)
    → phys_to_section sections phys ≡ ok s
    → (range_has_loc s.range phys ≡ true)
      × (phys_to_pfn shift sections phys
          ≡ ok (u64 (s.pfn + page_count shift (phys - s.range.front))))
unfolding phys_to_section phys_to_pfn
found-pfn shift [] phys s e = cc
found-pfn shift (iter ∷ sections) phys s e = elim (Bool-cases (range_has_loc iter.range phys)) [
  | inl here ↦
      let found =
        subst (λ (b : Bool). (if b then ok iter else phys_to_section sections phys) ≡ ok s) here
          e in
      let one : iter ≡ s = ok_injective iter s found in
      rw here (
        ap (λ r. range_has_loc r.range phys) (sym one) ∙ here,
        ap (λ r. ok (u64 (r.pfn + page_count shift (phys - r.range.front)))) one,
      )
  | inr later ↦
      let found =
        subst (λ (b : Bool). (if b then ok iter else phys_to_section sections phys) ≡ ok s) later
          e in
      rw later (found-pfn shift sections phys s found)
]

-- The page of a number whose page is in the array has that number.
page_round_trip :
    (array : PageArray) (pfn : ℕ)
    → array.offset + page_bytes * pfn < array.end
    → array.end < 2 ^ 64
    → (pfn_to_page array pfn ≡ ok (array.offset + page_bytes * pfn))
      × (page_to_pfn array (array.offset + page_bytes * pfn) ≡ ok pfn)
      × ((leb array.offset (array.offset + page_bytes * pfn)
            && ltb (array.offset + page_bytes * pfn) array.end)
          ≡ true)
unfolding pfn_to_page page_to_pfn verify_page_pointer
page_round_trip array pfn inside small =
    let page = array.offset + page_bytes * pfn in
    let whole : u64 page ≡ page = omega (arith, inside, small) in
    let fits : ltb (page_bytes * pfn) (2 ^ 64) ≡ true = ground (arith, inside, small) in
    let verified : verify_page_pointer array page ≡ true = ground (arith, inside) in
    let number : (page - array.offset) / page_bytes ≡ pfn = omega arith in
    (
      ground (arith, fits, whole, verified),
      ground (arith, verified, number),
      ground (arith, inside),
    )

in_section :
    (shift : ℕ) (s : MemSection) (first index : ℕ)
    → s.range.front ≡ first * 2 ^ shift
    → (first + index) * 2 ^ shift < 2 ^ 64
    → phys_in_section shift s (s.pfn + index) ≡ ok ((first + index) * 2 ^ shift)
unfolding phys_in_section check_sub
in_section shift s first index front fits =
    let apart = add-mul first index (2 ^ shift) in
    let above : ltb (s.pfn + index) s.pfn ≡ false = ground arith in
    let relative : s.pfn + index - s.pfn ≡ index = omega arith in
    let checked : check_sub (s.pfn + index) s.pfn ≡ some index = rw (above, relative) refl in
    let address : u64 (s.range.front + u64 (index * 2 ^ shift)) ≡ (first + index) * 2 ^ shift =
      ground (arith, apart, front, fits) in
    rw (checked, phys_in_section) (ap ok address)

-- The number of the page of an aligned 64-bit address in an aligned section is the number of the address's
-- page in the section after the section's first. Where that number's page is in the array of pages, which ends
-- below 2 ^ 64, and notes that section, `pfn_to_page` gives it, and `page_to_phys` of it gives the address again; no assertion fails.
pub phys_round_trip :
    (shift : ℕ) (array : PageArray) (sections : List MemSection) (section_of : ℕ → ℕ)
    (s : MemSection) (first index : ℕ)
    → phys_to_section sections ((first + index) * 2 ^ shift) ≡ ok s
    → s.range.front ≡ first * 2 ^ shift
    → page_to_section sections (section_of (array.offset + page_bytes * (s.pfn + index))) ≡ ok s
    → (first + index) * 2 ^ shift < 2 ^ 64
    → array.offset + page_bytes * (s.pfn + index) < array.end
    → array.end < 2 ^ 64
    → (let page = array.offset + page_bytes * (s.pfn + index) in
        (phys_to_pfn shift sections ((first + index) * 2 ^ shift) ≡ ok (s.pfn + index))
        × (pfn_to_page array (s.pfn + index) ≡ ok page)
        × (page_to_phys shift array sections section_of page ≡ ok ((first + index) * 2 ^ shift)))
unfolding page_count page_to_phys
phys_round_trip shift array sections section_of s first index found front noted fits inside small =
    let phys = (first + index) * 2 ^ shift in
    let (here, e) = found-pfn shift sections phys s found in
    let p = 2 ^ shift in
    let power = one-le-pow shift 2 in
    let apart = add-mul first index p in
    let offset : phys - s.range.front ≡ index * p = omega (arith, apart, front) in
    let back : index * p / p ≡ index = mul-div_cancel index (omega (arith, power)) in
    let number : u64 (s.pfn + page_count shift (phys - s.range.front)) ≡ s.pfn + index =
      rw (offset, back) (ground (arith, inside, small)) in
    let (there, back_again, checked) = page_round_trip array (s.pfn + index) inside small in
    (
      e ∙ ap ok number,
      there,
      rw (checked, noted, back_again) (in_section shift s first index front fits),
    )

-- The number that is looked up says nothing about the section that is found.
pub pfn_to_section-constant :
    (shift : ℕ) (sections : List MemSection) (pfn pfn' : ℕ)
    → pfn_to_section shift sections pfn ≡ pfn_to_section shift sections pfn'
unfolding pfn_to_section range_has_loc
pfn_to_section-constant shift [] pfn pfn' = refl
pfn_to_section-constant shift (iter ∷ sections) pfn pfn' =
    grind (arith, pfn_to_section-constant shift sections pfn pfn')
