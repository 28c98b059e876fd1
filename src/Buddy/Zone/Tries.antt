-- ===== src/Buddy/Zone/Tries.antt =====
-- The search of the sections of a zone, in kernel/src/mm/page_alloc.c.
use aphrodite.Base.{
  ℕ, zero, suc, ◌+◌, ◌-◌, ◌^◌, max, ◌<◌, ◌≤◌, ◌≡◌, ◌⊎◌, inl, inr, refl, ap, ◌∙◌, arith, ltb, ◌==◌,
  if◌then◌else◌, Bool, true, false, Bool-cases, dec_lt, none, some, List, [], ◌∷◌, sub64,
}
use native.Mathlib.Nat.{pow-le-pow_right}
use aphrodite.Sched.{put}
use aphrodite.Buddy.{PageSection}
use aphrodite.Buddy.Take.{alloc_in_section, alloc_orders}
use aphrodite.Buddy.Take.Sum.{size}
use aphrodite.Buddy.Take.Off.{IsSound, removed-sums}
use aphrodite.Buddy.Take.Taken.{Allocated, Answers, list-cases, get_none, alloc_in_section-Answers}
use aphrodite.Buddy.Zone.{
  PageZone, Attempt, Attempt.no_pages, Attempt.pages, with_bit, taken_from, try_sections,
  try_alloc_pages_from_zone,
}

-- Some locks that are all free.
unfoldable pub all_free : ℕ → List Bool
all_free zero = []
all_free (suc count) = true ∷ all_free count

-- Pages of a section of the zone.
pub record FromZone (n : ℕ) (zone : PageZone) (order page : ℕ) (zone' : PageZone) : Type 0 where
  pub index : ℕ
  pub section : PageSection
  pub within : index < zone.section_count
  pub taken : Allocated n (zone.sections index) order page section
  pub sections : zone'.sections ≡ put zone.sections index section
  pub total : zone'.total_free ≡ sub64 zone.total_free (2 ^ order)

-- The answers of a zone, from a section on.
unfoldable pub ZoneAnswers : ℕ → PageZone → ℕ → ℕ → Attempt → Type 0
ZoneAnswers n zone order from r =
    ((r ≡ no_pages)
      × ((i : ℕ)
          → from ≤ i
          → i < zone.section_count
          → (o : ℕ) → order ≤ o
          → (zone.sections i).freelist_list o ≡ []))
    ⊎ ((page : ℕ) × (zone' : PageZone) × (r ≡ pages page zone') × FromZone n zone order page zone')

-- A section without a block does not change what is found after it.
skip-ZoneAnswers :
    (n : ℕ) (zone : PageZone) (order iter : ℕ) (r : Attempt)
    → ((o : ℕ) → order ≤ o → (zone.sections iter).freelist_list o ≡ [])
    → ZoneAnswers n zone order (iter + 1) r
    → ZoneAnswers n zone order iter r
unfolding ZoneAnswers
skip-ZoneAnswers n zone order iter r empty (inr found) = inr found
skip-ZoneAnswers n zone order iter r empty (inl (e, later)) = inl (
  e,
  λ i from within. elim (dec_lt iter i) [
    | yes h ↦ later i (omega (arith, h)) within
    | no h ↦
        let same : i ≡ iter = omega (arith, from, h) in
        λ o le. ap (λ k. (zone.sections k).freelist_list o) same ∙ empty o le
  ],
)

found-ZoneAnswers :
    (n : ℕ) (zone : PageZone) (order iter page : ℕ) (s : PageSection) (otherwise : Attempt)
    → iter < zone.section_count
    → Allocated n (zone.sections iter) order page s
    → ZoneAnswers n zone order iter (taken_from zone iter order (some (page, s)) otherwise)
unfolding ZoneAnswers taken_from
found-ZoneAnswers n zone order iter page s otherwise h a = inr (
  page,
  record zone {
    total_free = sub64 zone.total_free (2 ^ order);
    sections = put zone.sections iter s;
  },
  refl,
  record { index = iter; section = s; within = h; taken = a; sections = refl; total = refl },
)

last-ZoneAnswers :
    (n : ℕ) (zone : PageZone) (order iter : ℕ)
    → zone.section_count ≤ iter
    → ZoneAnswers n zone order iter no_pages
unfolding ZoneAnswers
last-ZoneAnswers n zone order iter end =
    inl (refl, λ i from within. absurd (omega (arith, from, within, end)))

try_sections-ZoneAnswers :
    (tries n full : ℕ) (zone : PageZone) (order iter index mask : ℕ)
    → ((i : ℕ) → i < zone.section_count → IsSound n (zone.sections i))
    → iter < zone.section_count
    → zone.section_count ≤ iter + tries
    → ZoneAnswers n zone order iter
        (try_sections (all_free tries) n full zone order iter index mask)
unfolding try_sections all_free Answers taken_from
try_sections-ZoneAnswers zero n full zone order iter index mask ok h enough =
    absurd (omega (arith, h, enough))
try_sections-ZoneAnswers (suc tries) n full zone order iter index mask ok h enough =
    let next =
      try_sections (all_free tries) n full zone order (iter + 1) (index + 1)
        (with_bit mask index) in
    let otherwise = if iter + 1 == zone.section_count then no_pages else next in
    elim (alloc_in_section-Answers n (zone.sections iter) order (ok iter h)) [
      | inr (page, s, got, a) ↦ rw got (found-ZoneAnswers n zone order iter page s otherwise h a)
      | inl (got, empty) ↦ elim (Bool-cases (iter + 1 == zone.section_count)) [
        | inl last ↦
            let end : zone.section_count ≤ iter + 1 = ground (arith, last) in
            rw (got, last)
              (skip-ZoneAnswers n zone order iter no_pages empty
                (last-ZoneAnswers n zone order (iter + 1) end))
        | inr more ↦
            rw (got, more)
              (skip-ZoneAnswers n zone order iter next empty (
                try_sections-ZoneAnswers tries n full zone order (iter + 1) (index + 1)
                  (with_bit mask index) ok (ground (arith, more, h)) (omega (arith, enough))))
      ]
    ]

-- A block of an order that is not counted in the number of free pages is not there.
no_block :
    (n : ℕ) (s : PageSection) (o : ℕ) → IsSound n s → s.total_free < 2 ^ o → s.freelist_list o ≡ []
unfolding size
no_block n s o ok few = elim (list-cases (s.freelist_list o)) [
  | inl e ↦ e
  | inr (page, rest, e) ↦ elim (ok.ranged o) [
    | inl none_there ↦ none_there
    | inr (_, below) ↦ absurd (
        omega (
          arith,
          few,
          ok.counted,
          removed-sums n s o page rest size (omega (arith, below, ok.bounded)) e,
        ))
  ]
]

-- While no other processor holds a lock, an allocation of 2 ^ order pages from a zone whose sections are sound and
-- that counts at least the free pages of each of them fails exactly if no section has a free block of that order or a higher one;
-- otherwise it takes a block of one section as `alloc_in_section` does, leaves the others as they
-- are, and takes the pages off the zone's count. As many attempts as there are sections are enough.
pub try_alloc-ZoneAnswers :
    (n full : ℕ) (zone : PageZone) (order : ℕ)
    → ((i : ℕ) → i < zone.section_count → IsSound n (zone.sections i))
    → ((i : ℕ) → i < zone.section_count → (zone.sections i).total_free ≤ zone.total_free)
    → 0 < zone.section_count
    → ZoneAnswers n zone order 0
        (try_alloc_pages_from_zone (all_free zone.section_count) n full zone order)
unfolding try_alloc_pages_from_zone ZoneAnswers
try_alloc-ZoneAnswers n full zone order ok counted some_section =
    elim (dec_lt zone.total_free (2 ^ order)) [
      | yes few ↦
          let e : ltb zone.total_free (2 ^ order) ≡ true = ground arith in
          rw e (
            inl (
              refl,
              λ i from within o le.
                  no_block n (zone.sections i) o (ok i within) (
                    omega
                      (arith, few, counted i within, pow-le-pow_right {n = 2} (omega arith) le)),
            ))
      | no enough ↦
          let e : ltb zone.total_free (2 ^ order) ≡ false = ground arith in
          rw e (
            try_sections-ZoneAnswers zone.section_count n full zone order 0 0 0 ok some_section
              (omega arith))
    ]

alloc_orders-none :
    (tries n : ℕ) (s : PageSection) (a order : ℕ)
    → ((o : ℕ) → a ≤ o → s.freelist_list o ≡ [])
    → alloc_orders tries n s a order ≡ none
unfolding alloc_orders
alloc_orders-none zero n s a order empty = refl
alloc_orders-none (suc tries) n s a order empty =
    rw (get_none n s a order (empty a (omega arith)), alloc_orders)
      (alloc_orders-none tries n s (a + 1) order (λ o h. empty o (omega (arith, h))))

-- When the lock of the first of two sections is held at the only attempt and the second section has no block for the
-- request then the zone gives no pages, whatever the first section has: it is not tried again.
pub try_alloc-skipped :
    (n full : ℕ) (zone : PageZone) (order : ℕ) (locks : List Bool)
    → zone.section_count ≡ 2
    → ((o : ℕ) → order ≤ o → (zone.sections 1).freelist_list o ≡ [])
    → try_alloc_pages_from_zone (false ∷ true ∷ locks) n full zone order ≡ no_pages
unfolding try_alloc_pages_from_zone try_sections taken_from alloc_in_section
try_alloc-skipped n full zone order locks two empty =
    let s = zone.sections 1 in
    let start = max order s.min_order in
    let e =
      alloc_orders-none (s.max_order - start) n s start order (λ o h. empty o (omega (arith, h))) in
    elim (Bool-cases (ltb zone.total_free (2 ^ order))) [
      | inl few ↦ rw few refl
      | inr enough ↦ rw (enough, two, e) refl
    ]
