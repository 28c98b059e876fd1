-- ===== src/Buddy/Take/Bounds.antt =====
-- The bounds `min_order` and `max_order` of a section of kernel/src/mm/page_alloc.c.
use aphrodite.Base.{
  ℕ, zero, suc, ◌+◌, ◌-◌, ◌^◌, ◌<◌, ◌≤◌, ◌≡◌, ◌≢◌, ◌⊎◌, inl, inr, refl, sym, ap, ◌∙◌, arith, ltb,
  leb, ◌==◌, true, false, Bool-cases, List, [], ◌∷◌,
}
use aphrodite.Base.Sorted.{remove_key}
use aphrodite.Sched.{put}
use aphrodite.Buddy.{
  PageSection, add_to_freelist_order_from_higher, lower_min, raise_max, split_down,
  free_extra_pages_if_from_higher_order,
}
use aphrodite.Buddy.Tiles.{Block, push_all}
use aphrodite.Buddy.Split.{Between}
use aphrodite.Buddy.Take.{is_empty, next_order, take_off_freelist_to_add_later}

-- Every order with a block is from the one bound on and below the other.
abbrev pub IsRanged : (ℕ → List ℕ) → ℕ → ℕ → Type 0
IsRanged lists low high = (o : ℕ) → (lists o ≡ []) ⊎ ((low ≤ o) × (o < high))

-- The search stops before every order that has a block.
empty_or_not :
    (lists : ℕ → List ℕ) (order o : ℕ)
    → is_empty (lists order) ≡ true
    → is_empty (lists o) ≡ false
    → order ≡ o
    → ⊥
empty_or_not lists order o e some_block same =
    let both : is_empty (lists o) ≡ true = ap (λ k. is_empty (lists k)) (sym same) ∙ e in cc

next_order-le :
    (tries : ℕ) (lists : ℕ → List ℕ) (order o : ℕ)
    → order ≤ o
    → is_empty (lists o) ≡ false
    → next_order tries lists order ≤ o
unfolding next_order
next_order-le zero lists order o h some_block = h
next_order-le (suc tries) lists order o h some_block = elim (Bool-cases (is_empty (lists order))) [
  | inr e ↦ rw e h
  | inl e ↦
      let other : order ≢ o = λ same. empty_or_not lists order o e some_block same in
      rw e (next_order-le tries lists (order + 1) o (omega (arith, h, other)) some_block)
]

empty-nil : (pages : List ℕ) → is_empty pages ≡ true → pages ≡ []
unfolding is_empty
empty-nil [] e = refl
empty-nil (page ∷ pages) e = cc

pub remove_none :
    (lists : ℕ → List ℕ) (order page o : ℕ)
    → lists o ≡ []
    → put lists order (remove_key page (lists order)) o ≡ []
unfolding put remove_key
remove_none lists order page o e = elim (Bool-cases (order == o)) [
  | inr other ↦ rw other e
  | inl same ↦
      let one : order ≡ o = ground arith in rw same (ap (remove_key page) (ap lists one ∙ e))
]

-- A smaller choice of bounds for the lists that are left.
keeps-range :
    (lists lists' : ℕ → List ℕ) (low low' high : ℕ)
    → IsRanged lists low high
    → ((o : ℕ) → lists o ≡ [] → lists' o ≡ [])
    → ((o : ℕ) → low ≤ o → is_empty (lists' o) ≡ false → low' ≤ o)
    → IsRanged lists' low' high
keeps-range lists lists' low low' high r fewer lower o = elim (r o) [
  | inl none_there ↦ inl (fewer o none_there)
  | inr (from, below) ↦ elim (Bool-cases (is_empty (lists' o))) [
    | inl e ↦ inl (empty-nil (lists' o) e)
    | inr e ↦ inr (lower o from e, below)
  ]
]

-- The bounds hold without a block, too.
pub take_off-IsRanged :
    (orders : ℕ) (s : PageSection) (order page : ℕ)
    → IsRanged s.freelist_list s.min_order s.max_order
    → order < s.max_order
    → (let s' = take_off_freelist_to_add_later orders s order page in
        IsRanged s'.freelist_list s'.min_order s'.max_order × (s'.max_order ≡ s.max_order))
unfolding take_off_freelist_to_add_later put
take_off-IsRanged orders s order page r h =
    let lists = put s.freelist_list order (remove_key page (s.freelist_list order)) in
    let fewer = remove_none s.freelist_list order page in
    let never : (s.max_order == order) ≡ false = ground (arith, h) in
    elim (Bool-cases (is_empty (remove_key page (s.freelist_list order)))) [
      | inr more ↦ rw more (
        keeps-range s.freelist_list lists s.min_order s.min_order s.max_order r fewer
            (λ o le e. le),
        refl,
      )
      | inl last ↦ elim (Bool-cases (s.min_order == order)) [
        | inr other ↦
            rw (last, never, other)
              (
                keeps-range s.freelist_list lists s.min_order s.min_order s.max_order r fewer
                    (λ o le e. le),
                refl,
              )
        | inl least ↦
            let one : s.min_order ≡ order = ground arith in
            rw (last, never, least)
              (
                keeps-range s.freelist_list lists s.min_order
                    (next_order (orders - order) lists order) s.max_order r fewer
                    (λ o le e.
                      next_order-le (orders - order) lists order o (omega (arith, le, one)) e),
                refl,
              )
      ]
    ]

split_down-bounds :
    (higher : ℕ) (s : PageSection) (page order : ℕ)
    → ((split_down higher s page order).min_order ≡ s.min_order)
      × ((split_down higher s page order).max_order ≡ s.max_order)
unfolding split_down add_to_freelist_order_from_higher
split_down-bounds zero s page order = (refl, refl)
split_down-bounds (suc higher) s page order = elim (Bool-cases (ltb order (suc higher))) [
  | inl e ↦ rw e (
      split_down-bounds higher (add_to_freelist_order_from_higher s higher (page + 2 ^ higher)) page
        order)
  | inr e ↦ rw e (refl, refl)
]

-- Only the blocks' orders get blocks.
push_all-Between :
    (high low : ℕ) (lists : ℕ → List ℕ) (blocks : List Block) (o : ℕ)
    → Between high low blocks
    → (push_all lists blocks o ≡ lists o) ⊎ ((low ≤ o) × (o < high))
unfolding push_all Between put
push_all-Between high low lists [] o b = inl refl
push_all-Between high low lists ((order, page) ∷ blocks) o (lt, le, b) =
    let pushed = put lists order (page ∷ lists order) in
    elim (push_all-Between order low pushed blocks o b) [
      | inr (from, below) ↦ inr (from, omega (arith, below, lt))
      | inl e ↦ elim (Bool-cases (order == o)) [
        | inl same ↦ inr (ground arith)
        | inr other ↦ inl (e ∙ rw other refl)
      ]
    ]

-- The bounds after the rest of a block was given back.
free_extra-bounds :
    (s : PageSection) (page higher order : ℕ)
    → order < higher
    → (let s' = free_extra_pages_if_from_higher_order page s higher order in
        (s'.min_order ≤ s.min_order)
        × (s'.min_order ≤ order)
        × (s.max_order ≤ s'.max_order)
        × (higher ≤ s'.max_order)
        × ((orders : ℕ) → s.max_order ≤ orders → higher ≤ orders → s'.max_order ≤ orders))
unfolding free_extra_pages_if_from_higher_order lower_min raise_max
free_extra-bounds s page higher order h =
    let e : leb higher order ≡ false = ground arith in
    let (low, high) = split_down-bounds higher (raise_max s (higher - 1)) page order in
    rw (e, low, high)
      (ground arith, ground arith, ground arith, ground arith, λ orders a b. ground arith)

-- After the rest of a block was given back, the bounds hold for the old blocks and the new ones.
pub free_extra-IsRanged :
    (s : PageSection) (page higher order : ℕ) (blocks : List Block)
    → IsRanged s.freelist_list s.min_order s.max_order
    → order < higher
    → Between higher order blocks
    → (free_extra_pages_if_from_higher_order page s higher order).freelist_list
      ≡ push_all s.freelist_list blocks
    → (let s' = free_extra_pages_if_from_higher_order page s higher order in
        IsRanged s'.freelist_list s'.min_order s'.max_order
        × ((orders : ℕ) → s.max_order ≤ orders → higher ≤ orders → s'.max_order ≤ orders))
free_extra-IsRanged s page higher order blocks r h b pushed =
    let (a, c, d, f, within) = free_extra-bounds s page higher order h in
    let s' = free_extra_pages_if_from_higher_order page s higher order in
    (
      λ o. elim (push_all-Between higher order s.freelist_list blocks o b) [
        | inr (from, below) ↦ inr (omega (arith, c, from), omega (arith, below, f))
        | inl same ↦ elim (r o) [
          | inl e ↦ inl (ap (λ l. l o) pushed ∙ same ∙ e)
          | inr (from, below) ↦ inr (omega (arith, a, from), omega (arith, below, d))
        ]
      ],
      within,
    )
