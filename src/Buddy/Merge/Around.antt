-- ===== src/Buddy/Merge/Around.antt =====
-- The free blocks next to pages that are freed, in kernel/src/mm/page_alloc.c.
use aphrodite.Base.{
  u64, some, ok, ltb, ℕ, suc, ◌+◌, ◌-◌, ◌^◌, ◌<◌, ◌≤◌, ◌≡◌, ◌≢◌, inl, inr, refl, sym, ap, ◌∙◌,
  arith, ltb, leb, ◌==◌, ◌&&◌, Bool, true, false, Bool-cases, List, [], ◌∷◌,
}
use native.Mathlib.Nat.{one-le-pow, pow-suc}
use aphrodite.Base.Sorted.{has, remove_key}
use aphrodite.Sched.{put}
use aphrodite.Arith.{check_sub}
use aphrodite.Buddy.{
  PageState, PageState.free_list_head, PageState.free_list_tail, PageState.other_state, PageSection,
}
use aphrodite.Buddy.Take.{take_off_freelist_to_add_later}
use aphrodite.Buddy.Take.Sum.{Measure, sum_list, sum_lists, sum_lists-put}
use aphrodite.Buddy.Take.Marked.{IsMarked, remove-IsMarked}
use aphrodite.Buddy.Merge.{
  Nearby, not_merged, noted_order, merge_previous, merge_next, find_previous, find_next,
  find_nearby_free_pages,
}

-- If the page notes that it is a free head then it is the first page of a block.
abbrev pub IsNoted : ℕ → PageSection → ℕ → Type 0
IsNoted n s p =
    (o : ℕ) → s.states p ≡ free_list_head o → (o < n) × (has p (s.freelist_list o) ≡ true)

remove-sums :
    (m : Measure) (o page : ℕ) (pages : List ℕ)
    → has page pages ≡ true
    → sum_list m o (remove_key page pages) + m.of page (2 ^ o) ≡ sum_list m o pages
unfolding sum_list remove_key has
remove-sums m o page [] h = cc
remove-sums m o page (x ∷ xs) h = elim (Bool-cases (x == page)) [
  | inl same ↦
      let one : x ≡ page = ground arith in rw same (omega (arith, ap (λ z. m.of z (2 ^ o)) one))
  | inr other ↦ rw other (omega (arith, remove-sums m o page xs (ground arith)))
]

-- A block that is off its list.
pub take_later-sums :
    (m : Measure) (n : ℕ) (s : PageSection) (o page : ℕ)
    → o < n
    → has page (s.freelist_list o) ≡ true
    → sum_lists m n (take_off_freelist_to_add_later n s o page).freelist_list + m.of page (2 ^ o)
      ≡ sum_lists m n s.freelist_list
unfolding take_off_freelist_to_add_later
take_later-sums m n s o page h there =
    let pages = s.freelist_list o in
    omega (
      arith,
      sum_lists-put m n o s.freelist_list (remove_key page pages) h,
      remove-sums m o page pages there,
    )

has-remove_other :
    (q page : ℕ) (pages : List ℕ)
    → q ≢ page
    → has q pages ≡ true
    → has q (remove_key page pages) ≡ true
unfolding has remove_key
has-remove_other q page [] ne h = h
has-remove_other q page (x ∷ xs) ne h = ground (arith, has-remove_other q page xs ne)

has-take_later :
    (n : ℕ) (s : PageSection) (o page q o' : ℕ)
    → q ≢ page
    → has q (s.freelist_list o') ≡ true
    → has q ((take_off_freelist_to_add_later n s o page).freelist_list o') ≡ true
unfolding take_off_freelist_to_add_later put
has-take_later n s o page q o' ne h = elim (Bool-cases (o == o')) [
  | inr other ↦ rw other h
  | inl same ↦
      let one : o ≡ o' = ground arith in
      rw same (
        has-remove_other q page (s.freelist_list o) ne
          (ap (λ k. has q (s.freelist_list k)) one ∙ h))
]

-- What is found next to some pages: with the pages, the blocks that were taken off the lists are a range
-- around them.
pub record Found (n : ℕ) (s : PageSection) (page amount : ℕ) (found : Nearby) : Type 0 where
  pub total : found.section.total_free ≡ s.total_free
  pub states : found.section.states ≡ s.states
  pub marked : IsMarked n found.section.freelist_list found.section.states
  pub sums :
      (m : Measure)
      → sum_lists m n found.section.freelist_list + m.of found.free_page found.amount
        ≡ sum_lists m n s.freelist_list + m.of page amount
  pub grown : amount ≤ found.amount
  pub alone :
      found.merged_range ≡ false
      → (found.section ≡ s) × (found.amount ≡ amount) × (found.free_page ≡ page)

-- Of the blocks before, only single pages are found.
pub record Previous (n : ℕ) (s : PageSection) (page amount : ℕ) (found : Nearby) : Type 0 where
  pub found_there : Found n s page amount found
  pub end : found.free_page + found.amount ≡ page + amount
  pub others :
      (q o : ℕ)
      → page ≤ q
      → has q (s.freelist_list o) ≡ true
      → has q (found.section.freelist_list o) ≡ true

-- Nothing is found.
unmerged :
    (n : ℕ) (s : PageSection) (page amount page_pfn : ℕ)
    → IsMarked n s.freelist_list s.states
    → Previous n s page amount (not_merged s page page_pfn amount)
unmerged n s page amount page_pfn marked = record {
  found_there = record {
    total = refl;
    states = refl;
    marked = marked;
    sums = λ m. refl;
    grown = omega arith;
    alone = λ h. (refl, refl, refl);
  };
  end = refl;
  others = λ q o le h. h;
}

-- The single page before.
merged_page :
    (n : ℕ) (s : PageSection) (page amount page_pfn o : ℕ)
    → IsMarked n s.freelist_list s.states
    → o ≡ 0
    → 0 < page
    → o < n
    → has (page - 1) (s.freelist_list o) ≡ true
    → (let found : Nearby = record {
      section = take_off_freelist_to_add_later n s o (page - 1);
      free_page = page - 1;
      page_pfn = page_pfn - 1;
      amount = amount + 1;
      merged_range = true;
    } in
        Previous n s page amount found)
unfolding take_off_freelist_to_add_later
merged_page n s page amount page_pfn o marked single pos below there = record {
  found_there = record {
    total = refl;
    states = refl;
    marked = remove-IsMarked n o (page - 1) s.freelist_list s.states marked;
    sums = λ m.
        (let one : 2 ^ o ≡ 1 = ap (λ k. 2 ^ k) single in
          let swap : amount + 1 ≡ 1 + amount = omega arith in
          let next : page - 1 + 1 ≡ page = omega (arith, pos) in
          omega (
            arith,
            take_later-sums m n s o (page - 1) below there,
            ap (m.of (page - 1)) one,
            ap (m.of (page - 1)) swap,
            m.joins (page - 1) 1 amount,
            ap (λ p. m.of p amount) next,
          ));
    grown = omega arith;
    alone = λ h. cc;
  };
  end = omega (arith, pos);
  others = λ q o' le h. has-take_later n s o (page - 1) q o' (omega (arith, le, pos)) h;
}

no_extra : (b : Bool) (o page : ℕ) → (b && leb (2 ^ (o + 1)) (2 ^ o + (page - page))) ≡ false
no_extra b o page =
    let e : o + 1 ≡ suc o = omega arith in
    let double = ap (λ k. 2 ^ k) e in ground (arith, double, pow-suc 2 o, one-le-pow o 2)

merge_previous-Previous :
    (n : ℕ) (s : PageSection) (page amount page_pfn : ℕ) (state : PageState)
    → IsMarked n s.freelist_list s.states
    → IsNoted n s (page - 1)
    → 0 < page
    → s.states (page - 1) ≡ state
    → Previous n s page amount (merge_previous n s page page_pfn amount state)
unfolding merge_previous
merge_previous-Previous n s page amount page_pfn (free_list_tail head) marked noted pos e =
    let order = noted_order (s.states head) in
    rw (no_extra (ltb order (n - 1)) order page) (unmerged n s page amount page_pfn marked)
merge_previous-Previous n s page amount page_pfn (free_list_head o) marked noted pos e =
    elim (Bool-cases (o == 0)) [
      | inr more ↦ rw more (unmerged n s page amount page_pfn marked)
      | inl single ↦
          let (below, there) = noted o e in
          rw single (merged_page n s page amount page_pfn o marked (ground arith) pos below there)
    ]
merge_previous-Previous n s page amount page_pfn other_state marked noted pos e =
    unmerged n s page amount page_pfn marked

find_previous-Previous :
    (n : ℕ) (s : PageSection) (page page_pfn amount : ℕ)
    → IsMarked n s.freelist_list s.states
    → IsNoted n s (page - 1)
    → page_pfn ≤ page
    → Previous n s page amount (find_previous n s page page_pfn amount)
unfolding find_previous
find_previous-Previous n s page page_pfn amount marked noted le =
    elim (Bool-cases (page_pfn == 0)) [
      | inl first ↦ rw first (unmerged n s page amount page_pfn marked)
      | inr later ↦ rw later (
          merge_previous-Previous n s page amount page_pfn (s.states (page - 1)) marked noted
            (ground (arith, le, later)) refl)
    ]

merge_next-Found :
    (n : ℕ) (s : PageSection) (page amount : ℕ) (found : Nearby) (state : PageState)
    → IsNoted n s (page + amount)
    → 0 < amount
    → Previous n s page amount found
    → found.section.states (found.free_page + found.amount) ≡ state
    → Found n s page amount (merge_next n found state)
unfolding merge_next take_off_freelist_to_add_later
merge_next-Found n s page amount found (free_list_tail head) noted pos p e = p.found_there
merge_next-Found n s page amount found other_state noted pos p e = p.found_there
merge_next-Found n s page amount found (free_list_head o) noted pos p e =
    elim (Bool-cases (leb (2 ^ (o + 1)) (2 ^ o + found.amount))) [
      | inr small ↦ rw small p.found_there
      | inl merges ↦
          let f = p.found_there in
          let next = found.free_page + found.amount in
          let here = ap s.states (sym p.end) ∙ ap (λ st. st next) (sym f.states) ∙ e in
          let (below, at) = noted o here in
          let there = ap (λ q. has q (s.freelist_list o)) p.end ∙ at in
          let there' = p.others next o (omega (arith, p.end)) there in
          rw merges (record {
            total = f.total;
            states = f.states;
            marked =
                remove-IsMarked n o next found.section.freelist_list found.section.states f.marked;
            sums = λ m. omega (
              arith,
              f.sums m,
              take_later-sums m n found.section o next below there',
              m.joins found.free_page found.amount (2 ^ o),
            );
            grown = omega (arith, f.grown);
            alone = λ h. cc;
          })
    ]

find_next-Found :
    (n : ℕ) (s : PageSection) (page amount : ℕ) (found : Nearby)
    → IsNoted n s (page + amount)
    → 0 < amount
    → Previous n s page amount found
    → Found n s page amount (find_next n found)
unfolding find_next
find_next-Found n s page amount found after pos p =
    let state = found.section.states (found.free_page + found.amount) in
    elim (Bool-cases
      (u64 (found.page_pfn + found.amount) == u64 (found.section.pfn + found.section.page_count))) [
        | inl last ↦ rw last p.found_there
        | inr more ↦ rw more (merge_next-Found n s page amount found state after pos p refl)
      ]

-- For pages that are not before their section, `find_nearby_free_pages` does not panic, and gives a range of pages
-- around the given ones, which with the free blocks that are left measures what the given pages and the
-- free blocks did.
pub find_nearby-Found :
    (n : ℕ) (s : PageSection) (page amount : ℕ)
    → IsMarked n s.freelist_list s.states
    → IsNoted n s (page - 1)
    → IsNoted n s (page + amount)
    → s.pfn ≤ page
    → 0 < amount
    → (found : Nearby) × (find_nearby_free_pages n s page amount ≡ ok found)
      × Found n s page amount found
unfolding find_nearby_free_pages check_sub
find_nearby-Found n s page amount marked before after within pos =
    let page_pfn = page - s.pfn in
    let e : ltb page s.pfn ≡ false = ground arith in
    let checked : check_sub page s.pfn ≡ some page_pfn = rw e refl in
    let previous = find_previous n s page page_pfn amount in
    let p = find_previous-Previous n s page page_pfn amount marked before (omega arith) in
    (
      find_next n previous,
      rw (checked, find_nearby_free_pages) refl,
      find_next-Found n s page amount previous after pos p,
    )
