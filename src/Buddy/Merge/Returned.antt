-- ===== src/Buddy/Merge/Returned.antt =====
-- The free blocks after pages are freed, in kernel/src/mm/page_alloc.c.
use aphrodite.Base.{
  u64, ok, ℕ, ◌+◌, ◌-◌, ◌^◌, ◌<◌, ◌≤◌, ◌≡◌, inl, inr, refl, sym, ap, ◌∙◌, arith, leb, false,
  Bool-cases, List, [], ◌∷◌,
}
use native.Mathlib.Nat.{one-le-pow}
use aphrodite.Base.Sorted.{has}
use aphrodite.Buddy.{
  PageSection, free_range_of_pages, add_to_freelist_order, add_to_freelist_order_from_higher,
}
use aphrodite.Buddy.Tiles.{Block, Descending, push_all, mark_all, free_range_of_pages-Freed}
use aphrodite.Buddy.Take.Sum.{
  Measure, covers, sum_lists, OrdersBelow, sum_blocks, sum_lists-push_all, sum_blocks-Tiles,
}
use aphrodite.Buddy.Take.Marked.{IsMarked, IsDisjoint, push_all-IsMarked}
use aphrodite.Buddy.Merge.{Nearby, find_nearby_free_pages, free_found, free_pages}
use aphrodite.Buddy.Merge.Around.{IsNoted, Found, find_nearby-Found}

-- A range of pages is on the free lists besides what was there. The count may say otherwise.
pub record Returned (n : ℕ) (s : PageSection) (page amount counted : ℕ) (s' : PageSection)
    : Type 0 where
  pub total : s'.total_free ≡ u64 (s.total_free + counted)
  pub sums :
      (m : Measure)
      → sum_lists m n s'.freelist_list ≡ sum_lists m n s.freelist_list + m.of page amount
  pub apart : IsDisjoint n s'.freelist_list
  pub marked : IsMarked n s'.freelist_list s'.states

Descending-below :
    (n order : ℕ) (blocks : List Block) → order < n → Descending order blocks → OrdersBelow n blocks
unfolding Descending OrdersBelow
Descending-below n order [] h d = tt
Descending-below n order ((o, _) ∷ blocks) h (le, d) =
    (omega (arith, h, le), Descending-below n o blocks (omega (arith, h, le)) d)

-- The range that was found goes to the free lists.
nearby-Returned :
    (n : ℕ) (s : PageSection) (page amount : ℕ) (found : Nearby)
    → 0 < n
    → 0 < amount
    → ((q : ℕ) → sum_lists (covers q) n s.freelist_list + (covers q).of page amount ≤ 1)
    → Found n s page amount found
    → Returned n s page amount found.amount
        (free_range_of_pages found.free_page found.section found.amount n)
nearby-Returned n s page amount found some_order pos free f =
    let s' = free_range_of_pages found.free_page found.section found.amount n in
    let pages : 0 < found.amount = omega (arith, pos, f.grown) in
    let r =
      free_range_of_pages-Freed found.free_page found.amount n found.section pages some_order in
    let below = Descending-below n (n - 1) r.blocks (omega (arith, some_order)) r.descending in
    let sums : (m : Measure)
        → sum_lists m n s'.freelist_list ≡ sum_lists m n s.freelist_list + m.of page amount =
      λ m. omega (
        arith,
        ap (sum_lists m n) r.lists,
        sum_lists-push_all m n found.section.freelist_list r.blocks below,
        sum_blocks-Tiles m found.free_page found.amount r.blocks r.tiled,
        f.sums m,
      ) in
    let apart : IsDisjoint n s'.freelist_list = λ q. omega (arith, sums (covers q), free q) in
    let pushed : IsDisjoint n (push_all found.section.freelist_list r.blocks) =
      λ q. omega (arith, ap (sum_lists (covers q) n) r.lists, apart q) in
    let marked =
      push_all-IsMarked n found.section.freelist_list found.section.states r.blocks below f.marked
        pushed in
    record {
      total = omega (arith, r.counted, f.total);
      sums = sums;
      apart = apart;
      marked = λ o p h k.
          ap (λ st. st p) r.marks ∙ marked o p h (ap (λ l. has p (l o)) (sym r.lists) ∙ k);
    }

-- A block goes to the free list of its order.
pub add-Returned :
    (n : ℕ) (s : PageSection) (page order : ℕ)
    → IsMarked n s.freelist_list s.states
    → order < n
    → ((q : ℕ) → sum_lists (covers q) n s.freelist_list + (covers q).of page (2 ^ order) ≤ 1)
    → Returned n s page (2 ^ order) (2 ^ order) (add_to_freelist_order s order page)
unfolding add_to_freelist_order add_to_freelist_order_from_higher push_all mark_all OrdersBelow
    sum_blocks
add-Returned n s page order marked h free =
    let blocks : List Block = (order, page) ∷ [] in
    let below : OrdersBelow n blocks = (h, tt) in
    let sums : (m : Measure)
        → sum_lists m n (push_all s.freelist_list blocks)
          ≡ sum_lists m n s.freelist_list + m.of page (2 ^ order) =
      λ m. omega (arith, sum_lists-push_all m n s.freelist_list blocks below) in
    let apart : IsDisjoint n (push_all s.freelist_list blocks) =
      λ q. omega (arith, sums (covers q), free q) in
    record {
      total = refl;
      sums = sums;
      apart = apart;
      marked = push_all-IsMarked n s.freelist_list s.states blocks below marked apart;
    }

free_found-Returned :
    (n : ℕ) (s : PageSection) (page order : ℕ) (found : Nearby)
    → IsMarked n s.freelist_list s.states
    → order < n
    → ((q : ℕ) → sum_lists (covers q) n s.freelist_list + (covers q).of page (2 ^ order) ≤ 1)
    → Found n s page (2 ^ order) found
    → Returned n s page (2 ^ order) found.amount (free_found n page order found)
unfolding free_found
free_found-Returned n s page order found marked h free f = elim (Bool-cases found.merged_range) [
  | inl merged ↦ rw merged (
      nearby-Returned n s page (2 ^ order) found (omega (arith, h))
        (omega (arith, one-le-pow order 2)) free f)
  | inr alone ↦
      let (same, count, _) = f.alone alone in
      rw (alone, same, count) (add-Returned n s page order marked h free)
]

-- When a block of pages that are in no free block, of an order that there is, is freed, in a section that
-- does not begin after them, where the first pages of the free blocks have their states and the pages next to the block do not wrongly have one,
-- then `free_pages` does not panic, and in every measure the free blocks are those before and these pages, none
-- in two blocks, with or without a merge, and the states agree with the blocks. But the section's count grows,
-- as a 64-bit number, by all pages of the range that `find_nearby_free_pages` finds, those that were free before
-- included.
pub free_pages-Returned :
    (n : ℕ) (s : PageSection) (page order : ℕ)
    → IsMarked n s.freelist_list s.states
    → IsNoted n s (page - 1)
    → IsNoted n s (page + 2 ^ order)
    → s.pfn ≤ page
    → order < n
    → ((q : ℕ) → sum_lists (covers q) n s.freelist_list + (covers q).of page (2 ^ order) ≤ 1)
    → (found : Nearby) × (s' : PageSection) × (find_nearby_free_pages n s page (2 ^ order)
        ≡ ok found)
      × (free_pages n s page order ≡ ok s')
      × (2 ^ order ≤ found.amount)
      × Returned n s page (2 ^ order) found.amount s'
unfolding free_pages
free_pages-Returned n s page order marked before after inside h free =
    let pos = one-le-pow order 2 in
    let (found, e, f) =
      find_nearby-Found n s page (2 ^ order) marked before after inside (omega (arith, pos)) in
    let within : leb n order ≡ false = ground (arith, h) in
    (
      found,
      free_found n page order found,
      e,
      rw (within, e) refl,
      f.grown,
      free_found-Returned n s page order found marked h free f,
    )
