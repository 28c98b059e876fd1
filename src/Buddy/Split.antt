-- ===== src/Buddy/Split.antt =====
-- The halves that kernel/src/mm/page_alloc.c gives back when it takes pages from a higher order.
use aphrodite.Base.{
  ℕ, zero, suc, ◌+◌, ◌-◌, ◌^◌, ◌<◌, ◌≤◌, ◌≡◌, refl, ap, arith, ltb, leb, true, false, dec_lt, List,
  [], ◌∷◌,
}
use native.Mathlib.Nat.{pow-suc}
use aphrodite.Buddy.{
  PageSection, add_to_freelist_order_from_higher, lower_min, raise_max, split_down,
  free_extra_pages_if_from_higher_order,
}
use aphrodite.Buddy.Tiles.{Block, push_all, mark_all}

-- The blocks follow each other without gaps, the last one first.
unfoldable pub TilesDown : ℕ → List Block → ℕ → Type 0
TilesDown from [] upto = from ≡ upto
TilesDown from ((order, page) ∷ blocks) upto =
    (page + 2 ^ order ≡ upto) × TilesDown from blocks page

-- Every order is below the first one and not below the second.
unfoldable pub Between : ℕ → ℕ → List Block → Type 0
Between high low [] = Unit
Between high low ((order, _) ∷ blocks) = (order < high) × (low ≤ order) × Between order low blocks

-- What is added to the free lists of a section.
pub record Split (before after : PageSection) (page higher_order order : ℕ) : Type 0 where
  pub blocks : List Block
  pub lists : after.freelist_list ≡ push_all before.freelist_list blocks
  pub tiled : TilesDown (page + 2 ^ order) blocks (page + 2 ^ higher_order)
  pub orders : Between higher_order order blocks
  pub counted : after.total_free ≡ before.total_free
  pub marks : after.states ≡ mark_all before.states blocks

split_down-Split :
    (higher_order : ℕ) (s : PageSection) (page order : ℕ)
    → order ≤ higher_order
    → Split s (split_down higher_order s page order) page higher_order order
unfolding split_down add_to_freelist_order_from_higher push_all mark_all TilesDown Between
split_down-Split zero s page order h = record {
  blocks = [];
  lists = refl;
  tiled = let e : order ≡ zero = omega (arith, h) in ap (λ o. page + 2 ^ o) e;
  orders = tt;
  counted = refl;
  marks = refl;
}
split_down-Split (suc high) s page order h = elim (dec_lt order (suc high)) [
  | yes more ↦
      let e : ltb order (suc high) ≡ true = ground arith in
      let half = page + 2 ^ high in
      let f =
        split_down-Split high (add_to_freelist_order_from_higher s high half) page order
          (omega (arith, more)) in
      let halves : half + 2 ^ high ≡ page + 2 ^ suc high = omega (arith, pow-suc 2 high) in
      rw e (record {
        blocks = (high, half) ∷ f.blocks;
        lists = f.lists;
        tiled = (halves, f.tiled);
        orders = (omega arith, omega (arith, more), f.orders);
        counted = f.counted;
        marks = f.marks;
      })
  | no done ↦
      let e : ltb order (suc high) ≡ false = ground arith in
      rw e (record {
        blocks = [];
        lists = refl;
        tiled = let all : order ≡ suc high = omega (arith, done, h) in ap (λ o. page + 2 ^ o) all;
        orders = tt;
        counted = refl;
        marks = refl;
      })
]

-- When 2 ^ order pages are taken from the front of a block of a higher order, the blocks that are
-- added to the free lists, one of each order from the one below the higher order down to the
-- wanted one, cover exactly the rest of the block; the number of free pages is not counted up.
pub free_extra_pages-Split :
    (page : ℕ) (s : PageSection) (higher_order order : ℕ)
    → order < higher_order
    → Split s
        (free_extra_pages_if_from_higher_order page s higher_order order)
        page
        higher_order
        order
unfolding free_extra_pages_if_from_higher_order raise_max lower_min
free_extra_pages-Split page s higher_order order h =
    let e : leb higher_order order ≡ false = ground arith in
    let f =
      split_down-Split higher_order (raise_max s (higher_order - 1)) page order
        (omega (arith, h)) in
    rw e (record {
      blocks = f.blocks;
      lists = f.lists;
      tiled = f.tiled;
      orders = f.orders;
      counted = f.counted;
      marks = f.marks;
    })
