-- ===== src/Buddy/Tiles.antt =====
-- The blocks that kernel/src/mm/page_alloc.c adds to the free lists, and the pages that they cover.
use aphrodite.Base.{
  u64, ℕ, zero, suc, ◌+◌, ◌-◌, ◌^◌, ◌<◌, ◌≤◌, ◌≡◌, refl, arith, ltb, leb, ◌==◌, true, false,
  Bool-cases, inl, inr, dec_lt, dec_le, List, [], ◌∷◌,
}
use mathlib.Core.Path.{subst}
use native.Mathlib.Nat.{one-le-pow, pow-le-pow_right}
use aphrodite.Sched.{put}
use aphrodite.Buddy.{
  PageState, mark_block, PageSection, add_to_freelist_order, add_to_freelist_order_from_higher,
  first_order, lower_order, lower_min, raise_max, free_rounds, free_range_of_pages,
}

-- An order and a first page.
abbrev pub Block : Type 0
Block = ℕ × ℕ

-- The free lists after these blocks were put in front, one after the other.
unfoldable pub push_all : (ℕ → List ℕ) → List Block → ℕ → List ℕ
push_all lists [] = lists
push_all lists ((order, page) ∷ blocks) = push_all (put lists order (page ∷ lists order)) blocks

-- The marks of blocks, one after the other.
unfoldable pub mark_all : (ℕ → PageState) → List Block → ℕ → PageState
mark_all states [] = states
mark_all states ((order, page) ∷ blocks) = mark_all (mark_block states order page) blocks

-- The blocks follow each other without gaps from one page to another.
unfoldable pub Tiles : ℕ → List Block → ℕ → Type 0
Tiles from [] upto = from ≡ upto
Tiles from ((order, page) ∷ blocks) upto = (page ≡ from) × Tiles (from + 2 ^ order) blocks upto

-- No order passes this one, and none is higher than the one before.
unfoldable pub Descending : ℕ → List Block → Type 0
Descending bound [] = Unit
Descending bound ((order, _) ∷ blocks) = (order ≤ bound) × Descending order blocks

Descending-le : (a b : ℕ) (blocks : List Block) → a ≤ b → Descending a blocks → Descending b blocks
unfolding Descending
Descending-le a b [] h d = tt
Descending-le a b ((order, _) ∷ blocks) h (le, d) = (omega (arith, h, le), d)

pub lower_order-fits : (order avail : ℕ) → 0 < avail → 2 ^ lower_order order avail ≤ avail
unfolding lower_order
lower_order-fits zero avail pos = omega (arith, pos)
lower_order-fits (suc order) avail pos = elim (dec_le (2 ^ suc order) avail) [
  | yes h ↦ let e : leb (2 ^ suc order) avail ≡ true = ground arith in rw e h
  | no h ↦
      let e : leb (2 ^ suc order) avail ≡ false = ground arith in
      rw e (lower_order-fits order avail pos)
]

pub lower_order-le : (order avail : ℕ) → lower_order order avail ≤ order
unfolding lower_order
lower_order-le zero avail = omega arith
lower_order-le (suc order) avail = elim (Bool-cases (leb (2 ^ suc order) avail)) [
  | inl e ↦ rw e (omega arith)
  | inr e ↦ rw e (omega (arith, lower_order-le order avail))
]

first_order-fits :
    (tries order_i avail otherwise : ℕ)
    → 0 < avail
    → 2 ^ (order_i - 1) ≤ avail
    → otherwise < order_i + tries
    → 2 ^ first_order tries order_i avail otherwise ≤ avail
unfolding first_order
first_order-fits zero order_i avail otherwise pos below h =
    let le : otherwise ≤ order_i - 1 = omega (arith, h) in
    omega (arith, below, pow-le-pow_right {n = 2} (omega arith) le)
first_order-fits (suc tries) order_i avail otherwise pos below h =
    elim (dec_lt avail (2 ^ order_i)) [
      | yes small ↦ let e : ltb avail (2 ^ order_i) ≡ true = ground arith in rw e below
      | no large ↦
          let e : ltb avail (2 ^ order_i) ≡ false = ground arith in
          let same : order_i + 1 - 1 ≡ order_i = omega arith in
          rw e (
            first_order-fits tries (order_i + 1) avail otherwise pos
              (rw same (omega (arith, large))) (omega (arith, h)))
    ]

first_order-bounded :
    (tries order_i avail otherwise : ℕ)
    → order_i + tries ≤ otherwise + 2
    → first_order tries order_i avail otherwise ≤ otherwise
unfolding first_order
first_order-bounded zero order_i avail otherwise h = omega arith
first_order-bounded (suc tries) order_i avail otherwise h =
    elim (Bool-cases (ltb avail (2 ^ order_i))) [
      | inl e ↦ rw e (omega (arith, h))
      | inr e ↦ rw e (first_order-bounded tries (order_i + 1) avail otherwise (omega (arith, h)))
    ]

-- What the freeing of a range of pages adds to the free lists.
pub record Freed (before after : PageSection) (page amount order : ℕ) : Type 0 where
  pub blocks : List Block
  pub lists : after.freelist_list ≡ push_all before.freelist_list blocks
  pub tiled : Tiles page blocks (page + amount)
  pub descending : Descending order blocks
  pub counted : after.total_free ≡ u64 (before.total_free + amount)
  pub marks : after.states ≡ mark_all before.states blocks

free_rounds-Freed :
    (rounds : ℕ) (s : PageSection) (order page avail : ℕ)
    → 2 ^ order ≤ avail
    → avail ≤ rounds
    → Freed s (free_rounds rounds s order page avail) page avail order
unfolding free_rounds add_to_freelist_order add_to_freelist_order_from_higher lower_min push_all
    mark_all Tiles Descending
free_rounds-Freed zero s order page avail fits enough = absurd (omega (arith, one-le-pow order 2))
free_rounds-Freed (suc rounds) s order page avail fits enough =
    let left = avail - 2 ^ order in
    let some_pages = one-le-pow order 2 in
    elim (Bool-cases (left == 0)) [
      | inl none_left ↦
          let all : avail ≡ 2 ^ order = ground (arith, fits, none_left) in
          rw none_left (record {
            blocks = (order, page) ∷ [];
            lists = refl;
            tiled = (refl, omega (arith, all));
            descending = (omega arith, tt);
            counted = omega (arith, all);
            marks = refl;
          })
      | inr more ↦
          let next = lower_order order left in
          let pos : 0 < left = ground (arith, more) in
          let f =
            free_rounds-Freed rounds (add_to_freelist_order s order page) next (page + 2 ^ order)
              left (lower_order-fits order left pos) (omega (arith, enough, fits, some_pages)) in
          let end : (page + 2 ^ order) + left ≡ page + avail = omega (arith, fits) in
          rw more (record {
            blocks = (order, page) ∷ f.blocks;
            lists = f.lists;
            tiled = (refl, subst (λ m. Tiles (page + 2 ^ order) f.blocks m) end f.tiled);
            descending = (
              omega arith,
              Descending-le next order f.blocks (lower_order-le order left) f.descending,
            );
            counted = omega (arith, f.counted, fits);
            marks = f.marks;
          })
    ]

-- The freeing of some pages, not more than the rounds allow for, adds blocks to the free lists that follow each other
-- without gaps from the first page to the last, in orders that do not rise and are below the
-- given one, and counts these pages as free. The rounds that the model allows are always enough.
pub free_range_of_pages-Freed :
    (page amount max_order : ℕ) (s : PageSection)
    → 0 < amount
    → 0 < max_order
    → Freed s (free_range_of_pages page s amount max_order) page amount (max_order - 1)
unfolding free_range_of_pages raise_max
free_range_of_pages-Freed page amount max_order s pos some_order =
    let order = first_order (max_order + 1) 0 amount (max_order - 1) in
    let fits =
      first_order-fits (max_order + 1) 0 amount (max_order - 1) pos (omega (arith, pos))
        (omega arith) in
    let bounded = first_order-bounded (max_order + 1) 0 amount (max_order - 1) (omega arith) in
    let f = free_rounds-Freed amount (raise_max s order) order page amount fits (omega arith) in
    record {
      blocks = f.blocks;
      lists = f.lists;
      tiled = f.tiled;
      descending = Descending-le order (max_order - 1) f.blocks bounded f.descending;
      counted = f.counted;
      marks = f.marks;
    }
