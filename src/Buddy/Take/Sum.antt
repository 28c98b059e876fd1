-- ===== src/Buddy/Take/Sum.antt =====
-- Measures of ranges of pages, summed over the free lists of kernel/src/mm/page_alloc.c.
use aphrodite.Base.{
  ℕ, zero, suc, ◌+◌, ◌-◌, ◌^◌, ◌<◌, ◌≤◌, ◌≡◌, ◌≢◌, refl, sym, ap, ◌∙◌, arith, ltb, leb, ◌==◌, ◌&&◌,
  if◌then◌else◌, true, false, dec_lt, List, [], ◌∷◌,
}
use mathlib.Core.Path.{subst}
use aphrodite.Sched.{put}
use aphrodite.Buddy.Tiles.{Block, Tiles, push_all}
use aphrodite.Buddy.Split.{TilesDown}

-- A number for each range of pages, by its first page and its length, that adds up.
pub record Measure : Type 0 where
  pub of : ℕ → ℕ → ℕ
  pub joins : (from a b : ℕ) → of from (a + b) ≡ of from a + of (from + a) b

-- The number of pages.
unfoldable pub size : Measure
size = record { of = λ from count. count; joins = λ from a b. refl }

pub covers_joins :
    (q from a b : ℕ)
    → (if leb from q && ltb q (from + (a + b)) then 1 else 0)
      ≡ (if leb from q && ltb q (from + a) then 1 else 0)
        + (if leb (from + a) q && ltb q (from + a + b) then 1 else 0)
covers_joins q from a b = ground arith

-- If a page is in the range.
unfoldable pub covers : ℕ → Measure
covers q = record {
  of = λ from count. if leb from q && ltb q (from + count) then 1 else 0;
  joins = covers_joins q;
}

-- All orders are below a number.
unfoldable pub OrdersBelow : ℕ → List Block → Type 0
OrdersBelow n [] = Unit
OrdersBelow n ((order, _) ∷ blocks) = (order < n) × OrdersBelow n blocks

TilesDown-le : (from upto : ℕ) (blocks : List Block) → TilesDown from blocks upto → from ≤ upto
unfolding TilesDown
TilesDown-le from upto [] e = omega (arith, e)
TilesDown-le from upto ((order, page) ∷ blocks) (e, t) =
    omega (arith, e, TilesDown-le from page blocks t)

module _ (m : Measure) where
  -- The blocks of one order.
  unfoldable pub sum_list : ℕ → List ℕ → ℕ
  sum_list order [] = 0
  sum_list order (page ∷ pages) = m.of page (2 ^ order) + sum_list order pages

  -- The blocks of the first orders.
  unfoldable pub sum_lists : ℕ → (ℕ → List ℕ) → ℕ
  sum_lists zero lists = 0
  sum_lists (suc order) lists = sum_lists order lists + sum_list order (lists order)

  unfoldable pub sum_blocks : List Block → ℕ
  sum_blocks [] = 0
  sum_blocks ((order, page) ∷ blocks) = m.of page (2 ^ order) + sum_blocks blocks

  put_self : (lists : ℕ → List ℕ) (order : ℕ) (pages : List ℕ) → put lists order pages order ≡ pages
  unfolding put
  put_self lists order pages = let e : (order == order) ≡ true = ground arith in rw e refl

  put_other :
      (lists : ℕ → List ℕ) (order other : ℕ) (pages : List ℕ)
      → order ≢ other
      → put lists order pages other ≡ lists other
  unfolding put
  put_other lists order other pages ne =
      let e : (order == other) ≡ false = ground arith in rw e refl

  -- A list of a later order does not count.
  sum_lists-put_later :
      (n order : ℕ) (lists : ℕ → List ℕ) (pages : List ℕ)
      → n ≤ order
      → sum_lists n (put lists order pages) ≡ sum_lists n lists
  unfolding sum_lists
  sum_lists-put_later zero order lists pages h = refl
  sum_lists-put_later (suc n) order lists pages h =
      let e = put_other lists order n pages (omega (arith, h)) in
      rw (e, sum_lists-put_later n order lists pages (omega (arith, h))) refl

  -- What changes with one list.
  pub sum_lists-put :
      (n order : ℕ) (lists : ℕ → List ℕ) (pages : List ℕ)
      → order < n
      → sum_lists n (put lists order pages) + sum_list order (lists order)
        ≡ sum_lists n lists + sum_list order pages
  unfolding sum_lists
  sum_lists-put zero order lists pages h = absurd (omega (arith, h))
  sum_lists-put (suc n) order lists pages h = elim (dec_lt order n) [
    | yes below ↦
        let e = put_other lists order n pages (omega (arith, below)) in
        rw e (omega (arith, sum_lists-put n order lists pages below))
    | no here ↦
        let same : order ≡ n = omega (arith, h, here) in
        let later = sum_lists-put_later n order lists pages (omega (arith, here)) in
        let own : sum_list n (put lists order pages n) ≡ sum_list order pages =
          ap (λ k. sum_list k (put lists order pages k)) (sym same)
          ∙ ap (sum_list order) (put_self lists order pages) in
        let own' : sum_list n (lists n) ≡ sum_list order (lists order) =
          ap (λ k. sum_list k (lists k)) (sym same) in
        omega (arith, later, own, own')
  ]

  pub sum_lists-push_all :
      (n : ℕ) (lists : ℕ → List ℕ) (blocks : List Block)
      → OrdersBelow n blocks
      → sum_lists n (push_all lists blocks) ≡ sum_lists n lists + sum_blocks blocks
  unfolding push_all sum_blocks OrdersBelow sum_list
  sum_lists-push_all n lists [] b = omega arith
  sum_lists-push_all n lists ((order, page) ∷ blocks) (h, b) =
      let pushed = put lists order (page ∷ lists order) in
      omega (
        arith,
        sum_lists-push_all n pushed blocks b,
        sum_lists-put n order lists (page ∷ lists order) h,
      )

  nothing : (from : ℕ) → m.of from 0 ≡ 0
  nothing from =
      let e : from + 0 ≡ from = omega arith in
      let j = m.joins from 0 0 in omega (arith, j, ap (λ f. m.of f 0) e)

  -- Blocks without gaps measure what the range measures.
  sum_blocks-from :
      (base d upto : ℕ) (blocks : List Block)
      → Tiles (base + d) blocks (base + upto)
      → m.of base d + sum_blocks blocks ≡ m.of base upto
  unfolding Tiles sum_blocks
  sum_blocks-from base d upto [] e =
      let same : d ≡ upto = omega (arith, e) in omega (arith, ap (m.of base) same)
  sum_blocks-from base d upto ((order, page) ∷ blocks) (e, t) =
      let assoc : base + d + 2 ^ order ≡ base + (d + 2 ^ order) = omega arith in
      let rest =
        sum_blocks-from base (d + 2 ^ order) upto blocks
          (subst (λ f. Tiles f blocks (base + upto)) assoc t) in
      omega (arith, rest, m.joins base d (2 ^ order), ap (λ f. m.of f (2 ^ order)) e)

  pub sum_blocks-Tiles :
      (from amount : ℕ) (blocks : List Block)
      → Tiles from blocks (from + amount)
      → sum_blocks blocks ≡ m.of from amount
  sum_blocks-Tiles from amount blocks t =
      let start : from ≡ from + 0 = omega arith in
      omega (
        arith,
        nothing from,
        sum_blocks-from from 0 amount blocks (subst (λ f. Tiles f blocks (from + amount)) start t),
      )

  pub sum_blocks-TilesDown :
      (base d upto : ℕ) (blocks : List Block)
      → TilesDown (base + d) blocks (base + upto)
      → m.of base d + sum_blocks blocks ≡ m.of base upto
  unfolding TilesDown sum_blocks
  sum_blocks-TilesDown base d upto [] e =
      let same : d ≡ upto = omega (arith, e) in omega (arith, ap (m.of base) same)
  sum_blocks-TilesDown base d upto ((order, page) ∷ blocks) (e, t) =
      let le = TilesDown-le (base + d) page blocks t in
      let k = page - base in
      let at : page ≡ base + k = omega (arith, le) in
      let end : upto ≡ k + 2 ^ order = omega (arith, e, at) in
      let rest =
        sum_blocks-TilesDown base d k blocks (subst (λ p. TilesDown (base + d) blocks p) at t) in
      omega (
        arith,
        rest,
        m.joins base k (2 ^ order),
        ap (λ f. m.of f (2 ^ order)) at,
        ap (m.of base) end,
      )
