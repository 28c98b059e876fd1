-- ===== src/Slab/Pool.antt =====
-- What kernel/src/mm/slab.c promises: a pool of objects, with the free ones of every slab in the
-- order in which they will be given out.
use aphrodite.Base.{
  ℕ, suc, ◌+◌, ◌-◌, ◌==◌, if◌then◌else◌, Bool, true, false, Option, none, some, List, [], ◌∷◌,
  length,
}
use aphrodite.Slab.{Pages}
use aphrodite.Slab.Chain.{follow}

-- A slab with free objects: its page, its first free object and the others.
abbrev pub Open : Type 0
Open = ℕ × ℕ × List ℕ

pub record Pool : Type 0 where
  pub open_slabs : List Open
  pub full : List ℕ

-- The first object of the first slab is given out.
unfoldable pub take_first : Open → List Open → List ℕ → (ℕ × ℕ) × Pool
take_first (page, i, []) rest full = ((page, i), record { open_slabs = rest; full = page ∷ full })
take_first (page, i, j ∷ free) rest full =
    ((page, i), record { open_slabs = (page, j, free) ∷ rest; full = full })

abbrev pub Given : Type 0
Given = Option (ℕ × ℕ) × Pool × Pages

unfoldable pub given : Pages → (ℕ × ℕ) × Pool → Given
given pages r = (some (r.0), r.1, pages)

-- An allocation with `n` objects to a slab.
unfoldable pub pool_alloc_from : ℕ → List Open → List ℕ → Pages → Given
pool_alloc_from n (o ∷ rest) full pages = given pages (take_first o rest full)
pool_alloc_from n [] full [] = (none, record { open_slabs = []; full = full }, [])
pool_alloc_from n [] full (none ∷ later) = (none, record { open_slabs = []; full = full }, later)
pool_alloc_from n [] full (some page ∷ later) =
    given later (take_first (page, 0, follow 0 (n - 1)) [] full)

unfoldable pub pool_alloc : ℕ → Pool → Pages → Given
pool_alloc n v pages = pool_alloc_from n v.open_slabs v.full pages

-- How many objects are free.
unfoldable pub total : List Open → ℕ
total [] = 0
total ((_, _, free) ∷ rest) = suc (length free) + total rest

unfoldable pub has_page : ℕ → List ℕ → Bool
has_page page [] = false
has_page page (p ∷ ps) = if p == page then true else has_page page ps

unfoldable pub drop_page : ℕ → List ℕ → List ℕ
drop_page page [] = []
drop_page page (p ∷ ps) = if p == page then ps else p ∷ drop_page page ps

unfoldable pub find_open : ℕ → List Open → Option (ℕ × List ℕ)
find_open page [] = none
find_open page ((p, i, free) ∷ rest) = if p == page then some (i, free) else find_open page rest

unfoldable pub drop_open : ℕ → List Open → List Open
drop_open page [] = []
drop_open page ((p, i, free) ∷ rest) =
    if p == page then rest else (p, i, free) ∷ drop_open page rest

-- The object `i` becomes the first free one of the slab.
unfoldable pub push_open : ℕ → ℕ → List Open → List Open
push_open page i [] = []
push_open page i ((p, j, free) ∷ rest) =
    if p == page then (p, i, j ∷ free) ∷ rest else (p, j, free) ∷ push_open page i rest
