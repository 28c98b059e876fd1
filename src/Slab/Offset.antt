-- ===== src/Slab/Offset.antt =====
-- `slab_alloc2` of kernel/src/mm/slab.c gives what `slab_alloc` gives, as a byte offset.
use aphrodite.Base.{
  ℕ, ◌-◌, ◌*◌, ◌^◌, ◌≡◌, ◌∙◌, refl, ap, sym, arith, true, ltb, none, some, List, [], ◌∷◌, ◌>>=◌, ok,
}
use mathlib.Core.Path.{subst}
use aphrodite.Arith.{check_mul_assert}
use aphrodite.Slab.{
  Slab, SlabAllocator, Pages, Allocated, allocated, alloc_slab_page, take_object, relist, object_at,
  alloc_from, alloc_with, slab_alloc, alloc_from2, alloc_with2, slab_alloc2,
}
use aphrodite.Slab.Chain.{Taken, IsSlab-Taken, follow}
use aphrodite.Slab.Pool.{Open, Pool}
use aphrodite.Slab.Refine.{Keeps, AreOpen-cons, AreOpen-nil, alloc_from-found, grown-Keeps}

-- The object of a result by its byte offset.
unfoldable pub in_bytes : ℕ → Allocated → Allocated
in_bytes size (none, a, pages) = (none, a, pages)
in_bytes size (some (page, i), a, pages) = (some (page, i * size), a, pages)

alloc_from2-found :
    (a : SlabAllocator) (s : Slab) (more : List Slab) (i : ℕ) (free : List ℕ)
    → (t : Taken a s i free)
    → alloc_from2 a (s ∷ more)
      ≡ ok ((s.page, i * a.object_size), relist a (take_object s t.object) more)
unfolding alloc_from2 check_mul_assert
alloc_from2-found a s more i free t =
    let bytes = t.bytes in
    let first = t.first in
    let same : s.first_free_index * a.object_size ≡ i * a.object_size =
      ap (λ j. j * a.object_size) first in
    let small : ltb (s.first_free_index * a.object_size) (2 ^ 32) ≡ true = ground arith in
    let at : object_at s s.first_free_index ≡ ok t.object = ap (object_at s) first ∙ t.found in
    rw (small, at) (ap (λ j. ok ((s.page, j), relist a (take_object s t.object) more)) same)

-- The two operations on the first slab of the list.
front-in_bytes :
    (a : SlabAllocator) (o : Open) (rest : List Open) (full : List ℕ) (pages : Pages)
    → Keeps a (record { open_slabs = o ∷ rest; full = full })
    → (alloc_from2 a a.free_slab_head_list >>= λ r. ok (allocated pages r)) ≡ (
        (alloc_from a a.free_slab_head_list >>= λ r. ok (allocated pages r)) >>= λ r.
        ok (in_bytes a.object_size r))
unfolding in_bytes allocated
front-in_bytes a (page, i, free) rest full pages k =
    let (s, more, e, _, t, _) =
      AreOpen-cons a.object_count_per_slab a.free_slab_head_list page i free rest k.listed in
    let taken = IsSlab-Taken a s i free k.fits t in
    let one : alloc_from a a.free_slab_head_list
        ≡ ok ((s.page, i), relist a (take_object s taken.object) more) =
      ap (alloc_from a) e ∙ alloc_from-found a s more i free taken in
    let two : alloc_from2 a a.free_slab_head_list
        ≡ ok ((s.page, i * a.object_size), relist a (take_object s taken.object) more) =
      ap (alloc_from2 a) e ∙ alloc_from2-found a s more i free taken in
    rw (one, two) refl

empty-in_bytes :
    (a : SlabAllocator) (full : List ℕ) (pages : Pages)
    → Keeps a (record { open_slabs = []; full = full })
    → alloc_with2 a [] pages ≡ (alloc_with a [] pages >>= λ r. ok (in_bytes a.object_size r))
unfolding alloc_with2 alloc_with in_bytes alloc_slab_page
empty-in_bytes a full [] k = refl
empty-in_bytes a full (none ∷ later) k = refl
empty-in_bytes a full (some page ∷ later) k =
    front-in_bytes (alloc_slab_page a page) (page, 0, follow 0 (a.object_count_per_slab - 1)) []
      full later (grown-Keeps a page full k)

-- The same for the list that is found.
by_list :
    (a : SlabAllocator) (free : List Open) (full : List ℕ) (pages : Pages)
    → Keeps a (record { open_slabs = free; full = full })
    → alloc_with2 a a.free_slab_head_list pages
      ≡ (alloc_with a a.free_slab_head_list pages >>= λ r. ok (in_bytes a.object_size r))
unfolding alloc_with2 alloc_with
by_list a ((page, i, free) ∷ rest) full pages k =
    let (s, more, e, _, _, _) =
      AreOpen-cons a.object_count_per_slab a.free_slab_head_list page i free rest k.listed in
    let front = front-in_bytes a (page, i, free) rest full pages k in
    subst
      (λ l. alloc_with2 a l pages ≡ (alloc_with a l pages >>= λ r. ok (in_bytes a.object_size r)))
      (sym e)
      (subst
        (λ l. (alloc_from2 a l >>= λ r. ok (allocated pages r)) ≡ (
          (alloc_from a l >>= λ r. ok (allocated pages r)) >>= λ r. ok (in_bytes a.object_size r)))
        e front)
by_list a [] full pages k =
    subst
      (λ l. alloc_with2 a l pages ≡ (alloc_with a l pages >>= λ r. ok (in_bytes a.object_size r)))
      (sym (AreOpen-nil a.object_count_per_slab a.free_slab_head_list k.listed))
      (empty-in_bytes a full pages k)

-- On an allocator that keeps a pool `slab_alloc2` does what `slab_alloc` does, and gives the byte
-- offset of the object where that gives the object.
pub slab_alloc2-in_bytes :
    (a : SlabAllocator) (v : Pool) (pages : Pages)
    → Keeps a v
    → slab_alloc2 a pages ≡ (slab_alloc a pages >>= λ r. ok (in_bytes a.object_size r))
unfolding slab_alloc2 slab_alloc
slab_alloc2-in_bytes a v pages k = by_list a v.open_slabs v.full pages k
