-- ===== src/Slab/Refine.antt =====
-- `slab_alloc` and `slab_alloc2` of kernel/src/mm/slab.c refine the allocation from a pool.
use aphrodite.Base.{
  ℕ, suc, ◌+◌, ◌-◌, ◌≡◌, ◌∙◌, refl, ap, sym, arith, none, some, List, [], ◌∷◌, length, Outcome,
  ◌>>=◌, ok, u32, sub32,
}
use aphrodite.Slab.{
  Slab, SlabAllocator, Pages, Allocated, allocated, alloc_slab_page, take_object, relist,
  alloc_from, alloc_with, slab_alloc,
}
use mathlib.Core.Path.{subst}
use aphrodite.Slab.Chain.{
  IsSlab, Fits, Taken, IsSlab-Taken, follow, new_slab-IsSlab, length-follow, new_slab-page,
  take_object-page,
}
use aphrodite.Slab.Pool.{Open, Pool, Given, given, take_first, pool_alloc, pool_alloc_from, total}

-- The slabs of the list are the open slabs of the pool, in order.
unfoldable pub AreOpen : ℕ → List Slab → List Open → Type 0
AreOpen n [] [] = Unit
AreOpen n [] (_ ∷ _) = ⊥
AreOpen n (_ ∷ _) [] = ⊥
AreOpen n (s ∷ slabs) ((page, i, free) ∷ rest) =
    (s.page ≡ page) × IsSlab n (i ∷ free) s × AreOpen n slabs rest

unfoldable pub AreFull : ℕ → List Slab → List ℕ → Type 0
AreFull n [] [] = Unit
AreFull n [] (_ ∷ _) = ⊥
AreFull n (_ ∷ _) [] = ⊥
AreFull n (s ∷ slabs) (page ∷ pages) = (s.page ≡ page) × IsSlab n [] s × AreFull n slabs pages

-- The allocator keeps the pool: every slab has the free objects of the pool in a chain, and the
-- counters are the pool's, modulo 2^32.
pub record Keeps (a : SlabAllocator) (v : Pool) : Type 0 where
  pub fits : Fits a.object_count_per_slab a.object_size
  pub listed : AreOpen a.object_count_per_slab a.free_slab_head_list v.open_slabs
  pub unlisted : AreFull a.object_count_per_slab a.full_slabs v.full
  pub free_objects : a.free_obj_count ≡ u32 (total v.open_slabs)
  pub slabs : a.slab_count ≡ u32 (length v.open_slabs + length v.full)

pub AreOpen-cons :
    (n : ℕ) (slabs : List Slab) (page i : ℕ) (free : List ℕ) (rest : List Open)
    → AreOpen n slabs ((page, i, free) ∷ rest)
    → (s : Slab) × (more : List Slab) × (slabs ≡ s ∷ more)
      × (s.page ≡ page)
      × IsSlab n (i ∷ free) s
      × AreOpen n more rest
unfolding AreOpen
AreOpen-cons n [] page i free rest h = absurd h
AreOpen-cons n (s ∷ slabs) page i free rest (e, t, h) = (s, slabs, refl, e, t, h)

pub AreOpen-nil : (n : ℕ) (slabs : List Slab) → AreOpen n slabs [] → slabs ≡ []
unfolding AreOpen
AreOpen-nil n [] h = refl
AreOpen-nil n (s ∷ slabs) h = absurd h

-- The two results of `relist`.
abbrev emptied : SlabAllocator → Slab → List Slab → SlabAllocator
emptied a s more = record a {
  free_obj_count = sub32 a.free_obj_count 1;
  free_slab_head_list = more;
  full_slabs = s ∷ a.full_slabs;
}

abbrev kept_on : SlabAllocator → Slab → List Slab → SlabAllocator
kept_on a s more = record a {
  free_obj_count = sub32 a.free_obj_count 1;
  free_slab_head_list = s ∷ more;
}

relist-empty :
    (a : SlabAllocator) (s : Slab) (more : List Slab)
    → s.free_obj_count ≡ 0
    → relist a s more ≡ emptied a s more
unfolding relist
relist-empty a s more e = rw e refl

relist-some :
    (a : SlabAllocator) (s : Slab) (more : List Slab) {k : ℕ}
    → s.free_obj_count ≡ suc k
    → relist a s more
      ≡ record a { free_obj_count = sub32 a.free_obj_count 1; free_slab_head_list = s ∷ more }
unfolding relist
relist-some a s more {k = k} e = ground arith

-- The slab that an object is taken off keeps its place in the pool.
relist-Keeps :
    (a : SlabAllocator) (s : Slab) (page i : ℕ) (free : List ℕ) (more : List Slab)
    (rest : List Open) (full : List ℕ)
    → Keeps a (record { open_slabs = (page, i, free) ∷ rest; full = full })
    → s.page ≡ page
    → IsSlab a.object_count_per_slab free s
    → AreOpen a.object_count_per_slab more rest
    → Keeps (relist a s more) ((take_first (page, i, free) rest full).1)
unfolding take_first AreOpen AreFull total
relist-Keeps a s page i [] more rest full k e t h =
    let counted = k.free_objects in
    let slabs = k.slabs in
    let kept : Keeps (emptied a s more) (record { open_slabs = rest; full = page ∷ full }) =
      record {
        fits = k.fits;
        listed = h;
        unlisted = (e, t, k.unlisted);
        free_objects = omega arith;
        slabs = omega arith;
      } in
    subst (λ x. Keeps x (record { open_slabs = rest; full = page ∷ full }))
      (sym (relist-empty a s more t.counted)) kept
relist-Keeps a s page i (j ∷ free) more rest full k e t h =
    let counted = k.free_objects in
    let kept : Keeps (kept_on a s more)
        (record { open_slabs = (page, j, free) ∷ rest; full = full }) =
      record {
        fits = k.fits;
        listed = (e, t, h);
        unlisted = k.unlisted;
        free_objects = omega arith;
        slabs = k.slabs;
      } in
    subst (λ x. Keeps x (record { open_slabs = (page, j, free) ∷ rest; full = full }))
      (sym (relist-some a s more t.counted)) kept

pub alloc_from-found :
    (a : SlabAllocator) (s : Slab) (more : List Slab) (i : ℕ) (free : List ℕ)
    → (t : Taken a s i free)
    → alloc_from a (s ∷ more) ≡ ok ((s.page, i), relist a (take_object s t.object) more)
unfolding alloc_from
alloc_from-found a s more i free t =
    rw t.verified (ap (λ j. ok ((s.page, j), relist a (take_object s t.object) more)) t.first)

take_first-object :
    (page i : ℕ) (free : List ℕ) (rest : List Open) (full : List ℕ)
    → (take_first (page, i, free) rest full).0 ≡ (page, i)
unfolding take_first
take_first-object page i [] rest full = refl
take_first-object page i (j ∷ free) rest full = refl

-- The allocation from the first slab of the list.
pub front-Keeps :
    (a : SlabAllocator) (page i : ℕ) (free : List ℕ) (rest : List Open) (full : List ℕ)
    → Keeps a (record { open_slabs = (page, i, free) ∷ rest; full = full })
    → (a' : SlabAllocator) × (alloc_from a a.free_slab_head_list
        ≡ ok ((take_first (page, i, free) rest full).0, a'))
      × Keeps a' ((take_first (page, i, free) rest full).1)
front-Keeps a page i free rest full k =
    let (s, more, e, p, t, h) =
      AreOpen-cons a.object_count_per_slab a.free_slab_head_list page i free rest k.listed in
    let taken = IsSlab-Taken a s i free k.fits t in
    let left = relist a (take_object s taken.object) more in
    (
      left,
      ap (alloc_from a) e
          ∙ alloc_from-found a s more i free taken
          ∙ ap (λ q. ok ((q, i), left)) p
          ∙ ap (λ q. ok (q, left)) (sym (take_first-object page i free rest full)),
      relist-Keeps a (take_object s taken.object) page i free more rest full k
          (take_object-page s taken.object ∙ p) taken.left h,
    )

-- A new slab makes an open slab with the objects from 0 on.
pub grown-Keeps :
    (a : SlabAllocator) (page : ℕ) (full : List ℕ)
    → Keeps a (record { open_slabs = []; full = full })
    → Keeps (alloc_slab_page a page) (record {
      open_slabs = (page, 0, follow 0 (a.object_count_per_slab - 1)) ∷ [];
      full = full;
    })
unfolding alloc_slab_page AreOpen total
grown-Keeps a page full k =
    let counted = k.free_objects in
    let slabs = k.slabs in
    let pos = k.fits.some_objects in
    let whole = new_slab-IsSlab a page pos k.fits.count_word in
    let length_eq = length-follow 0 (a.object_count_per_slab - 1) in
    record {
      fits = k.fits;
      listed = (new_slab-page a page, whole, k.listed);
      unlisted = k.unlisted;
      free_objects = omega arith;
      slabs = omega arith;
    }

-- What an operation on the allocator and the same one on the pool have in common.
unfoldable pub Matches : Outcome Allocated → Given → Type 0
Matches r g = (a' : SlabAllocator) × (r ≡ ok (g.0, a', g.2)) × Keeps a' (g.1)

-- The front of the list is given out: the whole result of the operation.
front-Matches :
    (a : SlabAllocator) (o : Open) (rest : List Open) (full : List ℕ) (pages : Pages)
    → Keeps a (record { open_slabs = o ∷ rest; full = full })
    → Matches
        (alloc_from a a.free_slab_head_list >>= λ r. ok (allocated pages r))
        (given pages (take_first o rest full))
unfolding Matches allocated given
front-Matches a (page, i, free) rest full pages k =
    let (a', e, k') = front-Keeps a page i free rest full k in
    (a', ap (λ m. m >>= λ r. ok (allocated pages r)) e, k')

-- No slab on the list has a free object.
empty-Matches :
    (a : SlabAllocator) (full : List ℕ) (pages : Pages)
    → Keeps a (record { open_slabs = []; full = full })
    → Matches (alloc_with a [] pages) (pool_alloc_from a.object_count_per_slab [] full pages)
unfolding Matches pool_alloc_from alloc_with
empty-Matches a full [] k = (a, refl, k)
empty-Matches a full (none ∷ later) k = (a, refl, k)
empty-Matches a full (some page ∷ later) k =
    front-Matches (alloc_slab_page a page) (page, 0, follow 0 (a.object_count_per_slab - 1)) [] full
      later (grown-Keeps a page full k)

alloc_with-Matches :
    (a : SlabAllocator) (free : List Open) (full : List ℕ) (pages : Pages)
    → Keeps a (record { open_slabs = free; full = full })
    → Matches
        (alloc_with a a.free_slab_head_list pages)
        (pool_alloc_from a.object_count_per_slab free full pages)
unfolding Matches pool_alloc_from alloc_with
alloc_with-Matches a ((page, i, free) ∷ rest) full pages k =
    let (s, more, e, _, _, _) =
      AreOpen-cons a.object_count_per_slab a.free_slab_head_list page i free rest k.listed in
    subst (λ l. Matches (alloc_with a l pages) (given pages (take_first (page, i, free) rest full)))
      (sym e)
      (subst
        (λ l.
          Matches (alloc_from a l >>= λ r. ok (allocated pages r))
            (given pages (take_first (page, i, free) rest full)))
        e (front-Matches a (page, i, free) rest full pages k))
alloc_with-Matches a [] full pages k =
    subst
      (λ l. Matches (alloc_with a l pages) (pool_alloc_from a.object_count_per_slab [] full pages))
      (sym (AreOpen-nil a.object_count_per_slab a.free_slab_head_list k.listed))
      (empty-Matches a full pages k)

-- On an allocator that keeps a pool, whatever pages are granted, `slab_alloc` does not panic, gives
-- out the object that the pool gives out, takes a new slab exactly when no slab has a free
-- object, fails exactly when there is no page for it, and keeps the pool that is left.
pub slab_alloc-Matches :
    (a : SlabAllocator) (v : Pool) (pages : Pages)
    → Keeps a v
    → Matches (slab_alloc a pages) (pool_alloc a.object_count_per_slab v pages)
unfolding slab_alloc pool_alloc
slab_alloc-Matches a v pages k = alloc_with-Matches a v.open_slabs v.full pages k
