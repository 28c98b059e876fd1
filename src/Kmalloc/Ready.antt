-- ===== src/Kmalloc/Ready.antt =====
-- The table of slab allocators that `kmalloc_init` of kernel/src/mm/kmalloc.c sets up.
use aphrodite.Base.{ℕ, ◌-◌, ◌^◌, ◌≤◌, ◌<◌, ◌≡◌, refl, true, List, [], ◌∷◌, ok}
use aphrodite.Arith.Align.{IsLeastAbove}
use aphrodite.Slab.{SlabAllocator}
use aphrodite.Slab.Pool.{Pool}
use aphrodite.Slab.Refine.{Keeps}
use aphrodite.Slab.Setup.{slab_allocator_init-Started}
use aphrodite.Kmalloc.{Kmalloc, alloc_sizes, init_slabs, kmalloc_init, kmalloc_initialized}

-- Allocators for these requested sizes, each with objects of the least sufficient multiple of 16,
-- and the pools that they keep.
unfoldable pub AreReady : List ℕ → List SlabAllocator → List Pool → Type 0
AreReady [] [] [] = Unit
AreReady (size ∷ sizes) (a ∷ slabs) (v ∷ pools) =
    IsLeastAbove size 16 a.object_size × Keeps a v × AreReady sizes slabs pools
AreReady [] [] (_ ∷ _) = ⊥
AreReady [] (_ ∷ _) _ = ⊥
AreReady (_ ∷ _) [] _ = ⊥
AreReady (_ ∷ _) (_ ∷ _) [] = ⊥

-- The allocators that the kernel starts with: zeroed, as many as there are sizes.
unfoldable pub AreBlank : List ℕ → List SlabAllocator → Type 0
AreBlank [] [] = Unit
AreBlank (size ∷ sizes) (a ∷ slabs) =
    (0 < size)
    × (size ≤ 2 ^ 32 - 16)
    × (a.full_slabs ≡ [])
    × (a.slab_count ≡ 0)
    × AreBlank sizes slabs
AreBlank [] (_ ∷ _) = ⊥
AreBlank (_ ∷ _) [] = ⊥

abbrev pub empty_pool : Pool
empty_pool = record { open_slabs = []; full = [] }

unfoldable pub empty_pools : List ℕ → List Pool
empty_pools [] = []
empty_pools (size ∷ sizes) = empty_pool ∷ empty_pools sizes

init_slabs-AreReady :
    (sizes : List ℕ) (slabs : List SlabAllocator)
    → AreBlank sizes slabs
    → (slabs' : List SlabAllocator) × (init_slabs sizes slabs ≡ ok slabs')
      × AreReady sizes slabs' (empty_pools sizes)
unfolding AreBlank AreReady init_slabs empty_pools
init_slabs-AreReady [] [] b = ([], refl, tt)
init_slabs-AreReady [] (a ∷ slabs) b = absurd b
init_slabs-AreReady (size ∷ sizes) [] b = absurd b
init_slabs-AreReady (size ∷ sizes) (a ∷ slabs) (pos, small, unused, none_yet, b) =
    let (a', e, started) = slab_allocator_init-Started a size unused none_yet pos small in
    let (slabs', e', ready) = init_slabs-AreReady sizes slabs b in
    (a' ∷ slabs', rw (e, e') refl, (started.aligned, started.keeps, ready))

-- On zeroed allocators, as many as there are sizes, `kmalloc_init` does not panic: every allocator is
-- then set up for its size, with the least multiple of 16 that is not below it, and keeps an empty pool.
pub kmalloc_init-AreReady :
    (st : Kmalloc)
    → AreBlank alloc_sizes st.kmalloc_slabs
    → (st' : Kmalloc) × (kmalloc_init st ≡ ok st')
      × (kmalloc_initialized st' ≡ true)
      × AreReady alloc_sizes st'.kmalloc_slabs (empty_pools alloc_sizes)
unfolding kmalloc_init kmalloc_initialized
kmalloc_init-AreReady st b =
    let (slabs, e, ready) = init_slabs-AreReady alloc_sizes st.kmalloc_slabs b in
    (record { kmalloc_slabs = slabs; kmalloc_is_initialized = true }, rw e refl, refl, ready)
