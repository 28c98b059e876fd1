-- ===== src/Tests/Blocks.antt =====
-- Runs of kernel/src/mm/kmalloc.c.
use aphrodite.Base.{ℕ, ◌≡◌, arith, true, false, Option, some, [], ◌∷◌, replicate, ok}
use aphrodite.Slab.{SlabAllocator, Pages}
use aphrodite.Kmalloc.{
  Kmalloc, Pointer, alloc_sizes, kmalloc_init, kmalloc_initialized, kmalloc, kmalloc_size,
}
use aphrodite.Kmalloc.Ready.{AreBlank, AreReady, empty_pools, kmalloc_init-AreReady}
use aphrodite.Kmalloc.Choice.{Chosen, kmalloc-Chosen}

-- The zeroed table that the kernel starts with.
abbrev zeroed : SlabAllocator
zeroed = record {
  free_slab_head_list = [];
  full_slabs = [];
  object_size = 0;
  object_count_per_slab = 0;
  slab_order = 0;
  free_obj_count = 0;
  slab_count = 0;
}

abbrev fresh : Kmalloc
fresh = record { kmalloc_slabs = replicate 19 zeroed; kmalloc_is_initialized = false }

fresh-AreBlank : AreBlank alloc_sizes fresh.kmalloc_slabs
unfolding AreBlank
fresh-AreBlank = ground arith

abbrev Begun : Type 0
Begun =
    (st' : Kmalloc) × (kmalloc_init fresh ≡ ok st')
    × (kmalloc_initialized st' ≡ true)
    × AreReady alloc_sizes st'.kmalloc_slabs (empty_pools alloc_sizes)

kmalloc_init-AreReady_example : Begun
kmalloc_init-AreReady_example = kmalloc_init-AreReady fresh fresh-AreBlank

-- The table after the start, and one page for it.
abbrev begun : Kmalloc
begun = (kmalloc_init-AreReady fresh fresh-AreBlank).0

abbrev one_page : Pages
one_page = some 8192 ∷ []

abbrev Answered : Type 0
Answered =
    (r : Option Pointer × ℕ × Kmalloc × Pages) × (kmalloc_size begun 100 one_page ≡ ok r)
    × (kmalloc begun 100 one_page ≡ ok (r.0, r.2, r.3))
    × (kmalloc_initialized (r.2) ≡ true)
    × Chosen 100 alloc_sizes begun.kmalloc_slabs (empty_pools alloc_sizes) one_page
        (ok (r.0, r.1, (r.2).kmalloc_slabs, r.3))

kmalloc-Chosen_example : Answered
kmalloc-Chosen_example =
    kmalloc-Chosen begun (empty_pools alloc_sizes) 100 one_page
      ((kmalloc_init-AreReady fresh fresh-AreBlank).2)
      ((kmalloc_init-AreReady fresh fresh-AreBlank).3) (omega arith) (omega arith)
