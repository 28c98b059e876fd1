-- ===== src/Tests/Slabs.antt =====
-- Runs of kernel/src/mm/slab.c on small slabs.
use aphrodite.Base.{
  ◌*◌, ◌≡◌, refl, arith, ◌==◌, if◌then◌else◌, true, false, none, some, [], ◌∷◌, ◌>>=◌, ok,
}
use aphrodite.Base.Distinct.{NotIn}
use aphrodite.Arith.{check_mul_assert, index_in_bounds}
use aphrodite.Slab.{
  Slab, SlabAllocator, free_slab_object_init, zero_free_object, uint32_max, slab_alloc, slab_free,
  init_objects, new_slab, alloc_slab_page, get_free_object, object_at, verify_free_object,
  alloc_from, alloc_with, allocated,
}
use aphrodite.Slab.Chain.{Chain, Fits}
use aphrodite.Slab.Pool.{
  Pool, pool_alloc, total, has_page, drop_page, find_open, drop_open, push_open,
}
use aphrodite.Slab.Refine.{AreOpen, AreFull, Keeps, Matches, slab_alloc-Matches}
use aphrodite.Slab.Free.{slab_free-full}
use aphrodite.Slab.Return.{slab_free-listed}

-- Three objects of 1024 bytes to a slab, and no slab yet.
abbrev blank : SlabAllocator
blank = record {
  free_slab_head_list = [];
  full_slabs = [];
  object_size = 1024;
  object_count_per_slab = 3;
  slab_order = 0;
  free_obj_count = 0;
  slab_count = 0;
}

abbrev no_slabs : Pool
no_slabs = record { open_slabs = []; full = [] }

blank-Fits : Fits 3 1024
blank-Fits = record {
  some_objects = omega arith;
  count_word = omega arith;
  some_size = omega arith;
  size_word = omega arith;
}

blank-Keeps : Keeps blank no_slabs
unfolding AreOpen AreFull total
blank-Keeps = record {
  fits = blank-Fits;
  listed = tt;
  unlisted = tt;
  free_objects = refl;
  slabs = refl;
}

-- A slab at 8192 with the object 0 free, and a slab at 12288 with none.
abbrev half_used : Slab
half_used = record {
  page = 8192;
  free_obj_count = 1;
  first_free_index = 0;
  objects = free_slab_object_init uint32_max ∷ zero_free_object ∷ zero_free_object ∷ [];
}

abbrev all_used : Slab
all_used = record {
  page = 12288;
  free_obj_count = 0;
  first_free_index = uint32_max;
  objects = zero_free_object ∷ zero_free_object ∷ zero_free_object ∷ [];
}

abbrev two_slabs : SlabAllocator
two_slabs = record blank {
  free_slab_head_list = half_used ∷ [];
  full_slabs = all_used ∷ [];
  free_obj_count = 1;
  slab_count = 2;
}

abbrev two_slabs_pool : Pool
two_slabs_pool = record { open_slabs = (8192, 0, []) ∷ []; full = 12288 ∷ [] }

two_slabs-Keeps : Keeps two_slabs two_slabs_pool
unfolding AreOpen AreFull total Chain NotIn
two_slabs-Keeps = record {
  fits = blank-Fits;
  listed = (
    refl,
    record {
      chain = (refl, omega arith, tt, uint32_max, refl, refl);
      counted = refl;
      sized = refl;
    },
    tt,
  );
  unlisted = (refl, record { chain = refl; counted = refl; sized = refl }, tt);
  free_objects = refl;
  slabs = refl;
}

slab_alloc-Matches_example :
    Matches (slab_alloc blank (some 4096 ∷ [])) (pool_alloc 3 no_slabs (some 4096 ∷ []))
slab_alloc-Matches_example = slab_alloc-Matches blank no_slabs (some 4096 ∷ []) blank-Keeps

has_12288 : has_page 12288 (12288 ∷ []) ≡ true
unfolding has_page
has_12288 = refl

slab_free-full_example :
    (a' : SlabAllocator) × (slab_free two_slabs 12288 (2 * 1024) ≡ ok (a', none))
    × Keeps a' (record {
      open_slabs = (12288, 2, []) ∷ (8192, 0, []) ∷ [];
      full = drop_page 12288 (12288 ∷ []);
    })
slab_free-full_example =
    slab_free-full two_slabs two_slabs_pool 12288 2 two_slabs-Keeps has_12288 (omega arith)

no_8192 : has_page 8192 (12288 ∷ []) ≡ false
unfolding has_page
no_8192 = refl

found_8192 : find_open 8192 ((8192, 0, []) ∷ []) ≡ some (0, [])
unfolding find_open
found_8192 = refl

one-NotIn : NotIn 1 (0 ∷ [])
unfolding NotIn
one-NotIn = (omega arith, tt)

slab_free-listed_example :
    (a' : SlabAllocator) × (slab_free two_slabs 8192 (1 * 1024)
      ≡ ok (a', (if 2 == 3 then some 8192 else none)))
    × Keeps a' (record {
      open_slabs =
          if 2 == 3
          then drop_open 8192 ((8192, 0, []) ∷ [])
          else push_open 8192 1 ((8192, 0, []) ∷ []);
      full = 12288 ∷ [];
    })
slab_free-listed_example =
    slab_free-listed two_slabs two_slabs_pool 8192 1 0 [] two_slabs-Keeps no_8192 found_8192
      one-NotIn (omega arith)

-- The first object of a new slab.
first_object : (slab_alloc blank (some 4096 ∷ []) >>= λ r. ok (r.0)) ≡ ok (some (4096, 0))
unfolding slab_alloc alloc_with alloc_slab_page new_slab init_objects alloc_from get_free_object
    check_mul_assert object_at free_slab_object_init verify_free_object index_in_bounds allocated
first_object = refl
