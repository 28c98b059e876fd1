-- ===== src/Kmalloc.antt =====
-- kernel/src/mm/kmalloc.c and kmalloc.h: blocks of memory from a table of slab allocators.
--
-- A pointer is the place of its slab's allocator in the table, which the code keeps in the slab's
-- head page, the address of the slab and the byte offset in it. A call that runs past the end of the
-- table is `panic`. `kmalloc_check_slabs`, which only verifies, and the log are left out, as is the
-- contents of blocks but for the copy that `krealloc` makes.
pub mod Sizes
pub mod Ready
pub mod Choice
use aphrodite.Base.{
  ℕ, zero, suc, ◌*◌, ltb, leb, ◌==◌, if◌then◌else◌, Bool, true, false, Option, none, some, List, [],
  ◌∷◌, Outcome, ok, panic, assert, ◌>>=◌, ◌>>◌,
}
use aphrodite.Slab.{SlabAllocator, Pages, slab_allocator_init, slab_alloc, slab_free}

abbrev pub kmalloc_max : ℕ
kmalloc_max = 12288

pub record Pointer : Type 0 where
  pub allocator : ℕ
  pub page : ℕ
  pub offset : ℕ

pub record Kmalloc : Type 0 where
  pub kmalloc_slabs : List SlabAllocator
  pub kmalloc_is_initialized : Bool

unfoldable pub kmalloc_initialized : Kmalloc → Bool
kmalloc_initialized st = st.kmalloc_is_initialized

-- The sizes that `kmalloc_init` asks for.
abbrev pub alloc_sizes : List ℕ
alloc_sizes =
    16 ∷ 32 ∷ 64 ∷ 96 ∷ 128 ∷ 192 ∷ 256 ∷ 384 ∷ 512 ∷ 768 ∷ 1024 ∷ 1536 ∷ 2048 ∷ 4096 ∷ 6102 ∷ 8192
    ∷ 12288 ∷ 16384 ∷ 32748 ∷ []

-- The uses of `SLAB_ALLOC_INIT`, in order, on the rest of the table.
unfoldable pub init_slabs : List ℕ → List SlabAllocator → Outcome (List SlabAllocator)
init_slabs [] slabs = ok slabs
init_slabs (size ∷ sizes) [] = panic
init_slabs (size ∷ sizes) (a ∷ slabs) = do
  (done, a') ← slab_allocator_init a size
  assert done
  rest ← init_slabs sizes slabs
  ok (a' ∷ rest)

unfoldable pub kmalloc_init : Kmalloc → Outcome Kmalloc
kmalloc_init st = do
  slabs ← init_slabs alloc_sizes st.kmalloc_slabs
  ok (record { kmalloc_slabs = slabs; kmalloc_is_initialized = true })

-- An allocation from the table: the pointer, the object size of the allocator that it is from, the
-- table and the page allocator's later answers.
abbrev pub Answer : Type 0
Answer = Option Pointer × ℕ × List SlabAllocator × Pages

-- The object that the first allocator of a rest of the table has given.
unfoldable pub at_front : ℕ → Option (ℕ × ℕ) → Option Pointer
at_front object_size none = none
at_front object_size (some (page, index)) =
    some (record { allocator = 0; page = page; offset = index * object_size })

-- The same answer, one allocator further on in the table.
unfoldable pub one_later : Option Pointer → Option Pointer
one_later none = none
one_later (some p) = some (record p { allocator = suc p.allocator })

-- The loop over the table, and `slab_alloc` of the allocator where it ends.
unfoldable pub alloc_first : ℕ → List SlabAllocator → Pages → Outcome Answer
alloc_first size [] pages = panic
alloc_first size (a ∷ slabs) pages =
    let later = alloc_first size slabs pages in
    if ltb a.object_size size
    then (later >>= λ (p, object_size, slabs', rest).
        ok (one_later p, object_size, a ∷ slabs', rest))
    else (slab_alloc a pages >>= λ (object, a', rest).
        ok (at_front a.object_size object, a.object_size, a' ∷ slabs, rest))

-- `kmalloc_size` writes the object size to `*size_out` where the result is not null.
unfoldable pub kmalloc_size : Kmalloc → ℕ → Pages → Outcome (Option Pointer × ℕ × Kmalloc × Pages)
kmalloc_size st size pages = do
  assert (kmalloc_initialized st)
  if size == 0
      then ok (none, 0, st, pages)
      else if ltb kmalloc_max size
      then ok (none, 0, st, pages)
      else (alloc_first size st.kmalloc_slabs pages >>= λ (p, object_size, slabs, rest).
          ok (p, object_size, record st { kmalloc_slabs = slabs }, rest))

unfoldable pub kmalloc : Kmalloc → ℕ → Pages → Outcome (Option Pointer × Kmalloc × Pages)
kmalloc st size pages = do
  assert (kmalloc_initialized st)
  if size == 0
      then ok (none, st, pages)
      else if ltb kmalloc_max size
      then ok (none, st, pages)
      else (alloc_first size st.kmalloc_slabs pages >>= λ (p, object_size, slabs, rest).
          ok (p, record st { kmalloc_slabs = slabs }, rest))

-- `slab_free` by the allocator of the pointer's slab, and the page that it gives back.
unfoldable pub free_at : ℕ → List SlabAllocator → ℕ → ℕ → Outcome (List SlabAllocator × Option ℕ)
free_at i [] page offset = panic
free_at zero (a ∷ slabs) page offset =
    slab_free a page offset >>= λ (a', given_back). ok (a' ∷ slabs, given_back)
free_at (suc i) (a ∷ slabs) page offset =
    free_at i slabs page offset >>= λ (slabs', given_back). ok (a ∷ slabs', given_back)

unfoldable pub kfree : Kmalloc → Pointer → Outcome (Kmalloc × Option ℕ)
kfree st p = do
  assert (kmalloc_initialized st)
  (slabs, given_back) ← free_at p.allocator st.kmalloc_slabs p.page p.offset
  ok (record st { kmalloc_slabs = slabs }, given_back)

-- `slab_object_size`
unfoldable pub object_size_at : ℕ → List SlabAllocator → Outcome ℕ
object_size_at i [] = panic
object_size_at zero (a ∷ slabs) = ok a.object_size
object_size_at (suc i) (a ∷ slabs) = object_size_at i slabs

-- The result of `krealloc`, with the number of bytes that it copied from the old block.
pub record Reallocated : Type 0 where
  pub pointer : Option Pointer
  pub copied : ℕ
  pub state : Kmalloc
  pub pages : Pages
  pub given_back : Option ℕ

-- `krealloc` of a block after the call of `kmalloc`: the copy and the release.
unfoldable pub move_block : Pointer → ℕ → Option Pointer × Kmalloc × Pages → Outcome Reallocated
move_block buffer buffer_size (none, st, pages) =
    ok (record { pointer = none; copied = 0; state = st; pages = pages; given_back = none })
move_block buffer buffer_size (some ret, st, pages) = do
  (st', given_back) ← kfree st buffer
  ok (record {
    pointer = some ret;
    copied = buffer_size;
    state = st';
    pages = pages;
    given_back = given_back;
  })

unfoldable pub krealloc : Kmalloc → Option Pointer → ℕ → Pages → Outcome Reallocated
krealloc st none size pages = do
  assert (kmalloc_initialized st)
  (p, st', rest) ← if size == 0 then ok (none, st, pages) else kmalloc st size pages
  ok (record { pointer = p; copied = 0; state = st'; pages = rest; given_back = none })
krealloc st (some buffer) size pages = do
  assert (kmalloc_initialized st)
  if size == 0
      then (kfree st buffer >>= λ (st', given_back). ok (record {
        pointer = none;
        copied = 0;
        state = st';
        pages = pages;
        given_back = given_back;
      }))
      else (object_size_at buffer.allocator st.kmalloc_slabs >>= λ buffer_size.
          if leb size buffer_size
          then ok (record {
            pointer = some buffer;
            copied = 0;
            state = st;
            pages = pages;
            given_back = none;
          })
          else (kmalloc st size pages >>= λ r. move_block buffer buffer_size r))
