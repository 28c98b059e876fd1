-- ===== src/Slab.antt =====
-- kernel/src/mm/slab.c and slab.h: allocators of objects of one size.
--
-- A slab is a run of pages cut into objects, named by the address of its first page, and an object
-- is its slab and its index. Of an object's memory only the words of `free_slab_object` are kept.
-- `free_slab_head_list` is the list of the slabs with a free object, front first; the slabs on no
-- list are `full_slabs`, which the code reaches only from the address of an object. `Outcome.panic`
-- is a failed assertion or the use of a null pointer. The spinlock around each operation is
-- left out, as are the statistics' flags. Pages come from the page allocator, whose answers, the
-- address of a first page or `none`, are the list `Pages`.
pub mod Chain
pub mod Pool
pub mod Refine
pub mod Free
pub mod Return
pub mod Setup
pub mod Offset
use aphrodite.Base.{
  ℕ, zero, suc, ◌+◌, ◌-◌, ◌*◌, ◌/◌, ◌^◌, ltb, ◌==◌, if◌then◌else◌, Bool, true, false, not, ◌||◌,
  Option, none, some, List, [], ◌∷◌, get_elem?, set, Outcome, ok, panic, assert, ◌>>=◌, ◌>>◌, u32,
  sub32,
}
use aphrodite.Arith.{align_up, index_in_bounds, check_mul_assert}

abbrev pub uint32_max : ℕ
uint32_max = 2 ^ 32 - 1

abbrev pub page_size : ℕ
page_size = 4096

abbrev pub free_slab_header : ℕ
free_slab_header = 0xcafefeed

abbrev pub free_slab_footer : ℕ
free_slab_footer = 0xfeedcafe

pub record FreeObject : Type 0 where
  pub header : ℕ
  pub next : ℕ
  pub footer : ℕ

-- `FREE_SLAB_OBJECT_INIT`
unfoldable pub free_slab_object_init : ℕ → FreeObject
free_slab_object_init next = record {
  header = free_slab_header;
  next = next;
  footer = free_slab_footer;
}

unfoldable pub zero_free_object : FreeObject
zero_free_object = record { header = 0; next = 0; footer = 0 }

-- The head page of a slab, with the memory behind it.
pub record Slab : Type 0 where
  pub page : ℕ
  pub free_obj_count : ℕ
  pub first_free_index : ℕ
  pub objects : List FreeObject

pub record SlabAllocator : Type 0 where
  pub free_slab_head_list : List Slab
  pub full_slabs : List Slab
  pub object_size : ℕ
  pub object_count_per_slab : ℕ
  pub slab_order : ℕ
  pub free_obj_count : ℕ
  pub slab_count : ℕ

abbrev pub Pages : Type 0
Pages = List (Option ℕ)

-- The loop over `order`; 21 tries reach 2^32.
unfoldable pub find_order : ℕ → ℕ → ℕ → ℕ
find_order zero order size = order
find_order (suc tries) order size =
    if ltb (page_size * 2 ^ order) size then find_order tries (suc order) size else order

-- `slab_allocator_init` from the aligned size on. `slab_count` keeps its value.
unfoldable pub init_aligned : SlabAllocator → ℕ → Outcome (Bool × SlabAllocator)
init_aligned a object_size =
    if ltb uint32_max object_size
    then ok (false, a)
    else (let order = find_order 21 0 object_size in
        if object_size == 0
        then panic
        else ok (
          true,
          record a {
            free_slab_head_list = [];
            object_size = object_size;
            object_count_per_slab = u32 (page_size * 2 ^ order / object_size);
            slab_order = order;
            free_obj_count = 0;
          },
        ))

unfoldable pub slab_allocator_init : SlabAllocator → ℕ → Outcome (Bool × SlabAllocator)
slab_allocator_init a object_size_arg = align_up object_size_arg 16 >>= λ aligned. elim aligned [
  | none ↦ ok (false, a)
  | some size ↦ init_aligned a size
]

-- The loop of `alloc_slab_page`, with the number of objects still to come after this one.
unfoldable pub init_objects : ℕ → ℕ → List FreeObject
init_objects i zero = free_slab_object_init uint32_max ∷ []
init_objects i (suc more) = free_slab_object_init (i + 1) ∷ init_objects (i + 1) more

unfoldable pub new_slab : SlabAllocator → ℕ → Slab
new_slab a page = record {
  page = page;
  free_obj_count = a.object_count_per_slab;
  first_free_index = 0;
  objects = init_objects 0 (sub32 a.object_count_per_slab 1);
}

-- `alloc_slab_page` with the page that `alloc_pages` gave.
unfoldable pub alloc_slab_page : SlabAllocator → ℕ → SlabAllocator
alloc_slab_page a page = record a {
  free_slab_head_list = new_slab a page ∷ a.free_slab_head_list;
  slab_count = u32 (a.slab_count + 1);
  free_obj_count = u32 (a.free_obj_count + a.object_count_per_slab);
}

unfoldable pub verify_free_object : FreeObject → SlabAllocator → Outcome FreeObject
verify_free_object object a = do
  assert (object.header == free_slab_header)
  assert (object.footer == free_slab_footer)
  assert (object.next == uint32_max || index_in_bounds object.next a.object_count_per_slab)
  ok object

-- The words at an object's index; outside the slab there is nothing to read.
unfoldable pub object_at : Slab → ℕ → Outcome FreeObject
object_at s i = elim (get_elem? s.objects i) [ none ↦ panic | some object ↦ ok object ]

unfoldable pub get_free_object : Slab → SlabAllocator → Outcome FreeObject
get_free_object s a = do
  assert (not (s.first_free_index == uint32_max))
  _ ← check_mul_assert s.first_free_index a.object_size
  object ← object_at s s.first_free_index
  verify_free_object object a

-- Taking the first free object off a slab, whose words are then cleared.
unfoldable pub take_object : Slab → FreeObject → Slab
take_object s object = record s {
  free_obj_count = sub32 s.free_obj_count 1;
  first_free_index = object.next;
  objects = set s.objects s.first_free_index zero_free_object;
}

-- A slab that is now without a free object leaves the list.
unfoldable pub relist : SlabAllocator → Slab → List Slab → SlabAllocator
relist a s rest =
    if s.free_obj_count == 0
    then record a {
      free_obj_count = sub32 a.free_obj_count 1;
      free_slab_head_list = rest;
      full_slabs = s ∷ a.full_slabs;
    }
    else record a { free_obj_count = sub32 a.free_obj_count 1; free_slab_head_list = s ∷ rest }

-- `slab_alloc` from the choice of the first slab of the list on.
unfoldable pub alloc_from : SlabAllocator → List Slab → Outcome ((ℕ × ℕ) × SlabAllocator)
alloc_from a [] = panic
alloc_from a (s ∷ rest) = do
  object ← get_free_object s a
  ok ((s.page, s.first_free_index), relist a (take_object s object) rest)

abbrev pub Allocated : Type 0
Allocated = Option (ℕ × ℕ) × SlabAllocator × Pages

unfoldable pub allocated : Pages → (ℕ × ℕ) × SlabAllocator → Allocated
allocated pages r = (some (r.0), r.1, pages)

-- `slab_alloc` with the list it finds: an empty list is given a new slab, if there are pages.
unfoldable pub alloc_with : SlabAllocator → List Slab → Pages → Outcome Allocated
alloc_with a (s ∷ rest) pages = alloc_from a (s ∷ rest) >>= λ r. ok (allocated pages r)
alloc_with a [] [] = ok (none, a, [])
alloc_with a [] (none ∷ later) = ok (none, a, later)
alloc_with a [] (some page ∷ later) =
    let grown = alloc_slab_page a page in
    alloc_from grown grown.free_slab_head_list >>= λ r. ok (allocated later r)

unfoldable pub slab_alloc : SlabAllocator → Pages → Outcome Allocated
slab_alloc a pages = alloc_with a a.free_slab_head_list pages

-- `slab_alloc2` gives the slab and the byte offset of the object, and does not verify the object.
unfoldable pub alloc_from2 : SlabAllocator → List Slab → Outcome ((ℕ × ℕ) × SlabAllocator)
alloc_from2 a [] = panic
alloc_from2 a (s ∷ rest) = do
  offset ← check_mul_assert s.first_free_index a.object_size
  object ← object_at s s.first_free_index
  ok ((s.page, offset), relist a (take_object s object) rest)

unfoldable pub alloc_with2 : SlabAllocator → List Slab → Pages → Outcome Allocated
alloc_with2 a (s ∷ rest) pages = alloc_from2 a (s ∷ rest) >>= λ r. ok (allocated pages r)
alloc_with2 a [] [] = ok (none, a, [])
alloc_with2 a [] (none ∷ later) = ok (none, a, later)
alloc_with2 a [] (some page ∷ later) =
    let grown = alloc_slab_page a page in
    alloc_from2 grown grown.free_slab_head_list >>= λ r. ok (allocated later r)

unfoldable pub slab_alloc2 : SlabAllocator → Pages → Outcome Allocated
slab_alloc2 a pages = alloc_with2 a a.free_slab_head_list pages

-- The slab of a page on a list of slabs, and that list without it or with another in its place.
unfoldable pub find_slab : ℕ → List Slab → Option Slab
find_slab page [] = none
find_slab page (s ∷ slabs) = if s.page == page then some s else find_slab page slabs

unfoldable pub remove_slab : ℕ → List Slab → List Slab
remove_slab page [] = []
remove_slab page (s ∷ slabs) = if s.page == page then slabs else s ∷ remove_slab page slabs

unfoldable pub replace_slab : Slab → List Slab → List Slab
replace_slab new [] = []
replace_slab new (s ∷ slabs) =
    if s.page == new.page then new ∷ slabs else s ∷ replace_slab new slabs

unfoldable pub index_of_free_object : SlabAllocator → ℕ → Outcome ℕ
index_of_free_object a offset = if a.object_size == 0 then panic else ok (offset / a.object_size)

-- The end of `slab_free`: the object becomes the first free one of its slab.
unfoldable pub put_object : Slab → ℕ → Slab
put_object s index = record s {
  free_obj_count = u32 (s.free_obj_count + 1);
  first_free_index = index;
  objects = set s.objects index (free_slab_object_init s.first_free_index);
}

-- `slab_free` of an object of a slab on no list. A slab that was full goes to the front of the list.
-- A slab with more free objects is on the list; its links are null here, so that the removal of
-- a slab that is all free stops.
unfoldable pub free_full : SlabAllocator → Slab → ℕ → Outcome (SlabAllocator × Option ℕ)
free_full a s index =
    let count = u32 (s.free_obj_count + 1) in
    let total = u32 (a.free_obj_count + 1) in
    if count == 1
    then ok (
      record a {
        free_obj_count = total;
        free_slab_head_list = put_object s index ∷ a.free_slab_head_list;
        full_slabs = remove_slab s.page a.full_slabs;
      },
      none,
    )
    else if count == a.object_count_per_slab
    then panic
    else ok (
      record a {
        free_obj_count = total;
        full_slabs = replace_slab (put_object s index) a.full_slabs;
      },
      none,
    )

-- `slab_free` of an object of a slab on the list. Where all objects are now free, the slab leaves the
-- list and its pages go back to the page allocator, by the second result. A slab that is added
-- to the list while it is on it spoils the list's links, which has no model.
unfoldable pub free_listed : SlabAllocator → Slab → ℕ → Outcome (SlabAllocator × Option ℕ)
free_listed a s index =
    let count = u32 (s.free_obj_count + 1) in
    let total = u32 (a.free_obj_count + 1) in
    if count == 1
    then panic
    else if count == a.object_count_per_slab
    then ok (
      record a {
        free_obj_count = sub32 total a.object_count_per_slab;
        slab_count = sub32 a.slab_count 1;
        free_slab_head_list = remove_slab s.page a.free_slab_head_list;
      },
      some s.page,
    )
    else ok (
      record a {
        free_obj_count = total;
        free_slab_head_list = replace_slab (put_object s index) a.free_slab_head_list;
      },
      none,
    )

-- `slab_free` of the object at a byte offset in the slab that begins at a page.
unfoldable pub slab_free : SlabAllocator → ℕ → ℕ → Outcome (SlabAllocator × Option ℕ)
slab_free a page offset = do
  index ← index_of_free_object a offset
  elim (find_slab page a.full_slabs) [
    | some s ↦ free_full a s index
    | none ↦ elim (find_slab page a.free_slab_head_list) [
      | none ↦ panic
      | some s ↦ free_listed a s index
    ]
  ]
