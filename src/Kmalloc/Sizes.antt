-- ===== src/Kmalloc/Sizes.antt =====
-- `slab_alloc` of kernel/src/mm/slab.c leaves the size of an allocator's objects as it is.
use aphrodite.Base.{
  ℕ, ◌≡◌, refl, none, some, List, [], ◌∷◌, Outcome, ok, panic, ◌>>=◌, Bool-cases, ◌==◌, inl, inr,
}
use aphrodite.Slab.{
  Slab, SlabAllocator, FreeObject, Pages, Allocated, relist, take_object, get_free_object,
  alloc_slab_page, alloc_from, alloc_with, allocated, slab_alloc,
}

abbrev IsSized : ℕ → Outcome ((ℕ × ℕ) × SlabAllocator) → Type 0
IsSized size panic = Unit
IsSized size (ok (_, a)) = a.object_size ≡ size

abbrev pub IsSizedAnswer : ℕ → Outcome Allocated → Type 0
IsSizedAnswer size panic = Unit
IsSizedAnswer size (ok (_, a, _)) = a.object_size ≡ size

relist-object_size :
    (a : SlabAllocator) (s : Slab) (rest : List Slab)
    → (relist a s rest).object_size ≡ a.object_size
unfolding relist
relist-object_size a s rest = elim (Bool-cases (s.free_obj_count == 0)) [
  | inl e ↦ rw e refl
  | inr e ↦ rw e refl
]

take-IsSized :
    (a : SlabAllocator) (s : Slab) (rest : List Slab) (m : Outcome FreeObject)
    → IsSized a.object_size
        (m >>= λ object. ok ((s.page, s.first_free_index), relist a (take_object s object) rest))
take-IsSized a s rest panic = tt
take-IsSized a s rest (ok object) = relist-object_size a (take_object s object) rest

alloc_from-IsSized :
    (a : SlabAllocator) (slabs : List Slab) → IsSized a.object_size (alloc_from a slabs)
unfolding alloc_from
alloc_from-IsSized a [] = tt
alloc_from-IsSized a (s ∷ rest) = take-IsSized a s rest (get_free_object s a)

answer-IsSized :
    (size : ℕ) (pages : Pages) (m : Outcome ((ℕ × ℕ) × SlabAllocator))
    → IsSized size m
    → IsSizedAnswer size (m >>= λ r. ok (allocated pages r))
unfolding allocated
answer-IsSized size pages panic h = tt
answer-IsSized size pages (ok (_, a)) h = h

alloc_with-IsSized :
    (a : SlabAllocator) (slabs : List Slab) (pages : Pages)
    → IsSizedAnswer a.object_size (alloc_with a slabs pages)
unfolding alloc_with alloc_slab_page
alloc_with-IsSized a (s ∷ rest) pages =
    answer-IsSized a.object_size pages (alloc_from a (s ∷ rest)) (alloc_from-IsSized a (s ∷ rest))
alloc_with-IsSized a [] [] = refl
alloc_with-IsSized a [] (none ∷ later) = refl
alloc_with-IsSized a [] (some page ∷ later) =
    let grown = alloc_slab_page a page in
    answer-IsSized a.object_size later (alloc_from grown grown.free_slab_head_list)
      (alloc_from-IsSized grown grown.free_slab_head_list)

pub slab_alloc-IsSized :
    (a : SlabAllocator) (pages : Pages) → IsSizedAnswer a.object_size (slab_alloc a pages)
unfolding slab_alloc
slab_alloc-IsSized a pages = alloc_with-IsSized a a.free_slab_head_list pages
