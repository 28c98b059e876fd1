-- ===== src/Slab/Free.antt =====
-- `slab_free` of kernel/src/mm/slab.c refines the return of an object to a pool.
use aphrodite.Base.{
  ℕ, suc, ◌+◌, ◌*◌, ◌≡◌, ◌∙◌, ◌<◌, refl, ap, arith, true, false, none, some, List, [], ◌∷◌, length,
  ok, u32, ◌==◌, Bool-cases, inl, inr,
}
use native.Mathlib.Nat.{mul-div_cancel}
use aphrodite.Base.Distinct.{NotIn}
use aphrodite.Slab.{
  Slab, SlabAllocator, find_slab, remove_slab, put_object, free_full, index_of_free_object,
  slab_free,
}
use aphrodite.Slab.Chain.{IsSlab, put_object-IsSlab, put_object-page}
use aphrodite.Slab.Pool.{Pool, total, has_page, drop_page}
use aphrodite.Slab.Refine.{AreOpen, AreFull, Keeps}

-- A full slab found by its page.
full-found :
    (n page : ℕ) (slabs : List Slab) (pages : List ℕ)
    → AreFull n slabs pages
    → has_page page pages ≡ true
    → (s : Slab) × (find_slab page slabs ≡ some s) × (s.page ≡ page) × IsSlab n [] s
unfolding AreFull has_page find_slab
full-found n page [] [] h found = cc
full-found n page [] (p ∷ ps) h found = absurd h
full-found n page (s ∷ slabs) [] h found = absurd h
full-found n page (s ∷ slabs) (p ∷ ps) (e, t, h) found = elim (Bool-cases (p == page)) [
  | inl same ↦ (s, rw (e, same) refl, ground arith, t)
  | inr other ↦
      let (s', f, q, t') = full-found n page slabs ps h (ground arith) in
      (s', rw (e, other) f, q, t')
]

pub full-missing :
    (n page : ℕ) (slabs : List Slab) (pages : List ℕ)
    → AreFull n slabs pages
    → has_page page pages ≡ false
    → find_slab page slabs ≡ none
unfolding AreFull has_page find_slab
full-missing n page [] [] h missing = refl
full-missing n page [] (p ∷ ps) h missing = absurd h
full-missing n page (s ∷ slabs) [] h missing = absurd h
full-missing n page (s ∷ slabs) (p ∷ ps) (e, t, h) missing = elim (Bool-cases (p == page)) [
  | inl same ↦ ground arith
  | inr other ↦ rw (e, other) (full-missing n page slabs ps h (ground arith))
]

remove_slab-AreFull :
    (n page : ℕ) (slabs : List Slab) (pages : List ℕ)
    → AreFull n slabs pages
    → AreFull n (remove_slab page slabs) (drop_page page pages)
unfolding AreFull remove_slab drop_page
remove_slab-AreFull n page [] [] h = tt
remove_slab-AreFull n page [] (p ∷ ps) h = absurd h
remove_slab-AreFull n page (s ∷ slabs) [] h = absurd h
remove_slab-AreFull n page (s ∷ slabs) (p ∷ ps) (e, t, h) =
    let test : (s.page == page) ≡ (p == page) = ap (λ q. q == page) e in
    elim (Bool-cases (p == page)) [
      | inl same ↦ rw (test ∙ same, same) h
      | inr other ↦ rw (test ∙ other, other) (e, t, remove_slab-AreFull n page slabs ps h)
    ]

length-drop_page :
    (page : ℕ) (pages : List ℕ)
    → has_page page pages ≡ true
    → suc (length (drop_page page pages)) ≡ length pages
unfolding has_page drop_page
length-drop_page page [] found = cc
length-drop_page page (p ∷ ps) found = ground (arith, length-drop_page page ps)

pub index_of_object :
    (a : SlabAllocator) (i : ℕ)
    → 0 < a.object_size
    → index_of_free_object a (i * a.object_size) ≡ ok i
unfolding index_of_free_object
index_of_object a i pos = grind (arith, mul-div_cancel i pos)

-- The result of `free_full` for a slab that had no free object.
abbrev reopened : SlabAllocator → Slab → ℕ → SlabAllocator
reopened a s i = record a {
  free_obj_count = u32 (a.free_obj_count + 1);
  free_slab_head_list = put_object s i ∷ a.free_slab_head_list;
  full_slabs = remove_slab s.page a.full_slabs;
}

free_full-eq :
    (a : SlabAllocator) (s : Slab) (i : ℕ)
    → s.free_obj_count ≡ 0
    → free_full a s i ≡ ok (reopened a s i, none)
unfolding free_full
free_full-eq a s i e = rw e refl

-- An object of a slab with no free object: `slab_free` succeeds, gives no pages back, and puts the
-- slab in front of the list with that object as its one free object.
pub slab_free-full :
    (a : SlabAllocator) (v : Pool) (page i : ℕ)
    → Keeps a v
    → has_page page v.full ≡ true
    → i < a.object_count_per_slab
    → (a' : SlabAllocator) × (slab_free a page (i * a.object_size) ≡ ok (a', none))
      × Keeps a'
          (record { open_slabs = (page, i, []) ∷ v.open_slabs; full = drop_page page v.full })
unfolding slab_free AreOpen NotIn total
slab_free-full a v page i k inside small =
    let n = a.object_count_per_slab in
    let (s, found, p, t) = full-found n page a.full_slabs v.full k.unlisted inside in
    let counted = k.free_objects in
    let slabs = k.slabs in
    let put = put_object-IsSlab a s i [] k.fits small tt t in
    (
      reopened a s i,
      rw (index_of_object a i k.fits.some_size, found) (free_full-eq a s i t.counted),
      record {
        fits = k.fits;
        listed = (put_object-page s i ∙ p, put, k.listed);
        unlisted = rw p (remove_slab-AreFull n page a.full_slabs v.full k.unlisted);
        free_objects = omega arith;
        slabs = omega (arith, length-drop_page page v.full inside);
      },
    )
