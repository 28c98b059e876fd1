-- ===== src/Kmalloc/Choice.antt =====
-- The allocator that kernel/src/mm/kmalloc.c chooses for a size.
use aphrodite.Base.{
  ℕ, suc, ◌*◌, ◌≤◌, ◌<◌, ◌≡◌, ◌⊎◌, inl, inr, refl, sym, ap, ◌∙◌, arith, ltb, ◌==◌, true, false,
  dec_lt, Option, none, some, List, [], ◌∷◌, ◌++◌, length, Outcome, ok, ◌>>=◌,
}
use aphrodite.Arith.Align.{IsLeastAbove}
use aphrodite.Slab.{SlabAllocator, Pages, slab_alloc}
use aphrodite.Slab.Pool.{Pool, pool_alloc}
use aphrodite.Slab.Refine.{Keeps, Matches, slab_alloc-Matches}
use mathlib.Core.Path.{subst}
use aphrodite.Kmalloc.Sizes.{IsSizedAnswer, slab_alloc-IsSized}
use aphrodite.Kmalloc.Ready.{AreReady}
use aphrodite.Kmalloc.{
  Kmalloc, Pointer, Answer, alloc_sizes, kmalloc_max, at_front, one_later, alloc_first, kmalloc,
  kmalloc_size, kmalloc_initialized,
}

-- All of these allocators have objects too small for a size.
unfoldable pub TooSmall : ℕ → List SlabAllocator → Type 0
TooSmall size [] = Unit
TooSmall size (a ∷ slabs) = (a.object_size < size) × TooSmall size slabs

-- The pointer to an object of the allocator that has so many before it.
unfoldable pub pointer_to : ℕ → ℕ → Option (ℕ × ℕ) → Option Pointer
pointer_to i object_size none = none
pointer_to i object_size (some (page, index)) =
    some (record { allocator = i; page = page; offset = index * object_size })

-- An allocation that is one from the pool of the first allocator with objects large enough.
pub record Chosen (size : ℕ) (sizes : List ℕ) (slabs : List SlabAllocator) (pools : List Pool)
    (pages : Pages) (r : Outcome Answer) : Type 0 where
  pub before : List SlabAllocator
  pub chosen : SlabAllocator
  pub after : List SlabAllocator
  pub pools_before : List Pool
  pub pool : Pool
  pub pools_after : List Pool
  pub table : slabs ≡ before ++ (chosen ∷ after)
  pub pool_table : pools ≡ pools_before ++ (pool ∷ pools_after)
  pub same_place : length before ≡ length pools_before
  pub too_small : TooSmall size before
  pub enough : size ≤ chosen.object_size
  pub left : SlabAllocator
  pub answer :
      r
      ≡ ok (
        pointer_to
            (length before)
            chosen.object_size
            ((pool_alloc chosen.object_count_per_slab pool pages).0),
        chosen.object_size,
        before ++ (left ∷ after),
        (pool_alloc chosen.object_count_per_slab pool pages).2,
      )
  pub ready :
      AreReady sizes
        (before ++ (left ∷ after))
        (pools_before ++ ((pool_alloc chosen.object_count_per_slab pool pages).1 ∷ pools_after))

-- The table has a size that is large enough.
unfoldable pub Reaches : ℕ → List ℕ → Type 0
Reaches size [] = ⊥
Reaches size (s ∷ sizes) = (size ≤ s) ⊎ Reaches size sizes

front-pointer : (size : ℕ) (o : Option (ℕ × ℕ)) → at_front size o ≡ pointer_to 0 size o
unfolding at_front pointer_to
front-pointer size none = refl
front-pointer size (some (page, index)) = refl

later-pointer :
    (i size : ℕ) (o : Option (ℕ × ℕ)) → one_later (pointer_to i size o) ≡ pointer_to (suc i) size o
unfolding one_later pointer_to
later-pointer i size none = refl
later-pointer i size (some (page, index)) = refl

front-Chosen :
    (size s : ℕ) (sizes : List ℕ) (a : SlabAllocator) (slabs : List SlabAllocator) (v : Pool)
    (pools : List Pool) (pages : Pages)
    → size ≤ a.object_size
    → IsLeastAbove s 16 a.object_size
    → Keeps a v
    → AreReady sizes slabs pools
    → Chosen size (s ∷ sizes) (a ∷ slabs) (v ∷ pools) pages (
        slab_alloc a pages >>= λ (object, a', rest).
        ok (at_front a.object_size object, a.object_size, a' ∷ slabs, rest))
unfolding Matches AreReady TooSmall
front-Chosen size s sizes a slabs v pools pages large least k ready =
    let g = pool_alloc a.object_count_per_slab v pages in
    let (a', e, k') = slab_alloc-Matches a v pages k in
    let sized : a'.object_size ≡ a.object_size =
      subst (IsSizedAnswer a.object_size) e (slab_alloc-IsSized a pages) in
    record {
      before = [];
      chosen = a;
      after = slabs;
      pools_before = [];
      pool = v;
      pools_after = pools;
      table = refl;
      pool_table = refl;
      same_place = refl;
      too_small = tt;
      enough = large;
      left = a';
      answer =
          ap
            (λ m. m >>= λ (object, a', rest).
              ok (at_front a.object_size object, a.object_size, a' ∷ slabs, rest))
            e
          ∙ ap (λ p. ok (p, a.object_size, a' ∷ slabs, g.2)) (front-pointer a.object_size (g.0));
      ready = (subst (λ n. IsLeastAbove s 16 n) (sym sized) least, k', ready);
    }

later-Chosen :
    (size s : ℕ) (sizes : List ℕ) (a : SlabAllocator) (slabs : List SlabAllocator) (v : Pool)
    (pools : List Pool) (pages : Pages) (r : Outcome Answer)
    → a.object_size < size
    → IsLeastAbove s 16 a.object_size
    → Keeps a v
    → Chosen size sizes slabs pools pages r
    → Chosen size
        (s ∷ sizes)
        (a ∷ slabs)
        (v ∷ pools)
        pages
        (r >>= λ (p, object_size, slabs', rest). ok (one_later p, object_size, a ∷ slabs', rest))
unfolding AreReady TooSmall
later-Chosen size s sizes a slabs v pools pages r small least k c =
    let g = pool_alloc c.chosen.object_count_per_slab c.pool pages in
    record {
      before = a ∷ c.before;
      chosen = c.chosen;
      after = c.after;
      pools_before = v ∷ c.pools_before;
      pool = c.pool;
      pools_after = c.pools_after;
      table = ap (λ x. a ∷ x) c.table;
      pool_table = ap (λ x. v ∷ x) c.pool_table;
      same_place = ap suc c.same_place;
      too_small = (small, c.too_small);
      enough = c.enough;
      left = c.left;
      answer =
          ap
            (λ m. m >>= λ (p, object_size, slabs', rest).
              ok (one_later p, object_size, a ∷ slabs', rest))
            c.answer
          ∙ ap (λ p. ok (p, c.chosen.object_size, a ∷ (c.before ++ (c.left ∷ c.after)), g.2))
              (later-pointer (length c.before) c.chosen.object_size (g.0));
      ready = (least, k, c.ready);
    }

alloc_first-Chosen :
    (size : ℕ) (sizes : List ℕ) (slabs : List SlabAllocator) (pools : List Pool) (pages : Pages)
    → Reaches size sizes
    → AreReady sizes slabs pools
    → Chosen size sizes slabs pools pages (alloc_first size slabs pages)
unfolding alloc_first AreReady Reaches
alloc_first-Chosen size [] slabs pools pages reach ready = absurd reach
alloc_first-Chosen size (s ∷ sizes) [] pools pages reach ready = absurd ready
alloc_first-Chosen size (s ∷ sizes) (a ∷ slabs) [] pages reach ready = absurd ready
alloc_first-Chosen size (s ∷ sizes) (a ∷ slabs) (v ∷ pools) pages reach (least, k, ready) =
    elim (dec_lt a.object_size size) [
      | yes small ↦
          let more : Reaches size sizes = elim reach [
            | inl h ↦ absurd (omega (arith, h, small, least.1))
            | inr h ↦ h
          ] in
          let test : ltb a.object_size size ≡ true = ground arith in
          rw test (
            later-Chosen size s sizes a slabs v pools pages (alloc_first size slabs pages) small
              least k (alloc_first-Chosen size sizes slabs pools pages more ready))
      | no large ↦
          let test : ltb a.object_size size ≡ false = ground arith in
          rw test
            (front-Chosen size s sizes a slabs v pools pages (omega (arith, large)) least k ready)
    ]

max_Reaches : (size : ℕ) → size ≤ kmalloc_max → Reaches size alloc_sizes
unfolding Reaches
max_Reaches size h = ground arith

-- With the table set up, for a size from 1 to KMALLOC_MAX the loops of `kmalloc` and `kmalloc_size`
-- end inside the table, at the first allocator whose objects are large enough; the result is the
-- object that the pool of this allocator gives out, null exactly if there is no page for it, and
-- `kmalloc_size` tells the allocator's object size. Nothing panics and the table stays set up.
pub kmalloc-Chosen :
    (st : Kmalloc) (pools : List Pool) (size : ℕ) (pages : Pages)
    → kmalloc_initialized st ≡ true
    → AreReady alloc_sizes st.kmalloc_slabs pools
    → 0 < size
    → size ≤ kmalloc_max
    → (r : Option Pointer × ℕ × Kmalloc × Pages) × (kmalloc_size st size pages ≡ ok r)
      × (kmalloc st size pages ≡ ok (r.0, r.2, r.3))
      × (kmalloc_initialized (r.2) ≡ true)
      × Chosen size alloc_sizes st.kmalloc_slabs pools pages
          (ok (r.0, r.1, (r.2).kmalloc_slabs, r.3))
unfolding kmalloc_size kmalloc kmalloc_initialized
kmalloc-Chosen st pools size pages started ready pos small =
    let c =
      alloc_first-Chosen size alloc_sizes st.kmalloc_slabs pools pages (max_Reaches size small)
        ready in
    let nonzero : (size == 0) ≡ false = ground arith in
    let fits : ltb kmalloc_max size ≡ false = ground arith in
    let g = pool_alloc c.chosen.object_count_per_slab c.pool pages in
    let p = pointer_to (length c.before) c.chosen.object_size (g.0) in
    let slabs = c.before ++ (c.left ∷ c.after) in
    (
      (p, c.chosen.object_size, record st { kmalloc_slabs = slabs }, g.2),
      rw (started, nonzero, fits, c.answer) refl,
      rw (started, nonzero, fits, c.answer) refl,
      started,
      subst (λ r. Chosen size alloc_sizes st.kmalloc_slabs pools pages r) c.answer c,
    )
