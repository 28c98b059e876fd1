-- ===== src/Slab/Chain.antt =====
-- kernel/src/mm/slab.c: the list of free objects that runs through a slab's memory.
use aphrodite.Base.{
  ℕ, zero, suc, ◌+◌, ◌-◌, ◌*◌, ◌^◌, ◌≡◌, ◌∙◌, ◌≢◌, ◌⊎◌, inl, inr, ◌<◌, ◌≤◌, refl, ap, sym, arith,
  some, List, [], ◌∷◌, get_elem?, set, length, length-set, ok, sub32,
}
use mathlib.Core.Path.{subst}
use aphrodite.Base.Distinct.{NotIn, Distinct, Below, length-Distinct}
use aphrodite.Arith.{check_mul_assert, index_in_bounds}
use aphrodite.Slab.{
  FreeObject, Slab, SlabAllocator, uint32_max, free_slab_object_init, zero_free_object,
  init_objects, new_slab, take_object, put_object, get_free_object, object_at, verify_free_object,
}

-- The free objects from an index on: each is marked, in bounds and names the next one, no object
-- comes twice, and the last names none.
unfoldable pub Chain : List FreeObject → ℕ → List ℕ → Type 0
Chain objects first [] = first ≡ uint32_max
Chain objects first (i ∷ free) =
    (first ≡ i)
    × (i < length objects)
    × NotIn i free
    × (next : ℕ) × (get_elem? objects i ≡ some (free_slab_object_init next))
    × Chain objects next free

get_elem?-set_ne :
    {A : Type 0} (xs : List A) (i j : ℕ) (x : A) → i ≢ j → get_elem? (set xs i x) j ≡ get_elem? xs j
get_elem?-set_ne [] i j x h = refl
get_elem?-set_ne (y ∷ ys) zero zero x h = absurd (h refl)
get_elem?-set_ne (y ∷ ys) zero (suc j) x h = refl
get_elem?-set_ne (y ∷ ys) (suc i) zero x h = refl
get_elem?-set_ne (y ∷ ys) (suc i) (suc j) x h = get_elem?-set_ne ys i j x (λ e. h (ap suc e))

get_elem?-set_self :
    {A : Type 0} (xs : List A) (i : ℕ) (x : A) → i < length xs → get_elem? (set xs i x) i ≡ some x
get_elem?-set_self [] i x h = elim h [ ]
get_elem?-set_self (y ∷ ys) zero x h = refl
get_elem?-set_self (y ∷ ys) (suc i) x h = get_elem?-set_self ys i x (omega arith)

-- A write to an object that is not free leaves the chain.
set-Chain :
    (objects : List FreeObject) (first : ℕ) (free : List ℕ) (i : ℕ) (object : FreeObject)
    → NotIn i free
    → Chain objects first free
    → Chain (set objects i object) first free
unfolding Chain NotIn
set-Chain objects first [] i object out c = c
set-Chain objects first (j ∷ free) i object (ne, out) (e, h, once, next, at, c) = (
  e,
  omega (arith, length-set objects i object),
  once,
  next,
  get_elem?-set_ne objects i j object ne ∙ at,
  set-Chain objects next free i object out c,
)

-- A slab with the given free objects, first one first.
pub record IsSlab (n : ℕ) (free : List ℕ) (s : Slab) : Type 0 where
  pub chain : Chain s.objects s.first_free_index free
  pub counted : s.free_obj_count ≡ length free
  pub sized : length s.objects ≡ n

-- The numbers after one, so many of them, and with that one.
unfoldable pub follow : ℕ → ℕ → List ℕ
follow i zero = []
follow i (suc more) = (i + 1) ∷ follow (i + 1) more

abbrev pub indices : ℕ → ℕ → List ℕ
indices i more = i ∷ follow i more

pub length-follow : (i more : ℕ) → length (follow i more) ≡ more
unfolding follow
length-follow i zero = refl
length-follow i (suc more) = omega (arith, length-follow (i + 1) more)

length-init_objects : (i more : ℕ) → length (init_objects i more) ≡ more + 1
unfolding init_objects
length-init_objects i zero = refl
length-init_objects i (suc more) = omega (arith, length-init_objects (i + 1) more)

below-NotIn : (j i more : ℕ) → j < i → NotIn j (indices i more)
unfolding NotIn follow
below-NotIn j i zero h = (omega arith, tt)
below-NotIn j i (suc more) h = (omega arith, below-NotIn j (i + 1) more (omega arith))

-- The objects from one on are those that the loop of `alloc_slab_page` writes.
init-Chain :
    (objects : List FreeObject) (i more : ℕ)
    → length objects ≡ i + more + 1
    → ((k : ℕ) → get_elem? objects (i + k) ≡ get_elem? (init_objects i more) k)
    → Chain objects i (indices i more)
unfolding Chain follow init_objects NotIn
init-Chain objects i zero n at =
    (refl, omega arith, tt, uint32_max, ap (get_elem? objects) (omega arith) ∙ at 0, refl)
init-Chain objects i (suc more) n at = (
  refl,
  omega arith,
  below-NotIn i (i + 1) more (omega arith),
  i + 1,
  ap (get_elem? objects) (omega arith) ∙ at 0,
  init-Chain objects (i + 1) more (omega arith)
      (λ k. ap (get_elem? objects) (omega arith) ∙ at (suc k)),
)

pub new_slab-IsSlab :
    (a : SlabAllocator) (page : ℕ)
    → 0 < a.object_count_per_slab
    → a.object_count_per_slab < 2 ^ 32
    → IsSlab a.object_count_per_slab (indices 0 (a.object_count_per_slab - 1)) (new_slab a page)
unfolding new_slab
new_slab-IsSlab a page pos small =
    let more = a.object_count_per_slab - 1 in
    let e : sub32 a.object_count_per_slab 1 ≡ more = omega arith in
    rw e (record {
      chain =
          init-Chain (init_objects 0 more) 0 more (omega (arith, length-init_objects 0 more))
            (λ k. ap (get_elem? (init_objects 0 more)) (omega arith));
      counted = omega (arith, length-follow 0 more);
      sized = omega (arith, length-init_objects 0 more);
    })

-- The next free object, as `verify_free_object` asks for it.
next_in_bounds :
    (objects : List FreeObject) (next : ℕ) (free : List ℕ)
    → Chain objects next free
    → (next ≡ uint32_max) ⊎ (next < length objects)
unfolding Chain
next_in_bounds objects next [] c = inl c
next_in_bounds objects next (j ∷ free) c = inr (omega (arith, c.0, c.1))

-- What it is to take an object off a slab.
pub record Taken (a : SlabAllocator) (s : Slab) (i : ℕ) (free : List ℕ) : Type 0 where
  pub object : FreeObject
  pub first : s.first_free_index ≡ i
  pub found : object_at s i ≡ ok object
  pub bytes : i * a.object_size < 2 ^ 32
  pub verified : get_free_object s a ≡ ok object
  pub left : IsSlab a.object_count_per_slab free (take_object s object)

-- The sizes with which no product of an index and the object size passes 32 bits.
pub record Fits (n size : ℕ) : Type 0 where
  pub some_objects : 0 < n
  pub count_word : n < 2 ^ 32
  pub some_size : 0 < size
  pub size_word : n * size ≤ 2 ^ 32

index_size : (i n size : ℕ) → i < n → 0 < size → n * size ≤ 2 ^ 32 → i * size < 2 ^ 32
index_size i n size h p le = grind arith

Chain-Distinct :
    (objects : List FreeObject) (first : ℕ) (free : List ℕ)
    → Chain objects first free
    → Distinct free × Below (length objects) free
unfolding Chain Distinct Below
Chain-Distinct objects first [] c = (tt, tt)
Chain-Distinct objects first (i ∷ free) (e, h, once, next, at, c) =
    let (d, b) = Chain-Distinct objects next free c in ((once, d), (h, b))

-- No more objects are free than there are.
pub length-Chain :
    (objects : List FreeObject) (first : ℕ) (free : List ℕ)
    → Chain objects first free
    → length free ≤ length objects
length-Chain objects first free c =
    let (d, b) = Chain-Distinct objects first free c in length-Distinct (length objects) free d b

-- The asserts of `get_free_object` pass on the first object of a chain.
get_free_object-first :
    (a : SlabAllocator) (s : Slab) (i next : ℕ)
    → s.first_free_index ≡ i
    → i < 2 ^ 32 - 1
    → i * a.object_size < 2 ^ 32
    → get_elem? s.objects i ≡ some (free_slab_object_init next)
    → (next ≡ uint32_max) ⊎ (next < a.object_count_per_slab)
    → get_free_object s a ≡ ok (free_slab_object_init next)
unfolding get_free_object object_at verify_free_object check_mul_assert free_slab_object_init
    index_in_bounds
get_free_object-first a s i next e small fits at bound = rw e (ground arith)

take_object-IsSlab :
    (a : SlabAllocator) (s : Slab) (i next : ℕ) (free : List ℕ)
    → length free < 2 ^ 32
    → NotIn i free
    → s.first_free_index ≡ i
    → Chain s.objects next free
    → IsSlab a.object_count_per_slab (i ∷ free) s
    → IsSlab a.object_count_per_slab free (take_object s (free_slab_object_init next))
unfolding take_object free_slab_object_init
take_object-IsSlab a s i next free small once e rest t = record {
  chain =
      set-Chain s.objects next free s.first_free_index zero_free_object
        (subst (λ k. NotIn k free) (sym e) once) rest;
  counted = omega (arith, t.counted);
  sized = length-set s.objects s.first_free_index zero_free_object ∙ t.sized;
}

pub IsSlab-Taken :
    (a : SlabAllocator) (s : Slab) (i : ℕ) (free : List ℕ)
    → Fits a.object_count_per_slab a.object_size
    → IsSlab a.object_count_per_slab (i ∷ free) s
    → Taken a s i free
unfolding Chain object_at
IsSlab-Taken a s i free f t =
    let (e, h, once, next, at, rest) = t.chain in
    let fits =
      index_size i a.object_count_per_slab a.object_size (omega (arith, t.sized)) f.some_size
        f.size_word in
    let short = length-Chain s.objects s.first_free_index (i ∷ free) t.chain in
    record {
      object = free_slab_object_init next;
      first = e;
      found = rw (at, object_at) refl;
      bytes = fits;
      verified = get_free_object-first a s i next e (omega (arith, t.sized, f.count_word)) fits at (
          subst (λ n. (next ≡ uint32_max) ⊎ (next < n)) t.sized
            (next_in_bounds s.objects next free rest));
      left =
          take_object-IsSlab a s i next free (omega (arith, t.sized, f.count_word, short)) once e
            rest t;
    }

pub put_object-IsSlab :
    (a : SlabAllocator) (s : Slab) (i : ℕ) (free : List ℕ)
    → Fits a.object_count_per_slab a.object_size
    → i < a.object_count_per_slab
    → NotIn i free
    → IsSlab a.object_count_per_slab free s
    → IsSlab a.object_count_per_slab (i ∷ free) (put_object s i)
unfolding Chain put_object
put_object-IsSlab a s i free f h out t =
    let grown : Chain (set s.objects i (free_slab_object_init s.first_free_index)) i (i ∷ free) = (
      refl,
      omega (arith, t.sized, length-set s.objects i (free_slab_object_init s.first_free_index)),
      out,
      s.first_free_index,
      get_elem?-set_self s.objects i (free_slab_object_init s.first_free_index)
          (omega (arith, t.sized)),
      set-Chain s.objects s.first_free_index free i (free_slab_object_init s.first_free_index) out
          t.chain,
    ) in
    let set_sized = length-set s.objects i (free_slab_object_init s.first_free_index) in
    let short =
      length-Chain (set s.objects i (free_slab_object_init s.first_free_index)) i (i ∷ free)
        grown in
    record {
      chain = grown;
      counted = omega (arith, t.counted, t.sized, f.count_word);
      sized = set_sized ∙ t.sized;
    }

pub new_slab-page : (a : SlabAllocator) (page : ℕ) → (new_slab a page).page ≡ page
unfolding new_slab
new_slab-page a page = refl

pub take_object-page : (s : Slab) (object : FreeObject) → (take_object s object).page ≡ s.page
unfolding take_object
take_object-page s object = refl

pub put_object-page : (s : Slab) (i : ℕ) → (put_object s i).page ≡ s.page
unfolding put_object
put_object-page s i = refl

-- No more objects are free than a slab has.
pub length-IsSlab : (n : ℕ) (free : List ℕ) (s : Slab) → IsSlab n free s → length free ≤ n
length-IsSlab n free s t =
    omega (arith, length-Chain s.objects s.first_free_index free t.chain, t.sized)
