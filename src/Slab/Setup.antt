-- ===== src/Slab/Setup.antt =====
-- `slab_allocator_init` of kernel/src/mm/slab.c: the sizes it chooses.
use aphrodite.Base.{
  ℕ, zero, suc, ◌+◌, ◌-◌, ◌*◌, ◌/◌, ◌^◌, ◌≡◌, ◌<◌, ◌≤◌, refl, sym, arith, true, false, [], ok, u32,
  ltb, dec_lt,
}
use native.Mathlib.Nat.{pow-suc, mod-lt, div-add-mod'}
use aphrodite.Slab.{SlabAllocator, page_size, find_order, init_aligned, slab_allocator_init}
use mathlib.Core.Path.{subst}
use aphrodite.Arith.Align.{IsLeastAbove, align_up_least}
use aphrodite.Slab.Chain.{Fits}
use aphrodite.Slab.Pool.{total}
use aphrodite.Slab.Refine.{AreOpen, AreFull, Keeps}

-- The least order, from one on, whose pages hold the size.
record OrderFound (order size r : ℕ) : Type 0 where
  enough : size ≤ page_size * 2 ^ r
  from : order ≤ r
  least : (q : ℕ) → order ≤ q → q < r → page_size * 2 ^ q < size

-- A number from one on is that one or above it.
least-step :
    (order size q : ℕ)
    → page_size * 2 ^ order < size
    → order ≤ q
    → (suc order ≤ q → page_size * 2 ^ q < size)
    → page_size * 2 ^ q < size
least-step order size q here a above = elim (dec_lt order q) [
  | yes h ↦ above h
  | no h ↦ let same : order ≡ q = omega arith in subst (λ k. page_size * 2 ^ k < size) same here
]

find_order-found :
    (tries order size : ℕ)
    → size ≤ page_size * 2 ^ (order + tries)
    → OrderFound order size (find_order tries order size)
unfolding find_order
find_order-found zero order size h =
    let whole : order + 0 ≡ order = omega arith in
    record {
      enough = subst (λ k. size ≤ page_size * 2 ^ k) whole h;
      from = omega arith;
      least = λ q a b. absurd (omega arith);
    }
find_order-found (suc tries) order size h = elim (dec_lt (page_size * 2 ^ order) size) [
  | yes more ↦
      let test : ltb (page_size * 2 ^ order) size ≡ true = ground arith in
      let shift : order + suc tries ≡ suc order + tries = omega arith in
      let found =
        find_order-found tries (suc order) size (subst (λ k. size ≤ page_size * 2 ^ k) shift h) in
      rw test (record {
        enough = found.enough;
        from = omega (arith, found.from);
        least = λ q a b. least-step order size q more a (λ a'. found.least q a' b);
      })
  | no done ↦
      let test : ltb (page_size * 2 ^ order) size ≡ false = ground arith in
      rw test
        (record { enough = omega arith; from = omega arith; least = λ q a b. absurd (omega arith) })
]

-- How many objects an order gives.
record Counted (size order : ℕ) : Type 0 where
  fits : Fits (u32 (page_size * 2 ^ order / size)) size
  single : 0 < order → u32 (page_size * 2 ^ order / size) ≡ 1

-- The number of objects of one size in some bytes.
quotient-bounds :
    (bytes size : ℕ)
    → 0 < size
    → size ≤ bytes
    → (0 < bytes / size) × (bytes / size * size ≤ bytes) × (bytes / size ≤ bytes)
quotient-bounds bytes size pos h =
    let left = mod-lt bytes {m = size} pos in
    let whole = div-add-mod' bytes size in (grind arith, omega arith, grind arith)

quotient-one : (bytes size : ℕ) → size ≤ bytes → bytes < 2 * size → bytes / size ≡ 1
quotient-one bytes size h small =
    let left = mod-lt bytes {m = size} (omega arith) in
    let whole = div-add-mod' bytes size in grind arith

order-Counted : (size r : ℕ) → 16 ≤ size → size < 2 ^ 32 → OrderFound 0 size r → Counted size r
order-Counted size zero low high found =
    let (some_objects, fit, most) = quotient-bounds 4096 size (omega arith) found.enough in
    let count = 4096 / size in
    let same : u32 (page_size * 2 ^ 0 / size) ≡ count = omega arith in
    record {
      fits = rw same (record {
        some_objects = some_objects;
        count_word = omega arith;
        some_size = omega arith;
        size_word = omega arith;
      });
      single = λ h. absurd (omega arith);
    }
order-Counted size (suc r) low high found =
    let less = found.least r (omega arith) (omega arith) in
    let one = quotient-one (page_size * 2 ^ suc r) size found.enough (omega (arith, pow-suc 2 r)) in
    let same : u32 (page_size * 2 ^ suc r / size) ≡ 1 = rw one refl in
    record {
      fits = rw same (record {
        some_objects = omega arith;
        count_word = omega arith;
        some_size = omega arith;
        size_word = omega arith;
      });
      single = λ h. same;
    }

-- What `slab_allocator_init` sets up.
pub record Started (size : ℕ) (a : SlabAllocator) : Type 0 where
  pub aligned : IsLeastAbove size 16 a.object_size
  pub enough : a.object_size ≤ page_size * 2 ^ a.slab_order
  pub least : (q : ℕ) → q < a.slab_order → page_size * 2 ^ q < a.object_size
  pub single : 0 < a.slab_order → a.object_count_per_slab ≡ 1
  pub keeps : Keeps a (record { open_slabs = []; full = [] })

-- The allocator that `slab_allocator_init` leaves.
abbrev started : SlabAllocator → ℕ → SlabAllocator
started a object_size = record a {
  free_slab_head_list = [];
  object_size = object_size;
  object_count_per_slab = u32 (page_size * 2 ^ find_order 21 0 object_size / object_size);
  slab_order = find_order 21 0 object_size;
  free_obj_count = 0;
}

init_aligned-Started :
    (a : SlabAllocator) (size object_size : ℕ)
    → a.full_slabs ≡ []
    → a.slab_count ≡ 0
    → 0 < size
    → size ≤ 2 ^ 32 - 16
    → IsLeastAbove size 16 object_size
    → (a' : SlabAllocator) × (init_aligned a object_size ≡ ok (true, a')) × Started size a'
unfolding init_aligned AreOpen AreFull total IsLeastAbove
init_aligned-Started a size object_size none_full none_yet pos small (multiple, above, near) =
    let found = find_order-found 21 0 object_size (omega arith) in
    let counted =
      order-Counted object_size (find_order 21 0 object_size) (omega arith) (omega arith) found in
    (
      started a object_size,
      ground arith,
      record {
        aligned = (multiple, above, near);
        enough = found.enough;
        least = λ q h. found.least q (omega arith) h;
        single = counted.single;
        keeps = record {
          fits = counted.fits;
          listed = tt;
          unlisted =
              subst
                (λ l.
                  AreFull (u32 (page_size * 2 ^ find_order 21 0 object_size / object_size)) l [])
                (sym none_full) tt;
          free_objects = omega arith;
          slabs = none_yet;
        };
      },
    )

-- For a size from 1 to 2^32 - 16, and no slab there yet, `slab_allocator_init` succeeds. The objects
-- have the least multiple of 16 that is not below the size, the slabs the least order that holds
-- an object, an order above 0 has one object to a slab, and the allocator keeps the empty pool.
pub slab_allocator_init-Started :
    (a : SlabAllocator) (size : ℕ)
    → a.full_slabs ≡ []
    → a.slab_count ≡ 0
    → 0 < size
    → size ≤ 2 ^ 32 - 16
    → (a' : SlabAllocator) × (slab_allocator_init a size ≡ ok (true, a')) × Started size a'
unfolding slab_allocator_init
slab_allocator_init-Started a size none_full none_yet pos small =
    let (object_size, e, least) =
      (align_up_least size 4 (omega arith) (omega arith)).0 (omega arith) in
    rw e (init_aligned-Started a size object_size none_full none_yet pos small least)
