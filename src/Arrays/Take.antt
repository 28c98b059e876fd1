-- ===== src/Arrays/Take.antt =====
-- Taking objects out of an array of lib/adt/array.c, against the list of its objects.
use aphrodite.Base.{
  ℕ, zero, suc, ◌+◌, ◌*◌, ◌/◌, ◌^◌, ◌<◌, ◌≤◌, ◌≡◌, ◌∙◌, refl, sym, ap, arith, ltb, leb, ◌==◌, true,
  false, Option, none, some, List, [], ◌∷◌, ◌++◌, length, length-take, get_elem?, take, drop, ok,
}
use mathlib.Core.Path.{subst}
use mathlib.Core.List.{append-nil}
use native.Mathlib.Nat.{mul-div_cancel, mul_comm, mul-add, mul-le-mul_left}
use aphrodite.Arith.{check_add, check_mul_assert, index_in_bounds}
use aphrodite.Ranges.{Range, range_init, range_get_end, index_range_in_bounds}
use aphrodite.Buffer.{GrowableBuffer, gbuffer_used_size, gbuffer_remove_range}
use aphrodite.Buffer.Copy.{gbuffer_at}
use aphrodite.Buffer.Bytes.{contents, block_of}
use aphrodite.Buffer.Remove.{gbuffer_remove_range-contents}
use aphrodite.Arrays.{Array, read_at, array_item_count, array_take_range, array_take_item}
use aphrodite.Arrays.Items.{
  join, Holds, length-join, join-append, append-AllSized, take-AllSized, drop-AllSized, take-join,
  drop-join, take-drop-take,
}

-- The bytes in use are those of the objects.
used-length :
    (array : Array) (items : List (List ℕ))
    → Holds array items
    → array.gbuffer.index ≡ array.object_size * length items
unfolding contents
used-length array items h =
    let used = length-take array.gbuffer.index (block_of array.gbuffer.begin) in
    omega (
      arith,
      used,
      ap length h.bytes,
      length-join array.object_size items h.sized,
      h.usable.sized,
      h.usable.used,
    )

-- `array_item_count` is the number of the objects.
pub array_item_count-length :
    (array : Array) (items : List (List ℕ))
    → Holds array items
    → array_item_count array ≡ ok (length items)
unfolding array_item_count gbuffer_used_size
array_item_count-length array items h =
    let nonzero : (array.object_size == 0) ≡ false = ground (arith, h.some_size) in
    let count : array.gbuffer.index / array.object_size ≡ length items =
      ap (λ m. m / array.object_size)
        (used-length array items h ∙ mul_comm array.object_size (length items))
      ∙ mul-div_cancel (length items) h.some_size in
    rw (nonzero, count) refl

-- The bytes of a part of the objects lie in the bytes of all of them.
part-fits : (n front size count : ℕ) → front + size ≤ count → n * front + n * size ≤ n * count
part-fits n front size count h =
    omega (arith, mul-add n front size, mul-le-mul_left {m = front + size} {n = count} n h)

read_at-block :
    (begin : Option (List ℕ)) (offset size : ℕ)
    → 0 < size
    → offset + size ≤ length (block_of begin)
    → read_at begin offset size ≡ ok (take size (drop offset (block_of begin)))
unfolding read_at
read_at-block none offset size pos h = absurd (omega (arith, pos, h))
read_at-block (some block) offset size pos h =
    let inside : leb (offset + size) (length block) ≡ true = ground arith in rw inside refl

-- The bytes of some objects in the block.
read_at-items :
    (array : Array) (items : List (List ℕ)) (front size : ℕ)
    → Holds array items
    → 0 < size
    → front + size ≤ length items
    → read_at array.gbuffer.begin (array.object_size * front) (array.object_size * size)
      ≡ ok (join (take size (drop front items)))
unfolding contents
read_at-items array items front size h pos inside =
    let n = array.object_size in
    let gb = array.gbuffer in
    let e = used-length array items h in
    let fits = part-fits n front size (length items) inside in
    let some_bytes : 0 < n * size = grind (arith, h.some_size) in
    read_at-block gb.begin (n * front) (n * size) some_bytes
      (omega (arith, fits, e, h.usable.sized, h.usable.used))
    ∙ ap ok (
        sym (
          take-drop-take (n * front) (n * size) gb.index (block_of gb.begin)
            (omega (arith, fits, e)))
        ∙ ap (λ l. take (n * size) (drop (n * front) l)) h.bytes
        ∙ ap (take (n * size)) (drop-join n front items h.sized)
        ∙ take-join n size (drop front items) (drop-AllSized n front items h.sized))

-- An array of some objects, after the removal of the bytes of a part of these.
removed-Holds :
    (array : Array) (items : List (List ℕ)) (front size : ℕ)
    → Holds array items
    → front + size ≤ length items
    → (gb : GrowableBuffer) × (gbuffer_remove_range array.gbuffer
          (range_init (array.object_size * front) (array.object_size * size))
        ≡ ok gb)
      × Holds (record array { gbuffer = gb }) (take front items ++ drop (front + size) items)
removed-Holds array items front size h inside =
    let n = array.object_size in
    let e = used-length array items h in
    let fits : n * front + n * size ≤ array.gbuffer.index =
      omega (arith, e, part-fits n front size (length items) inside) in
    let (gb, removed, rest, usable) =
      gbuffer_remove_range-contents array.gbuffer (range_init (n * front) (n * size)) h.usable
        fits in
    (
      gb,
      removed,
      record {
        usable = usable;
        some_size = h.some_size;
        sized =
            append-AllSized n (take front items) (drop (front + size) items)
              (take-AllSized n front items h.sized) (drop-AllSized n (front + size) items h.sized);
        bytes =
            rest
            ∙ ap (λ l. take (n * front) l ++ drop (n * front + n * size) l) h.bytes
            ∙ ap (λ m. take (n * front) (join items) ++ drop m (join items))
                (sym (mul-add n front size))
            ∙ ap (λ l. l ++ drop (n * (front + size)) (join items))
                (take-join n front items h.sized)
            ∙ ap (λ l. join (take front items) ++ l) (drop-join n (front + size) items h.sized)
            ∙ sym (join-append (take front items) (drop (front + size) items));
      },
    )

range-bounded :
    (range : Range) (bounds : ℕ)
    → range.front + range.size ≤ bounds
    → bounds < 2 ^ 64
    → index_range_in_bounds range bounds ≡ true
unfolding index_range_in_bounds range_get_end check_add
range-bounded range bounds inside small = ground arith

-- The tests that the code makes of the bytes of a part of the objects.
record PartRoom (array : Array) (items : List (List ℕ)) (front size : ℕ) : Type 0 where
  few : length items < 2 ^ 31
  front_word : ltb (array.object_size * front) (2 ^ 32) ≡ true
  size_word : ltb (array.object_size * size) (2 ^ 32) ≡ true
  front_inside : ltb (array.object_size * front) array.gbuffer.capacity ≡ true

part_room :
    (array : Array) (items : List (List ℕ)) (front size : ℕ)
    → Holds array items
    → 0 < size
    → front + size ≤ length items
    → PartRoom array items front size
part_room array items front size h pos inside =
    let n = array.object_size in
    let e = used-length array items h in
    let small = h.usable.small in
    let used = h.usable.used in
    let fits = part-fits n front size (length items) inside in
    let some_bytes : 0 < n * size = grind (arith, h.some_size) in
    let below : length items ≤ n * length items = grind (arith, h.some_size) in
    record {
      few = omega arith;
      front_word = ground arith;
      size_word = ground arith;
      front_inside = ground arith;
    }

-- The removal of objects that lie in the array, at least one, by `array_take_range`: no panic, the bytes of
-- these objects in order, and an array of the others.
pub array_take_range-Holds :
    (array : Array) (items : List (List ℕ)) (range : Range)
    → Holds array items
    → 0 < range.size
    → range.front + range.size ≤ length items
    → (array' : Array) × (array_take_range array range
        ≡ ok (join (take range.size (drop range.front items)), array'))
      × Holds array' (take range.front items ++ drop (range.front + range.size) items)
unfolding array_take_range index_range_in_bounds range_get_end check_mul_assert gbuffer_at
    index_in_bounds check_add
array_take_range-Holds array items range h pos inside =
    let n = array.object_size in
    let count = array_item_count-length array items h in
    let (gb, removed, holds) = removed-Holds array items range.front range.size h inside in
    let bytes = read_at-items array items range.front range.size h pos inside in
    let r = part_room array items range.front range.size h pos inside in
    let bounded = range-bounded range (length items) inside (omega (arith, r.few)) in
    (
      record array { gbuffer = gb },
      rw (count, bounded, r.front_word, r.size_word, r.front_inside, bytes, removed) refl,
      holds,
    )

first_of_rest :
    (i : ℕ) (items : List (List ℕ)) (item : List ℕ)
    → get_elem? items i ≡ some item
    → take 1 (drop i items) ≡ item ∷ []
first_of_rest i [] item e = cc
first_of_rest zero (x ∷ items) item e = ground arith
first_of_rest (suc i) (x ∷ items) item e = first_of_rest i items item e

-- `array_take_item` of an index with an object does not panic, copies that object out and leaves an array of
-- the others.
pub array_take_item-Holds :
    (array : Array) (items : List (List ℕ)) (index : ℕ) (item : List ℕ)
    → Holds array items
    → index < length items
    → get_elem? items index ≡ some item
    → (array' : Array) × (array_take_item array index ≡ ok (item, array'))
      × Holds array' (take index items ++ drop (index + 1) items)
unfolding array_take_item check_mul_assert gbuffer_at index_in_bounds join
array_take_item-Holds array items index item h inside at =
    let n = array.object_size in
    let inside' : index + 1 ≤ length items = omega (arith, inside) in
    let one : n * 1 ≡ n = omega arith in
    let count = array_item_count-length array items h in
    let (gb, removed, holds) = removed-Holds array items index 1 h inside' in
    let bytes = read_at-items array items index 1 h (omega arith) inside' in
    let r = part_room array items index 1 h (omega arith) inside' in
    let bounded : ltb index (length items) ≡ true = ground arith in
    let first = ap join (first_of_rest index items item at) ∙ append-nil item in
    let read =
      subst (λ m. read_at array.gbuffer.begin (n * index) m ≡ ok (join (take 1 (drop index items))))
        one bytes
      ∙ ap ok first in
    let cut =
      subst (λ m. gbuffer_remove_range array.gbuffer (range_init (n * index) m) ≡ ok gb) one
        removed in
    (
      record array { gbuffer = gb },
      rw (count, bounded, r.front_word, r.front_inside, read, cut) refl,
      holds,
    )
