-- ===== src/Arrays.antt =====
-- lib/adt/array.c and array.h: an array of objects of one size, on top of a growable buffer.
--
-- An object is the list of its bytes; a pointer into the array is its byte offset. `array_alloc` and
-- `array_free`, which add the allocation of the struct itself, are left out. A division by the
-- object size 0 is `panic`.
pub mod Items
pub mod Append
pub mod Take
use aphrodite.Base.{
  ℕ, ◌+◌, ◌-◌, ◌*◌, ◌/◌, ◌==◌, if◌then◌else◌, Bool, true, false, not, Option, none, some, List, [],
  ◌∷◌, take, drop, Outcome, ok, panic, assert, ◌>>=◌, ◌>>◌, leb, length,
}
use aphrodite.Arith.{check_mul_assert, index_in_bounds}
use aphrodite.Ranges.{Range, range_init, range_multiply, index_range_in_bounds}
use aphrodite.Buffer.{
  GrowableBuffer, Blocks, u31, read_front, gbuffer_append_data, gbuffer_remove_range,
  gbuffer_used_size, gbuffer_free_space, gbuffer_empty, gbuffer_take_data, gbuffer_destroy,
  gbuffer_ensure_can_add_capacity,
}
use aphrodite.Buffer.Copy.{gbuffer_init, gbuffer_copy, gbuffer_at}

pub record Array : Type 0 where
  pub gbuffer : GrowableBuffer
  pub object_size : ℕ

-- `ARRAY_INIT`
unfoldable pub array_init : ℕ → Array
array_init size = record { gbuffer = gbuffer_init; object_size = size }

unfoldable pub array_copy : Array → Blocks → Outcome (Array × Blocks)
array_copy array blocks = do
  (copied, rest) ← gbuffer_copy array.gbuffer blocks
  ok (record { gbuffer = copied; object_size = array.object_size }, rest)

unfoldable pub array_append : Array → List ℕ → Blocks → Outcome (Bool × Array × Blocks)
array_append array item blocks = do
  bytes ← read_front (some item) array.object_size
  (done, gbuffer, rest) ← gbuffer_append_data array.gbuffer bytes blocks
  ok (done, record array { gbuffer = gbuffer }, rest)

unfoldable pub array_remove_index : Array → ℕ → Outcome Array
array_remove_index array index = do
  byte_index ← check_mul_assert index array.object_size
  gbuffer ← gbuffer_remove_range array.gbuffer (range_init byte_index array.object_size)
  ok (record array { gbuffer = gbuffer })

unfoldable pub array_remove_range : Array → Range → Outcome (Bool × Array)
array_remove_range array range = elim (range_multiply range array.object_size) [
  | none ↦ ok (false, array)
  | some byte_range ↦ gbuffer_remove_range array.gbuffer byte_range >>= λ gbuffer.
      ok (true, record array { gbuffer = gbuffer })
]

unfoldable pub array_item_count : Array → Outcome ℕ
array_item_count array = do
  assert (not (array.object_size == 0))
  ok (gbuffer_used_size array.gbuffer / array.object_size)

unfoldable pub array_free_count : Array → Outcome ℕ
array_free_count array = do
  assert (not (array.object_size == 0))
  ok (gbuffer_free_space array.gbuffer / array.object_size)

unfoldable pub array_empty : Array → Bool
array_empty array = gbuffer_empty array.gbuffer

unfoldable pub array_at : Array → ℕ → Outcome ℕ
array_at array index = do
  count ← array_item_count array
  assert (index_in_bounds index count)
  check_mul_assert index array.object_size

unfoldable pub array_front : Array → Outcome ℕ
array_front array = do assert (not (array_empty array)); ok 0

unfoldable pub array_back : Array → Outcome ℕ
array_back array = do assert (not (array_empty array)); ok (array.gbuffer.index - array.object_size)

unfoldable pub array_take_data : Array → Option (List ℕ) × Array
array_take_data array =
    let (bytes, gbuffer) = gbuffer_take_data array.gbuffer in
    (bytes, record array { gbuffer = gbuffer })

-- `memcpy` of bytes at an offset of the block.
unfoldable pub read_at : Option (List ℕ) → ℕ → ℕ → Outcome (List ℕ)
read_at none offset size = panic
read_at (some block) offset size =
    if leb (offset + size) (length block) then ok (take size (drop offset block)) else panic

-- The object at the index, which is copied out, and the array without it.
unfoldable pub array_take_item : Array → ℕ → Outcome (List ℕ × Array)
array_take_item array index = do
  count ← array_item_count array
  assert (index_in_bounds index count)
  byte_index ← check_mul_assert array.object_size index
  src ← gbuffer_at array.gbuffer byte_index
  item ← read_at array.gbuffer.begin src array.object_size
  gbuffer ← gbuffer_remove_range array.gbuffer (range_init byte_index array.object_size)
  ok (item, record array { gbuffer = gbuffer })

unfoldable pub array_take_range : Array → Range → Outcome (List ℕ × Array)
array_take_range array range = do
  count ← array_item_count array
  assert (index_range_in_bounds range count)
  byte_index ← check_mul_assert array.object_size range.front
  range_size ← check_mul_assert array.object_size range.size
  src ← gbuffer_at array.gbuffer byte_index
  items ← read_at array.gbuffer.begin src range_size
  gbuffer ← gbuffer_remove_range array.gbuffer (range_init byte_index range_size)
  ok (items, record array { gbuffer = gbuffer })

-- Whether there was room is not told.
unfoldable pub array_reserve : Array → ℕ → Blocks → Outcome (Array × Blocks)
array_reserve array amount blocks = do
  byte_count ← check_mul_assert amount array.object_size
  (_, gbuffer, rest) ← gbuffer_ensure_can_add_capacity array.gbuffer byte_count blocks
  ok (record array { gbuffer = gbuffer }, rest)

unfoldable pub array_reserve_and_set_item_count : Array → ℕ → Blocks → Outcome (Array × Blocks)
array_reserve_and_set_item_count array amount blocks = do
  (reserved, rest) ← array_reserve array amount blocks
  index ← check_mul_assert amount reserved.object_size
  let gb = reserved.gbuffer
  ok (record reserved { gbuffer = record gb { index = u31 index } }, rest)

unfoldable pub array_destroy : Array → Array
array_destroy array = record array { gbuffer = gbuffer_destroy array.gbuffer }
