-- ===== src/Buffer.antt =====
-- lib/adt/growable_buffer.c and growable_buffer.h: a buffer of bytes that grows.
--
-- The block behind `begin` is the list of its bytes, `none` where `begin` is NULL. `index` and
-- `capacity` are fields of 31 bits. `Outcome.panic` is a failed assertion or an access outside the
-- block. A new block is the allocator's: `Blocks` lists its answers, the bytes of the block, or
-- `none`. What is freed, and the wiping of a block that is given up, are left out.
pub mod Bytes
pub mod Append
pub mod Remove
pub mod Copy
use aphrodite.Base.{
  ℕ, ◌+◌, ◌-◌, ◌%◌, ◌^◌, min, ltb, leb, ◌==◌, if◌then◌else◌, Bool, true, false, not, Option, none,
  some, List, [], ◌∷◌, ◌++◌, length, take, drop, replicate, Outcome, ok, panic, assert, ◌>>=◌, ◌>>◌,
  sub32,
}
use aphrodite.Arith.{index_in_bounds}
use aphrodite.Ranges.{Range, index_range_in_bounds, range_get_end_assert}

pub record GrowableBuffer : Type 0 where
  pub begin : Option (List ℕ)
  pub index : ℕ
  pub capacity : ℕ
  pub is_alloc : Bool

-- A number stored in a field of 31 bits.
abbrev pub u31 : ℕ → ℕ
u31 n = n % 2 ^ 31

abbrev pub Blocks : Type 0
Blocks = List (Option (List ℕ))

unfoldable pub malloc_size : Blocks → Option (List ℕ) × Blocks
malloc_size [] = (none, [])
malloc_size (answer ∷ rest) = (answer, rest)

-- `memcpy` into a block at an offset.
unfoldable pub write_at : Option (List ℕ) → ℕ → List ℕ → Outcome (Option (List ℕ))
write_at none offset bytes = if length bytes == 0 then ok none else panic
write_at (some block) offset bytes =
    if leb (offset + length bytes) (length block)
    then ok (some (take offset block ++ (bytes ++ drop (offset + length bytes) block)))
    else panic

-- `memmove` within a block.
unfoldable pub move_in : Option (List ℕ) → ℕ → ℕ → ℕ → Outcome (Option (List ℕ))
move_in none dst src size = if size == 0 then ok none else panic
move_in (some block) dst src size =
    if leb (src + size) (length block)
    then write_at (some block) dst (take size (drop src block))
    else panic

unfoldable pub gbuffer_alloc : ℕ → Blocks → Outcome (GrowableBuffer × Blocks)
gbuffer_alloc capacity blocks = do
  assert (leb capacity (2 ^ 31 - 1))
  let answer = malloc_size blocks
  elim (answer.0) [
    | none ↦ ok (record { begin = none; index = 0; capacity = 0; is_alloc = true }, answer.1)
    | some block ↦ ok (
      record { begin = some block; index = 0; capacity = u31 (length block); is_alloc = true },
      answer.1,
    )
  ]

unfoldable pub gbuffer_free_space : GrowableBuffer → ℕ
gbuffer_free_space gb = sub32 gb.capacity gb.index

unfoldable pub gbuffer_used_size : GrowableBuffer → ℕ
gbuffer_used_size gb = gb.index

unfoldable pub gbuffer_empty : GrowableBuffer → Bool
gbuffer_empty gb = gb.index == 0

-- The bytes that `memcpy` reads from the front of a block.
unfoldable pub read_front : Option (List ℕ) → ℕ → Outcome (List ℕ)
read_front none size = if size == 0 then ok [] else panic
read_front (some block) size = if leb size (length block) then ok (take size block) else panic

-- `gbuffer_ensure_can_add_capacity` once there is a new block.
unfoldable pub move_to : GrowableBuffer → List ℕ → Outcome GrowableBuffer
move_to gb block = do
  used ← read_front gb.begin gb.index
  filled ← write_at (some block) 0 used
  ok (record { begin = filled; index = gb.index; capacity = u31 (length block); is_alloc = true })

-- `gbuffer_ensure_can_add_capacity` with the answer to the call of the allocator.
unfoldable pub grow_to :
    GrowableBuffer → Option (List ℕ) → Blocks → Outcome (Bool × GrowableBuffer × Blocks)
grow_to gb none rest = ok (false, gb, rest)
grow_to gb (some block) rest = move_to gb block >>= λ grown. ok (true, grown, rest)

unfoldable pub gbuffer_ensure_can_add_capacity :
    GrowableBuffer → ℕ → Blocks → Outcome (Bool × GrowableBuffer × Blocks)
gbuffer_ensure_can_add_capacity gb add blocks =
    if leb add (gbuffer_free_space gb)
    then ok (true, gb, blocks)
    else (assert (ltb (gb.capacity + add) (2 ^ 32))
        >> grow_to gb ((malloc_size blocks).0) ((malloc_size blocks).1))

unfoldable pub gbuffer_increment_ptr : GrowableBuffer → ℕ → ℕ × GrowableBuffer
gbuffer_increment_ptr gb amount =
    let index = u31 (min (gbuffer_free_space gb) amount) in (index, record gb { index = index })

unfoldable pub gbuffer_decrement_ptr : GrowableBuffer → ℕ → ℕ × GrowableBuffer
gbuffer_decrement_ptr gb amount =
    let delta = min gb.index amount in (delta, record gb { index = gb.index - delta })

-- The end of an append, where there is room.
unfoldable pub append_in : GrowableBuffer → List ℕ → Outcome GrowableBuffer
append_in gb bytes = do
  filled ← write_at gb.begin gb.index bytes
  ok (record gb { begin = filled; index = u31 (gb.index + length bytes) })

-- An append after the call that made room.
unfoldable pub append_after :
    Bool × GrowableBuffer × Blocks → List ℕ → Outcome (Bool × GrowableBuffer × Blocks)
append_after (false, gb, rest) bytes = ok (false, gb, rest)
append_after (true, gb, rest) bytes = append_in gb bytes >>= λ done. ok (true, done, rest)

unfoldable pub gbuffer_append_data :
    GrowableBuffer → List ℕ → Blocks → Outcome (Bool × GrowableBuffer × Blocks)
gbuffer_append_data gb bytes blocks =
    gbuffer_ensure_can_add_capacity gb (length bytes) blocks >>= λ room. append_after room bytes

unfoldable pub gbuffer_append_byte :
    GrowableBuffer → ℕ → ℕ → Blocks → Outcome (Bool × GrowableBuffer × Blocks)
gbuffer_append_byte gb byte count blocks =
    gbuffer_ensure_can_add_capacity gb count blocks >>= λ room.
    append_after room (replicate count byte)

-- The last byte is dropped without a move.
unfoldable pub gbuffer_remove_index : GrowableBuffer → ℕ → Outcome GrowableBuffer
gbuffer_remove_index gb index = do
  let used = gb.index
  assert (index_in_bounds index used)
  if index == used - 1
      then ok (record gb { index = used - 1 })
      else (move_in gb.begin index (index + 1) (used - index) >>= λ moved.
          ok (record gb { begin = moved; index = used - 1 }))

unfoldable pub gbuffer_remove_range : GrowableBuffer → Range → Outcome GrowableBuffer
gbuffer_remove_range gb range = do
  let used = gb.index
  assert (index_range_in_bounds range used)
  end ← range_get_end_assert range
  if end == used
      then ok (record gb { index = used - range.size })
      else (move_in gb.begin range.front end (used - end) >>= λ moved.
          ok (record gb { begin = moved; index = used - range.size }))

unfoldable pub gbuffer_truncate : GrowableBuffer → ℕ → GrowableBuffer
gbuffer_truncate gb byte_index = record gb { index = min gb.index byte_index }

unfoldable pub gbuffer_take_data : GrowableBuffer → Option (List ℕ) × GrowableBuffer
gbuffer_take_data gb =
    (gb.begin, record { begin = none; index = 0; capacity = 0; is_alloc = false })

unfoldable pub gbuffer_clear : GrowableBuffer → GrowableBuffer
gbuffer_clear gb = record gb { index = 0 }

unfoldable pub gbuffer_destroy : GrowableBuffer → GrowableBuffer
gbuffer_destroy gb = record { begin = none; index = 0; capacity = 0; is_alloc = false }
