-- ===== src/Buffer/Copy.antt =====
-- lib/adt/growable_buffer.c: the operations that make a buffer from another one or from bytes, the
-- access at an index, and the appends of another buffer and of a view.
use aphrodite.Base.{
  ℕ, ◌==◌, if◌then◌else◌, Bool, false, Option, none, some, List, Outcome, ok, assert, ◌>>=◌, ◌>>◌,
}
use aphrodite.Arith.{index_in_bounds}
use aphrodite.Buffer.{
  GrowableBuffer, Blocks, gbuffer_alloc, gbuffer_used_size, gbuffer_append_data, read_front,
  write_at, u31,
}

-- The end of both copies: the source's bytes go into a new buffer that has a block.
unfoldable pub copy_into : GrowableBuffer → ℕ → Option (List ℕ) → ℕ → Outcome GrowableBuffer
copy_into gb index source size = elim gb.begin [
  | none ↦ ok gb
  | some block ↦ read_front source size >>= λ bytes.
      write_at (some block) 0 bytes >>= λ filled. ok (record gb { begin = filled; index = index })
]

-- The index of the copy stays 0.
unfoldable pub gbuffer_alloc_copy : List ℕ → ℕ → Blocks → Outcome (GrowableBuffer × Blocks)
gbuffer_alloc_copy source size blocks = do
  (gb, rest) ← gbuffer_alloc size blocks
  copied ← copy_into gb 0 (some source) size
  ok (copied, rest)

-- `GBUFFER_INIT`
abbrev pub gbuffer_init : GrowableBuffer
gbuffer_init = record { begin = none; index = 0; capacity = 0; is_alloc = false }

unfoldable pub gbuffer_copy : GrowableBuffer → Blocks → Outcome (GrowableBuffer × Blocks)
gbuffer_copy gbuffer blocks =
    if gbuffer_used_size gbuffer == 0
    then ok (gbuffer_init, blocks)
    else (gbuffer_alloc (gbuffer_used_size gbuffer) blocks >>= λ (gb, rest).
        copy_into gb gbuffer.index gbuffer.begin (gbuffer_used_size gbuffer) >>= λ copied.
        ok (copied, rest))

unfoldable pub gbuffer_open : Option (List ℕ) → ℕ → ℕ → Bool → GrowableBuffer
gbuffer_open buffer used capacity is_alloc = record {
  begin = buffer;
  index = u31 used;
  capacity = u31 capacity;
  is_alloc = is_alloc;
}

-- The offset from `begin`.
unfoldable pub gbuffer_at : GrowableBuffer → ℕ → Outcome ℕ
gbuffer_at gb byte_index = do assert (index_in_bounds byte_index gb.capacity); ok byte_index

unfoldable pub gbuffer_append_gbuffer_data :
    GrowableBuffer → GrowableBuffer → Blocks → Outcome (Bool × GrowableBuffer × Blocks)
gbuffer_append_gbuffer_data gb append blocks =
    read_front append.begin append.index >>= λ bytes. gbuffer_append_data gb bytes blocks

unfoldable pub gbuffer_append_sv :
    GrowableBuffer → List ℕ → Blocks → Outcome (Bool × GrowableBuffer × Blocks)
gbuffer_append_sv gb sv blocks = gbuffer_append_data gb sv blocks
