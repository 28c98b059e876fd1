-- ===== src/Strings.antt =====
-- lib/adt/mutable_buffer.c: bytes that are appended to a fixed block. (Names of lib/adt/mutable_buffer.h for two
-- functions differ.)
--
-- `begin` is the list of the bytes from `begin` to `end`; `index` is a `uint32_t`. A panic is an access outside the
-- block or of the data.
pub mod Fill
pub mod Views
pub mod Compare
use aphrodite.Base.{
  ℕ, ◌+◌, ◌-◌, ◌%◌, ◌^◌, min, ltb, leb, ◌==◌, if◌then◌else◌, Bool, true, false, List, length, take,
  replicate, Option, none, some, Outcome, ok, panic, ◌>>=◌, u32, sub32, sub64,
}
use aphrodite.Buffer.{write_at}
use aphrodite.Buffer.Bytes.{block_of}

pub record MutableBuffer : Type 0 where
  pub begin : List ℕ
  pub index : ℕ

unfoldable pub mbuffer_open_static : List ℕ → ℕ → MutableBuffer
mbuffer_open_static buffer used = record { begin = buffer; index = used }

-- `distance` is a 64-bit difference.
unfoldable pub mbuffer_free_space : MutableBuffer → ℕ
mbuffer_free_space mbuffer = u32 (sub64 (length mbuffer.begin) mbuffer.index)

unfoldable pub mbuffer_used_size : MutableBuffer → ℕ
mbuffer_used_size mbuffer = mbuffer.index

unfoldable pub mbuffer_capacity : MutableBuffer → ℕ
mbuffer_capacity mbuffer = u32 (length mbuffer.begin)

unfoldable pub mbuffer_can_add_size : MutableBuffer → ℕ → Bool
mbuffer_can_add_size mbuffer size = leb size (mbuffer_free_space mbuffer)

unfoldable pub mbuffer_full : MutableBuffer → Bool
mbuffer_full mbuffer = mbuffer_used_size mbuffer == mbuffer_capacity mbuffer

-- It does not touch the buffer.
unfoldable pub mbuffer_increment_ptr : MutableBuffer → ℕ → ℕ × MutableBuffer
mbuffer_increment_ptr mbuffer bad_amt = (min (mbuffer_free_space mbuffer) bad_amt, mbuffer)

unfoldable pub mbuffer_decrement_ptr : MutableBuffer → ℕ → ℕ × MutableBuffer
mbuffer_decrement_ptr mbuffer bad_amt =
    let decrement_amt = min (mbuffer_used_size mbuffer) bad_amt in
    (decrement_amt, record mbuffer { index = sub32 mbuffer.index decrement_amt })

-- The length that fits.
unfoldable pub preprocess_for_append : MutableBuffer → ℕ → ℕ
preprocess_for_append mbuffer length =
    let free_space = mbuffer_free_space mbuffer in
    if leb free_space length then free_space else length

-- The bytes go to where the index was.
unfoldable pub put_bytes : MutableBuffer → List ℕ → Outcome (ℕ × MutableBuffer)
put_bytes mbuffer bytes = write_at (some mbuffer.begin) mbuffer.index bytes >>= (λ begin.
    ok
      (length bytes, record { begin = block_of begin; index = u32 (mbuffer.index + length bytes) }))

unfoldable pub mbuffer_append_byte : MutableBuffer → ℕ → ℕ → Outcome (ℕ × MutableBuffer)
mbuffer_append_byte mbuffer byte count =
    put_bytes mbuffer (replicate (preprocess_for_append mbuffer count) byte)

-- Of the data, as many bytes as fit; data has fewer than 2 ^ 32 bytes.
unfoldable pub mbuffer_append_data : MutableBuffer → List ℕ → Outcome (ℕ × MutableBuffer)
mbuffer_append_data mbuffer data_bytes =
    put_bytes mbuffer (take (preprocess_for_append mbuffer (length data_bytes)) data_bytes)

unfoldable pub mbuffer_truncate : MutableBuffer → ℕ → Bool × MutableBuffer
mbuffer_truncate mbuffer new_used_size =
    if ltb (mbuffer_used_size mbuffer) new_used_size
    then (false, mbuffer)
    else (true, record mbuffer { index = new_used_size })
