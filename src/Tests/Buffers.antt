-- ===== src/Tests/Buffers.antt =====
-- Runs of lib/adt/growable_buffer.c on small buffers.
use aphrodite.Base.{◌+◌, ◌≡◌, refl, arith, true, some, [], ◌∷◌, ◌++◌, take, drop, replicate, ok}
use aphrodite.Ranges.{Range}
use aphrodite.Buffer.{GrowableBuffer, Blocks, gbuffer_remove_range}
use aphrodite.Buffer.Bytes.{IsBuffer, contents}
use aphrodite.Buffer.Remove.{gbuffer_remove_range-contents}

-- Three bytes in use of four, and all of four.
abbrev three_bytes : GrowableBuffer
three_bytes = record { begin = some (7 ∷ 8 ∷ 9 ∷ 0 ∷ []); index = 3; capacity = 4; is_alloc = true }

three_bytes-IsBuffer : IsBuffer three_bytes
three_bytes-IsBuffer = record { sized = refl; used = omega arith; small = omega arith }

abbrev eight_more : Blocks
eight_more = some (replicate 8 0) ∷ []

abbrev middle : Range
middle = record { front = 1; size = 1 }

gbuffer_remove_range-contents_example :
    (gb' : GrowableBuffer) × (gbuffer_remove_range three_bytes middle ≡ ok gb')
    × (contents gb' ≡ take 1 (contents three_bytes) ++ drop (1 + 1) (contents three_bytes))
    × IsBuffer gb'
gbuffer_remove_range-contents_example =
    gbuffer_remove_range-contents three_bytes middle three_bytes-IsBuffer (omega arith)
