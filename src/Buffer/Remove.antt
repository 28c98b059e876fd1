-- ===== src/Buffer/Remove.antt =====
-- Removing bytes from a buffer of lib/adt/growable_buffer.c.
use aphrodite.Base.{
  ℕ, suc, ◌+◌, ◌-◌, ◌^◌, ◌<◌, ◌≤◌, ◌≡◌, ◌∙◌, refl, ap, sym, arith, min, leb, ltb, ◌==◌, true, false,
  Option, none, some, List, [], ◌++◌, length, take, drop, length-take, length-drop, ok, panic,
  ◌>>=◌, sub32, dec_lt,
}
use aphrodite.Arith.{index_in_bounds, check_add}
use aphrodite.Ranges.{Range, index_range_in_bounds, range_get_end_assert, range_get_end}
use aphrodite.Buffer.Append.{write_at-fits}
use aphrodite.Buffer.{
  GrowableBuffer, move_in, gbuffer_remove_index, gbuffer_remove_range, gbuffer_increment_ptr,
  gbuffer_free_space, u31,
}
use aphrodite.Buffer.Bytes.{
  IsBuffer, contents, block_of, take_none, drop_none, take-take, drop-take, append_nil,
}

move_in-overrun :
    (begin : Option (List ℕ)) (dst src size : ℕ)
    → length (block_of begin) < src + size
    → 0 < size
    → move_in begin dst src size ≡ panic
unfolding move_in
move_in-overrun none dst src size over some_bytes = ground arith
move_in-overrun (some block) dst src size over some_bytes = ground arith

-- A move towards the front of a block.
move_in-fits :
    (begin : Option (List ℕ)) (dst src size : ℕ)
    → src + size ≤ length (block_of begin)
    → dst ≤ src
    → (begin' : Option (List ℕ)) × (move_in begin dst src size ≡ ok begin')
      × (length (block_of begin') ≡ length (block_of begin))
      × (take (dst + size) (block_of begin')
          ≡ take dst (block_of begin) ++ take size (drop src (block_of begin)))
unfolding move_in
move_in-fits none dst src size fits h =
    let nothing : (size == 0) ≡ true = ground arith in
    (
      none,
      rw nothing refl,
      refl,
      sym (take_none (dst + size))
          ∙ take_none size
          ∙ ap (take size) (drop_none src)
          ∙ ap (λ l. l ++ take size (drop src [])) (take_none dst),
    )
move_in-fits (some block) dst src size fits h =
    let moved = take size (drop src block) in
    let inside : leb (src + size) (length block) ≡ true = ground arith in
    let n : length moved ≡ size =
      omega (arith, length-take size (drop src block), length-drop src block) in
    let (begin', e, same, holds) = write_at-fits (some block) dst moved (omega arith) in
    (begin', rw inside e, same, ap (λ k. take (dst + k) (block_of begin')) (sym n) ∙ holds)

-- The bytes before and after a gap in the bytes in use.
gap-contents :
    (block : List ℕ) (i j used : ℕ)
    → i ≤ j
    → j ≤ used
    → take i block ++ take (used - j) (drop j block)
      ≡ take i (take used block) ++ drop j (take used block)
gap-contents block i j used h h' =
    ap (λ l. l ++ take (used - j) (drop j block)) (sym (take-take i used block (omega arith)))
    ∙ ap (λ l. take i (take used block) ++ l) (sym (drop-take j used block h'))

get_end :
    (range : Range) (used : ℕ)
    → used < 2 ^ 31
    → range.front + range.size < used
    → range_get_end range ≡ some (range.front + range.size)
unfolding range_get_end check_add
get_end range used small inside = ground arith

-- The tests of `gbuffer_remove_range` on a range that ends before the bytes in use do.
range-within :
    (range : Range) (used : ℕ)
    → used < 2 ^ 31
    → range.front + range.size < used
    → index_range_in_bounds range used ≡ true
unfolding index_range_in_bounds
range-within range used small inside =
    let whole = get_end range used small inside in rw (index_range_in_bounds, whole) (ground arith)

range-end :
    (range : Range) (used : ℕ)
    → used < 2 ^ 31
    → range.front + range.size < used
    → range_get_end_assert range ≡ ok (range.front + range.size)
unfolding range_get_end_assert
range-end range used small inside =
    let whole = get_end range used small inside in rw (range_get_end_assert, whole) refl

remove_range-move_in :
    (gb : GrowableBuffer) (range : Range)
    → gb.index < 2 ^ 31
    → range.front + range.size < gb.index
    → gbuffer_remove_range gb range ≡ (
        move_in gb.begin range.front
          (range.front + range.size)
          (gb.index - (range.front + range.size))
        >>= λ moved. ok (record gb { begin = moved; index = gb.index - range.size }))
unfolding gbuffer_remove_range
remove_range-move_in gb range small inside =
    let other : (range.front + range.size == gb.index) ≡ false = ground arith in
    rw (range-within range gb.index small inside, range-end range gb.index small inside, other) refl

remove_range-moves :
    (gb : GrowableBuffer) (range : Range)
    → IsBuffer gb
    → range.front + range.size < gb.index
    → (gb' : GrowableBuffer) × (gbuffer_remove_range gb range ≡ ok gb')
      × (contents gb'
          ≡ take range.front (contents gb) ++ drop (range.front + range.size) (contents gb))
      × IsBuffer gb'
unfolding contents
remove_range-moves gb range t inside =
    let end = range.front + range.size in
    let (begin', e, same, holds) =
      move_in-fits gb.begin range.front end (gb.index - end) (omega (arith, t.used, t.sized))
        (omega arith) in
    let left : gb.index - range.size ≡ range.front + (gb.index - end) = omega arith in
    (
      record gb { begin = begin'; index = gb.index - range.size },
      remove_range-move_in gb range (omega (arith, t.used, t.small)) inside
          ∙ ap (λ m. m >>= λ moved. ok (record gb { begin = moved; index = gb.index - range.size }))
              e,
      ap (λ k. take k (block_of begin')) left
          ∙ holds
          ∙ gap-contents (block_of gb.begin) range.front end gb.index (omega arith) (omega arith),
      record { sized = same ∙ t.sized; used = omega (arith, t.used); small = t.small },
    )

-- A range that ends where the bytes in use end.
remove_range-cuts :
    (gb : GrowableBuffer) (range : Range)
    → IsBuffer gb
    → range.front + range.size ≡ gb.index
    → (gb' : GrowableBuffer) × (gbuffer_remove_range gb range ≡ ok gb')
      × (contents gb'
          ≡ take range.front (contents gb) ++ drop (range.front + range.size) (contents gb))
      × IsBuffer gb'
unfolding gbuffer_remove_range index_range_in_bounds range_get_end_assert range_get_end check_add
    contents
remove_range-cuts gb range t whole =
    let used = t.used in
    let small = t.small in
    let left : gb.index - range.size ≡ range.front = omega arith in
    let nothing : gb.index - (range.front + range.size) ≡ 0 = omega arith in
    let block = block_of gb.begin in
    (
      record gb { index = gb.index - range.size },
      ground arith,
      ap (λ k. take k block) left
          ∙ sym (append_nil (take range.front block))
          ∙ ap (λ k. take range.front block ++ take k (drop (range.front + range.size) block))
              (sym nothing)
          ∙ gap-contents block range.front (range.front + range.size) gb.index (omega arith)
              (omega arith),
      record { sized = t.sized; used = omega arith; small = small },
    )

-- On a buffer, for a range within the bytes in use, `gbuffer_remove_range` does not panic, the
-- contents are the bytes before the range and those after it, and a buffer is left.
pub gbuffer_remove_range-contents :
    (gb : GrowableBuffer) (range : Range)
    → IsBuffer gb
    → range.front + range.size ≤ gb.index
    → (gb' : GrowableBuffer) × (gbuffer_remove_range gb range ≡ ok gb')
      × (contents gb'
          ≡ take range.front (contents gb) ++ drop (range.front + range.size) (contents gb))
      × IsBuffer gb'
gbuffer_remove_range-contents gb range t inside =
    elim (dec_lt (range.front + range.size) gb.index) [
      | yes h ↦ remove_range-moves gb range t h
      | no h ↦ remove_range-cuts gb range t (omega arith)
    ]

-- Removing a byte that is not the last from a buffer with no byte to spare reads one byte beyond the
-- block: the move takes the byte after the last one in use as well.
pub gbuffer_remove_index-overrun :
    (gb : GrowableBuffer) (index : ℕ)
    → IsBuffer gb
    → gb.index ≡ gb.capacity
    → suc index < gb.index
    → gbuffer_remove_index gb index ≡ panic
unfolding gbuffer_remove_index index_in_bounds
gbuffer_remove_index-overrun gb index t whole inside =
    let inner : ltb index gb.index ≡ true = ground arith in
    let other : (index == gb.index - 1) ≡ false = ground arith in
    rw
      (
        inner,
        other,
        move_in-overrun gb.begin index (index + 1) (gb.index - index) (omega (arith, t.sized))
            (omega arith),
      )
      refl

-- The bytes in use after `gbuffer_increment_ptr` are the smaller of the free space and the amount:
-- what was in use before does not count. The result is that number, and a buffer is left.
pub gbuffer_increment_ptr-index :
    (gb : GrowableBuffer) (amount : ℕ)
    → IsBuffer gb
    → (((gbuffer_increment_ptr gb amount).1).index ≡ min (gb.capacity - gb.index) amount)
      × (((gbuffer_increment_ptr gb amount).1).index ≡ (gbuffer_increment_ptr gb amount).0)
      × IsBuffer ((gbuffer_increment_ptr gb amount).1)
unfolding gbuffer_increment_ptr gbuffer_free_space
gbuffer_increment_ptr-index gb amount t =
    let used = t.used in
    let small = t.small in
    let e : u31 (min (sub32 gb.capacity gb.index) amount) ≡ min (gb.capacity - gb.index) amount =
      ground arith in
    (e, refl, record { sized = t.sized; used = omega (arith, e); small = small })
