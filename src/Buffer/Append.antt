-- ===== src/Buffer/Append.antt =====
-- Appending to a buffer of lib/adt/growable_buffer.c.
use mathlib.Core.Path.{subst}
use aphrodite.Base.{
  ◌↔◌, ℕ, zero, suc, ◌+◌, ◌-◌, ◌^◌, ◌<◌, ◌≤◌, ◌≡◌, ◌∙◌, refl, ap, sym, arith, leb, ltb,
  if◌then◌else◌, Bool, true, false, Option, none, some, List, [], ◌∷◌, ◌++◌, length, take, drop,
  length-take, length-append, length-drop, ok, sub32, dec_le, length-replicate, replicate,
}
use aphrodite.Buffer.{
  GrowableBuffer, Blocks, malloc_size, write_at, read_front, move_to, grow_to,
  gbuffer_ensure_can_add_capacity, gbuffer_free_space, append_in, append_after, gbuffer_append_byte,
  u31,
}
use aphrodite.Buffer.Bytes.{IsBuffer, contents, block_of, take_whole, take_none, append_assoc}

-- A write into a block at an offset, where it fits.
pub write_at-fits :
    (begin : Option (List ℕ)) (offset : ℕ) (bytes : List ℕ)
    → offset + length bytes ≤ length (block_of begin)
    → (begin' : Option (List ℕ)) × (write_at begin offset bytes ≡ ok begin')
      × (length (block_of begin') ≡ length (block_of begin))
      × (take (offset + length bytes) (block_of begin') ≡ take offset (block_of begin) ++ bytes)
unfolding write_at
write_at-fits none offset [] fits =
    (none, refl, refl, sym (take_none (offset + 0)) ∙ ap (λ l. l ++ []) (take_none offset))
write_at-fits none offset (x ∷ bytes) fits = absurd (omega arith)
write_at-fits (some block) offset bytes fits =
    let rest = drop (offset + length bytes) block in
    let front = length-take offset block in
    let whole = length-append (take offset block) bytes in
    let inside : leb (offset + length bytes) (length block) ≡ true = ground arith in
    (
      some (take offset block ++ (bytes ++ rest)),
      rw inside refl,
      omega (
        arith,
        length-append (take offset block) (bytes ++ rest),
        length-append bytes rest,
        front,
        length-drop (offset + length bytes) block,
      ),
      ap (take (offset + length bytes)) (sym (append_assoc (take offset block) bytes rest))
          ∙ take_whole (offset + length bytes) (take offset block ++ bytes) rest
              (omega (arith, front, whole)),
    )

-- There is no room for more bytes, and the allocator gives no block.
abbrev pub IsRefused : GrowableBuffer → ℕ → Blocks → Type 0
IsRefused gb add blocks = (gb.capacity < gb.index + add) × ((malloc_size blocks).0 ≡ none)

-- The whole result of an append of some bytes, which fails exactly if there is neither room nor a block.
pub record Appended (gb : GrowableBuffer) (bytes : List ℕ) (blocks : Blocks)
    (r : Bool × GrowableBuffer × Blocks) : Type 0 where
  pub holds : contents (r.1) ≡ (if r.0 then contents gb ++ bytes else contents gb)
  pub usable : IsBuffer (r.1)
  pub refused : (r.0 ≡ false) ↔ IsRefused gb (length bytes) blocks

append_in-Appended :
    (gb : GrowableBuffer) (bytes : List ℕ)
    → IsBuffer gb
    → gb.index + length bytes ≤ gb.capacity
    → (gb' : GrowableBuffer) × (append_in gb bytes ≡ ok gb')
      × (contents gb' ≡ contents gb ++ bytes)
      × IsBuffer gb'
unfolding append_in contents
append_in-Appended gb bytes t room =
    let (begin', e, same, holds) = write_at-fits gb.begin gb.index bytes (omega (arith, t.sized)) in
    let short : u31 (gb.index + length bytes) ≡ gb.index + length bytes = omega (arith, t.small) in
    (
      record gb { begin = begin'; index = u31 (gb.index + length bytes) },
      rw e refl,
      rw short holds,
      record { sized = same ∙ t.sized; used = omega (arith, short); small = t.small },
    )

read_front-fits :
    (begin : Option (List ℕ)) (size : ℕ)
    → size ≤ length (block_of begin)
    → read_front begin size ≡ ok (take size (block_of begin))
unfolding read_front
read_front-fits none zero fits = refl
read_front-fits none (suc size) fits = absurd (omega arith)
read_front-fits (some block) size fits = ground arith

-- The move to a larger block keeps the bytes.
move_to-keeps :
    (gb : GrowableBuffer) (block : List ℕ)
    → IsBuffer gb
    → gb.index ≤ length block
    → length block < 2 ^ 31
    → (gb' : GrowableBuffer) × (move_to gb block ≡ ok gb')
      × (contents gb' ≡ contents gb)
      × (gb'.index ≡ gb.index)
      × (gb'.capacity ≡ length block)
      × IsBuffer gb'
unfolding move_to contents
move_to-keeps gb block t fits small =
    let used = take gb.index (block_of gb.begin) in
    let n : length used ≡ gb.index =
      omega (arith, length-take gb.index (block_of gb.begin), t.sized, t.used) in
    let (begin', e, same, holds) = write_at-fits (some block) 0 used (omega arith) in
    let whole : u31 (length block) ≡ length block = omega arith in
    (
      record { begin = begin'; index = gb.index; capacity = u31 (length block); is_alloc = true },
      rw (read_front-fits gb.begin gb.index (omega (arith, t.sized, t.used)), e) refl,
      ap (λ k. take k (block_of begin')) (omega (arith, n)) ∙ holds,
      refl,
      whole,
      record {
        sized = same ∙ sym whole;
        used = omega (arith, whole);
        small = omega (arith, whole);
      },
    )

-- The answer of the allocator to a buffer that needs more room, if it gives a block: at least what
-- was asked for, and less than 2^31 bytes.
unfoldable pub Enough : GrowableBuffer → ℕ → Blocks → Type 0
Enough gb add blocks =
    (block : List ℕ)
    → (malloc_size blocks).0 ≡ some block
    → (gb.capacity + add ≤ length block) × (length block < 2 ^ 31)

-- Room for more bytes: the bytes in use are kept, and if the result is true the room is there.
record Roomy (gb : GrowableBuffer) (add : ℕ) (blocks : Blocks) (r : Bool × GrowableBuffer × Blocks)
    : Type 0 where
  holds : contents (r.1) ≡ contents gb
  room : r.0 ≡ true → r.1.index + add ≤ r.1.capacity
  usable : IsBuffer (r.1)
  refused : (r.0 ≡ false) ↔ IsRefused gb add blocks

some_block : (block : List ℕ) → ◌≡◌ {A = Option (List ℕ)} (some block) none → ⊥
some_block block e = cc

grow_to-Roomy :
    (gb : GrowableBuffer) (add : ℕ) (blocks : Blocks) (answer : Option (List ℕ)) (rest : Blocks)
    → IsBuffer gb
    → gb.capacity < gb.index + add
    → (malloc_size blocks).0 ≡ answer
    → ((block : List ℕ)
        → answer ≡ some block
        → (gb.capacity + add ≤ length block) × (length block < 2 ^ 31))
    → (r : Bool × GrowableBuffer × Blocks) × (grow_to gb answer rest ≡ ok r) × Roomy gb add blocks r
unfolding grow_to
grow_to-Roomy gb add blocks none rest t full answer enough = (
  (false, gb, rest),
  refl,
  record { holds = refl; room = λ e. cc; usable = t; refused = (λ e. (full, answer), λ e. refl) },
)
grow_to-Roomy gb add blocks (some block) rest t full answer enough =
    let (fits, small) = enough block refl in
    let (gb', e, holds, index, capacity, t') =
      move_to-keeps gb block t (omega (arith, t.used)) small in
    (
      (true, gb', rest),
      rw e refl,
      record {
        holds = holds;
        room = λ _. omega (arith, index, capacity, t.used);
        usable = t';
        refused = (λ e. cc, λ e. absurd (some_block block (sym answer ∙ e.1)));
      },
    )

ensure-Roomy :
    (gb : GrowableBuffer) (add : ℕ) (blocks : Blocks)
    → IsBuffer gb
    → gb.capacity + add < 2 ^ 32
    → Enough gb add blocks
    → (r : Bool × GrowableBuffer × Blocks) × (gbuffer_ensure_can_add_capacity gb add blocks ≡ ok r)
      × Roomy gb add blocks r
unfolding gbuffer_ensure_can_add_capacity gbuffer_free_space Enough
ensure-Roomy gb add blocks t small enough = elim (dec_le add (gb.capacity - gb.index)) [
  | yes h ↦
      let there : leb add (sub32 gb.capacity gb.index) ≡ true = ground (arith, t.used, t.small) in
      (
        (true, gb, blocks),
        rw there refl,
        record {
          holds = refl;
          room = λ _. omega (arith, t.used);
          usable = t;
          refused = (λ e. cc, λ e. absurd (omega (arith, e.0, h, t.used)));
        },
      )
  | no h ↦
      let there : leb add (sub32 gb.capacity gb.index) ≡ false = ground (arith, t.used, t.small) in
      let word : ltb (gb.capacity + add) (2 ^ 32) ≡ true = ground arith in
      rw (there, word)
        (grow_to-Roomy gb add blocks ((malloc_size blocks).0) ((malloc_size blocks).1) t
          (omega (arith, h)) refl enough)
]

append_after-Appended :
    (gb : GrowableBuffer) (bytes : List ℕ) (add : ℕ) (blocks : Blocks)
    (r : Bool × GrowableBuffer × Blocks)
    → length bytes ≡ add
    → Roomy gb add blocks r
    → (r' : Bool × GrowableBuffer × Blocks) × (append_after r bytes ≡ ok r')
      × Appended gb bytes blocks r'
unfolding append_after
append_after-Appended gb bytes add blocks (false, gb', rest) n roomy = (
  (false, gb', rest),
  refl,
  record {
    holds = roomy.holds;
    usable = roomy.usable;
    refused = subst (λ k. (false ≡ false) ↔ IsRefused gb k blocks) (sym n) roomy.refused;
  },
)
append_after-Appended gb bytes add blocks (true, gb', rest) n roomy =
    let (done, e, holds, t) =
      append_in-Appended gb' bytes roomy.usable (omega (arith, n, roomy.room refl)) in
    (
      (true, done, rest),
      rw e refl,
      record {
        holds = holds ∙ ap (λ l. l ++ bytes) roomy.holds;
        usable = t;
        refused = subst (λ k. (true ≡ false) ↔ IsRefused gb k blocks) (sym n) roomy.refused;
      },
    )

-- On a buffer, with an allocator that gives enough where it gives anything, `gbuffer_append_byte`
-- does not panic. The result is false exactly if the bytes do not fit and the allocator gives no block;
-- then the contents are as before, and else so many copies of the byte follow them. What is left is a buffer.
pub gbuffer_append_byte-Appended :
    (gb : GrowableBuffer) (byte count : ℕ) (blocks : Blocks)
    → IsBuffer gb
    → gb.capacity + count < 2 ^ 32
    → Enough gb count blocks
    → (r : Bool × GrowableBuffer × Blocks) × (gbuffer_append_byte gb byte count blocks ≡ ok r)
      × Appended gb (replicate count byte) blocks r
unfolding gbuffer_append_byte
gbuffer_append_byte-Appended gb byte count blocks t small enough =
    let (room, e, roomy) = ensure-Roomy gb count blocks t small enough in
    rw e (
      append_after-Appended gb (replicate count byte) count blocks room
        (length-replicate count byte) roomy)
