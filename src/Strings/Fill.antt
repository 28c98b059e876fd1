-- ===== src/Strings/Fill.antt =====
-- What is in a buffer of lib/adt/mutable_buffer.c.
use aphrodite.Base.{
  ℕ, zero, suc, ◌+◌, ◌-◌, ◌^◌, ◌<◌, ◌≤◌, ◌≡◌, ◌∙◌, refl, ap, sym, arith, min, leb, true, false,
  List, [], ◌∷◌, ◌++◌, length, take, replicate, length-take, length-replicate, length-append, some,
  ok, u32, dec_le,
}
use aphrodite.Buffer.Bytes.{block_of, take_past}
use aphrodite.Buffer.Append.{write_at-fits}
use aphrodite.Strings.{
  MutableBuffer, mbuffer_free_space, preprocess_for_append, put_bytes, mbuffer_append_byte,
  mbuffer_append_data,
}

pub record IsOpen (m : MutableBuffer) : Type 0 where
  pub used : m.index ≤ length m.begin
  pub small : length m.begin < 2 ^ 32

-- The bytes that are used.
unfoldable pub used_bytes : MutableBuffer → List ℕ
used_bytes m = take m.index m.begin

-- Some bytes are appended to a buffer as far as its block reaches.
pub record Filled (m : MutableBuffer) (bytes : List ℕ) (r : ℕ × MutableBuffer) : Type 0 where
  pub holds : used_bytes (r.1) ≡ take (length m.begin) (used_bytes m ++ bytes)
  pub count : length (used_bytes m) + r.0 ≡ length (used_bytes (r.1))
  pub still : IsOpen (r.1)
  pub capacity : length ((r.1).begin) ≡ length m.begin

free_space : (m : MutableBuffer) → IsOpen m → mbuffer_free_space m ≡ length m.begin - m.index
unfolding mbuffer_free_space
free_space m t = ground (arith, t.used, t.small)

put_bytes-fits :
    (m : MutableBuffer) (bytes : List ℕ)
    → IsOpen m
    → m.index + length bytes ≤ length m.begin
    → (r : ℕ × MutableBuffer) × (put_bytes m bytes ≡ ok r)
      × (r.0 ≡ length bytes)
      × (used_bytes (r.1) ≡ used_bytes m ++ bytes)
      × IsOpen (r.1)
      × (length ((r.1).begin) ≡ length m.begin)
unfolding put_bytes used_bytes
put_bytes-fits m bytes t fits =
    let (begin, e, same, holds) = write_at-fits (some m.begin) m.index bytes fits in
    let index : u32 (m.index + length bytes) ≡ m.index + length bytes =
      ground (arith, fits, t.small) in
    (
      (length bytes, record { begin = block_of begin; index = u32 (m.index + length bytes) }),
      rw e refl,
      refl,
      ap (λ i. take i (block_of begin)) index ∙ holds,
      record { used = omega (arith, index, same, fits); small = omega (arith, same, t.small) },
      same,
    )

-- What fits of some bytes follows those that are used.
fill :
    (m : MutableBuffer) (bytes more : List ℕ)
    → IsOpen m
    → bytes ≡ take (length m.begin - m.index) more
    → (r : ℕ × MutableBuffer) × (put_bytes m bytes ≡ ok r) × Filled m more r
unfolding used_bytes
fill m bytes more t cut =
    let size : length bytes ≡ min (length m.begin - m.index) (length more) =
      ap length cut ∙ length-take (length m.begin - m.index) more in
    let (r, e, count, holds, still, capacity) =
      put_bytes-fits m bytes t (omega (arith, size, t.used)) in
    let front : length (used_bytes m) ≡ m.index =
      omega (arith, length-take m.index m.begin, t.used) in
    let room : m.index + (length m.begin - m.index) ≡ length m.begin = omega (arith, t.used) in
    (
      r,
      e,
      record {
        holds =
            holds
            ∙ ap (λ l. used_bytes m ++ l) cut
            ∙ sym (take_past m.index (length m.begin - m.index) (used_bytes m) more front)
            ∙ ap (λ n. take n (used_bytes m ++ more)) room;
        count = omega (arith, ap length holds, length-append (used_bytes m) bytes, count);
        still = still;
        capacity = capacity;
      },
    )

take_all : (n : ℕ) (xs : List ℕ) → length xs ≤ n → take n xs ≡ xs
take_all zero [] h = refl
take_all zero (x ∷ xs) h = absurd (omega (arith, h))
take_all (suc n) [] h = refl
take_all (suc n) (x ∷ xs) h = ap (◌∷◌ x) (take_all n xs (omega (arith, h)))

take-replicate : (n k x : ℕ) → n ≤ k → take n (replicate k x) ≡ replicate n x
take-replicate zero k x h = refl
take-replicate (suc n) zero x h = absurd (omega (arith, h))
take-replicate (suc n) (suc k) x h = ap (◌∷◌ x) (take-replicate n k x (omega (arith, h)))

fitting :
    (m : MutableBuffer) (bytes : List ℕ)
    → IsOpen m
    → take (preprocess_for_append m (length bytes)) bytes ≡ take (length m.begin - m.index) bytes
unfolding preprocess_for_append
fitting m bytes t = elim (dec_le (mbuffer_free_space m) (length bytes)) [
  | yes cut ↦
      let e : leb (mbuffer_free_space m) (length bytes) ≡ true = ground arith in
      rw e (ap (λ n. take n bytes) (free_space m t))
  | no whole ↦
      let e : leb (mbuffer_free_space m) (length bytes) ≡ false = ground arith in
      rw e (
        take_all (length bytes) bytes (omega arith)
        ∙ sym (take_all (length m.begin - m.index) bytes (omega (arith, whole, free_space m t))))
]

fitting_bytes :
    (m : MutableBuffer) (byte count : ℕ)
    → IsOpen m
    → replicate (preprocess_for_append m count) byte
      ≡ take (length m.begin - m.index) (replicate count byte)
unfolding preprocess_for_append
fitting_bytes m byte count t = elim (dec_le (mbuffer_free_space m) count) [
  | yes cut ↦
      let e : leb (mbuffer_free_space m) count ≡ true = ground arith in
      rw e (
        ap (λ n. replicate n byte) (free_space m t)
        ∙ sym (
            take-replicate (length m.begin - m.index) count byte
              (omega (arith, cut, free_space m t))))
  | no whole ↦
      let e : leb (mbuffer_free_space m) count ≡ false = ground arith in
      let long = length-replicate count byte in
      rw e (
        sym (
          take_all (length m.begin - m.index) (replicate count byte)
            (omega (arith, long, whole, free_space m t))))
]

-- Appending data to a buffer that holds less than 2 ^ 32 bytes leaves it with the bytes it held and then the data, cut
-- where the block ends; the result is the number of bytes added, and nothing outside the block is written.
pub mbuffer_append_data-Filled :
    (m : MutableBuffer) (bytes : List ℕ)
    → IsOpen m
    → (r : ℕ × MutableBuffer) × (mbuffer_append_data m bytes ≡ ok r) × Filled m bytes r
unfolding mbuffer_append_data
mbuffer_append_data-Filled m bytes t =
    fill m (take (preprocess_for_append m (length bytes)) bytes) bytes t (fitting m bytes t)

-- The same of a byte that is appended many times.
pub mbuffer_append_byte-Filled :
    (m : MutableBuffer) (byte count : ℕ)
    → IsOpen m
    → (r : ℕ × MutableBuffer) × (mbuffer_append_byte m byte count ≡ ok r)
      × Filled m (replicate count byte) r
unfolding mbuffer_append_byte
mbuffer_append_byte-Filled m byte count t =
    fill m (replicate (preprocess_for_append m count) byte) (replicate count byte) t
      (fitting_bytes m byte count t)
