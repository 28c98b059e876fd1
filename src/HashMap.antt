-- ===== src/HashMap.antt =====
-- lib/adt/hashmap.c and lib/adt/hashmap.h: a chained hash map.
--
-- A bucket is the list of its nodes, a null bucket pointer is `none`, and the bucket array is a list
-- behind an `Option` whose `none` is `buckets == NULL`. A key is the 64-bit value of its pointer,
-- and the data of a node is a value of any type. `Outcome.panic` is a failed assertion, a division
-- by zero, a call through a null pointer or a read outside the bucket array.
--
-- Memory comes from calls of the allocator, whose answers are the environment's: `Grants` lists
-- the answers to the calls to come, the size in bytes that is granted, or `none` for `NULL`. Past
-- the end of the list every call fails. Freed memory is not used again by the code and is left out.
pub mod Nodes
pub mod View
pub mod Slot
pub mod Insert
pub mod Delete
pub mod Readd
pub mod Rehash
pub mod Lookup
use Nodes.{Bucket, find_node, write_node, remove_node, list_empty}
use aphrodite.Base.{
  ℕ, zero, suc, ◌+◌, ◌*◌, ◌/◌, ◌%◌, ◌^◌, ltb, ◌==◌, if◌then◌else◌, Bool, true, false, not, ◌&&◌,
  Option, none, some, List, [], ◌∷◌, get_elem?, set, replicate, Outcome, ok, panic, assert, ◌>>=◌,
  ◌>>◌,
}
use aphrodite.Arith.{check_mul_assert}

abbrev pub Grants : Type 0
Grants = List (Option ℕ)

-- One call of the allocator.
unfoldable pub grant : Grants → Option ℕ × Grants
grant [] = (none, [])
grant (answer ∷ rest) = (answer, rest)

abbrev pub Buckets : Type 0 → Type 0
Buckets V = List (Option (Bucket V))

pub record HashMap (V : Type 0) : Type 0 where
  pub buckets : Option (Buckets V)
  pub bucket_count : ℕ
  pub object_size : ℕ
  pub hash : Option (ℕ → ℕ)

abbrev pub pointer_size : ℕ
pointer_size = 8

-- `sizeof(struct hashmap_node)`: two list pointers and the key, before the data.
abbrev pub node_size : ℕ
node_size = 24

-- `buckets[i]`
unfoldable pub bucket_at {ℓ} : {A : Type ℓ} → List A → ℕ → Outcome A
bucket_at bs i = elim (get_elem? bs i) [ none ↦ panic | some b ↦ ok b ]

module _ {V : Type 0} where
  -- `HASHMAP_INIT`
  unfoldable pub hashmap_init : ℕ → ℕ → (ℕ → ℕ) → HashMap V
  hashmap_init object_size bucket_count hash = record {
    buckets = none;
    bucket_count = bucket_count;
    object_size = object_size;
    hash = some hash;
  }

  unfoldable pub hashmap_initialized : HashMap V → Bool
  hashmap_initialized m = not (m.bucket_count == 0) && not (m.object_size == 0)

  unfoldable pub hash_of : HashMap V → ℕ → Outcome ℕ
  hash_of m key = elim (m.hash) [
    | none ↦ panic
    | some hash ↦ if m.bucket_count == 0 then panic else ok (hash key % m.bucket_count)
  ]

  -- The end of a failed insertion: an empty bucket is dropped, and so is an array made for it.
  unfoldable pub undo_add : HashMap V → Buckets V → Bool → ℕ → Bucket V → HashMap V
  undo_add m bs alloced i bucket =
      if alloced
      then record m { buckets = none }
      else if list_empty bucket
      then record m { buckets = some (set bs i none) }
      else record m { buckets = some bs }

  -- From the answer to the allocation of the node on.
  unfoldable pub node_added :
      HashMap V → Buckets V → Bool → ℕ → Bucket V → ℕ → V → Grants → Bool × HashMap V × Grants
  node_added m bs alloced i bucket key object g =
      let (node, rest) = grant g in
      elim node [
        | none ↦ (false, undo_add m bs alloced i bucket, rest)
        | some _ ↦
            (true, record m { buckets = some (set bs i (some ((key, object) ∷ bucket))) }, rest)
      ]

  -- From the allocation of the node on. `calloc` asserts that its size fits in 32 bits.
  unfoldable pub add_node :
      HashMap V
      → Buckets V
      → Bool
      → ℕ
      → Bucket V
      → ℕ
      → V
      → Grants
      → Outcome (Bool × HashMap V × Grants)
  add_node m bs alloced i bucket key object g = do
    size ← check_mul_assert 1 (node_size + m.object_size)
    ok (node_added m bs alloced i bucket key object g)

  -- `hashmap_add` from the look at the bucket on.
  unfoldable pub add_at :
      HashMap V
      → Buckets V
      → Bool
      → ℕ
      → Option (Bucket V)
      → ℕ
      → V
      → Grants
      → Outcome (Bool × HashMap V × Grants)
  add_at m bs alloced i (some bucket) key object g = elim (find_node key bucket) [
    | some _ ↦ ok (false, undo_add m bs alloced i bucket, g)
    | none ↦ add_node m bs alloced i bucket key object g
  ]
  add_at m bs alloced i none key object g =
      let (bucket, rest) = grant g in
      elim bucket [
        | none ↦ ok (
          false,
          (if alloced then record m { buckets = none } else record m { buckets = some bs }),
          rest,
        )
        | some _ ↦ add_node m bs alloced i [] key object rest
      ]

  -- `hashmap_add` once there is an array of buckets.
  unfoldable pub add_in :
      HashMap V → Buckets V → Bool → ℕ → V → Grants → Outcome (Bool × HashMap V × Grants)
  add_in m bs alloced key object g = do
    i ← hash_of m key
    slot ← bucket_at bs i
    add_at m bs alloced i slot key object g

  -- `calloc_size` stores the granted number of buckets, which is 0 where it fails.
  unfoldable pub hashmap_add : HashMap V → ℕ → V → Grants → Outcome (Bool × HashMap V × Grants)
  hashmap_add m key object g = do
    assert (hashmap_initialized m)
    elim (m.buckets) [
      | some bs ↦ add_in m bs false key object g
      | none ↦ do
        size ← check_mul_assert m.bucket_count pointer_size
        let answer = grant g
        elim (answer.0) [
          | none ↦ ok (false, record m { bucket_count = 0 }, answer.1)
          | some bytes ↦
              let count = bytes / pointer_size in
              add_in (record m { bucket_count = count }) (replicate count none) true key object
                answer.1
        ]
    ]

  unfoldable pub hashmap_get : HashMap V → ℕ → Outcome (Option V)
  hashmap_get m key = do
    assert (hashmap_initialized m)
    elim (m.buckets) [
      | none ↦ ok none
      | some bs ↦ do
        i ← hash_of m key
        slot ← bucket_at bs i
        elim slot [ none ↦ ok none | some bucket ↦ ok (find_node key bucket) ]
    ]

  -- `hashmap_update` from the look at the bucket on.
  unfoldable pub update_at :
      HashMap V
      → Buckets V
      → ℕ
      → Option (Bucket V)
      → ℕ
      → V
      → Bool
      → Grants
      → Outcome (Bool × HashMap V × Grants)
  update_at m bs i (some bucket) key object add_if_missing g = elim (find_node key bucket) [
    | some _ ↦
        ok (true, record m { buckets = some (set bs i (some (write_node key object bucket))) }, g)
    | none ↦ if add_if_missing then add_node m bs false i bucket key object g else ok (false, m, g)
  ]
  update_at m bs i none key object add_if_missing g =
      if add_if_missing
      then (let (bucket, rest) = grant g in
          elim bucket [
            | none ↦ ok (false, m, rest)
            | some _ ↦ add_node m bs false i [] key object rest
          ])
      else ok (false, m, g)

  unfoldable pub hashmap_update :
      HashMap V → ℕ → V → Bool → Grants → Outcome (Bool × HashMap V × Grants)
  hashmap_update m key object add_if_missing g = do
    assert (hashmap_initialized m)
    elim (m.buckets) [
      | none ↦ if add_if_missing then hashmap_add m key object g else ok (false, m, g)
      | some bs ↦ do
        i ← hash_of m key
        slot ← bucket_at bs i
        update_at m bs i slot key object add_if_missing g
    ]

  -- The new bucket pointer after the removal of a node: a bucket that is left empty is freed.
  unfoldable pub shrink : Bucket V → Option (Bucket V)
  shrink bucket = if list_empty bucket then none else some bucket

  -- The result also has what is copied to `object_ptr`, `none` where nothing is removed.
  unfoldable pub hashmap_remove : HashMap V → ℕ → Outcome (Option V × HashMap V)
  hashmap_remove m key = do
    assert (hashmap_initialized m)
    elim (m.buckets) [
      | none ↦ ok (none, m)
      | some bs ↦ do
        i ← hash_of m key
        slot ← bucket_at bs i
        elim slot [
          | none ↦ ok (none, m)
          | some bucket ↦ elim (find_node key bucket) [
            | none ↦ ok (none, m)
            | some object ↦ ok (
              some object,
              record m { buckets = some (set bs i (shrink (remove_node key bucket))) },
            )
          ]
        ]
    ]

  unfoldable pub hashmap_destroy : HashMap V → HashMap V
  hashmap_destroy m = record { buckets = none; bucket_count = 0; object_size = 0; hash = none }

  -- The inner loop of `hashmap_resize`: the nodes of one bucket are added one by one. The loop stops
  -- at the first failure.
  unfoldable pub readd_nodes : Bucket V → HashMap V → Grants → Outcome (Bool × HashMap V × Grants)
  readd_nodes [] m g = ok (true, m, g)
  readd_nodes ((k, v) ∷ nodes) m g = do
    added ← hashmap_add m k v g
    elim (added.0) [ true ↦ readd_nodes nodes (added.1) (added.2) | false ↦ ok added ]

  -- One round of the outer loop: a null bucket has no nodes.
  unfoldable pub readd_slot :
      Option (Bucket V) → HashMap V → Grants → Outcome (Bool × HashMap V × Grants)
  readd_slot none m g = ok (true, m, g)
  readd_slot (some bucket) m g = readd_nodes bucket m g

  -- The outer loop, over the bucket pointers from the `i`th of the old array on. A read through a
  -- null array and one past the end of the array panic.
  unfoldable pub readd_buckets :
      Option (Buckets V) → ℕ → ℕ → HashMap V → Grants → Outcome (Bool × HashMap V × Grants)
  readd_buckets old i zero m g = ok (true, m, g)
  readd_buckets old i (suc left) m g = elim old [
    | none ↦ panic
    | some bs ↦ do
      slot ← bucket_at bs i
      added ← readd_slot slot m g
      elim (added.0) [
        | true ↦ readd_buckets old (suc i) left (added.1) (added.2)
        | false ↦ ok added
      ]
  ]

  unfoldable pub hashmap_resize : HashMap V → ℕ → Grants → Outcome (Bool × HashMap V × Grants)
  hashmap_resize m bucket_count g = do
    assert (hashmap_initialized m)
    assert (not (bucket_count == 0))
    if m.bucket_count == bucket_count then ok (true, m, g) else do
      size ← check_mul_assert bucket_count pointer_size
      let answer = grant g
      elim (answer.0) [
        | none ↦ ok (false, m, answer.1)
        | some _ ↦ do
          let fresh = record m {
            buckets = some (replicate bucket_count none);
            bucket_count = bucket_count;
          }
          moved ← readd_buckets (m.buckets) 0 (m.bucket_count) fresh (answer.1)
          elim (moved.0) [
            | true ↦ ok moved
            | false ↦ ok (
              false,
              record (hashmap_destroy (moved.1)) {
                buckets = m.buckets;
                bucket_count = m.bucket_count;
              },
              moved.2,
            )
          ]
      ]
