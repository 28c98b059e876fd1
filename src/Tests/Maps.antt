-- ===== src/Tests/Maps.antt =====
-- Runs and instances for HashMap.
use aphrodite.Base.{
  ℕ, zero, suc, if◌then◌else◌, ◌==◌, ◌%◌, ◌^◌, ◌≤◌, ◌≡◌, ◌↔◌, refl, arith, Bool, true, Option, none,
  some, [], ◌∷◌, ok, panic, ◌>>=◌,
}
use mathlib.Core.Path.{subst}
use mathlib.Core.Option.{some-injective}
use aphrodite.Arith.{check_mul_assert}
use aphrodite.HashMap.{
  HashMap, Buckets, Grants, grant, bucket_at, hash_of, hashmap_initialized, node_added, add_node,
  add_at, add_in, hashmap_add, hashmap_get, hashmap_update, hashmap_remove, hashmap_resize,
  readd_buckets,
}
use aphrodite.HashMap.Nodes.{find_node, count_nodes}
use aphrodite.HashMap.View.{IsTable, IsPlaced, nodes_at}
use aphrodite.HashMap.Slot.{Inserted}
use aphrodite.HashMap.Insert.{hashmap_add-Inserted, Updated, hashmap_update-Updated}
use aphrodite.HashMap.Delete.{Removed, hashmap_remove-Removed}
use aphrodite.HashMap.Rehash.{Resized, hashmap_resize-Resized}
use aphrodite.HashMap.Lookup.{Stored, hashmap_get-Stored}

-- `hashmap_no_hash`
abbrev no_hash : ℕ → ℕ
no_hash key = key % 2 ^ 32

abbrev empty : HashMap ℕ
empty = record { buckets = none; bucket_count = 4; object_size = 8; hash = some no_hash }

abbrev two_keys : HashMap ℕ
two_keys = record {
  buckets = some (none ∷ some ((5, 50) ∷ (1, 10) ∷ []) ∷ none ∷ none ∷ []);
  bucket_count = 4;
  object_size = 8;
  hash = some no_hash;
}

abbrev plenty : Grants
plenty = some 32 ∷ some 16 ∷ some 32 ∷ some 32 ∷ []

two_adds :
    (hashmap_add empty 1 10 plenty >>= λ r. hashmap_add r.1 5 50 r.2) ≡ ok (true, two_keys, [])
unfolding hashmap_add hashmap_initialized check_mul_assert grant add_in add_at add_node node_added
    hash_of bucket_at find_node
two_adds = refl

empty-IsTable : IsTable no_hash empty
empty-IsTable = record {
  hashed = refl;
  counted = omega arith;
  sized = (omega arith, omega arith);
  placed = λ bs e. absurd cc;
}

abbrev two_buckets : Buckets ℕ
two_buckets = none ∷ some ((5, 50) ∷ (1, 10) ∷ []) ∷ none ∷ none ∷ []

two_keys-IsPlaced :
    (q i : ℕ) → count_nodes q (nodes_at two_buckets i) ≤ (if no_hash q % 4 == i then 1 else 0)
unfolding count_nodes
two_keys-IsPlaced q zero = omega arith
two_keys-IsPlaced q (suc zero) = ground arith
two_keys-IsPlaced q (suc (suc zero)) = omega arith
two_keys-IsPlaced q (suc (suc (suc zero))) = omega arith
two_keys-IsPlaced q (suc (suc (suc (suc i)))) = omega arith

two_keys-IsTable : IsTable no_hash two_keys
two_keys-IsTable = record {
  hashed = refl;
  counted = omega arith;
  sized = (omega arith, omega arith);
  placed = λ bs e.
      subst (IsPlaced no_hash 4) (some-injective two_buckets bs e) (refl, two_keys-IsPlaced);
}

hashmap_get-Stored_example :
    (r : Option ℕ) × (hashmap_get two_keys 5 ≡ ok r)
    × ((v : ℕ) → (r ≡ some v) ↔ Stored two_keys 5 v)
hashmap_get-Stored_example = hashmap_get-Stored no_hash two_keys 5 two_keys-IsTable

hashmap_add-Inserted_example :
    (r : Bool × HashMap ℕ × Grants) × (hashmap_add empty 1 10 plenty ≡ ok r)
    × Inserted no_hash empty 1 10 r
hashmap_add-Inserted_example =
    hashmap_add-Inserted no_hash empty 1 10 plenty empty-IsTable (omega arith) (omega arith)

hashmap_update-Updated_example :
    (r : Bool × HashMap ℕ × Grants) × (hashmap_update two_keys 9 90 true plenty ≡ ok r)
    × Updated no_hash two_keys 9 90 true r
hashmap_update-Updated_example =
    hashmap_update-Updated no_hash two_keys 9 90 true plenty two_keys-IsTable (omega arith)
      (omega arith)

hashmap_remove-Removed_example :
    (r : Option ℕ × HashMap ℕ) × (hashmap_remove two_keys 5 ≡ ok r) × Removed no_hash two_keys 5 r
hashmap_remove-Removed_example = hashmap_remove-Removed no_hash two_keys 5 two_keys-IsTable

hashmap_resize-Resized_example :
    (r : Bool × HashMap ℕ × Grants) × (hashmap_resize two_keys 2 plenty ≡ ok r)
    × Resized no_hash two_keys 2 r
hashmap_resize-Resized_example =
    hashmap_resize-Resized no_hash two_keys 2 plenty two_buckets two_keys-IsTable refl (omega arith)
      (omega arith)

-- A map with no insertion yet, to another width: the loop reads through its null array.
resize_null : hashmap_resize empty 8 (some 64 ∷ []) ≡ panic
unfolding hashmap_resize hashmap_initialized check_mul_assert grant readd_buckets
resize_null = refl
