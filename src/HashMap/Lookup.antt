-- ===== src/HashMap/Lookup.antt =====
-- `hashmap_get` of lib/adt/hashmap.c, against the nodes that the buckets of the map have.
use aphrodite.Base.{
  ℕ, ◌%◌, ◌≤◌, ◌≡◌, ◌↔◌, ◌⊎◌, arith, Option, some, [], ◌∷◌, ok, inl, inr, Option-cases, ℕ_discrete,
}
use aphrodite.HashMap.{HashMap, Buckets, hashmap_get}
use aphrodite.HashMap.Nodes.{Bucket, find_node, count_nodes}
use aphrodite.HashMap.View.{IsTable, view, nodes_at, hashmap_get-view}

module _ {V : Type 0} where
  -- Some node of a bucket has the key and the data.
  unfoldable pub HasNode : ℕ → V → Bucket V → Type 0
  HasNode key v [] = ⊥
  HasNode key v ((k, w) ∷ nodes) = ((k ≡ key) × (w ≡ v)) ⊎ HasNode key v nodes

  -- Some node of some bucket of the map has the key and the data.
  abbrev pub Stored : HashMap V → ℕ → V → Type 0
  Stored m key v =
      (bs : Buckets V) × (m.buckets ≡ some bs) × ((i : ℕ) × HasNode key v (nodes_at bs i))

  found-HasNode : (key : ℕ) (v : V) (b : Bucket V) → find_node key b ≡ some v → HasNode key v b
  unfolding find_node HasNode
  found-HasNode key v [] e = absurd cc
  found-HasNode key v ((k, w) ∷ b) e = elim (ℕ_discrete k key) [
    | yes same ↦ inl (same, ground arith)
    | no other ↦ inr (found-HasNode key v b (ground arith))
  ]

  HasNode-counted : (key : ℕ) (v : V) (b : Bucket V) → HasNode key v b → 1 ≤ count_nodes key b
  unfolding HasNode count_nodes
  HasNode-counted key v [] has = elim has [ ]
  HasNode-counted key v ((k, w) ∷ b) (inl (same, object)) = ground arith
  HasNode-counted key v ((k, w) ∷ b) (inr later) = ground (arith, HasNode-counted key v b later)

  -- A key that one node has at most is found by every node that has it.
  HasNode-found :
      (key : ℕ) (v : V) (b : Bucket V)
      → count_nodes key b ≤ 1
      → HasNode key v b
      → find_node key b ≡ some v
  unfolding HasNode count_nodes find_node
  HasNode-found key v [] few has = elim has [ ]
  HasNode-found key v ((k, w) ∷ b) few (inl (same, object)) = ground arith
  HasNode-found key v ((k, w) ∷ b) few (inr later) =
      ground (arith, HasNode-counted key v b later, HasNode-found key v b)

module _ {V : Type 0} (h : ℕ → ℕ) where
  Stored-view :
      (m : HashMap V) (key : ℕ) (v : V) → IsTable h m → Stored m key v → view h m key ≡ some v
  Stored-view m key v t (bs, e, (i, has)) =
      let few = (t.placed bs e).1 key i in
      let there = HasNode-counted key v (nodes_at bs i) has in
      let home : h key % m.bucket_count ≡ i = ground arith in
      rw (e, home) (HasNode-found key v (nodes_at bs i) (ground arith) has)

  view-Stored : (m : HashMap V) (key : ℕ) (v : V) → view h m key ≡ some v → Stored m key v
  view-Stored m key v seen = elim (Option-cases m.buckets) [
    | inl e ↦ absurd (ground arith)
    | inr (bs, e) ↦ (bs, e, (h key % m.bucket_count, found-HasNode key v _ (ground arith)))
  ]

  -- On a table `hashmap_get` does not panic, and what it returns for a key is exactly the data that
  -- a node with that key has, in whichever bucket: it returns `v` if and only if some node of the map
  -- has the key and `v`.
  pub hashmap_get-Stored :
      (m : HashMap V) (key : ℕ)
      → IsTable h m
      → (r : Option V) × (hashmap_get m key ≡ ok r) × ((v : V) → (r ≡ some v) ↔ Stored m key v)
  hashmap_get-Stored m key t =
      (view h m key, hashmap_get-view h m key t, λ v. (view-Stored m key v, Stored-view m key v t))
