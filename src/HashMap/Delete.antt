-- ===== src/HashMap/Delete.antt =====
-- `hashmap_remove` refines the removal of a key from a function.
use aphrodite.Base.{
  ℕ, ◌%◌, ◌≤◌, ◌≡◌, refl, sym, arith, ◌==◌, if◌then◌else◌, Option, none, some, [], ◌∷◌, get_or, set,
  ok, Option-cases, inl, inr, ap,
}
use aphrodite.HashMap.{HashMap, Buckets, hashmap_initialized, hashmap_remove, shrink}
use aphrodite.HashMap.Nodes.{
  Bucket, find_node, remove_node, count_nodes, find_node-remove_node, count_nodes-remove_node,
}
use aphrodite.HashMap.Slot.{with_buckets}
use aphrodite.HashMap.View.{
  IsTable, IsPlaced, view, nodes_of, nodes_at, set-IsPlaced, view_in-set, hash_of-mod,
  bucket_at-get_or,
}

nodes_of-shrink : {V : Type 0} (b : Bucket V) → nodes_of (shrink b) ≡ b
unfolding shrink
nodes_of-shrink [] = refl
nodes_of-shrink (e ∷ b) = refl

module _ {V : Type 0} (h : ℕ → ℕ) where
  -- What `hashmap_remove` did: it returns the data of the key, and the key is gone.
  pub record Removed (m : HashMap V) (key : ℕ) (r : Option V × HashMap V) : Type 0 where
    pub returns : r.0 ≡ view h m key
    pub reads : (q : ℕ) → view h r.1 q ≡ (if key == q then none else view h m q)
    pub usable : IsTable h r.1

  module _ (m : HashMap V) (bs : Buckets V) (key : ℕ) (t : IsTable h m)
      (e : m.buckets ≡ some bs) where
    abbrev home : ℕ
    home = h key % m.bucket_count

    placed : IsPlaced h m.bucket_count bs
    placed = t.placed bs e

    absent-Removed : view h m key ≡ none → Removed m key (none, m)
    absent-Removed nothing = record { returns = sym nothing; reads = λ q. ground arith; usable = t }

    present-Removed :
        (b : Bucket V) (old : V)
        → nodes_at bs home ≡ b
        → find_node key b ≡ some old
        → Removed m key
            (some old, record m { buckets = some (set bs home (shrink (remove_node key b))) })
    present-Removed b old nodes there =
        let counted = t.counted in
        let left = remove_node key b in
        let few : (q : ℕ) → count_nodes q b ≤ (if h q % m.bucket_count == home then 1 else 0) =
          rw (← nodes) (λ q. placed.1 q home) in
        record {
          returns = ground (arith, ap (find_node key) nodes);
          reads = λ q. ground (
            arith,
            view_in-set h m.bucket_count bs key q (shrink left) placed counted,
            ap (find_node q) (nodes_of-shrink left),
            ap (find_node q) nodes,
            find_node-remove_node key q b (ground (arith, few key)),
          );
          usable = with_buckets h m _ t.hashed t.counted t.sized (
              set-IsPlaced h m.bucket_count bs home (shrink left) placed (omega arith) (λ q.
                rw (nodes_of-shrink left) (omega (arith, few q, count_nodes-remove_node key q b))));
        }

    remove_at :
        (slot : Option (Bucket V))
        → get_or bs home none ≡ slot
        → (r : Option V × HashMap V) × (hashmap_remove m key ≡ ok r) × Removed m key r
    unfolding hashmap_remove hashmap_initialized
    remove_at none at =
        let counted = t.counted in
        let sized = t.sized.0 in
        (
          (none, m),
          ground (
            arith,
            hash_of-mod h m key t.hashed t.counted,
            bucket_at-get_or bs home (omega (arith, placed)),
          ),
          absent-Removed (unfold find_node in rw (e, at)),
        )
    remove_at (some b) at = elim (Option-cases (find_node key b)) [
      | inl nothing ↦
          let counted = t.counted in
          let sized = t.sized.0 in
          (
            (none, m),
            ground (
              arith,
              hash_of-mod h m key t.hashed t.counted,
              bucket_at-get_or bs home (omega (arith, placed)),
            ),
            absent-Removed (rw (e, at) nothing),
          )
      | inr (old, there) ↦
          let counted = t.counted in
          let sized = t.sized.0 in
          (
            (some old, record m { buckets = some (set bs home (shrink (remove_node key b))) }),
            ground (
              arith,
              hash_of-mod h m key t.hashed t.counted,
              bucket_at-get_or bs home (omega (arith, placed)),
            ),
            present-Removed b old (ap nodes_of at) there,
          )
    ]

  -- On a table `hashmap_remove` does not panic. It copies out the data that the key had, if any;
  -- after it the key is gone, every other key reads as before, and the map is a table again.
  pub hashmap_remove-Removed :
      (m : HashMap V) (key : ℕ)
      → IsTable h m
      → (r : Option V × HashMap V) × (hashmap_remove m key ≡ ok r) × Removed m key r
  unfolding hashmap_remove hashmap_initialized
  hashmap_remove-Removed m key t = elim (Option-cases m.buckets) [
    | inr (bs, e) ↦ remove_at m bs key t e (get_or bs (h key % m.bucket_count) none) refl
    | inl e ↦
        let counted = t.counted in
        let sized = t.sized.0 in
        (
          (none, m),
          ground arith,
          record { returns = ground arith; reads = λ q. ground arith; usable = t },
        )
  ]
