-- ===== src/HashMap/Slot.antt =====
-- Insertions into an array of buckets: what each way through `hashmap_add` does to the lookups.
use aphrodite.Base.{
  ℕ, ◌%◌, ◌<◌, ◌≡◌, refl, arith, ◌==◌, if◌then◌else◌, Bool, true, false, ◌&&◌, Option, none, some,
  [], ◌∷◌, get_or, set, Outcome, ok, Option-cases, Bool-cases, inl, inr, ◌∙◌, ap,
}
use mathlib.Core.Path.{subst}
use mathlib.Core.Option.{some-injective}
use aphrodite.Arith.{check_mul_assert}
use aphrodite.HashMap.{
  HashMap, Buckets, Grants, grant, undo_add, node_added, add_node, add_at, add_in,
}
use aphrodite.HashMap.Nodes.{
  Bucket, find_node, write_node, count_nodes, count_nodes-absent, find_node-write_node,
  count_nodes-write_node, list_empty,
}
use aphrodite.HashMap.View.{
  IsSized, IsTable, IsPlaced, view, view_in, nodes_of, nodes_at, set-IsPlaced, view_in-set,
  hash_of-mod, bucket_at-get_or,
}

-- The size of a node fits: the allocation goes on.
pub add_node-fits :
    {V : Type 0} (m : HashMap V) (bs : Buckets V) (alloced : Bool) (i : ℕ) (b : Bucket V) (key : ℕ)
    (object : V) (g : Grants)
    → IsSized m.object_size
    → add_node m bs alloced i b key object g ≡ ok (node_added m bs alloced i b key object g)
unfolding add_node check_mul_assert
add_node-fits m bs alloced i b key object g sized = ground arith

module _ {V : Type 0} (h : ℕ → ℕ) where
  -- What an insertion of `object` at `key` did, by its Boolean result: if true the key was absent
  -- and the map has changed there, if false no lookup has changed. The table stays in order, but
  -- for a map that has lost its buckets.
  pub record Inserted (m : HashMap V) (key : ℕ) (object : V) (r : Bool × HashMap V × Grants)
      : Type 0 where
    pub absent : r.0 ≡ true → view h m key ≡ none
    pub reads : (q : ℕ) → view h (r.1) q ≡ (if r.0 && key == q then some object else view h m q)
    pub usable : 0 < (r.1).bucket_count → IsTable h (r.1)

  pub with_buckets :
      (m : HashMap V) (bs : Buckets V)
      → m.hash ≡ some h
      → 0 < m.bucket_count
      → IsSized m.object_size
      → IsPlaced h m.bucket_count bs
      → IsTable h (record m { buckets = some bs })
  with_buckets m bs hashed counted sized p = record {
    hashed = hashed;
    counted = counted;
    sized = sized;
    placed = λ cs e. subst (IsPlaced {V = V} h m.bucket_count) (some-injective bs cs e) p;
  }

  without_buckets :
      (m : HashMap V)
      → m.hash ≡ some h
      → 0 < m.bucket_count
      → IsSized m.object_size
      → IsTable h (record m { buckets = none })
  without_buckets m hashed counted sized = record {
    hashed = hashed;
    counted = counted;
    sized = sized;
    placed = λ cs e. absurd cc;
  }

  module _ (n : ℕ) (bs : Buckets V) (key : ℕ) (pos : 0 < n) (placed : IsPlaced h n bs) where
    abbrev home : ℕ
    home = h key % n

    -- A new node in front of the bucket of its key.
    push-view_in :
        (object : V) (q : ℕ)
        → view_in h n (set bs home (some ((key, object) ∷ nodes_at bs home))) q
          ≡ (if key == q then some object else view_in h n bs q)
    unfolding find_node
    push-view_in object q =
        ground
          (arith, view_in-set h n bs key q (some ((key, object) ∷ nodes_at bs home)) placed pos)

    push-IsPlaced :
        (object : V)
        → view_in h n bs key ≡ none
        → IsPlaced h n (set bs home (some ((key, object) ∷ nodes_at bs home)))
    unfolding count_nodes
    push-IsPlaced object absent =
        set-IsPlaced h n bs home _ placed (omega arith)
          λ q. ground (arith, placed.1 q home, count_nodes-absent key (nodes_at bs home))

    -- An empty bucket is dropped.
    drop-view_in :
        (q : ℕ)
        → list_empty (nodes_at bs home) ≡ true
        → view_in h n (set bs home none) q ≡ view_in h n bs q
    unfolding find_node
    drop-view_in q e = ground (arith, view_in-set h n bs key q none placed pos)

    drop-IsPlaced : IsPlaced h n (set bs home none)
    unfolding count_nodes
    drop-IsPlaced = set-IsPlaced h n bs home none placed (omega arith) (λ q. omega arith)

    -- New data in a node that is there.
    pub write-view_in :
        (object old : V) (q : ℕ)
        → view_in h n bs key ≡ some old
        → view_in h n (set bs home (some (write_node key object (nodes_at bs home)))) q
          ≡ (if key == q then some object else view_in h n bs q)
    write-view_in object old q e = ground (
      arith,
      view_in-set h n bs key q (some (write_node key object (nodes_at bs home))) placed pos,
      find_node-write_node key q object (nodes_at bs home) old,
    )

    pub write-IsPlaced :
        (object : V) → IsPlaced h n (set bs home (some (write_node key object (nodes_at bs home))))
    write-IsPlaced object =
        set-IsPlaced h n bs home _ placed (omega arith)
          λ q. rw (count_nodes-write_node key q object (nodes_at bs home)) (placed.1 q home)

  -- The map and the array that an insertion works on: its own array, or one made for it.
  pub data Ready (m : HashMap V) (bs : Buckets V) : Bool → Type 0 where
    made : m.buckets ≡ none → ((q : ℕ) → view_in h m.bucket_count bs q ≡ none) → Ready m bs true
    kept : m.buckets ≡ some bs → Ready m bs false

  Ready-view :
      {m : HashMap V} {bs : Buckets V} {alloced : Bool}
      → Ready m bs alloced
      → (q : ℕ) → view h m q ≡ view_in h m.bucket_count bs q
  Ready-view (made e nothing) q = ground (arith, nothing q)
  Ready-view (kept e) q = ground arith

  module _ (m : HashMap V) (bs : Buckets V) (key : ℕ) (object : V) (hashed : m.hash ≡ some h)
      (counted : 0 < m.bucket_count) (sized : IsSized m.object_size)
      (placed : IsPlaced h m.bucket_count bs) where
    abbrev slot_home : ℕ
    slot_home = h key % m.bucket_count

    undo_add-Inserted :
        (alloced : Bool) (g : Grants)
        → Ready m bs alloced
        → Inserted m key object (false, undo_add m bs alloced slot_home (nodes_at bs slot_home), g)
    unfolding undo_add
    undo_add-Inserted true g (made e nothing) = record {
      absent = λ p. absurd cc;
      reads = λ q. ground arith;
      usable = λ _. without_buckets m hashed counted sized;
    }
    undo_add-Inserted false g (kept e) = elim (Bool-cases (list_empty (nodes_at bs slot_home))) [
      | inl empty ↦ rw empty (record {
        absent = λ p. absurd cc;
        reads = λ q. ground (arith, drop-view_in m.bucket_count bs key counted placed q empty);
        usable = λ _.
            with_buckets m _ hashed counted sized
              (drop-IsPlaced m.bucket_count bs key counted placed);
      })
      | inr full ↦ rw full (record {
        absent = λ p. absurd cc;
        reads = λ q. ground arith;
        usable = λ _. with_buckets m bs hashed counted sized placed;
      })
    ]

    node_added-Inserted :
        (alloced : Bool) (g : Grants)
        → Ready m bs alloced
        → view_in h m.bucket_count bs key ≡ none
        → Inserted m key object
            (node_added m bs alloced slot_home (nodes_at bs slot_home) key object g)
    unfolding node_added grant
    node_added-Inserted alloced [] ready nothing = undo_add-Inserted alloced [] ready
    node_added-Inserted alloced (none ∷ g) ready nothing = undo_add-Inserted alloced g ready
    node_added-Inserted alloced (some size ∷ g) ready nothing = record {
      absent = λ _. Ready-view ready key ∙ nothing;
      reads = λ q.
          ground
            (arith, push-view_in m.bucket_count bs key counted placed object q, Ready-view ready q);
      usable = λ _.
          with_buckets m _ hashed counted sized
            (push-IsPlaced m.bucket_count bs key counted placed object nothing);
    }

    -- An insertion that returns, with a result that is in order.
    abbrev Inserts : Outcome (Bool × HashMap V × Grants) → Type 0
    Inserts o = (r : Bool × HashMap V × Grants) × (o ≡ ok r) × Inserted m key object r

    pub add_node-Inserts :
        (alloced : Bool) (b : Bucket V) (g : Grants)
        → nodes_at bs slot_home ≡ b
        → find_node key b ≡ none
        → Ready m bs alloced
        → Inserts (add_node m bs alloced slot_home b key object g)
    add_node-Inserts alloced b g nodes nothing ready = (
      node_added m bs alloced slot_home b key object g,
      add_node-fits m bs alloced slot_home b key object g sized,
      subst (λ c. Inserted m key object (node_added m bs alloced slot_home c key object g)) nodes
          (node_added-Inserted alloced g ready (rw nodes nothing)),
    )

    -- No memory for the bucket: an array that was made for the insertion is dropped.
    no_bucket :
        (alloced : Bool) (g : Grants)
        → Ready m bs alloced
        → Inserted m key object (
          false,
          (if alloced then record m { buckets = none } else record m { buckets = some bs }),
          g,
        )
    no_bucket true g (made e nothing) = record {
      absent = λ p. absurd cc;
      reads = λ q. ground arith;
      usable = λ _. without_buckets m hashed counted sized;
    }
    no_bucket false g (kept e) = record {
      absent = λ p. absurd cc;
      reads = λ q. ground arith;
      usable = λ _. with_buckets m bs hashed counted sized placed;
    }

    pub add_at-Inserted :
        (alloced : Bool) (slot : Option (Bucket V)) (g : Grants)
        → get_or bs slot_home none ≡ slot
        → Ready m bs alloced
        → Inserts (add_at m bs alloced slot_home slot key object g)
    unfolding add_at grant find_node
    add_at-Inserted alloced (some bucket) g e ready =
        let nodes : nodes_at bs slot_home ≡ bucket = ap nodes_of e in
        elim (Option-cases (find_node key bucket)) [
          | inl nothing ↦
              rw (nothing, add_at) (add_node-Inserts alloced bucket g nodes nothing ready)
          | inr (old, found) ↦
              rw (found, add_at) (rw (← nodes) (_, refl, undo_add-Inserted alloced g ready))
        ]
    add_at-Inserted alloced none [] e ready = (_, refl, no_bucket alloced [] ready)
    add_at-Inserted alloced none (none ∷ g) e ready = (_, refl, no_bucket alloced g ready)
    add_at-Inserted alloced none (some size ∷ g) e ready =
        add_node-Inserts alloced [] g (ap nodes_of e) refl ready

    pub add_in-Inserted :
        (alloced : Bool) (g : Grants)
        → Ready m bs alloced
        → (r : Bool × HashMap V × Grants) × (add_in m bs alloced key object g ≡ ok r)
          × Inserted m key object r
    unfolding add_in
    add_in-Inserted alloced g ready =
        rw
          (
            hash_of-mod h m key hashed counted,
            bucket_at-get_or bs slot_home (omega (arith, placed)),
          )
          (add_at-Inserted alloced (get_or bs slot_home none) g refl ready)
