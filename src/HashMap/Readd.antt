-- ===== src/HashMap/Readd.antt =====
-- The loops of `hashmap_resize`, which insert every node of the old array into the new one.
use aphrodite.Base.{
  ℕ, zero, suc, ◌%◌, ◌≡◌, ◌≢◌, refl, arith, Bool, true, false, Option, none, some, [], ◌∷◌, length,
  get_or, Outcome, ok, Option-cases, Bool-cases, inl, inr,
}
use aphrodite.HashMap.{
  HashMap, Buckets, Grants, grant, hashmap_initialized, add_at, add_in, node_added, add_node,
  undo_add, hashmap_add, bucket_at, readd_nodes, readd_slot, readd_buckets,
}
use aphrodite.HashMap.Nodes.{Bucket, find_node, count_nodes, find_node-absent}
use aphrodite.HashMap.Slot.{Inserted, kept, add_node-fits, add_at-Inserted}
use aphrodite.HashMap.View.{
  IsSized, IsTable, view, nodes_of, nodes_at, hash_of-mod, bucket_at-get_or,
}

module _ {V : Type 0} where
  -- The first value under a key, over all the buckets.
  pub find_all : ℕ → Buckets V → Option V
  find_all q [] = none
  find_all q (none ∷ bs) = find_all q bs
  find_all q (some b ∷ bs) = elim (find_node q b) [ some v ↦ some v | none ↦ find_all q bs ]

  find_all-first :
      (q : ℕ) (slot : Option (Bucket V)) (bs : Buckets V)
      → find_all q (slot ∷ bs)
        ≡ elim (find_node q (nodes_of slot)) [ some v ↦ some v | none ↦ find_all q bs ]
  unfolding find_all find_node
  find_all-first q none bs = refl
  find_all-first q (some b) bs = refl

  find_all-absent :
      (q : ℕ) (bs : Buckets V)
      → ((i : ℕ) → count_nodes q (nodes_at bs i) ≡ 0)
      → find_all q bs ≡ none
  unfolding find_all
  find_all-absent q [] none_in = refl
  find_all-absent q (none ∷ bs) none_in = find_all-absent q bs (λ i. none_in (suc i))
  find_all-absent q (some b ∷ bs) none_in =
      ground (arith, find_node-absent q b (none_in 0), find_all-absent q bs (λ i. none_in (suc i)))

  pub find_all-home :
      (q : ℕ) (bs : Buckets V) (j : ℕ)
      → ((i : ℕ) → i ≢ j → count_nodes q (nodes_at bs i) ≡ 0)
      → find_all q bs ≡ find_node q (nodes_at bs j)
  unfolding find_all find_node
  find_all-home q [] j away = refl
  find_all-home q (none ∷ bs) zero away = find_all-absent q bs (λ i. away (suc i) (omega arith))
  find_all-home q (none ∷ bs) (suc j) away =
      find_all-home q bs j (λ i n. away (suc i) (omega arith))
  find_all-home q (some b ∷ bs) zero away =
      ground (arith, find_all-absent q bs (λ i. away (suc i) (omega arith)))
  find_all-home q (some b ∷ bs) (suc j) away = ground (
    arith,
    find_node-absent q b (away 0 (omega arith)),
    find_all-home q bs j (λ i n. away (suc i) (omega arith)),
  )

  -- An insertion into an array keeps the map's other fields and has an array after it.
  abbrev HasArray : HashMap V → HashMap V → Type 0
  HasArray m m' = (bs : Buckets V) × (m' ≡ record m { buckets = some bs })

  node_added-HasArray :
      (m : HashMap V) (bs : Buckets V) (i : ℕ) (b : Bucket V) (key : ℕ) (object : V) (g : Grants)
      → HasArray m (node_added m bs false i b key object g).1
  unfolding node_added undo_add grant
  node_added-HasArray m bs i [] key object [] = (_, refl)
  node_added-HasArray m bs i [] key object (none ∷ g) = (_, refl)
  node_added-HasArray m bs i [] key object (some size ∷ g) = (_, refl)
  node_added-HasArray m bs i (e ∷ b) key object [] = (_, refl)
  node_added-HasArray m bs i (e ∷ b) key object (none ∷ g) = (_, refl)
  node_added-HasArray m bs i (e ∷ b) key object (some size ∷ g) = (_, refl)

  fitting :
      (m : HashMap V) (bs : Buckets V) (i : ℕ) (b : Bucket V) (key : ℕ) (object : V) (g : Grants)
      → IsSized m.object_size
      → (r : Bool × HashMap V × Grants) × (add_node m bs false i b key object g ≡ ok r)
        × HasArray m r.1
  fitting m bs i b key object g sized = (
    node_added m bs false i b key object g,
    add_node-fits m bs false i b key object g sized,
    node_added-HasArray m bs i b key object g,
  )

  add_at-HasArray :
      (m : HashMap V) (bs : Buckets V) (i : ℕ) (slot : Option (Bucket V)) (key : ℕ) (object : V)
      (g : Grants)
      → IsSized m.object_size
      → (r : Bool × HashMap V × Grants) × (add_at m bs false i slot key object g ≡ ok r)
        × HasArray m r.1
  unfolding add_at undo_add grant find_node
  add_at-HasArray m bs i none key object [] sized = (_, refl, (_, refl))
  add_at-HasArray m bs i none key object (none ∷ g) sized = (_, refl, (_, refl))
  add_at-HasArray m bs i none key object (some size ∷ g) sized =
      fitting m bs i [] key object g sized
  add_at-HasArray m bs i (some []) key object g sized = fitting m bs i [] key object g sized
  add_at-HasArray m bs i (some (e ∷ b)) key object g sized =
      elim (Option-cases (find_node key (e ∷ b))) [
        | inl nothing ↦ rw (nothing, add_at) (fitting m bs i (e ∷ b) key object g sized)
        | inr (old, there) ↦ rw (there, add_at) (_, refl, (bs, refl))
      ]

module _ {V : Type 0} (h : ℕ → ℕ) where
  -- A table with its array, over `n` buckets.
  pub record HasTable (n size : ℕ) (m : HashMap V) : Type 0 where
    pub table : IsTable h m
    pub width : m.bucket_count ≡ n
    pub object : m.object_size ≡ size
    pub array : Buckets V
    pub buckets : m.buckets ≡ some array

  add_step :
      {n size : ℕ} (m : HashMap V) (key : ℕ) (object : V) (g : Grants)
      → HasTable n size m
      → (r : Bool × HashMap V × Grants) × (hashmap_add m key object g ≡ ok r)
        × Inserted h m key object r
        × HasTable n size (r.1)
  unfolding hashmap_add hashmap_initialized add_in
  add_step m key object g t =
      let tab = t.table in
      let counted = tab.counted in
      let sized = tab.sized.0 in
      let placed = tab.placed t.array t.buckets in
      let i = h key % m.bucket_count in
      let slot = get_or t.array i none in
      let (r, run, ins) =
        add_at-Inserted h m t.array key object tab.hashed counted tab.sized placed false slot g refl
          (kept t.buckets) in
      let (r', run', (bs', e')) = add_at-HasArray m t.array i slot key object g tab.sized in
      let e : r.1 ≡ record m { buckets = some bs' } = cc in
      (
        r,
        ground (
          arith,
          run,
          hash_of-mod h m key tab.hashed counted,
          bucket_at-get_or t.array i (omega (arith, placed)),
        ),
        ins,
        rw e (record {
          table = rw e at (ins.usable (rw e counted));
          width = t.width;
          object = t.object;
          array = bs';
          buckets = refl;
        }),
      )

  -- Every lookup of the map, and where it has nothing, one of `f`.
  abbrev pub Joined : HashMap V → (ℕ → Option V) → HashMap V → Type 0
  Joined m f m' = (q : ℕ) → view h m' q ≡ elim (view h m q) [ some v ↦ some v | none ↦ f q ]

  -- A loop of insertions: it returns, and if no insertion failed all the lookups are joined.
  abbrev pub Readded :
      ℕ → ℕ → HashMap V → (ℕ → Option V) → Outcome (Bool × HashMap V × Grants) → Type 0
  Readded n size m f o =
      (r : Bool × HashMap V × Grants) × (o ≡ ok r)
      × (r.0 ≡ true → HasTable n size (r.1) × Joined m f (r.1))

  readd_nodes-Readded :
      (n size : ℕ) (es : Bucket V) (m : HashMap V) (g : Grants)
      → HasTable n size m
      → Readded n size m (λ q. find_node q es) (readd_nodes es m g)
  unfolding readd_nodes find_node
  readd_nodes-Readded n size [] m g t = ((true, m, g), refl, λ _. (t, λ q. ground arith))
  readd_nodes-Readded n size ((k, v) ∷ es) m g t =
      let (r, run, ins, t') = add_step m k v g t in
      elim (Bool-cases r.0) [
        | inl added ↦
            let (r', run', rest) = readd_nodes-Readded n size es (r.1) (r.2) t' in
            (
              r',
              ground (arith, run, added, run'),
              λ done.
                  let (t'', joined) = rest done in
                  (t'', λ q. ground (arith, joined q, ins.reads q, ins.absent added)),
            )
        | inr failed ↦ (r, ground (arith, run, failed), λ done. absurd cc)
      ]

  readd_slot-Readded :
      (n size : ℕ) (slot : Option (Bucket V)) (m : HashMap V) (g : Grants)
      → HasTable n size m
      → Readded n size m (λ q. find_node q (nodes_of slot)) (readd_slot slot m g)
  unfolding readd_slot find_node
  readd_slot-Readded n size none m g t = ((true, m, g), refl, λ _. (t, λ q. ground arith))
  readd_slot-Readded n size (some b) m g t = readd_nodes-Readded n size b m g t

  -- The rounds after the first are those over the array without its first bucket.
  readd_buckets-tail :
      (slot : Option (Bucket V)) (bs : Buckets V) (i left : ℕ) (m : HashMap V) (g : Grants)
      → readd_buckets (some (slot ∷ bs)) (suc i) left m g ≡ readd_buckets (some bs) i left m g
  unfolding readd_buckets bucket_at
  readd_buckets-tail slot bs i zero m g = refl
  readd_buckets-tail slot bs i (suc left) m g =
      grind (arith, readd_buckets-tail slot bs (suc i) left)

  pub readd_buckets-Readded :
      (n size : ℕ) (bs : Buckets V) (m : HashMap V) (g : Grants)
      → HasTable n size m
      → Readded n size m (λ q. find_all q bs) (readd_buckets (some bs) 0 (length bs) m g)
  unfolding readd_buckets find_all find_node bucket_at
  readd_buckets-Readded n size [] m g t = ((true, m, g), refl, λ _. (t, λ q. ground arith))
  readd_buckets-Readded n size (slot ∷ bs) m g t =
      let (r, run, first) = readd_slot-Readded n size slot m g t in
      elim (Bool-cases r.0) [
        | inl added ↦
            let (t', joined) = first added in
            let (r', run', rest) = readd_buckets-Readded n size bs (r.1) (r.2) t' in
            (
              r',
              ground
                  (arith, run, added, run', readd_buckets-tail slot bs 0 (length bs) (r.1) (r.2)),
              λ done.
                  let (t'', joined') = rest done in
                  (t'', λ q. ground (arith, joined q, joined' q, find_all-first q slot bs)),
            )
        | inr failed ↦ (r, ground (arith, run, failed), λ done. absurd cc)
      ]
