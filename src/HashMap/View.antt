-- ===== src/HashMap/View.antt =====
-- What a hash map stands for: a function from keys to data, and the invariant that makes it one.
use aphrodite.Base.{
  ℕ, zero, suc, ◌+◌, ◌%◌, ◌^◌, ◌≤◌, ◌<◌, ◌≡◌, refl, arith, ◌==◌, if◌then◌else◌, Option, none, some,
  [], ◌∷◌, length, get_or, set, replicate, length-set, get_or-set_self, get_or-set_ne,
  length-replicate, get_or-replicate, ok, inl, inr, Option-cases, ℕ_discrete,
}
use aphrodite.HashMap.{
  HashMap, Buckets, bucket_at, hash_of, hashmap_get, hashmap_initialized, node_size,
}
use aphrodite.HashMap.Nodes.{Bucket, find_node, count_nodes}

-- Objects have a size, and a node with one is not too large to be asked for.
abbrev pub IsSized : ℕ → Type 0
IsSized size = (0 < size) × (node_size + size < 2 ^ 32)

module _ {V : Type 0} where
  abbrev pub nodes_of : Option (Bucket V) → Bucket V
  nodes_of none = []
  nodes_of (some b) = b

  -- The nodes of bucket `i`; a null bucket has none.
  abbrev pub nodes_at : Buckets V → ℕ → Bucket V
  nodes_at bs i = nodes_of (get_or bs i none)

  pub nodes_at-set :
      (bs : Buckets V) (i j : ℕ) (b : Option (Bucket V))
      → i < length bs
      → nodes_at (set bs i b) j ≡ (if i == j then nodes_of b else nodes_at bs j)
  nodes_at-set bs i j b h = elim (ℕ_discrete i j) [
    | yes e ↦ rw (← e, get_or-set_self bs i b none h) (ground arith)
    | no ne ↦ rw (get_or-set_ne bs i j b none ne) (ground arith)
  ]

  pub bucket_at-get_or :
      (bs : Buckets V) (i : ℕ) → i < length bs → bucket_at bs i ≡ ok (get_or bs i none)
  unfolding bucket_at
  bucket_at-get_or [] i h = elim h [ ]
  bucket_at-get_or (b ∷ bs) zero h = refl
  bucket_at-get_or (b ∷ bs) (suc i) h = bucket_at-get_or bs i (omega arith)

module _ {V : Type 0} (h : ℕ → ℕ) where
  -- A key occurs at most once, and only in the bucket of its hash.
  abbrev pub IsPlaced : ℕ → Buckets V → Type 0
  IsPlaced n bs =
      (length bs ≡ n)
      × ((q i : ℕ) → count_nodes q (nodes_at bs i) ≤ (if h q % n == i then 1 else 0))

  pub record IsTable (m : HashMap V) : Type 0 where
    pub hashed : m.hash ≡ some h
    pub counted : 0 < m.bucket_count
    pub sized : IsSized m.object_size
    pub placed : (bs : Buckets V) → m.buckets ≡ some bs → IsPlaced m.bucket_count bs

  -- The data under a key.
  abbrev pub view_in : ℕ → Buckets V → ℕ → Option V
  view_in n bs q = find_node q (nodes_at bs (h q % n))

  abbrev pub view : HashMap V → ℕ → Option V
  view m q = elim (m.buckets) [ none ↦ none | some bs ↦ view_in m.bucket_count bs q ]

  pub hash_of-mod :
      (m : HashMap V) (key : ℕ)
      → m.hash ≡ some h
      → 0 < m.bucket_count
      → hash_of m key ≡ ok (h key % m.bucket_count)
  unfolding hash_of
  hash_of-mod m key e pos = rw e (ground arith)

  pub set-IsPlaced :
      (n : ℕ) (bs : Buckets V) (i : ℕ) (b : Option (Bucket V))
      → IsPlaced n bs
      → i < n
      → ((q : ℕ) → count_nodes q (nodes_of b) ≤ (if h q % n == i then 1 else 0))
      → IsPlaced n (set bs i b)
  set-IsPlaced n bs i b p lt few = (
    rw (length-set bs i b) p.0,
    λ q j. rw (nodes_at-set bs i j b (omega arith)) (ground (arith, p.1 q j, few q)),
  )

  -- A write to the bucket of `key` changes the lookups as it changes those of that bucket.
  pub view_in-set :
      (n : ℕ) (bs : Buckets V) (key q : ℕ) (b : Option (Bucket V))
      → IsPlaced n bs
      → 0 < n
      → view_in n (set bs (h key % n) b) q
        ≡ (if h key % n == h q % n then find_node q (nodes_of b) else view_in n bs q)
  view_in-set n bs key q b p pos =
      rw (nodes_at-set bs (h key % n) (h q % n) b (omega arith)) (ground arith)

  -- On a table `hashmap_get` does not panic, and returns the data under the key.
  pub hashmap_get-view : (m : HashMap V) (key : ℕ) → IsTable m → hashmap_get m key ≡ ok (view m key)
  unfolding hashmap_get hashmap_initialized find_node
  hashmap_get-view m key t =
      let sized = t.sized.0 in
      elim (Option-cases m.buckets) [
        | inl e ↦ ground arith
        | inr (bs, e) ↦ ground (
          arith,
          hash_of-mod m key t.hashed t.counted,
          bucket_at-get_or bs (h key % m.bucket_count) (omega (arith, t.placed bs e)),
        )
      ]

module _ (V : Type 0) (h : ℕ → ℕ) where
  pub replicate-IsPlaced : (n : ℕ) → IsPlaced {V = V} h n (replicate n none)
  unfolding count_nodes
  replicate-IsPlaced n = (
    length-replicate n none,
    λ q i. rw (get_or-replicate {A = Option (Bucket V)} n i none) (omega arith),
  )

  pub replicate-view_in : (n q : ℕ) → view_in {V = V} h n (replicate n none) q ≡ none
  unfolding find_node
  replicate-view_in n q = rw (get_or-replicate {A = Option (Bucket V)} n (h q % n) none)
