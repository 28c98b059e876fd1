-- ===== src/HashMap/Rehash.antt =====
-- `hashmap_resize`: it keeps every lookup where it succeeds, and spoils the map where it does not.
use aphrodite.Base.{
  ℕ, ◌*◌, ◌%◌, ◌^◌, ◌<◌, ◌≡◌, ◌≢◌, refl, arith, Bool, true, false, none, some, [], ◌∷◌, length,
  replicate, ok, panic, Bool-cases, inl, inr, ◌⊎◌, ◌∙◌, ℕ_discrete,
}
use aphrodite.Arith.{check_mul_assert}
use aphrodite.HashMap.{
  HashMap, Buckets, Grants, grant, hashmap_initialized, hashmap_add, hashmap_resize,
  hashmap_destroy, hashmap_get,
}
use aphrodite.HashMap.Slot.{with_buckets}
use aphrodite.HashMap.Readd.{find_all, find_all-home, HasTable, Joined, readd_buckets-Readded}
use aphrodite.HashMap.View.{IsTable, view, replicate-IsPlaced, replicate-view_in}

module _ {V : Type 0} (h : ℕ → ℕ) where
  find_all-view :
      (m : HashMap V) (old : Buckets V)
      → IsTable h m
      → m.buckets ≡ some old
      → (q : ℕ) → find_all q old ≡ view h m q
  find_all-view m old t e q =
      let placed = t.placed old e in
      find_all-home q old (h q % m.bucket_count) (λ i ne. ground (arith, placed.1 q i))
      ∙ ground arith

  -- What `hashmap_resize` to `n` buckets did.
  pub record Resized (m : HashMap V) (n : ℕ) (r : Bool × HashMap V × Grants) : Type 0 where
    pub success :
        r.0 ≡ true → IsTable h r.1 × (r.1.bucket_count ≡ n) × ((q : ℕ) → view h r.1 q ≡ view h m q)
    pub failure : r.0 ≡ false → (r.1 ≡ m) ⊎ (hashmap_initialized r.1 ≡ false)

  moved :
      (m : HashMap V) (n : ℕ) (old : Buckets V)
      → IsTable h m
      → m.buckets ≡ some old
      → 0 < n
      → (r : Bool × HashMap V × Grants)
      → (r.0 ≡ true
          → HasTable h n m.object_size r.1
            × Joined h
                (record m { buckets = some (replicate n none); bucket_count = n })
                (λ q. find_all q old)
                r.1)
      → r.0 ≡ true
      → IsTable h r.1 × (r.1.bucket_count ≡ n) × ((q : ℕ) → view h r.1 q ≡ view h m q)
  moved m n old t e pos r rest done =
      let (t', joined) = rest done in
      (
        t'.table,
        t'.width,
        λ q. ground (arith, joined q, replicate-view_in V h n q, find_all-view m old t e q),
      )

  start-HasTable :
      (m : HashMap V) (n : ℕ)
      → IsTable h m
      → 0 < n
      → HasTable h n m.object_size
          (record m { buckets = some (replicate n none); bucket_count = n })
  start-HasTable m n t pos = record {
    table =
        with_buckets h (record m { bucket_count = n }) (replicate n none) t.hashed pos t.sized
          (replicate-IsPlaced V h n);
    width = refl;
    object = refl;
    array = replicate n none;
    buckets = refl;
  }

  resize_moves :
      (m : HashMap V) (n : ℕ) (g : Grants) (old : Buckets V)
      → IsTable h m
      → m.buckets ≡ some old
      → 0 < n
      → n * 8 < 2 ^ 32
      → m.bucket_count ≢ n
      → (r : Bool × HashMap V × Grants) × (hashmap_resize m n g ≡ ok r) × Resized m n r
  unfolding hashmap_resize hashmap_initialized check_mul_assert grant hashmap_destroy
  resize_moves m n [] old t e pos fits differ =
      let counted = t.counted in
      let sized = t.sized.0 in
      ((false, m, []), ground arith, record { success = λ p. absurd cc; failure = λ _. inl refl })
  resize_moves m n (none ∷ g) old t e pos fits differ =
      let counted = t.counted in
      let sized = t.sized.0 in
      ((false, m, g), ground arith, record { success = λ p. absurd cc; failure = λ _. inl refl })
  resize_moves m n (some bytes ∷ g) old t e pos fits differ =
      let counted = t.counted in
      let sized = t.sized.0 in
      let start = record m { buckets = some (replicate n none); bucket_count = n } in
      let (r, run, rest) =
        readd_buckets-Readded h n m.object_size old start g (start-HasTable m n t pos) in
      let whole : length old ≡ m.bucket_count = (t.placed old e).0 in
      elim (Bool-cases r.0) [
        | inl done ↦ (
          r,
          ground (arith, run, done, whole),
          record { success = moved m n old t e pos r rest; failure = λ p. absurd cc },
        )
        | inr failed ↦ (
          (
            false,
            record {
              buckets = some old;
              bucket_count = m.bucket_count;
              object_size = 0;
              hash = none;
            },
            r.2,
          ),
          ground (arith, run, failed, whole),
          record { success = λ p. absurd cc; failure = λ _. inr (ground arith) },
        )
      ]

  -- On a table with its array, to a new width that is not 0 and whose array fits in 32 bits,
  -- `hashmap_resize` does not panic. If it returns true, the map is a
  -- table of the new width and every lookup reads as before. If it returns false, either the map is
  -- as it was, or it is not initialized any more, so that every later operation on it panics.
  pub hashmap_resize-Resized :
      (m : HashMap V) (n : ℕ) (g : Grants) (old : Buckets V)
      → IsTable h m
      → m.buckets ≡ some old
      → 0 < n
      → n * 8 < 2 ^ 32
      → (r : Bool × HashMap V × Grants) × (hashmap_resize m n g ≡ ok r) × Resized m n r
  unfolding hashmap_resize hashmap_initialized check_mul_assert grant hashmap_destroy
  hashmap_resize-Resized m n g old t e pos fits = elim (ℕ_discrete m.bucket_count n) [
    | yes same ↦
        let counted = t.counted in
        let sized = t.sized.0 in
        (
          (true, m, g),
          ground arith,
          record { success = λ _. (t, same, λ q. refl); failure = λ p. absurd cc },
        )
    | no differ ↦ resize_moves m n g old t e pos fits differ
  ]

-- A first insertion whose array is refused leaves a map on which every lookup and every insertion
-- panics from then on.
pub refused_array_spoils :
    {V : Type 0} (h : ℕ → ℕ) (m : HashMap V) (key : ℕ) (object : V) (g : Grants)
    → IsTable h m
    → m.buckets ≡ none
    → m.bucket_count * 8 < 2 ^ 32
    → (m' : HashMap V) × (hashmap_add m key object (none ∷ g) ≡ ok (false, m', g))
      × ((q : ℕ) → hashmap_get m' q ≡ panic)
      × ((q : ℕ) (v : V) (g' : Grants) → hashmap_add m' q v g' ≡ panic)
unfolding hashmap_add hashmap_get hashmap_initialized check_mul_assert grant
refused_array_spoils h m key object g t e fits =
    let counted = t.counted in
    let sized = t.sized.0 in
    (record m { bucket_count = 0 }, ground arith, λ q. ground arith, λ q v g'. ground arith)
