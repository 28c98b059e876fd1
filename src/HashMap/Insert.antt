-- ===== src/HashMap/Insert.antt =====
-- `hashmap_add` and `hashmap_update` refine the update of a function.
use aphrodite.Base.{
  ℕ, ◌*◌, ◌/◌, ◌%◌, ◌^◌, ◌≤◌, ◌<◌, ◌≡◌, ◌≢◌, refl, arith, ◌==◌, if◌then◌else◌, Bool, true, false,
  ◌&&◌, Option, none, some, [], ◌∷◌, get_or, set, replicate, Outcome, ok, Option-cases, inl, inr,
  ◌∙◌, ap,
}
use aphrodite.Arith.{check_mul_assert}
use aphrodite.HashMap.{
  HashMap, Buckets, Grants, grant, hashmap_initialized, add_node, hashmap_add, update_at,
  hashmap_update,
}
use aphrodite.HashMap.Nodes.{Bucket, find_node, write_node}
use aphrodite.HashMap.Slot.{
  Inserted, made, kept, with_buckets, write-view_in, write-IsPlaced, add_node-Inserts,
  add_in-Inserted,
}
use aphrodite.HashMap.View.{
  IsTable, IsPlaced, view, view_in, nodes_of, nodes_at, hash_of-mod, bucket_at-get_or,
  replicate-IsPlaced, replicate-view_in,
}

-- The allocator grants at least what is asked for, or fails.
abbrev pub IsEnough : ℕ → Grants → Type 0
IsEnough size [] = Unit
IsEnough size (none ∷ _) = Unit
IsEnough size (some bytes ∷ _) = size ≤ bytes

module _ {V : Type 0} (h : ℕ → ℕ) where
  -- A map without its array: nothing is found in it.
  no_buckets :
      (m : HashMap V) (key : ℕ) (object : V) (g : Grants)
      → m.buckets ≡ none
      → Inserted h m key object (false, record m { bucket_count = 0 }, g)
  no_buckets m key object g e = record {
    absent = λ p. absurd cc;
    reads = λ q. ground arith;
    usable = λ p. absurd (omega arith);
  }

  -- The first insertion makes the array.
  first_add :
      (m : HashMap V) (key : ℕ) (object : V) (g : Grants)
      → IsTable h m
      → m.bucket_count * 8 < 2 ^ 32
      → IsEnough (m.bucket_count * 8) g
      → m.buckets ≡ none
      → (r : Bool × HashMap V × Grants) × (hashmap_add m key object g ≡ ok r)
        × Inserted h m key object r
  unfolding hashmap_add hashmap_initialized check_mul_assert grant
  first_add m key object [] t fits enough e =
      let counted = t.counted in
      let sized = t.sized.0 in
      ((false, record m { bucket_count = 0 }, []), ground arith, no_buckets m key object [] e)
  first_add m key object (none ∷ g) t fits enough e =
      let counted = t.counted in
      let sized = t.sized.0 in
      ((false, record m { bucket_count = 0 }, g), ground arith, no_buckets m key object g e)
  first_add m key object (some bytes ∷ g) t fits enough e =
      let counted = t.counted in
      let sized = t.sized.0 in
      let count = bytes / 8 in
      let start = record m { bucket_count = count } in
      let pos : 0 < count = omega arith in
      let (r, run, ins) =
        add_in-Inserted h start (replicate count none) key object t.hashed pos t.sized
          (replicate-IsPlaced V h count) true g (made e (replicate-view_in V h count)) in
      (
        r,
        ground (arith, run),
        record {
          absent = λ p. ground arith;
          reads = λ q. ground (arith, ins.reads q);
          usable = ins.usable;
        },
      )

  -- On a table, whose node size fits in 32 bits, and whose array does too, with an allocator that
  -- grants at least what is asked for, `hashmap_add` does not panic. If it returns true, the key was absent and now has the object, and
  -- if false, no lookup has changed. The result is a table again unless its number of buckets is 0.
  pub hashmap_add-Inserted :
      (m : HashMap V) (key : ℕ) (object : V) (g : Grants)
      → IsTable h m
      → m.bucket_count * 8 < 2 ^ 32
      → IsEnough (m.bucket_count * 8) g
      → (r : Bool × HashMap V × Grants) × (hashmap_add m key object g ≡ ok r)
        × Inserted h m key object r
  unfolding hashmap_add hashmap_initialized
  hashmap_add-Inserted m key object g t fits enough = elim (Option-cases m.buckets) [
    | inr (bs, e) ↦
        let (r, run, ins) =
          add_in-Inserted h m bs key object t.hashed t.counted t.sized (t.placed bs e) false g
            (kept e) in
        (r, ground (arith, run), ins)
    | inl e ↦ first_add m key object g t fits enough e
  ]

  -- What `hashmap_update` did: a key that is there is written, one that is not is added only on
  -- request, and the Boolean result says whether the key now has the object.
  pub record Updated (m : HashMap V) (key : ℕ) (object : V) (add_if_missing : Bool)
      (r : Bool × HashMap V × Grants) : Type 0 where
    pub present : view h m key ≢ none → r.0 ≡ true
    pub refused : add_if_missing ≡ false → view h m key ≡ none → r.0 ≡ false
    pub reads : (q : ℕ) → view h (r.1) q ≡ (if r.0 && key == q then some object else view h m q)
    pub usable : 0 < (r.1).bucket_count → IsTable h (r.1)

  of_Inserted :
      {m : HashMap V} {key : ℕ} {object : V} {r : Bool × HashMap V × Grants}
      → Inserted h m key object r
      → view h m key ≡ none
      → Updated m key object true r
  of_Inserted ins absent = record {
    present = λ p. absurd (p absent);
    refused = λ p q. absurd cc;
    reads = ins.reads;
    usable = ins.usable;
  }

  refusal :
      {m : HashMap V} {key : ℕ} {object : V} {add_if_missing : Bool} (g : Grants)
      → IsTable h m
      → view h m key ≡ none
      → Updated m key object add_if_missing (false, m, g)
  refusal g t absent = record {
    present = λ p. absurd (p absent);
    refused = λ p q. refl;
    reads = λ q. refl;
    usable = λ _. t;
  }

  module _ (m : HashMap V) (bs : Buckets V) (key : ℕ) (object : V) (t : IsTable h m)
      (e : m.buckets ≡ some bs) where
    abbrev home : ℕ
    home = h key % m.bucket_count

    view-slot :
        (slot : Option (Bucket V))
        → get_or bs home none ≡ slot
        → view h m key ≡ find_node key (nodes_of slot)
    view-slot slot at = rw (← at) (ground arith)

    -- An update that returns, with a result that is in order.
    abbrev Updates : Bool → Outcome (Bool × HashMap V × Grants) → Type 0
    Updates add_if_missing o =
        (r : Bool × HashMap V × Grants) × (o ≡ ok r) × Updated m key object add_if_missing r

    -- The key is not there: a node is added.
    missing :
        (b : Bucket V) (g : Grants)
        → nodes_at bs home ≡ b
        → find_node key b ≡ none
        → Updates true (add_node m bs false home b key object g)
    missing b g nodes nothing =
        let absent : view_in h m.bucket_count bs key ≡ none = rw nodes nothing in
        let p : IsPlaced h m.bucket_count bs = t.placed bs e in
        let (r, run, ins) =
          add_node-Inserts h m bs key object t.hashed t.counted t.sized p false b g nodes nothing
            (kept e) in
        (r, run, of_Inserted ins (ground arith))

    -- The key is there: its node is written.
    found :
        (b : Bucket V) (old : V) (add_if_missing : Bool) (g : Grants)
        → nodes_at bs home ≡ b
        → find_node key b ≡ some old
        → Updated m key object add_if_missing
            (true, record m { buckets = some (set bs home (some (write_node key object b))) }, g)
    found b old add_if_missing g nodes there =
        let p : IsPlaced h m.bucket_count bs = t.placed bs e in
        let seen : view_in h m.bucket_count bs key ≡ some old = rw nodes there in
        rw (← nodes) (record {
          present = λ _. refl;
          refused = λ _ absent. absurd cc;
          reads = λ q.
              ground (arith, write-view_in h m.bucket_count bs key t.counted p object old q seen);
          usable = λ _.
              with_buckets h m _ t.hashed t.counted t.sized
                (write-IsPlaced h m.bucket_count bs key t.counted p object);
        })

    absent_node :
        (b : Bucket V) (add_if_missing : Bool) (g : Grants)
        → get_or bs home none ≡ some b
        → find_node key b ≡ none
        → Updates add_if_missing
            (if add_if_missing then add_node m bs false home b key object g else ok (false, m, g))
    absent_node b true g at nothing = missing b g (ap nodes_of at) nothing
    absent_node b false g at nothing = (_, refl, refusal g t (view-slot (some b) at ∙ nothing))

    update_at-Updated :
        (slot : Option (Bucket V)) (add_if_missing : Bool) (g : Grants)
        → get_or bs home none ≡ slot
        → Updates add_if_missing (update_at m bs home slot key object add_if_missing g)
    unfolding update_at grant find_node
    update_at-Updated (some bucket) add_if_missing g at =
        elim (Option-cases (find_node key bucket)) [
          | inr (old, there) ↦
              rw (there, update_at)
                (_, refl, found bucket old add_if_missing g (ap nodes_of at) there)
          | inl nothing ↦ rw (nothing, update_at) (absent_node bucket add_if_missing g at nothing)
        ]
    update_at-Updated none false g at = (_, refl, refusal g t (view-slot none at))
    update_at-Updated none true [] at = (_, refl, refusal [] t (view-slot none at))
    update_at-Updated none true (none ∷ g) at = (_, refl, refusal g t (view-slot none at))
    update_at-Updated none true (some size ∷ g) at = missing [] g (ap nodes_of at) refl

  -- On a table, whose node size fits in 32 bits, and whose array does too, with an allocator that
  -- grants at least what is asked for, `hashmap_update` does not panic. A key that is there gets the object and the result is true; a
  -- key that is not there is refused unless an addition is asked for. The lookups change exactly
  -- as the result says, and the map stays a table unless its number of buckets is 0.
  pub hashmap_update-Updated :
      (m : HashMap V) (key : ℕ) (object : V) (add_if_missing : Bool) (g : Grants)
      → IsTable h m
      → m.bucket_count * 8 < 2 ^ 32
      → IsEnough (m.bucket_count * 8) g
      → (r : Bool × HashMap V × Grants) × (hashmap_update m key object add_if_missing g ≡ ok r)
        × Updated m key object add_if_missing r
  unfolding hashmap_update hashmap_initialized
  hashmap_update-Updated m key object add_if_missing g t fits enough =
      let counted = t.counted in
      let sized = t.sized.0 in
      elim (Option-cases m.buckets) [
        | inr (bs, e) ↦
            let i = h key % m.bucket_count in
            let (r, run, done) =
              update_at-Updated m bs key object t e (get_or bs i none) add_if_missing g refl in
            (
              r,
              ground (
                arith,
                run,
                hash_of-mod h m key t.hashed t.counted,
                bucket_at-get_or bs i (omega (arith, t.placed bs e)),
              ),
              done,
            )
        | inl e ↦ no_array add_if_missing e
      ]
    where
      no_array :
          (b : Bool)
          → m.buckets ≡ none
          → (r : Bool × HashMap V × Grants) × (hashmap_update m key object b g ≡ ok r)
            × Updated m key object b r
      no_array false e =
          let counted = t.counted in
          let sized = t.sized.0 in ((false, m, g), ground arith, refusal g t (ground arith))
      no_array true e =
          let counted = t.counted in
          let sized = t.sized.0 in
          let (r, run, ins) = hashmap_add-Inserted m key object g t fits enough in
          (r, ground (arith, run), of_Inserted ins (ground arith))
