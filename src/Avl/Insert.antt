-- ===== src/Avl/Insert.antt =====
-- Insertion in a tree of lib/adt/avltree.c against a sorted list of keys. The keys are numbers and
-- the comparator the comparison of numbers.
use aphrodite.Base.{
  ℕ, ◌≡◌, ◌∙◌, refl, ap, sym, true, false, Option, none, some, List, [], ◌∷◌, ◌++◌, inl, inr,
}
use Prim.Native.Nat.{compare}
use Prim.Native.Nat.Ordering.{lt, eq, gt}
use mathlib.Core.Path.{subst}
use aphrodite.Base.Sorted.{
  IsSorted, IsSorted-Split, has, insert_key, insert_key-IsSorted, has_left, has_right, has_middle,
  insert_left, insert_right,
}
use aphrodite.Avl.{
  Tree, leaf, node, Frame, left_of, right_of, find_loc, insert_found, avltree_insert, insert_at_loc,
}
use aphrodite.Avl.Keys.{keys, around, keys-insert_at_loc}
use aphrodite.Avl.Search.{compare-Compared}

module _ {D : Type 0} where
  -- What the search for a place finds: the key, or a place where the key would stand in order.
  Located : ℕ → List ℕ → List (Frame ℕ D) → Option (List (Frame ℕ D)) → Type 0
  Located q ks path none = has q ks ≡ true
  Located q ks path (some place) =
      (has q ks ≡ false) × (around place (q ∷ []) ≡ around path (insert_key q ks))

  -- Two searches with the same answer.
  Located-same :
      (q : ℕ) (ks ks' : List ℕ) (path path' : List (Frame ℕ D)) (r : Option (List (Frame ℕ D)))
      → has q ks' ≡ has q ks
      → around path' (insert_key q ks') ≡ around path (insert_key q ks)
      → Located q ks' path' r
      → Located q ks path r
  unfolding Located
  Located-same q ks ks' path path' none e f l = sym e ∙ l
  Located-same q ks ks' path path' (some place) e f (out, at) = (sym e ∙ out, at ∙ f)

  -- The steps of the search.
  find_loc-lt :
      (q : ℕ) (l : Tree ℕ D) (k : ℕ) (d : D) (h : ℕ) (r : Tree ℕ D) (path : List (Frame ℕ D))
      → compare q k ≡ lt
      → find_loc (compare q) (node l k d h r) path ≡ find_loc (compare q) l (left_of k d h r ∷ path)
  unfolding find_loc
  find_loc-lt q l k d h r path e = rw (e, find_loc) refl

  find_loc-gt :
      (q : ℕ) (l : Tree ℕ D) (k : ℕ) (d : D) (h : ℕ) (r : Tree ℕ D) (path : List (Frame ℕ D))
      → compare q k ≡ gt
      → find_loc (compare q) (node l k d h r) path
        ≡ find_loc (compare q) r (right_of l k d h ∷ path)
  unfolding find_loc
  find_loc-gt q l k d h r path e = rw (e, find_loc) refl

  find_loc-eq :
      (q : ℕ) (l : Tree ℕ D) (k : ℕ) (d : D) (h : ℕ) (r : Tree ℕ D) (path : List (Frame ℕ D))
      → compare q k ≡ eq
      → find_loc (compare q) (node l k d h r) path ≡ none
  unfolding find_loc
  find_loc-eq q l k d h r path e = rw (e, find_loc) refl

  find_loc-Located :
      (q : ℕ) (t : Tree ℕ D) (path : List (Frame ℕ D))
      → IsSorted (keys t)
      → Located q (keys t) path (find_loc (compare q) t path)
  unfolding find_loc Located keys around has insert_key
  find_loc-Located q leaf path s = (refl, refl)
  find_loc-Located q (node l k d h r) path s =
      let split = IsSorted-Split (keys l) k (keys r) s in
      let ks = keys l ++ (k ∷ keys r) in
      elim (compare-Compared q k) [
        | inl (e, less) ↦ subst (Located q ks path) (sym (find_loc-lt q l k d h r path e)) (
            Located-same q ks (keys l) path (left_of k d h r ∷ path)
              (find_loc (compare q) l (left_of k d h r ∷ path))
              (sym (has_left q (keys l) k (keys r) less split.above))
              (ap (around path) (sym (insert_left q (keys l) k (keys r) less)))
              (find_loc-Located q l (left_of k d h r ∷ path) split.left))
        | inr (inl (e, more)) ↦ subst (Located q ks path) (sym (find_loc-gt q l k d h r path e)) (
            Located-same q ks (keys r) path (right_of l k d h ∷ path)
              (find_loc (compare q) r (right_of l k d h ∷ path))
              (sym (has_right q (keys l) k (keys r) more split.below))
              (ap (around path) (sym (insert_right q (keys l) k (keys r) more split.below)))
              (find_loc-Located q r (right_of l k d h ∷ path) split.right))
        | inr (inr (e, same)) ↦
            subst (Located q ks path) (sym (find_loc-eq q l k d h r path e))
              (ap (λ x. has q (keys l ++ (x ∷ keys r))) (sym same) ∙ has_middle q (keys l) (keys r))
      ]

module _ {D : Type 0} (update : Tree ℕ D → ℕ → D → Tree ℕ D → D) where
  -- The two results of an insertion in a tree with these keys.
  Inserted : ℕ → List ℕ → Option (Tree ℕ D) → Type 0
  Inserted q ks r =
      (has q ks ≡ true → r ≡ none)
      × (has q ks ≡ false
          → (t' : Tree ℕ D) × (r ≡ some t') × (keys t' ≡ insert_key q ks) × IsSorted (keys t'))

  insert_found-keys :
      (q : ℕ) (d : D) (ks : List ℕ) (place : Option (List (Frame ℕ D)))
      → IsSorted ks
      → Located q ks [] place
      → Inserted q ks (insert_found update place q d)
  unfolding Inserted Located insert_found around
  insert_found-keys q d ks none s l = (λ _. refl, λ out. cc)
  insert_found-keys q d ks (some path) s (out, at) = (
    λ inside. cc,
    λ _.
        let e = keys-insert_at_loc update path q d ∙ at in
        (
          insert_at_loc update path q d,
          refl,
          e,
          subst IsSorted (sym e) (insert_key-IsSorted q ks out s),
        ),
  )

  -- On a tree with its keys in order `avltree_insert` fails exactly if the key is there; otherwise the
  -- tree has the new key in its place among the old ones, in order.
  pub avltree_insert-keys :
      (t : Tree ℕ D) (q : ℕ) (d : D)
      → IsSorted (keys t)
      → (has q (keys t) ≡ true → avltree_insert update (compare q) t q d ≡ none)
        × (has q (keys t) ≡ false
            → (t' : Tree ℕ D) × (avltree_insert update (compare q) t q d ≡ some t')
              × (keys t' ≡ insert_key q (keys t))
              × IsSorted (keys t'))
  unfolding avltree_insert Inserted
  avltree_insert-keys t q d s =
      insert_found-keys q d (keys t) (find_loc (compare q) t []) s (find_loc-Located q t [] s)
