-- ===== src/Avl/Delete.antt =====
-- Deletion from a tree of lib/adt/avltree.c against a sorted list of keys. The keys are numbers and
-- the comparator the comparison of numbers.
use aphrodite.Base.{
  ℕ, ◌≡◌, ◌∙◌, refl, ap, sym, true, false, Option, none, some, List, [], ◌∷◌, ◌++◌, inl, inr,
}
use Prim.Native.Nat.{compare}
use Prim.Native.Nat.Ordering.{lt, eq, gt}
use mathlib.Core.List.{append-nil}
use mathlib.Core.Path.{subst}
use aphrodite.Base.Sorted.{
  IsSorted, Split, IsSorted-Split, has, remove_key, remove_key-IsSorted, has_left, has_right,
  has_middle, remove_left, remove_right, remove_middle,
}
use aphrodite.Avl.{
  Tree, leaf, node, Frame, left_of, right_of, find_successor, avltree_delete_node, delete_from,
  avltree_delete,
}
use aphrodite.Avl.Keys.{keys, around, keys-avltree_fixup}
use aphrodite.Avl.Search.{compare-Compared}

module _ {D : Type 0} where
  around-append :
      (inner path : List (Frame ℕ D)) (ks : List ℕ)
      → around (inner ++ path) ks ≡ around path (around inner ks)
  unfolding around
  around-append [] path ks = refl
  around-append (left_of k d h r ∷ inner) path ks = around-append inner path (ks ++ (k ∷ keys r))
  around-append (right_of l k d h ∷ inner) path ks = around-append inner path (keys l ++ (k ∷ ks))

  -- A path that goes left at every node.
  AllLeft : List (Frame ℕ D) → Type 0
  AllLeft [] = Unit
  AllLeft (left_of k d h r ∷ path) = AllLeft path
  AllLeft (right_of l k d h ∷ path) = ⊥

  around-AllLeft :
      (path : List (Frame ℕ D)) (k : ℕ) (ks : List ℕ)
      → AllLeft path
      → around path (k ∷ ks) ≡ k ∷ around path ks
  unfolding around AllLeft
  around-AllLeft [] k ks a = refl
  around-AllLeft (left_of k' d h r ∷ path) k ks a = around-AllLeft path k (ks ++ (k' ∷ keys r)) a
  around-AllLeft (right_of l k' d h ∷ path) k ks a = absurd a

  -- The successor is the least key, and its right subtree on its path the other keys.
  find_successor-keys :
      (l : Tree ℕ D) (k : ℕ) (d : D) (h : ℕ) (r : Tree ℕ D) (path : List (Frame ℕ D))
      → AllLeft path
      → let found = find_successor l k d h r path in
        (found.0 ∷ around found.3 (keys found.2) ≡ around path (keys l ++ (k ∷ keys r)))
  unfolding find_successor keys AllLeft around
  find_successor-keys leaf k d h r path a = sym (around-AllLeft path k (keys r) a)
  find_successor-keys (node ll lk ld lh lr) k d h r path a =
      find_successor-keys ll lk ld lh lr (left_of k d h r ∷ path) a

module _ {D : Type 0} (update : Tree ℕ D → ℕ → D → Tree ℕ D → D) where
  keys-delete_node :
      (l : Tree ℕ D) (h : ℕ) (r : Tree ℕ D) (path : List (Frame ℕ D))
      → keys (avltree_delete_node update l h r path) ≡ around path (keys l ++ keys r)
  unfolding avltree_delete_node around keys AllLeft
  keys-delete_node leaf h r path = keys-avltree_fixup update path r
  keys-delete_node (node ll lk ld lh lr) h leaf path =
      keys-avltree_fixup update path (node ll lk ld lh lr)
      ∙ ap (around path) (sym (append-nil (keys (node ll lk ld lh lr))))
  keys-delete_node (node ll lk ld lh lr) h (node rl rk rd rh rr) path =
      let (k, d, rest, inner) = find_successor rl rk rd rh rr [] in
      let l = node ll lk ld lh lr in
      keys-avltree_fixup update (inner ++ (right_of l k d h ∷ path)) rest
      ∙ around-append inner (right_of l k d h ∷ path) (keys rest)
      ∙ ap (λ ks. around path (keys l ++ ks)) (find_successor-keys rl rk rd rh rr [] tt)

  -- The result of a deletion from the tree around a subtree with these keys.
  Deleted : ℕ → List ℕ → List (Frame ℕ D) → Option (ℕ × Tree ℕ D) → Type 0
  Deleted q ks path none = has q ks ≡ false
  Deleted q ks path (some (k, t')) =
      (has q ks ≡ true) × (k ≡ q) × (keys t' ≡ around path (remove_key q ks))

  Deleted-same :
      (q : ℕ) (ks ks' : List ℕ) (path path' : List (Frame ℕ D)) (r : Option (ℕ × Tree ℕ D))
      → has q ks' ≡ has q ks
      → around path' (remove_key q ks') ≡ around path (remove_key q ks)
      → Deleted q ks' path' r
      → Deleted q ks path r
  unfolding Deleted
  Deleted-same q ks ks' path path' none e f l = sym e ∙ l
  Deleted-same q ks ks' path path' (some (k, t')) e f (inside, same, at) =
      (sym e ∙ inside, same, at ∙ f)

  delete_from-lt :
      (q : ℕ) (l : Tree ℕ D) (k : ℕ) (d : D) (h : ℕ) (r : Tree ℕ D) (path : List (Frame ℕ D))
      → compare q k ≡ lt
      → delete_from update (compare q) (node l k d h r) path
        ≡ delete_from update (compare q) l (left_of k d h r ∷ path)
  unfolding delete_from
  delete_from-lt q l k d h r path e = rw (e, delete_from) refl

  delete_from-gt :
      (q : ℕ) (l : Tree ℕ D) (k : ℕ) (d : D) (h : ℕ) (r : Tree ℕ D) (path : List (Frame ℕ D))
      → compare q k ≡ gt
      → delete_from update (compare q) (node l k d h r) path
        ≡ delete_from update (compare q) r (right_of l k d h ∷ path)
  unfolding delete_from
  delete_from-gt q l k d h r path e = rw (e, delete_from) refl

  delete_from-eq :
      (q : ℕ) (l : Tree ℕ D) (k : ℕ) (d : D) (h : ℕ) (r : Tree ℕ D) (path : List (Frame ℕ D))
      → compare q k ≡ eq
      → delete_from update (compare q) (node l k d h r) path
        ≡ some (k, avltree_delete_node update l h r path)
  unfolding delete_from
  delete_from-eq q l k d h r path e = rw (e, delete_from) refl

  delete_from-Deleted :
      (q : ℕ) (t : Tree ℕ D) (path : List (Frame ℕ D))
      → IsSorted (keys t)
      → Deleted q (keys t) path (delete_from update (compare q) t path)
  unfolding delete_from Deleted keys around has remove_key
  delete_from-Deleted q leaf path s = refl
  delete_from-Deleted q (node l k d h r) path s =
      let split = IsSorted-Split (keys l) k (keys r) s in
      let ks = keys l ++ (k ∷ keys r) in
      elim (compare-Compared q k) [
        | inl (e, less) ↦ subst (Deleted q ks path) (sym (delete_from-lt q l k d h r path e)) (
            Deleted-same q ks (keys l) path (left_of k d h r ∷ path)
              (delete_from update (compare q) l (left_of k d h r ∷ path))
              (sym (has_left q (keys l) k (keys r) less split.above))
              (ap (around path) (sym (remove_left q (keys l) k (keys r) less split.above)))
              (delete_from-Deleted q l (left_of k d h r ∷ path) split.left))
        | inr (inl (e, more)) ↦
            subst (Deleted q ks path) (sym (delete_from-gt q l k d h r path e)) (
              Deleted-same q ks (keys r) path (right_of l k d h ∷ path)
                (delete_from update (compare q) r (right_of l k d h ∷ path))
                (sym (has_right q (keys l) k (keys r) more split.below))
                (ap (around path) (sym (remove_right q (keys l) k (keys r) more split.below)))
                (delete_from-Deleted q r (right_of l k d h ∷ path) split.right))
        | inr (inr (e, same)) ↦
            subst (Deleted q ks path) (sym (delete_from-eq q l k d h r path e)) (
              ap (λ x. has q (keys l ++ (x ∷ keys r))) (sym same) ∙ has_middle q (keys l) (keys r),
              sym same,
              keys-delete_node l h r path ∙ ap (around path) (sym (removed q l k r same split)),
            )
      ]
    where
      removed :
          (q : ℕ) (l : Tree ℕ D) (k : ℕ) (r : Tree ℕ D)
          → q ≡ k
          → Split (keys l) k (keys r)
          → remove_key q (keys l ++ (k ∷ keys r)) ≡ keys l ++ keys r
      removed q l k r same split =
          ap (λ x. remove_key x (keys l ++ (k ∷ keys r))) same
          ∙ remove_middle k (keys l) (keys r) split.below

  -- The two results of a deletion from a tree with these keys.
  Removed : ℕ → List ℕ → Option (ℕ × Tree ℕ D) → Type 0
  Removed q ks r =
      (has q ks ≡ false → r ≡ none)
      × (has q ks ≡ true
          → (t' : Tree ℕ D) × (r ≡ some (q, t')) × (keys t' ≡ remove_key q ks) × IsSorted (keys t'))

  Deleted-Removed :
      (q : ℕ) (ks : List ℕ) (r : Option (ℕ × Tree ℕ D))
      → IsSorted ks
      → Deleted q ks [] r
      → Removed q ks r
  unfolding Deleted Removed around
  Deleted-Removed q ks none s out = (λ _. refl, λ inside. cc)
  Deleted-Removed q ks (some (k, t')) s (inside, same, at) = (
    λ out. cc,
    λ _.
        (t', ap (λ x. some (x, t')) same, at, subst IsSorted (sym at) (remove_key-IsSorted q ks s)),
  )

  -- On a tree with its keys in order `avltree_delete` finds nothing exactly if the key is not there;
  -- otherwise it takes out the node of that key, and the other keys stay, in order.
  pub avltree_delete-keys :
      (t : Tree ℕ D) (q : ℕ)
      → IsSorted (keys t)
      → (has q (keys t) ≡ false → avltree_delete update (compare q) t ≡ none)
        × (has q (keys t) ≡ true
            → (t' : Tree ℕ D) × (avltree_delete update (compare q) t ≡ some (q, t'))
              × (keys t' ≡ remove_key q (keys t))
              × IsSorted (keys t'))
  unfolding avltree_delete Removed
  avltree_delete-keys t q s =
      Deleted-Removed q (keys t) (delete_from update (compare q) t []) s
        (delete_from-Deleted q t [] s)
