-- ===== src/Tests/Trees.antt =====
-- Runs of lib/adt/avltree.c, on trees whose data is unit.
use aphrodite.Base.{
  ℕ, ◌+◌, ◌≡◌, refl, arith, max, true, false, ◌&&◌, leb, Bool, none, some, List, [], ◌∷◌, inl, inr,
}
use Prim.Native.Nat.{compare}
use aphrodite.Base.Sorted.{has, insert_key, remove_key, AllAbove, IsSorted}
use aphrodite.Avl.{
  Tree, leaf, node, node_height, reset_node_height, rotate_left, rotate_right, avlnode_update,
  settle_left, settle_right, lean_left, lean_right, left, right, fix_node, avltree_fixup,
  insert_at_loc, find_loc, insert_found, avltree_insert, avltree_delete,
}
use aphrodite.Avl.Keys.{keys}
use aphrodite.Avl.Insert.{avltree_insert-keys}
use aphrodite.Avl.Delete.{avltree_delete-keys}
use aphrodite.Avl.Balance.{IsAvl, fix_node-IsAvl}

abbrev no_update : Tree ℕ (Unit {0}) → ℕ → Unit {0} → Tree ℕ (Unit {0}) → Unit {0}
no_update l k d r = tt

abbrev tip : ℕ → Tree ℕ Unit
tip k = node leaf k tt 1 leaf

abbrev two_four : Tree ℕ Unit
two_four = node (tip 2) 4 tt 2 leaf

two_four-IsSorted : IsSorted (keys two_four)
unfolding IsSorted AllAbove keys
two_four-IsSorted = ground arith

abbrev Grown : Type 0
Grown =
    (has 3 (keys two_four) ≡ true → avltree_insert no_update (compare 3) two_four 3 tt ≡ none)
    × (has 3 (keys two_four) ≡ false
        → (t' : Tree ℕ Unit) × (avltree_insert no_update (compare 3) two_four 3 tt ≡ some t')
          × (keys t' ≡ insert_key 3 (keys two_four))
          × IsSorted (keys t'))

avltree_insert-keys_example : Grown
avltree_insert-keys_example = avltree_insert-keys no_update two_four 3 tt two_four-IsSorted

abbrev Shrunk : Type 0
Shrunk =
    (has 4 (keys two_four) ≡ false → avltree_delete no_update (compare 4) two_four ≡ none)
    × (has 4 (keys two_four) ≡ true
        → (t' : Tree ℕ Unit) × (avltree_delete no_update (compare 4) two_four ≡ some (4, t'))
          × (keys t' ≡ remove_key 4 (keys two_four))
          × IsSorted (keys t'))

avltree_delete-keys_example : Shrunk
avltree_delete-keys_example = avltree_delete-keys no_update two_four 4 two_four-IsSorted

-- A right side with a higher outer grandchild, and one with a higher inner grandchild.
abbrev outward : Tree ℕ Unit
outward = node leaf 2 tt 2 (tip 3)

outward-IsAvl : IsAvl outward
unfolding IsAvl node_height
outward-IsAvl = ground arith

leaf-IsAvl : IsAvl {K = ℕ} {D = Unit} leaf
unfolding IsAvl
leaf-IsAvl = tt

low : node_height outward ≡ 2
unfolding node_height
low = refl

fix_node-IsAvl_example : IsAvl (fix_node no_update (node leaf 1 tt 9 outward))
unfolding node_height left right
fix_node-IsAvl_example =
    fix_node-IsAvl no_update leaf outward 1 tt 9 (omega arith) (omega arith)
      (inr (inl (refl, omega arith))) leaf-IsAvl outward-IsAvl

-- The height of the tree as it is, not as it is stored.
unfoldable true_height : Tree ℕ Unit → ℕ
true_height leaf = 0
true_height (node l k d h r) = 1 + max (true_height l) (true_height r)

unfoldable is_balanced : Tree ℕ Unit → Bool
is_balanced leaf = true
is_balanced (node l k d h r) =
    leb (true_height l) (1 + true_height r)
    && leb (true_height r) (1 + true_height l)
    && is_balanced l
    && is_balanced r

unfoldable grow : List ℕ → Tree ℕ Unit → Tree ℕ Unit
grow [] t = t
grow (k ∷ ks) t =
    grow ks (elim (avltree_insert no_update (compare k) t k tt) [ none ↦ t | some t' ↦ t' ])

-- Six insertions leave siblings whose heights differ by 2.
six_insertions : is_balanced (grow (1 ∷ 2 ∷ 3 ∷ 6 ∷ 5 ∷ 4 ∷ []) leaf) ≡ false
unfolding grow is_balanced true_height avltree_insert insert_found find_loc insert_at_loc
    avltree_fixup fix_node avlnode_update lean_left lean_right settle_left settle_right rotate_left
    rotate_right reset_node_height node_height left right
six_insertions = refl
