-- ===== src/Avl.antt =====
-- lib/adt/avltree.c and avltree.h: a search tree with stored heights.
--
-- A node is the key that it stands for, the data that the callback `update` keeps up to date from
-- the node and its children, its height, and its two subtrees; a null pointer is `leaf`. The
-- `parent` pointers are the path from a node to the root: a list of frames, nearest first, each the
-- parent with its other subtree. So `avlnode_verify`, which compares the pointers in test builds,
-- has nothing to check. A comparator is a function into `Ordering`.
pub mod Keys
pub mod Search
pub mod Insert
pub mod Delete
pub mod Balance
use aphrodite.Base.{
  ℕ, ◌+◌, max, ltb, if◌then◌else◌, Bool, true, false, Option, none, some, List, [], ◌∷◌, ◌++◌, u32,
}
use Prim.Native.Nat.{Ordering}
use Prim.Native.Nat.Ordering.{lt, eq, gt}

pub data Tree (K D : Type 0) : Type 0 where
  leaf : Tree K D
  node : Tree K D → K → D → ℕ → Tree K D → Tree K D

-- A parent whose left subtree, or whose right subtree, is the hole.
pub data Frame (K D : Type 0) : Type 0 where
  left_of : K → D → ℕ → Tree K D → Frame K D
  right_of : Tree K D → K → D → ℕ → Frame K D

module _ {K D : Type 0} where
  unfoldable pub node_height : Tree K D → ℕ
  node_height leaf = 0
  node_height (node l k d h r) = h

  unfoldable pub reset_node_height : Tree K D → Tree K D
  reset_node_height leaf = leaf
  reset_node_height (node l k d h r) = node l k d (u32 (1 + max (node_height l) (node_height r))) r

  -- The caller has a right child.
  unfoldable pub rotate_left : Tree K D → Tree K D
  rotate_left (node l k d h (node rl rk rd rh rr)) = node (node l k d h rl) rk rd rh rr
  rotate_left (node l k d h leaf) = node l k d h leaf
  rotate_left leaf = leaf

  unfoldable pub rotate_right : Tree K D → Tree K D
  rotate_right (node (node ll lk ld lh lr) k d h r) = node ll lk ld lh (node lr k d h r)
  rotate_right (node leaf k d h r) = node leaf k d h r
  rotate_right leaf = leaf

  unfoldable pub left : Tree K D → Tree K D
  left leaf = leaf
  left (node l k d h r) = l

  unfoldable pub right : Tree K D → Tree K D
  right leaf = leaf
  right (node l k d h r) = r

  -- The search of `avltree_insert` from a subtree on; the comparator has the new node in it. `none`
  -- is a node that compares equal.
  unfoldable pub find_loc : (K → Ordering) → Tree K D → List (Frame K D) → Option (List (Frame K D))
  find_loc compare_to leaf path = some path
  find_loc compare_to (node l k d h r) path = elim (compare_to k) [
    | eq ↦ none
    | lt ↦ find_loc compare_to l (left_of k d h r ∷ path)
    | gt ↦ find_loc compare_to r (right_of l k d h ∷ path)
  ]

  -- The walk to the least node of a right subtree: the least node's key, data and right child, and
  -- the path to it.
  unfoldable pub find_successor :
      Tree K D → K → D → ℕ → Tree K D → List (Frame K D) → K × D × Tree K D × List (Frame K D)
  find_successor leaf k d h r path = (k, d, r, path)
  find_successor (node ll lk ld lh lr) k d h r path =
      find_successor ll lk ld lh lr (left_of k d h r ∷ path)

module _ {K D : Type 0} (update : Tree K D → K → D → Tree K D → D) where
  unfoldable pub avlnode_update : Tree K D → Tree K D
  avlnode_update leaf = leaf
  avlnode_update (node l k d h r) = node l k (update l k d r) h r

  -- The node that a rotation has brought down, on the left of the new top.
  unfoldable pub settle_left : Tree K D → Tree K D
  settle_left leaf = leaf
  settle_left (node l k d h r) = node (avlnode_update (reset_node_height l)) k d h r

  unfoldable pub settle_right : Tree K D → Tree K D
  settle_right leaf = leaf
  settle_right (node l k d h r) = node l k d h (avlnode_update (reset_node_height r))

  -- The double rotation's first half, where the inner grandchild is the higher one.
  unfoldable pub lean_right : Tree K D → Tree K D
  lean_right child =
      if ltb (node_height (right child)) (node_height (left child))
      then avlnode_update (reset_node_height (rotate_right child))
      else child

  -- Its mirror image does not call `update`.
  unfoldable pub lean_left : Tree K D → Tree K D
  lean_left child =
      if ltb (node_height (left child)) (node_height (right child))
      then reset_node_height (rotate_left child)
      else child

  -- One round of the loop of `avltree_fixup` at a node: the subtree that is then in its place.
  unfoldable pub fix_node : Tree K D → Tree K D
  fix_node leaf = leaf
  fix_node (node l k d h r) =
      if ltb (node_height l + 1) (node_height r)
      then avlnode_update (settle_left (rotate_left (node l k d h (lean_right r))))
      else if ltb (node_height r + 1) (node_height l)
      then avlnode_update (settle_right (rotate_right (node (lean_left l) k d h r)))
      else avlnode_update (reset_node_height (node l k d h r))

  -- The loop of `avltree_fixup`, from the parent of a subtree to the root.
  unfoldable pub avltree_fixup : List (Frame K D) → Tree K D → Tree K D
  avltree_fixup [] t = t
  avltree_fixup (left_of k d h r ∷ path) t = avltree_fixup path (fix_node (node t k d h r))
  avltree_fixup (right_of l k d h ∷ path) t = avltree_fixup path (fix_node (node l k d h t))

  -- `node` with its key and data, at the null pointer that the path leads to.
  unfoldable pub insert_at_loc : List (Frame K D) → K → D → Tree K D
  insert_at_loc path k d = avltree_fixup path (avlnode_update (node leaf k d 1 leaf))

  -- `avltree_insert` after the search. The result `false` is `none`.
  unfoldable pub insert_found : Option (List (Frame K D)) → K → D → Option (Tree K D)
  insert_found none k d = none
  insert_found (some path) k d = some (insert_at_loc path k d)

  unfoldable pub avltree_insert : (K → Ordering) → Tree K D → K → D → Option (Tree K D)
  avltree_insert compare_to t k d = insert_found (find_loc compare_to t []) k d

  -- `avltree_delete_node` of the node with these parts at the end of a path. With two children the
  -- successor takes the node's place and height, in both of the code's branches.
  unfoldable pub avltree_delete_node : Tree K D → ℕ → Tree K D → List (Frame K D) → Tree K D
  avltree_delete_node leaf h r path = avltree_fixup path r
  avltree_delete_node (node ll lk ld lh lr) h leaf path = avltree_fixup path (node ll lk ld lh lr)
  avltree_delete_node (node ll lk ld lh lr) h (node rl rk rd rh rr) path =
      let (k, d, rest, inner) = find_successor rl rk rd rh rr [] in
      avltree_fixup (inner ++ (right_of (node ll lk ld lh lr) k d h ∷ path)) rest

  unfoldable pub delete_from : (K → Ordering) → Tree K D → List (Frame K D) → Option (K × Tree K D)
  delete_from compare_to leaf path = none
  delete_from compare_to (node l k d h r) path = elim (compare_to k) [
    | eq ↦ some (k, avltree_delete_node l h r path)
    | lt ↦ delete_from compare_to l (left_of k d h r ∷ path)
    | gt ↦ delete_from compare_to r (right_of l k d h ∷ path)
  ]

  -- The node that is taken out, and the tree after it; `none` is NULL. The comparator has the key in
  -- it, and is negative to go left.
  unfoldable pub avltree_delete : (K → Ordering) → Tree K D → Option (K × Tree K D)
  avltree_delete compare_to t = delete_from compare_to t []

module _ {K D : Type 0} where
  unfoldable pub avltree_leftmost : Tree K D → Option K
  avltree_leftmost leaf = none
  avltree_leftmost (node leaf k d h r) = some k
  avltree_leftmost (node (node ll lk ld lh lr) k d h r) = avltree_leftmost (node ll lk ld lh lr)

  unfoldable pub avltree_rightmost : Tree K D → Option K
  avltree_rightmost leaf = none
  avltree_rightmost (node l k d h leaf) = some k
  avltree_rightmost (node l k d h (node rl rk rd rh rr)) = avltree_rightmost (node rl rk rd rh rr)
