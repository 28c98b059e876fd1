-- ===== src/Avl/Keys.antt =====
-- The keys of a tree of lib/adt/avltree.c in order: what the rebalancing leaves as it is.
use aphrodite.Base.{
  ℕ, ◌+◌, ◌≡◌, ◌∙◌, refl, ap, sym, ltb, if◌then◌else◌, Bool, true, false, Bool-cases, inl, inr,
  List, [], ◌∷◌, ◌++◌,
}
use mathlib.Core.List.{append_assoc}
use aphrodite.Avl.{
  Tree, leaf, node, Frame, left_of, right_of, left, right, node_height, reset_node_height,
  rotate_left, rotate_right, avlnode_update, settle_left, settle_right, lean_left, lean_right,
  fix_node, avltree_fixup, insert_at_loc,
}

module _ {K D : Type 0} where
  -- The keys, from left to right.
  unfoldable pub keys : Tree K D → List K
  keys leaf = []
  keys (node l k d h r) = keys l ++ (k ∷ keys r)

  -- The keys of the whole tree, from those of the subtree at the end of the path.
  unfoldable pub around : List (Frame K D) → List K → List K
  around [] ks = ks
  around (left_of k d h r ∷ path) ks = around path (ks ++ (k ∷ keys r))
  around (right_of l k d h ∷ path) ks = around path (keys l ++ (k ∷ ks))

  keys-reset : (t : Tree K D) → keys (reset_node_height t) ≡ keys t
  unfolding keys reset_node_height
  keys-reset leaf = refl
  keys-reset (node l k d h r) = refl

  keys-rotate_left : (t : Tree K D) → keys (rotate_left t) ≡ keys t
  unfolding keys rotate_left
  keys-rotate_left leaf = refl
  keys-rotate_left (node l k d h leaf) = refl
  keys-rotate_left (node l k d h (node rl rk rd rh rr)) =
      append_assoc (keys l) (k ∷ keys rl) (rk ∷ keys rr)

  keys-rotate_right : (t : Tree K D) → keys (rotate_right t) ≡ keys t
  unfolding keys rotate_right
  keys-rotate_right leaf = refl
  keys-rotate_right (node leaf k d h r) = refl
  keys-rotate_right (node (node ll lk ld lh lr) k d h r) =
      sym (append_assoc (keys ll) (lk ∷ keys lr) (k ∷ keys r))

  pub keys-node :
      (l : Tree K D) (k : K) (d : D) (h : ℕ) (r : Tree K D)
      → keys (node l k d h r) ≡ keys l ++ (k ∷ keys r)
  unfolding keys
  keys-node l k d h r = refl

module _ {K D : Type 0} (update : Tree K D → K → D → Tree K D → D) where
  keys-update : (t : Tree K D) → keys (avlnode_update update t) ≡ keys t
  unfolding keys avlnode_update
  keys-update leaf = refl
  keys-update (node l k d h r) = refl

  keys-settle_left : (t : Tree K D) → keys (settle_left update t) ≡ keys t
  unfolding keys settle_left
  keys-settle_left leaf = refl
  keys-settle_left (node l k d h r) =
      ap (λ ks. ks ++ (k ∷ keys r)) (keys-update (reset_node_height l) ∙ keys-reset l)

  keys-settle_right : (t : Tree K D) → keys (settle_right update t) ≡ keys t
  unfolding keys settle_right
  keys-settle_right leaf = refl
  keys-settle_right (node l k d h r) =
      ap (λ ks. keys l ++ (k ∷ ks)) (keys-update (reset_node_height r) ∙ keys-reset r)

  keys-lean_right : (t : Tree K D) → keys (lean_right update t) ≡ keys t
  unfolding lean_right
  keys-lean_right t = elim (Bool-cases (ltb (node_height (right t)) (node_height (left t)))) [
    | inl e ↦ rw e (
        keys-update (reset_node_height (rotate_right t))
        ∙ keys-reset (rotate_right t)
        ∙ keys-rotate_right t)
    | inr e ↦ rw e refl
  ]

  keys-lean_left : (t : Tree K D) → keys (lean_left update t) ≡ keys t
  unfolding lean_left
  keys-lean_left t = elim (Bool-cases (ltb (node_height (left t)) (node_height (right t)))) [
    | inl e ↦ rw e (keys-reset (rotate_left t) ∙ keys-rotate_left t)
    | inr e ↦ rw e refl
  ]

  keys-if :
      (b : Bool) (x y : Tree K D) (ks : List K)
      → keys x ≡ ks
      → keys y ≡ ks
      → keys (if b then x else y) ≡ ks
  keys-if true x y ks p q = p
  keys-if false x y ks p q = q

  keys-with_right :
      (l : Tree K D) (k : K) (d : D) (h : ℕ) (r r' : Tree K D)
      → keys r' ≡ keys r
      → keys (node l k d h r') ≡ keys (node l k d h r)
  unfolding keys
  keys-with_right l k d h r r' e = ap (λ ks. keys l ++ (k ∷ ks)) e

  keys-with_left :
      (l l' : Tree K D) (k : K) (d : D) (h : ℕ) (r : Tree K D)
      → keys l' ≡ keys l
      → keys (node l' k d h r) ≡ keys (node l k d h r)
  unfolding keys
  keys-with_left l l' k d h r e = ap (λ ks. ks ++ (k ∷ keys r)) e

  pub keys-fix_node : (t : Tree K D) → keys (fix_node update t) ≡ keys t
  unfolding fix_node
  keys-fix_node leaf = refl
  keys-fix_node (node l k d h r) =
      let t = node l k d h r in
      let leant = node l k d h (lean_right update r) in
      let leant' = node (lean_left update l) k d h r in
      keys-if (ltb (node_height l + 1) (node_height r)) _ _ (keys t)
        (keys-update (settle_left update (rotate_left leant))
          ∙ keys-settle_left (rotate_left leant)
          ∙ keys-rotate_left leant
          ∙ keys-with_right l k d h r (lean_right update r) (keys-lean_right r))
        (keys-if (ltb (node_height r + 1) (node_height l)) _ _ (keys t)
          (keys-update (settle_right update (rotate_right leant'))
            ∙ keys-settle_right (rotate_right leant')
            ∙ keys-rotate_right leant'
            ∙ keys-with_left l (lean_left update l) k d h r (keys-lean_left l))
          (keys-update (reset_node_height t) ∙ keys-reset t))

  pub keys-avltree_fixup :
      (path : List (Frame K D)) (t : Tree K D)
      → keys (avltree_fixup update path t) ≡ around path (keys t)
  unfolding avltree_fixup around
  keys-avltree_fixup [] t = refl
  keys-avltree_fixup (left_of k d h r ∷ path) t =
      keys-avltree_fixup path (fix_node update (node t k d h r))
      ∙ ap (around path) (keys-fix_node (node t k d h r) ∙ keys-node t k d h r)
  keys-avltree_fixup (right_of l k d h ∷ path) t =
      keys-avltree_fixup path (fix_node update (node l k d h t))
      ∙ ap (around path) (keys-fix_node (node l k d h t) ∙ keys-node l k d h t)

  pub keys-insert_at_loc :
      (path : List (Frame K D)) (k : K) (d : D)
      → keys (insert_at_loc update path k d) ≡ around path (k ∷ [])
  unfolding insert_at_loc keys
  keys-insert_at_loc path k d =
      keys-avltree_fixup path (avlnode_update update (node leaf k d 1 leaf))
      ∙ ap (around path) (keys-update (node leaf k d 1 leaf))
