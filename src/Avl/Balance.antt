-- ===== src/Avl/Balance.antt =====
-- The stored heights of lib/adt/avltree.c: when one round of `avltree_fixup` keeps them right.
use aphrodite.Base.{ℕ, ◌+◌, ◌≤◌, ◌<◌, ◌≡◌, max, arith, ltb, true, false, ◌⊎◌, inl, inr, dec_lt, u32}
use aphrodite.Avl.{
  Tree, leaf, node, left, right, node_height, reset_node_height, rotate_left, rotate_right,
  avlnode_update, settle_left, settle_right, lean_left, lean_right, fix_node,
}

-- One more than the greater of two heights, where no wrap is possible.
grows : (a b : ℕ) → a < 0xffffffff → b < 0xffffffff → u32 (1 + max a b) ≡ 1 + max a b
grows a b p q = ground arith

module _ {K D : Type 0} where
  -- Every stored height is right, and the heights of two siblings differ by at most 1.
  unfoldable pub IsAvl : Tree K D → Type 0
  IsAvl leaf = Unit
  IsAvl (node l k d h r) =
      (h ≡ 1 + max (node_height l) (node_height r))
      × (node_height l ≤ 1 + node_height r)
      × (node_height r ≤ 1 + node_height l)
      × IsAvl l
      × IsAvl r

  module _ (update : Tree K D → K → D → Tree K D → D) where
    -- Trees whose heights differ by at most 1 need no rotation, whatever height their parent has.
    fix_even :
        (l r : Tree K D) (k : K) (d : D) (h : ℕ)
        → node_height l < 0xffffffff
        → node_height r < 0xffffffff
        → node_height l ≤ 1 + node_height r
        → node_height r ≤ 1 + node_height l
        → IsAvl l
        → IsAvl r
        → IsAvl (fix_node update (node l k d h r))
    unfolding fix_node IsAvl avlnode_update reset_node_height node_height
    fix_even l r k d h bl br a b al ar =
        let no_right : ltb (node_height l + 1) (node_height r) ≡ false = ground arith in
        let no_left : ltb (node_height r + 1) (node_height l) ≡ false = ground arith in
        rw (no_right, no_left) (grows (node_height l) (node_height r) bl br, a, b, al, ar)

    -- The outer grandchild is the higher one.
    fix_right :
        (l rl rr : Tree K D) (k rk : K) (d rd : D) (h rh : ℕ)
        → rh < 0xffffffff
        → rh ≡ 2 + node_height l
        → node_height rl < node_height rr
        → IsAvl l
        → IsAvl (node rl rk rd rh rr)
        → IsAvl (fix_node update (node l k d h (node rl rk rd rh rr)))
    unfolding fix_node IsAvl avlnode_update reset_node_height node_height rotate_left settle_left
        lean_right left right
    fix_right l rl rr k rk d rd h rh b e o al (stored, x, y, arl, arr) =
        let heavy : ltb (node_height l + 1) rh ≡ true = ground arith in
        let outer : ltb (node_height rr) (node_height rl) ≡ false = ground arith in
        let g = grows (node_height l) (node_height rl) (omega arith) (omega arith) in
        rw (heavy, outer)
          (
            omega (arith, g, stored, e, o),
            omega (arith, g, stored, e, o),
            omega (arith, g, stored, e, o),
            (g, omega (arith, stored, e, o), omega (arith, stored, e, o), al, arl),
            arr,
          )

    fix_left :
        (ll lr r : Tree K D) (lk k : K) (ld d : D) (lh h : ℕ)
        → lh < 0xffffffff
        → lh ≡ 2 + node_height r
        → node_height lr < node_height ll
        → IsAvl (node ll lk ld lh lr)
        → IsAvl r
        → IsAvl (fix_node update (node (node ll lk ld lh lr) k d h r))
    unfolding fix_node IsAvl avlnode_update reset_node_height node_height rotate_right settle_right
        lean_left left right
    fix_left ll lr r lk k ld d lh h b e o (stored, x, y, all, alr) ar =
        let light : ltb (lh + 1) (node_height r) ≡ false = ground arith in
        let heavy : ltb (node_height r + 1) lh ≡ true = ground arith in
        let outer : ltb (node_height ll) (node_height lr) ≡ false = ground arith in
        let g = grows (node_height lr) (node_height r) (omega arith) (omega arith) in
        rw (light, heavy, outer)
          (
            omega (arith, g, stored, e, o),
            omega (arith, g, stored, e, o),
            omega (arith, g, stored, e, o),
            all,
            (g, omega (arith, stored, e, o), omega (arith, stored, e, o), alr, ar),
          )

    -- The inner grandchild is the higher one: the new top keeps a height that is too large.
    stale_inner :
        (l a b rr : Tree K D) (k rk mk : K) (d rd md : D) (h rh mh : ℕ)
        → rh < 0xffffffff
        → rh ≡ 2 + node_height l
        → node_height rr < mh
        → IsAvl (node (node a mk md mh b) rk rd rh rr)
        → ¬ IsAvl (fix_node update (node l k d h (node (node a mk md mh b) rk rd rh rr)))
    unfolding fix_node IsAvl avlnode_update reset_node_height node_height rotate_left rotate_right
        settle_left lean_right left right
    stale_inner l a b rr k rk mk d rd md h rh mh small e o
          (stored, x, y, (inner, z, w, _, _), arr) =
        let heavy : ltb (node_height l + 1) rh ≡ true = ground arith in
        let inner_high : ltb (node_height rr) mh ≡ true = ground arith in
        rw (heavy, inner_high)
          (λ (_, _, _, _, (right_height, _, _, _, _)).
            omega (arith, right_height, stored, o, inner, z, w))

    -- Both grandchildren are equally high: the new top keeps a height that is too small.
    stale_even :
        (l rl rr : Tree K D) (k rk : K) (d rd : D) (h rh : ℕ)
        → rh < 0xffffffff
        → rh ≡ 2 + node_height l
        → node_height rl ≡ node_height rr
        → IsAvl (node rl rk rd rh rr)
        → ¬ IsAvl (fix_node update (node l k d h (node rl rk rd rh rr)))
    unfolding fix_node IsAvl avlnode_update reset_node_height node_height rotate_left settle_left
        lean_right left right
    stale_even l rl rr k rk d rd h rh small e o (stored, x, y, arl, arr) =
        let heavy : ltb (node_height l + 1) rh ≡ true = ground arith in
        let outer : ltb (node_height rr) (node_height rl) ≡ false = ground arith in
        rw (heavy, outer)
          (λ (top, _, _, _, _). omega (
            arith,
            top,
            grows (node_height l) (node_height rl) (omega arith) (omega arith),
            stored,
            e,
            o,
          ))

    -- A node with these two subtrees: their heights differ by at most 1, or by 2 and the outer
    -- grandchild on the higher side is higher than the inner one.
    abbrev pub IsMendable : Tree K D → Tree K D → Type 0
    IsMendable l r =
        ((node_height l ≤ 1 + node_height r) × (node_height r ≤ 1 + node_height l))
        ⊎ ((node_height r ≡ 2 + node_height l) × (node_height (left r) < node_height (right r)))
        ⊎ ((node_height l ≡ 2 + node_height r) × (node_height (right l) < node_height (left l)))

    -- A round of avltree_fixup at a node over two well-formed trees, whose heights are below
    -- 2 ^ 32 - 1, gives a well-formed tree, all stored heights right and siblings balanced, if the
    -- heights differ by at most 1, or by 2 with the outer grandchild of the higher side as
    -- the higher one. The height that the node had does not matter.
    pub fix_node-IsAvl :
        (l r : Tree K D) (k : K) (d : D) (h : ℕ)
        → node_height l < 0xffffffff
        → node_height r < 0xffffffff
        → IsMendable l r
        → IsAvl l
        → IsAvl r
        → IsAvl (fix_node update (node l k d h r))
    unfolding node_height left right
    fix_node-IsAvl l r k d h bl br (inl (a, b)) al ar = fix_even l r k d h bl br a b al ar
    fix_node-IsAvl l leaf k d h bl br (inr (inl (e, o))) al ar = absurd (omega (arith, o))
    fix_node-IsAvl l (node rl rk rd rh rr) k d h bl br (inr (inl (e, o))) al ar =
        fix_right l rl rr k rk d rd h rh br e o al ar
    fix_node-IsAvl leaf r k d h bl br (inr (inr (e, o))) al ar = absurd (omega (arith, o))
    fix_node-IsAvl (node ll lk ld lh lr) r k d h bl br (inr (inr (e, o))) al ar =
        fix_left ll lr r lk k ld d lh h bl e o al ar

    -- In the other case of a right side that is higher by 2, where the inner grandchild is as high as
    -- the outer one or higher, a round of avltree_fixup always leaves a stored height wrong or
    -- siblings out of balance.
    pub fix_node-stale :
        (l r : Tree K D) (k : K) (d : D) (h : ℕ)
        → node_height r < 0xffffffff
        → node_height r ≡ 2 + node_height l
        → node_height (right r) ≤ node_height (left r)
        → IsAvl r
        → ¬ IsAvl (fix_node update (node l k d h r))
    unfolding node_height left right
    fix_node-stale l leaf k d h b e o ar = absurd (omega (arith, e))
    fix_node-stale l (node leaf rk rd rh rr) k d h b e o ar =
        stale_even l leaf rr k rk d rd h rh b e (omega (arith, o)) ar
    fix_node-stale l (node (node rll mk md mh rlr) rk rd rh rr) k d h b e o ar =
        elim (dec_lt (node_height rr) mh) [
          | yes higher ↦ stale_inner l rll rlr rr k rk mk d rd md h rh mh b e higher ar
          | no same ↦
              stale_even l (node rll mk md mh rlr) rr k rk d rd h rh b e (omega (arith, o, same)) ar
        ]
