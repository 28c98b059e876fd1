-- ===== src/HashMap/Nodes.antt =====
-- `struct hashmap_bucket`: the nodes of its list, first node first, as pairs of key and data. The
-- loops over the nodes of lib/adt/hashmap.c.
use aphrodite.Base.{
  ℕ, ◌+◌, ◌≤◌, ◌≡◌, refl, arith, ◌==◌, if◌then◌else◌, Bool, true, false, Option, none, some, List,
  [], ◌∷◌, ◌++◌,
}

abbrev pub Bucket : Type 0 → Type 0
Bucket V = List (ℕ × V)

module _ {V : Type 0} where
  -- The data of the first node with the key.
  unfoldable pub find_node : ℕ → Bucket V → Option V
  find_node key [] = none
  find_node key ((k, v) ∷ nodes) = if k == key then some v else find_node key nodes

  -- `memcpy` into the first node with the key.
  unfoldable pub write_node : ℕ → V → Bucket V → Bucket V
  write_node key v [] = []
  write_node key v ((k, w) ∷ nodes) =
      if k == key then (k, v) ∷ nodes else (k, w) ∷ write_node key v nodes

  -- `list_deinit` of the first node with the key.
  unfoldable pub remove_node : ℕ → Bucket V → Bucket V
  remove_node key [] = []
  remove_node key ((k, w) ∷ nodes) = if k == key then nodes else (k, w) ∷ remove_node key nodes

  -- `list_empty(&bucket->node_list)`
  abbrev pub list_empty : Bucket V → Bool
  list_empty [] = true
  list_empty (_ ∷ _) = false

  -- How many nodes have the key.
  unfoldable pub count_nodes : ℕ → Bucket V → ℕ
  count_nodes key [] = 0
  count_nodes key ((k, _) ∷ nodes) = (if k == key then 1 else 0) + count_nodes key nodes

  pub find_node-absent : (q : ℕ) (b : Bucket V) → count_nodes q b ≡ 0 → find_node q b ≡ none
  unfolding count_nodes find_node
  find_node-absent q [] h = refl
  find_node-absent q ((k, v) ∷ b) h = ground (arith, find_node-absent q b)

  pub count_nodes-absent : (q : ℕ) (b : Bucket V) → find_node q b ≡ none → count_nodes q b ≡ 0
  unfolding count_nodes find_node
  count_nodes-absent q [] h = refl
  count_nodes-absent q ((k, v) ∷ b) h = ground (arith, count_nodes-absent q b)

  pub find_node-write_node :
      (key q : ℕ) (v : V) (b : Bucket V) (old : V)
      → find_node key b ≡ some old
      → find_node q (write_node key v b) ≡ (if key == q then some v else find_node q b)
  unfolding find_node write_node
  find_node-write_node key q v [] old h = cc
  find_node-write_node key q v ((k, w) ∷ b) old h =
      ground (arith, find_node-write_node key q v b old)

  pub count_nodes-write_node :
      (key q : ℕ) (v : V) (b : Bucket V) → count_nodes q (write_node key v b) ≡ count_nodes q b
  unfolding count_nodes write_node
  count_nodes-write_node key q v [] = refl
  count_nodes-write_node key q v ((k, w) ∷ b) = ground (arith, count_nodes-write_node key q v b)

  pub find_node-remove_node :
      (key q : ℕ) (b : Bucket V)
      → count_nodes key b ≤ 1
      → find_node q (remove_node key b) ≡ (if key == q then none else find_node q b)
  unfolding find_node remove_node count_nodes
  find_node-remove_node key q [] h = ground arith
  find_node-remove_node key q ((k, w) ∷ b) h =
      ground (arith, find_node-remove_node key q b, find_node-absent key b)

  pub count_nodes-remove_node :
      (key q : ℕ) (b : Bucket V) → count_nodes q (remove_node key b) ≤ count_nodes q b
  unfolding count_nodes remove_node
  count_nodes-remove_node key q [] = omega arith
  count_nodes-remove_node key q ((k, w) ∷ b) = ground (arith, count_nodes-remove_node key q b)

  pub find_node-append :
      (q : ℕ) (a b : Bucket V)
      → find_node q (a ++ b) ≡ elim (find_node q a) [ some v ↦ some v | none ↦ find_node q b ]
  unfolding find_node
  find_node-append q [] b = refl
  find_node-append q ((k, w) ∷ a) b = ground (arith, find_node-append q a b)
