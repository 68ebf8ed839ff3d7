-- ===== src/Hfs/Search/Descent.antt =====
-- The descent from a node to a leaf.
use darling_dmg.Common.{
  ℕ, zero, suc, ◌-◌, ◌≡◌, refl, Bool, some, if◌then◌else◌, ◌==◌, List, Bytes, ok, err, out_of_fuel,
  arith,
}
use darling_dmg.Io.{Reader}
use darling_dmg.Hfs.Node.{leaf_node, index_node, read_node, number32, node_kind, record_data}
use darling_dmg.Hfs.Search.{CompareResult, before_bound_of, child_of, traverse_tree}
use darling_dmg.Hfs.Search.Bound.{passing, IsSplit, HasKeys, bound-passing}

module _ (comp : Bytes → Bytes → CompareResult) (index_key : Bytes) (wildcard : Bool) (r : Reader)
    (node_size : ℕ) where
  -- What a record of an index node points to.
  pub record PointsTo (node : Bytes) (position child : ℕ) : Type 0 where
    pub bytes : Bytes
    pub behind_key : record_data node position ≡ ok bytes
    pub pointer : number32 bytes 0 ≡ ok child

  -- The way from the node number `index` down to a leaf, `depth` nodes above it: in each node on it the keys are in
  -- order, and it goes on at the last record whose key stands before the bound, or at the first one. (The bound is
  -- the first key that is not smaller than the wanted one, or, without the wildcard, the first that is greater.)
  pub data LeadsTo : (depth index : ℕ) → Bytes → Type 0 where
    at_leaf :
        {index : ℕ} (node : Bytes)
        → read_node r index node_size ≡ ok node
        → node_kind node ≡ ok leaf_node
        → LeadsTo 0 index node
    through :
        {depth index child : ℕ} {leaf : Bytes} (node : Bytes) (keys : List Bytes)
        → read_node r index node_size ≡ ok node
        → node_kind node ≡ ok index_node
        → HasKeys node keys
        → IsSplit (before_bound_of comp index_key wildcard) keys
        → PointsTo node (passing (before_bound_of comp index_key wildcard) keys - 1) child
        → LeadsTo depth child leaf
        → LeadsTo (suc depth) index leaf

  clamped : (n : ℕ) → (if n == 0 then 0 else n - 1) ≡ n - 1
  clamped n = ground arith

  child_of-PointsTo :
      (node : Bytes) (keys : List Bytes) (child : ℕ)
      → HasKeys node keys
      → IsSplit (before_bound_of comp index_key wildcard) keys
      → PointsTo node (passing (before_bound_of comp index_key wildcard) keys - 1) child
      → child_of comp index_key wildcard node ≡ ok child
  unfolding child_of
  child_of-PointsTo node keys child has split to =
      rw
        (
          bound-passing (before_bound_of comp index_key wildcard) node keys has split,
          clamped (passing (before_bound_of comp index_key wildcard) keys),
          to.behind_key,
        )
        to.pointer

  -- In a tree whose keys are in order on the way to the wanted key, the descent by binary search ends, and gives the leaf
  -- that a scan of the keys of each node leads to.
  pub traverse_tree-LeadsTo :
      (depth index : ℕ) (leaf : Bytes)
      → LeadsTo depth index leaf
      → traverse_tree comp index_key r node_size wildcard (suc depth) index ≡ ok (some leaf)
  unfolding traverse_tree
  traverse_tree-LeadsTo depth index leaf (at_leaf node read kind) = rw (read, kind) refl
  traverse_tree-LeadsTo depth index leaf
        (through {depth = d} {child = child} node keys read kind has split to below) =
      rw (read, kind, child_of-PointsTo node keys child has split to)
        (traverse_tree-LeadsTo d child leaf below)

  -- An index node of a broken tree, whose search leads to itself.
  pub record IsLoop (index : ℕ) : Type 0 where
    pub node : Bytes
    pub read : read_node r index node_size ≡ ok node
    pub kind : node_kind node ≡ ok index_node
    pub child : child_of comp index_key wildcard node ≡ ok index

  -- Down from an index node whose search leads to the node itself, the descent never comes to an end, however many
  -- nodes it may read.
  pub traverse_tree-loop :
      (fuel index : ℕ)
      → IsLoop index
      → traverse_tree comp index_key r node_size wildcard fuel index ≡ err out_of_fuel
  unfolding traverse_tree
  traverse_tree-loop zero index l = refl
  traverse_tree-loop (suc fuel) index l =
      rw (l.read, l.kind, l.child) (traverse_tree-loop fuel index l)
