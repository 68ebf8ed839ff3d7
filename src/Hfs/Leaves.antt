-- ===== src/Hfs/Leaves.antt =====
-- src/HFSBTree.cpp: the walk along the leaves of a B-tree. `read_node` makes the node with a number, and
-- `above key` is `comp(key, indexKey) > 0`. `uniqLink` is the list of its elements.
pub mod Chain
mod Tests
use darling_dmg.Common.{
  ℕ, zero, suc, ◌+◌, Bool, true, false, ◌||◌, ◌==◌, if◌then◌else◌, Option, none, some, List, Bytes,
  [], ◌∷◌, Result, ok, err, out_of_fuel, ◌>>=◌,
}

unfoldable pub mem_link : ℕ → List ℕ → Bool
mem_link n [] = false
mem_link n (m ∷ l) = m == n || mem_link n l

pub record TreeNode : Type 0 where
  pub forward_link : ℕ
  pub first_key : Bytes

-- The two tests that end the loop before a node is read.
unfoldable pub no_next : List ℕ → TreeNode → Bool
unfolding mem_link
no_next seen node = node.forward_link == 0 || mem_link node.forward_link seen

module _ (read_node : ℕ → Result TreeNode) (above : Bytes → Bool) where
  -- The loop of `findLeafNodes`: the nodes that it appends behind the current one.
  unfoldable pub leaf_chain : ℕ → List ℕ → TreeNode → Result (List TreeNode)
  unfolding no_next
  leaf_chain zero seen node = if no_next seen node then ok [] else err out_of_fuel
  leaf_chain (suc fuel) seen node =
      let rest = (do
        next ← read_node node.forward_link
        let more = (do l ← leaf_chain fuel (node.forward_link ∷ seen) next; ok (next ∷ l))
        if above next.first_key then ok [] else more) in
      if no_next seen node then ok [] else rest

  -- `findLeafNodes`, from what `findLeafNode` gives.
  unfoldable pub find_leaf_nodes : ℕ → Option TreeNode → Result (List TreeNode)
  unfolding leaf_chain
  find_leaf_nodes fuel none = ok []
  find_leaf_nodes fuel (some first) = do l ← leaf_chain fuel [] first; ok (first ∷ l)
