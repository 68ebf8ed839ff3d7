-- ===== src/Hfs/Leaves/Tests.antt =====
-- A tree of three leaves whose last one links back.
use darling_dmg.Common.{
  ℕ, ◌≡◌, ◌≤◌, ◌==◌, refl, arith, false, some, [], ◌∷◌, List, length, ok, if◌then◌else◌,
}
use darling_dmg.Hfs.Leaves.{TreeNode, find_leaf_nodes}
use darling_dmg.Hfs.Leaves.Chain
use darling_dmg.Hfs.Leaves.Chain.{IsChain, AreNodes}

abbrev back : ℕ → TreeNode
back i = record { forward_link = if i == 1 then 2 else 1; first_key = i ∷ [] }

loop_found :
    find_leaf_nodes (λ i. ok (back i)) (λ k. false) 3 (some (back 1))
    ≡ ok (back 1 ∷ back 2 ∷ back 1 ∷ [])
unfolding find_leaf_nodes
loop_found = refl

back-AreNodes : AreNodes (λ i. ok (back i)) (λ k. false) 3
back-AreNodes i h = (back i, refl, ground arith)

find_leaf_nodes-Walks_example :
    (l : List TreeNode) × (find_leaf_nodes (λ i. ok (back i)) (λ k. false) 3 (some (back 1))
      ≡ ok (back 1 ∷ l))
    × (length l ≤ 3)
    × IsChain (λ i. ok (back i)) (λ k. false) (back 1) l
find_leaf_nodes-Walks_example =
    Chain.find_leaf_nodes-Walks (λ i. ok (back i)) (λ k. false) 3 (back 1) back-AreNodes
      (omega arith)
