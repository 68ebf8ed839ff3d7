-- ===== src/Hfs/Leaves/Chain.antt =====
-- The walk along the leaves ends, whatever the links are.
use darling_dmg.Common.{
  ℕ, zero, suc, ◌≤◌, ◌<◌, ◌≡◌, refl, ap, ◌∙◌, sym, arith, Bool, true, false, ◌==◌, if◌then◌else◌,
  some, List, Bytes, [], ◌∷◌, Result, ok, Bool-cases, inl, inr, length,
}
use darling_dmg.Hfs.Leaves.{TreeNode, mem_link, no_next, leaf_chain, find_leaf_nodes}

-- How many numbers below `n` are not in the list.
unseen : ℕ → List ℕ → ℕ
unseen zero seen = 0
unseen (suc n) seen = let rest = unseen n seen in if mem_link n seen then rest else suc rest

unseen-above : (n m : ℕ) (seen : List ℕ) → n ≤ m → unseen n (m ∷ seen) ≡ unseen n seen
unfolding unseen mem_link
unseen-above zero m seen h = refl
unseen-above (suc n) m seen h = ground (arith, unseen-above n m seen)

unseen-new :
    (n m : ℕ) (seen : List ℕ)
    → m < n
    → mem_link m seen ≡ false
    → suc (unseen n (m ∷ seen)) ≡ unseen n seen
unfolding unseen mem_link
unseen-new zero m seen h new = absurd (omega arith)
unseen-new (suc n) m seen h new = elim (Bool-cases (m == n)) [
  | inl here ↦
      let same : m ≡ n = ground arith in
      let old : mem_link n seen ≡ false = ap (λ k. mem_link k seen) (sym same) ∙ new in
      ground (arith, unseen-above n m seen, old)
  | inr later ↦ ground (arith, unseen-new n m seen)
]

unseen-nil : (n : ℕ) → unseen n [] ≡ n
unfolding unseen mem_link
unseen-nil zero = refl
unseen-nil (suc n) = ap suc (unseen-nil n)

module _ (read_node : ℕ → Result TreeNode) (above : Bytes → Bool) where
  -- The nodes follow each other by their links, and none of them is above the key.
  pub data IsChain : TreeNode → List TreeNode → Type 0 where
    ends : {node : TreeNode} → IsChain node []
    link :
        {node next : TreeNode} {l : List TreeNode}
        → read_node node.forward_link ≡ ok next
        → above next.first_key ≡ false
        → IsChain next l
        → IsChain node (next ∷ l)

  pub record Walks (limit : ℕ) (node : TreeNode) (result : Result (List TreeNode)) : Type 0 where
    pub out : List TreeNode
    pub returns : result ≡ ok out
    pub bounded : length out ≤ limit
    pub chain : IsChain node out

  -- Every node can be read, and links to a node below `n`.
  abbrev pub AreNodes : ℕ → Type 0
  AreNodes n =
      (i : ℕ) → i < n → (node : TreeNode) × (read_node i ≡ ok node) × (node.forward_link < n)

  stops-Walks :
      (fuel : ℕ) (seen : List ℕ) (node : TreeNode) (limit : ℕ)
      → no_next seen node ≡ true
      → Walks limit node (leaf_chain read_node above fuel seen node)
  unfolding leaf_chain
  stops-Walks zero seen node limit stop =
      rw stop (record { out = []; returns = refl; bounded = omega arith; chain = ends })
  stops-Walks (suc fuel) seen node limit stop =
      rw stop (record { out = []; returns = refl; bounded = omega arith; chain = ends })

  next-Walks :
      (fuel limit : ℕ) (seen : List ℕ) (node next : TreeNode)
      → no_next seen node ≡ false
      → read_node node.forward_link ≡ ok next
      → above next.first_key ≡ false
      → Walks limit next (leaf_chain read_node above fuel (node.forward_link ∷ seen) next)
      → Walks (suc limit) node (leaf_chain read_node above (suc fuel) seen node)
  unfolding leaf_chain
  next-Walks fuel limit seen node next more read below w =
      let bounded = w.bounded in
      record {
        out = next ∷ w.out;
        returns = rw (more, read, below, w.returns);
        bounded = omega arith;
        chain = link read below w.chain;
      }

  above-Walks :
      (fuel limit : ℕ) (seen : List ℕ) (node next : TreeNode)
      → no_next seen node ≡ false
      → read_node node.forward_link ≡ ok next
      → above next.first_key ≡ true
      → Walks limit node (leaf_chain read_node above (suc fuel) seen node)
  unfolding leaf_chain
  above-Walks fuel limit seen node next more read over =
      rw (more, read, over)
        (record { out = []; returns = refl; bounded = omega arith; chain = ends })

  no_next-new :
      (seen : List ℕ) (node : TreeNode)
      → no_next seen node ≡ false
      → mem_link node.forward_link seen ≡ false
  unfolding no_next
  no_next-new seen node h = ground arith

  -- With a round for every node that was not yet linked to, the loop ends.
  leaf_chain-Walks :
      (n fuel : ℕ) (seen : List ℕ) (node : TreeNode)
      → AreNodes n
      → node.forward_link < n
      → unseen n seen ≤ fuel
      → Walks fuel node (leaf_chain read_node above fuel seen node)
  leaf_chain-Walks n zero seen node all h enough = elim (Bool-cases (no_next seen node)) [
    | inl stop ↦ stops-Walks zero seen node zero stop
    | inr more ↦ absurd (
        let new = unseen-new n node.forward_link seen h (no_next-new seen node more) in omega arith)
  ]
  leaf_chain-Walks n (suc fuel) seen node all h enough = elim (Bool-cases (no_next seen node)) [
    | inl stop ↦ stops-Walks (suc fuel) seen node (suc fuel) stop
    | inr more ↦
        let new = unseen-new n node.forward_link seen h (no_next-new seen node more) in
        let (next, read, below) = all node.forward_link h in
        elim (Bool-cases (above next.first_key)) [
          | inl over ↦ above-Walks fuel (suc fuel) seen node next more read over
          | inr under ↦
              next-Walks fuel fuel seen node next more read under
                (leaf_chain-Walks n fuel (node.forward_link ∷ seen) next all below (omega arith))
        ]
  ]

  -- On a tree whose `n` nodes can all be read and link to each other in any way, loops included, the walk
  -- from a leaf always returns: the leaf and at most `n` more, each the one that the node before it
  -- links to, and none above the key.
  pub find_leaf_nodes-Walks :
      (n : ℕ) (first : TreeNode)
      → AreNodes n
      → first.forward_link < n
      → (l : List TreeNode) × (find_leaf_nodes read_node above n (some first) ≡ ok (first ∷ l))
        × (length l ≤ n)
        × IsChain first l
  unfolding find_leaf_nodes
  find_leaf_nodes-Walks n first all h =
      let w = leaf_chain-Walks n n [] first all h (let e = unseen-nil n in omega arith) in
      (w.out, rw w.returns, w.bounded, w.chain)
