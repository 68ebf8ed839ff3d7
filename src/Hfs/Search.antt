-- ===== src/Hfs/Search.antt =====
-- src/HFSBTree.cpp: the descent to a leaf. `comp a b` is the comparator of the tree; a key that it is given is a pointer
-- into a node.
pub mod Bound
pub mod Descent
mod Tests
use darling_dmg.Common.{
  ℕ, zero, suc, ◌+◌, ◌-◌, ◌*◌, ◌/◌, Bool, true, false, not, ◌==◌, if◌then◌else◌, Option, none, some,
  Bytes, length, byte_at, drop, Result, ok, err, io_error, out_of_fuel, ◌>>=◌,
}
use darling_dmg.Endian.{be16_at, be32_at}
use darling_dmg.Io.{Reader}
use darling_dmg.Hfs.Node.{
  NodeKind, leaf_node, index_node, header_node, map_node, invalid_kind, read_node, number32,
  node_kind, record_count, record_key, record_data,
}

pub data CompareResult : Type 0 where
  smaller equal greater : CompareResult

unfoldable pub is_smaller : CompareResult → Bool
is_smaller smaller = true
is_smaller _ = false

-- What is used of the header record.
pub record TreeHeader : Type 0 where
  pub root_node : ℕ
  pub node_size : ℕ

-- The constructor.
unfoldable pub open_tree : Reader → Result TreeHeader
unfolding be16_at be32_at
open_tree r = do
  desc0 ← r.read 14 0
  let rest = (do
    header ← r.read 106 14
    let read : TreeHeader = record { root_node = be32_at header 2; node_size = be16_at header 18 }
    if length header == 106 then ok read else err io_error)
  if not (length desc0 == 14)
      then err io_error
      else if byte_at desc0 8 == 1
      then rest
      else err io_error

module _ (test : Bytes → Bool) (node : Bytes) where
  -- std::lower_bound and std::upper_bound: the first of `len` records from `first` on whose key fails the test, by
  -- halving.
  unfoldable pub bound_from : ℕ → ℕ → ℕ → Result ℕ
  unfolding record_key
  bound_from zero first len = if len == 0 then ok first else err out_of_fuel
  bound_from (suc fuel) first len =
      let half = len / 2 in
      let upper = bound_from fuel (first + half + 1) (len - half - 1) in
      let lower = bound_from fuel first half in
      let probe = (do key ← record_key node (first + half); if test key then upper else lower) in
      if len == 0 then ok first else probe

  unfoldable pub bound : Result ℕ
  unfolding bound_from
  bound = do count ← record_count node; bound_from count 0 count

module _ (comp : Bytes → Bytes → CompareResult) (index_key : Bytes) where
  -- What a key has to meet to stand before the bound.
  unfoldable pub before_bound_of : Bool → Bytes → Bool
  unfolding is_smaller
  before_bound_of true key = is_smaller (comp key index_key)
  before_bound_of false key = not (is_smaller (comp index_key key))

  -- The number of the child to go down to.
  unfoldable pub child_of : Bool → Bytes → Result ℕ
  unfolding bound before_bound_of
  child_of wildcard node = do
    it ← bound (before_bound_of wildcard) node
    bytes ← record_data node (if it == 0 then 0 else it - 1)
    number32 bytes 0

  unfoldable pub traverse_tree : Reader → ℕ → Bool → ℕ → ℕ → Result (Option Bytes)
  unfolding child_of
  traverse_tree r node_size wildcard zero index = err out_of_fuel
  traverse_tree r node_size wildcard (suc fuel) index = do
    node ← read_node r index node_size
    kind ← node_kind node
    let down = (do child ← child_of wildcard node; traverse_tree r node_size wildcard fuel child)
    elim kind [
      | index_node ↦ down
      | leaf_node ↦ ok (some node)
      | header_node ↦ ok none
      | map_node ↦ ok none
      | invalid_kind b ↦ ok none
    ]

  unfoldable pub find_leaf_node : Reader → TreeHeader → Bool → ℕ → Result (Option Bytes)
  unfolding traverse_tree
  find_leaf_node r header wildcard fuel =
      traverse_tree r header.node_size wildcard fuel header.root_node
