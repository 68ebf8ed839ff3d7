-- ===== src/Hfs/Overflow.antt =====
-- src/HFSExtentsOverflowBTree.cpp: the extents of a file that its catalog record has no room for. A
-- record of a leaf is its key and its eight descriptors, in host byte order.
pub mod Wanted
mod Tests
use darling_dmg.Common.{
  ℕ, zero, suc, ◌+◌, Bool, true, false, ◌&&◌, not, ◌==◌, ltb, if◌then◌else◌, List, [], ◌∷◌, ◌++◌,
  Result, ok, err, io_error, ◌>>=◌,
}

-- HFSPlusExtentDescriptor.
pub record Extent : Type 0 where
  pub start_block : ℕ
  pub block_count : ℕ

-- HFSPlusExtentKey, with the record's data.
pub record ExtentRecord : Type 0 where
  pub fork_type : ℕ
  pub file_id : ℕ
  pub start_block : ℕ
  pub extents : List Extent

-- The inner loop: the descriptors up to the first one without blocks.
unfoldable pub used_extents : List Extent → List Extent
used_extents [] = []
used_extents (e ∷ es) = let rest = used_extents es in if e.block_count == 0 then [] else e ∷ rest

module _ (fork_type file_id start_block : ℕ) where
  unfoldable pub same_file : ExtentRecord → Bool
  same_file r = r.fork_type == fork_type && r.file_id == file_id

  -- The body of the loop over the records of one leaf; `first` and the extents found so far.
  unfoldable pub add_record : ExtentRecord → Bool × List Extent → Result (Bool × List Extent)
  unfolding same_file used_extents
  add_record r (first, found) =
      if not (same_file r)
      then ok (first, found)
      else if ltb r.start_block start_block
      then ok (first, found)
      else if first && not (r.start_block == start_block)
      then err io_error
      else ok (false, found ++ used_extents r.extents)

  unfoldable pub add_leaf : List ExtentRecord → Bool × List Extent → Result (Bool × List Extent)
  unfolding add_record
  add_leaf [] state = ok state
  add_leaf (r ∷ rs) state = do state' ← add_record r state; add_leaf rs state'

  unfoldable pub add_leaves :
      List (List ExtentRecord) → Bool × List Extent → Result (Bool × List Extent)
  unfolding add_leaf
  add_leaves [] state = ok state
  add_leaves (l ∷ ls) state = do state' ← add_leaf l state; add_leaves ls state'

-- `findExtentsForFile`, on the leaves that the search of the tree gives.
unfoldable pub find_extents_for_file :
    List (List ExtentRecord) → ℕ → Bool → ℕ → List Extent → Result (List Extent)
unfolding add_leaves
find_extents_for_file leaves cnid resource_fork start_block found = do
  (first, found') ←
      add_leaves (if resource_fork then 0xff else 0) cnid start_block leaves (true, found)
  ok found'

-- `cnidComparator`: its sign. The fork type comes before the file.
pub data Sign : Type 0 where
  less same greater : Sign

unfoldable pub sign : ℕ → ℕ → Sign
sign a b = if ltb b a then greater else if ltb a b then less else same

unfoldable pub cnid_comparator : ℕ × ℕ → ℕ × ℕ → Sign
unfolding sign
cnid_comparator (index_type, index_id) (desired_type, desired_id) =
    if ltb desired_type index_type
    then greater
    else if ltb index_type desired_type
    then less
    else if ltb desired_id index_id
    then greater
    else if ltb index_id desired_id
    then less
    else same
