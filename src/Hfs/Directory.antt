-- ===== src/Hfs/Directory.antt =====
-- src/HFSCatalogBTree.cpp: the records of a folder in the leaves of the catalog, and the comparators without names. A std::map is
-- the list of its pairs; a pointer to a record is what is left of its node from there on. `to_utf8` stands for
-- UnicharToString, `equal_case` and `equal_no_case` for the comparisons of ICU with a name in UTF-16.
pub mod Items
pub mod Collected
mod Tests
use darling_dmg.Common.{
  ℕ, zero, suc, ◌+◌, ◌*◌, Bool, true, false, not, ◌&&◌, ◌||◌, ltb, ◌==◌, if◌then◌else◌, Option,
  none, some, List, [], ◌∷◌, ◌++◌, Bytes, byte_at, length, take, drop, Result, ok, err, io_error,
  memory_fault, ◌>>=◌,
}
use darling_dmg.Hfs.Node.{number16, number32, record_count, record_key, record_data}
use darling_dmg.Hfs.Search.{CompareResult, smaller, equal, greater}
use darling_dmg.Hfs.Names.{same_bytes}
use darling_dmg.Hfs.Catalog.{shown_name}

abbrev pub Contents : Type 0
Contents = List (Bytes × Bytes)

unfoldable pub without_name : Bytes → Contents → Contents
unfolding same_bytes
without_name name [] = []
without_name name ((n, ff) ∷ l) =
    let rest = without_name name l in if same_bytes n name then rest else (n, ff) ∷ rest

-- `map[name] = ff`.
unfoldable pub put_name : Bytes → Bytes → Contents → Contents
unfolding without_name
put_name name ff l = (name, ff) ∷ without_name name l

-- `.HFS+ Private Directory Data` with a carriage return, `.journal` and `.journal_info_block`.
abbrev pub hidden_names : List Bytes
hidden_names =
    (0x2e ∷ 0x48 ∷ 0x46 ∷ 0x53 ∷ 0x2b ∷ 0x20 ∷ 0x50 ∷ 0x72 ∷ 0x69 ∷ 0x76 ∷ 0x61 ∷ 0x74 ∷ 0x65 ∷ 0x20
      ∷ 0x44 ∷ 0x69 ∷ 0x72 ∷ 0x65 ∷ 0x63 ∷ 0x74 ∷ 0x6f ∷ 0x72 ∷ 0x79 ∷ 0x20 ∷ 0x44 ∷ 0x61 ∷ 0x74
      ∷ 0x61 ∷ 0xd ∷ [])
    ∷ (0x2e ∷ 0x6a ∷ 0x6f ∷ 0x75 ∷ 0x72 ∷ 0x6e ∷ 0x61 ∷ 0x6c ∷ [])
    ∷ (0x2e ∷ 0x6a ∷ 0x6f ∷ 0x75 ∷ 0x72 ∷ 0x6e ∷ 0x61 ∷ 0x6c ∷ 0x5f ∷ 0x69 ∷ 0x6e ∷ 0x66 ∷ 0x6f
        ∷ 0x5f ∷ 0x62 ∷ 0x6c ∷ 0x6f ∷ 0x63 ∷ 0x6b ∷ [])
    ∷ []

unfoldable pub parent_id : Bytes → Result ℕ
unfolding number32
parent_id key = number32 key 2

unfoldable pub node_name : Bytes → Result Bytes
unfolding number16
node_name key = do
  units ← number16 key 6
  if ltb (length key) (2 * units + 8) then err memory_fault else ok (take (2 * units) (drop 8 key))

-- `kHFSPlusFolderRecord` and `kHFSPlusFileRecord`.
abbrev pub is_entry_type : ℕ → Bool
is_entry_type t = t == 1 || t == 2

unfoldable pub id_only_comparator : Bytes → Bytes → Result CompareResult
unfolding parent_id
id_only_comparator index_key desired_key = do
  index ← parent_id index_key
  desired ← parent_id desired_key
  ok (if ltb index desired then smaller else if ltb desired index then greater else equal)

module _ (to_utf8 : Bytes → Bytes) (equal_case equal_no_case : Bytes → Bytes → Bool)
    (case_sensitive : Bool) where
  abbrev pub is_wanted : Bytes → Bytes → Bool
  is_wanted name units =
      if length name == 0
      then true
      else if case_sensitive
      then equal_case units name
      else equal_no_case units name

  module _ (cnid : ℕ) (name : Bytes) where
    -- What the loop does with a record whose parent is the folder.
    unfoldable pub append_entry : Bytes → Bytes → Contents → Result Contents
    unfolding node_name put_name
    append_entry key ff map = do
      units ← node_name key
      ok (if is_wanted name units then put_name (to_utf8 units) ff map else map)

    unfoldable pub append_record : Bytes → Bytes → Contents → Result Contents
    unfolding append_entry parent_id number16
    append_record key ff map = do
      rec_type ← number16 ff 0
      let of_parent = (do
        parent ← parent_id key
        if parent == cnid then append_entry key ff map else ok map)
      if is_entry_type rec_type then of_parent else ok map

    -- The loop of `appendNameAndHFSPlusCatalogFileOrFolderFromLeafForParentIdAndName`, from the record `i` on.
    unfoldable pub append_from : Bytes → ℕ → ℕ → Contents → Result Contents
    unfolding append_record record_key record_data
    append_from node zero i map = ok map
    append_from node (suc rounds) i map = do
      key ← record_key node i
      ff ← record_data node i
      map' ← append_record key ff map
      append_from node rounds (i + 1) map'

    unfoldable pub append_leaf : Bytes → Contents → Result Contents
    unfolding append_from record_count
    append_leaf node map = do count ← record_count node; append_from node count 0 map

    unfoldable pub append_leaves : List Bytes → Contents → Result Contents
    unfolding append_leaf
    append_leaves [] map = ok map
    append_leaves (node ∷ leaves) map = do map' ← append_leaf node map; append_leaves leaves map'

  -- `find_leaves cnid` stands for findLeafNodes with the comparator of ids.
  module _ (find_leaves : ℕ → Result (List Bytes)) where
    unfoldable pub single : Contents → Result (Option Bytes)
    single [] = ok none
    single ((n, ff) ∷ []) = ok (some ff)
    single (_ ∷ _ ∷ _) = err io_error

    -- `findHFSPlusCatalogFileOrFolderForParentIdAndName`.
    unfoldable pub find_in_folder : ℕ → Bytes → Result (Option Bytes)
    unfolding append_leaves single
    find_in_folder parent elem = do
      leaves ← find_leaves parent
      contents ← append_leaves parent elem leaves []
      single contents

    -- The names that the root does not show; an empty name reads as a zero.
    unfoldable pub is_hidden : List Bytes → Bytes → Bool
    unfolding same_bytes
    is_hidden [] name = byte_at name 0 == 0
    is_hidden (h ∷ hidden) name = let rest = is_hidden hidden name in same_bytes name h || rest

    unfoldable pub shown_contents : ℕ → Contents → Contents → Contents
    unfolding is_hidden put_name shown_name
    shown_contents cnid [] shown = shown
    shown_contents cnid ((name, ff) ∷ l) shown = shown_contents cnid l (
        if not (cnid == 2) || not (is_hidden hidden_names name)
        then put_name (shown_name name) ff shown
        else shown)

    -- `listDirectory` of a folder with this number.
    unfoldable pub list_folder : ℕ → Result Contents
    unfolding append_leaves shown_contents
    list_folder cnid = do
      leaves ← find_leaves cnid
      contents ← append_leaves cnid [] leaves []
      ok (shown_contents cnid contents [])
