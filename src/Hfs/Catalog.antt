-- ===== src/Hfs/Catalog.antt =====
-- src/HFSCatalogBTree.cpp: the path lookup of the catalog, and its times. A name is its bytes, `find`
-- looks a name up in a folder, and a record is the part of HFSPlusCatalogFileOrFolder that the lookup reads.
pub mod Paths
pub mod Time
mod Tests
use darling_dmg.Common.{
  ℕ, zero, suc, ◌+◌, ◌-◌, ◌%◌, Bool, true, false, ◌&&◌, not, ◌==◌, ltb, if◌then◌else◌, Option, none,
  some, List, [], ◌∷◌, ◌++◌, map, Bytes, take, drop, length, byte_at, Result, ok, err, memory_fault,
  ◌>>=◌,
}
use darling_dmg.Common.Word.{u32_mod, u64_mod}

abbrev pub slash : ℕ
slash = 0x2f

abbrev pub colon : ℕ
colon = 0x3a

unfoldable pub replace_chars : ℕ → ℕ → Bytes → Bytes
replace_chars old new [] = []
replace_chars old new (c ∷ s) = (if c == old then new else c) ∷ replace_chars old new s

-- `split`: what `getline` gives, `item` being the part read so far. An empty part at the end is none.
unfoldable pub split_from : Bytes → ℕ → Bytes → List Bytes
split_from item delim [] = if length item == 0 then [] else item ∷ []
split_from item delim (c ∷ s) =
    let stop = split_from [] delim s in
    let more = split_from (item ++ c ∷ []) delim s in if c == delim then item ∷ stop else more

unfoldable pub split : Bytes → ℕ → List Bytes
unfolding split_from
split s delim = split_from [] delim s

-- The start of `stat`: one slash goes at each end, and the first element is the root's empty name.
unfoldable pub without_first : Bytes → Bytes
without_first [] = []
without_first (c ∷ s) = if c == slash then s else c ∷ s

unfoldable pub without_last : Bytes → Bytes
without_last s = if byte_at s (length s - 1) == slash then take (length s - 1) s else s

unfoldable pub path_elems : Bytes → List Bytes
unfolding split without_first without_last
path_elems path = [] ∷ split (without_last (without_first path)) slash

-- The name of a record as `listDirectory` shows it.
unfoldable pub shown_name : Bytes → Bytes
unfolding replace_chars
shown_name filename = replace_chars slash colon filename

-- The name that `stat` looks up for an element of a path.
unfoldable pub stored_name : Bytes → Bytes
unfolding replace_chars
stored_name elem = replace_chars colon slash elem

pub record CatalogRecord : Type 0 where
  pub folder_id : ℕ
  pub file_type : ℕ
  pub i_node_num : ℕ

abbrev pub root_parent_id : ℕ
root_parent_id = 1

-- `-ENOENT`, or the record.
pub data Lookup : Type 0 where
  enoent : Lookup
  found : CatalogRecord → Lookup

abbrev pub hard_link_file_type : ℕ
hard_link_file_type = 0x686C6E6B

abbrev pub i_node : Bytes
i_node = 0x69 ∷ 0x4e ∷ 0x6f ∷ 0x64 ∷ 0x65 ∷ []

unfoldable pub parent_of : Option CatalogRecord → ℕ
parent_of none = root_parent_id
parent_of (some last) = last.folder_id

unfoldable pub or_last : CatalogRecord → Option CatalogRecord → Lookup
or_last last none = found last
or_last last (some leaf) = found leaf

-- `to_string` stands for std::to_string.
module _ (find : ℕ → Bytes → Result (Option CatalogRecord)) (to_string : ℕ → Bytes)
    (hard_link_dir : ℕ) where
  -- The end of `stat`: a hard link is looked up among the inodes. With no element, `last` is null.
  unfoldable pub follow_link : Option CatalogRecord → Result Lookup
  unfolding or_last
  follow_link none = err memory_fault
  follow_link (some last) =
      let linked = (do
        leaf ← find hard_link_dir (i_node ++ to_string last.i_node_num)
        ok (or_last last leaf)) in
      if last.file_type == hard_link_file_type && not (hard_link_dir == 0)
      then linked
      else ok (found last)

  -- The loop of `stat`.
  unfoldable pub stat_elems : List Bytes → Option CatalogRecord → Result Lookup
  unfolding follow_link stored_name parent_of
  stat_elems [] last = follow_link last
  stat_elems (e ∷ es) last = do
    r ← find (parent_of last) (stored_name e)
    elim r [ none ↦ ok enoent | some next ↦ stat_elems es (some next) ]

  unfoldable pub stat : Bytes → Result Lookup
  unfolding stat_elems path_elems
  stat path = stat_elems (path_elems path) none

-- `appleToUnixTime`.
abbrev pub apple_offset : ℕ
apple_offset = 2082844800

unfoldable pub apple_to_unix_time : ℕ → ℕ
apple_to_unix_time apple = if apple == 0 then 0 else (apple + u64_mod - apple_offset) % u32_mod
