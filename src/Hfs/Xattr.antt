-- ===== src/Hfs/Xattr.antt =====
-- src/HFSHighLevelVolume.cpp: what stat tells of a file or a folder, and its extended attributes. `FileRecord` is what is used of
-- HFSPlusCatalogFileOrFolder, after `be`; a folder has no forks. `cat_stat` stands for `stat` of the catalog, `fork_of`
-- for the construction of an HFSFork, `attributes` for the attribute tree, if there is one.
pub mod Listed
mod Tests
use darling_dmg.Common.{
  ℕ, ◌+◌, ◌-◌, ◌/◌, ◌%◌, min, Bool, true, false, not, ◌&&◌, ◌||◌, ltb, ◌==◌, if◌then◌else◌, Option,
  none, some, List, [], ◌∷◌, ◌++◌, Bytes, length, take, drop, replicate, Result, ok, err,
  file_not_found_error, attribute_not_found_error, operation_not_permitted_error, logic_error,
  ◌>>=◌,
}
use darling_dmg.Common.Word.{i32_limit, u32_mod}
use darling_dmg.Endian.{be32_at, le32_at, le64_at}
use darling_dmg.Io.{Reader}
use darling_dmg.Hfs.Catalog.{apple_to_unix_time}
use darling_dmg.Hfs.Names.{same_bytes, stat_name, xattr_name}

pub record FileRecord : Type 0 where
  pub is_file : Bool
  pub access_date : ℕ
  pub content_mod_date : ℕ
  pub attribute_mod_date : ℕ
  pub owner_id : ℕ
  pub group_id : ℕ
  pub owner_flags : ℕ
  pub file_mode : ℕ
  pub special : ℕ
  pub file_id : ℕ
  pub data_size : ℕ
  pub data_blocks : ℕ
  pub resource_size : ℕ
  pub resource_blocks : ℕ
  pub user_info : Bytes
  pub finder_info : Bytes

pub record Stat : Type 0 where
  pub atime : ℕ
  pub mtime : ℕ
  pub ctime : ℕ
  pub mode : ℕ
  pub uid : ℕ
  pub gid : ℕ
  pub ino : ℕ
  pub blksize : ℕ
  pub nlink : ℕ
  pub size : ℕ
  pub blocks : ℕ
  pub rdev : ℕ

pub record Attributes : Type 0 where
  pub list : ℕ → Result (List (Bytes × Bytes))
  pub get : ℕ → Bytes → Result (Option Bytes)

-- What `openFile` of the catalog returns: 0 with a reader, -EISDIR, or another number below zero.
pub data Opened : Type 0 where
  opened : Reader → Opened
  is_directory missing : Opened

abbrev pub is_compressed_file : FileRecord → Bool
is_compressed_file ff = ff.owner_flags / 0x20 % 2 == 1

-- S_ISCHR and S_ISBLK.
abbrev pub is_device : ℕ → Bool
is_device mode = mode / 0x1000 % 16 == 2 || mode / 0x1000 % 16 == 6

unfoldable pub mode_of : FileRecord → ℕ
mode_of ff = if ff.file_mode == 0 then (if ff.is_file then 0x8124 else 0x416d) else ff.file_mode

unfoldable pub hfs_native_to_stat : FileRecord → Bool → Stat
unfolding mode_of apple_to_unix_time
hfs_native_to_stat ff resource_fork = record {
  atime = apple_to_unix_time ff.access_date;
  mtime = apple_to_unix_time ff.content_mod_date;
  ctime = apple_to_unix_time ff.attribute_mod_date;
  mode = mode_of ff;
  uid = ff.owner_id;
  gid = ff.group_id;
  ino = ff.file_id;
  blksize = 512;
  nlink = ff.special;
  size = if ff.is_file then (if resource_fork then ff.resource_size else ff.data_size) else 0;
  blocks = if ff.is_file then (if resource_fork then ff.resource_blocks else ff.data_blocks) else 0;
  rdev = if ff.is_file && is_device ff.file_mode then ff.special else 0;
}

-- `com.apple.decmpfs`.
abbrev pub decmpfs_xattr_name : Bytes
decmpfs_xattr_name =
    0x63 ∷ 0x6f ∷ 0x6d ∷ 0x2e ∷ 0x61 ∷ 0x70 ∷ 0x70 ∷ 0x6c ∷ 0x65 ∷ 0x2e ∷ 0x64 ∷ 0x65 ∷ 0x63 ∷ 0x6d
    ∷ 0x70 ∷ 0x66 ∷ 0x73 ∷ []

-- `com.apple.ResourceFork`.
abbrev pub xattr_resource_fork : Bytes
xattr_resource_fork =
    0x63 ∷ 0x6f ∷ 0x6d ∷ 0x2e ∷ 0x61 ∷ 0x70 ∷ 0x70 ∷ 0x6c ∷ 0x65 ∷ 0x2e ∷ 0x52 ∷ 0x65 ∷ 0x73 ∷ 0x6f
    ∷ 0x75 ∷ 0x72 ∷ 0x63 ∷ 0x65 ∷ 0x46 ∷ 0x6f ∷ 0x72 ∷ 0x6b ∷ []

-- `com.apple.FinderInfo`.
abbrev pub xattr_finder_info : Bytes
xattr_finder_info =
    0x63 ∷ 0x6f ∷ 0x6d ∷ 0x2e ∷ 0x61 ∷ 0x70 ∷ 0x70 ∷ 0x6c ∷ 0x65 ∷ 0x2e ∷ 0x46 ∷ 0x69 ∷ 0x6e ∷ 0x64
    ∷ 0x65 ∷ 0x72 ∷ 0x49 ∷ 0x6e ∷ 0x66 ∷ 0x6f ∷ []

unfoldable pub clear_if : ℕ → Bytes → Bytes
unfolding be32_at
clear_if value field = if be32_at field 0 == value then replicate 4 0 else field

-- The 32 bytes of `getXattrFinderInfo`.
unfoldable pub finder_info_of : FileRecord → Bytes
unfolding clear_if
finder_info_of ff =
    (if ff.is_file
      then clear_if 0x736c6e6b (take 4 ff.user_info)
        ++ clear_if 0x72686170 (take 4 (drop 4 ff.user_info))
        ++ take 8 (drop 8 ff.user_info)
      else take 16 ff.user_info)
    ++ replicate 8 0
    ++ take 4 (drop 8 ff.finder_info)
    ++ replicate 4 0

unfoldable pub all_zero : Bytes → Bool
all_zero [] = true
all_zero (b ∷ bytes) = b == 0 && all_zero bytes

-- The end of the loop of `listXattr` over the attribute tree.
unfoldable pub shown_names : FileRecord → List (Bytes × Bytes) → List Bytes
unfolding same_bytes
shown_names ff [] = []
shown_names ff ((name, value) ∷ kvs) =
    let rest = shown_names ff kvs in
    if not (is_compressed_file ff) || not (same_bytes name decmpfs_xattr_name)
    then name ∷ rest
    else rest

abbrev pub has_finder_info : FileRecord → Bool
has_finder_info ff = not (all_zero (finder_info_of ff))

abbrev pub has_resource_fork : FileRecord → Bool
has_resource_fork ff = ff.is_file && not (ff.resource_size == 0) && not (is_compressed_file ff)

module _ (cat_stat : Bytes → Result (Option FileRecord)) (fork_of : FileRecord → Bool → Reader)
    (attributes : Option Attributes) where
  unfoldable pub found_or_throw : Option FileRecord → Result FileRecord
  found_or_throw none = err file_not_found_error
  found_or_throw (some ff) = ok ff

  -- `openFile` of the catalog.
  unfoldable pub open_found : Option FileRecord → Bool → Opened
  open_found none resource_fork = missing
  open_found (some ff) resource_fork =
      if ff.is_file then opened (fork_of ff resource_fork) else is_directory

  unfoldable pub open_file : Bytes → Bool → Result Opened
  unfolding open_found
  open_file path resource_fork = do r ← cat_stat path; ok (open_found r resource_fork)

  -- The checks of `get_decmpfs`: the size that the header tells.
  unfoldable pub decmpfs_size : Option Bytes → Option ℕ
  unfolding le32_at le64_at
  decmpfs_size none = none
  decmpfs_size (some holder) =
      if ltb (length holder) 16
      then none
      else if le32_at holder 0 == 0x636d7066
      then some (le64_at holder 8)
      else none

  unfoldable pub get_decmpfs : ℕ → Result (Option ℕ)
  unfolding decmpfs_size
  get_decmpfs cnid = elim attributes [
    | none ↦ ok none
    | some tree ↦ do holder ← tree.get cnid decmpfs_xattr_name; ok (decmpfs_size holder)
  ]

  unfoldable pub sized : Stat → Option ℕ → Stat
  sized stat none = stat
  sized stat (some n) = record stat { size = n }

  unfoldable pub hfs_native_to_stat_decmpfs : FileRecord → Bool → Result Stat
  unfolding hfs_native_to_stat get_decmpfs sized
  hfs_native_to_stat_decmpfs ff resource_fork =
      let stat = hfs_native_to_stat ff resource_fork in
      let told = (do header ← get_decmpfs ff.file_id; ok (sized stat header)) in
      if is_compressed_file ff && stat.size == 0 then told else ok stat

  unfoldable pub stat_path : Bytes → Result Stat
  unfolding stat_name hfs_native_to_stat_decmpfs found_or_throw
  stat_path path = do
    r ← cat_stat (stat_name path).0
    ff ← found_or_throw r
    hfs_native_to_stat_decmpfs ff (stat_name path).1

  unfoldable pub tree_names : FileRecord → Result (List Bytes)
  unfolding shown_names
  tree_names ff = elim attributes [
    | none ↦ ok []
    | some tree ↦ do kvs ← tree.list ff.file_id; ok (shown_names ff kvs)
  ]

  unfoldable pub list_xattr : Bytes → Result (List Bytes)
  unfolding tree_names finder_info_of all_zero found_or_throw
  list_xattr path = do
    r ← cat_stat path
    ff ← found_or_throw r
    names ← tree_names ff
    ok (
        (if has_finder_info ff then xattr_finder_info ∷ [] else [])
        ++ (if has_resource_fork ff then xattr_resource_fork ∷ [] else [])
        ++ names)

  -- The resource fork as an attribute. The length is cut to an int; a vector cannot be made longer than a size that is
  -- negative.
  unfoldable pub fork_attribute : Opened → Result Bytes
  fork_attribute is_directory = err operation_not_permitted_error
  fork_attribute missing = err file_not_found_error
  fork_attribute (opened file) =
      let n = file.size % u32_mod in
      let bytes = (do data' ← file.read n 0; ok (take n (data' ++ replicate n 0))) in
      if file.size == 0
      then err attribute_not_found_error
      else if ltb n i32_limit
      then bytes
      else err logic_error

  unfoldable pub tree_attribute : FileRecord → Bytes → Result Bytes
  tree_attribute ff name = elim attributes [
    | none ↦ err attribute_not_found_error
    | some tree ↦ do
      value ← tree.get ff.file_id name
      elim value [ none ↦ err attribute_not_found_error | some bytes ↦ ok bytes ]
  ]

  unfoldable pub get_xattr : Bytes → Bytes → Result Bytes
  unfolding xattr_name open_file fork_attribute tree_attribute same_bytes finder_info_of all_zero
      found_or_throw
  get_xattr path name =
      let fork = (do f ← open_file (xattr_name path) true; fork_attribute f) in
      let finder = (do
        r ← cat_stat (xattr_name path)
        ff ← found_or_throw r
        ok (if has_finder_info ff then finder_info_of ff else [])) in
      let other = (do
        r ← cat_stat (xattr_name path)
        ff ← found_or_throw r
        tree_attribute ff name) in
      if same_bytes name xattr_resource_fork
      then fork
      else if same_bytes name xattr_finder_info
      then finder
      else other
