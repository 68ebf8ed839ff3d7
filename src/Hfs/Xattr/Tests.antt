-- ===== src/Hfs/Xattr/Tests.antt =====
-- A file with a resource fork, Finder information and one more attribute.
use darling_dmg.Common.{
  ◌≡◌, refl, Bool, true, false, if◌then◌else◌, Option, none, some, [], ◌∷◌, Bytes, replicate,
  Result, ok, err, attribute_not_found_error,
}
use darling_dmg.Io.{Reader, memory_reader}
use darling_dmg.Io.Serves.{Serves}
use darling_dmg.Hfs.Names.{same_bytes}
use darling_dmg.Hfs.Xattr.{
  FileRecord, Attributes, stat_path, list_xattr, get_xattr, xattr_finder_info, xattr_resource_fork,
  hfs_native_to_stat,
}
use darling_dmg.Hfs.Xattr.Listed

abbrev sample : FileRecord
sample = record {
  is_file = true;
  access_date = 0;
  content_mod_date = 0;
  attribute_mod_date = 0;
  owner_id = 99;
  group_id = 99;
  owner_flags = 0;
  file_mode = 0;
  special = 1;
  file_id = 20;
  data_size = 7;
  data_blocks = 1;
  resource_size = 3;
  resource_blocks = 1;
  user_info = 0x54 ∷ 0x45 ∷ 0x58 ∷ 0x54 ∷ replicate 12 0;
  finder_info = replicate 16 0;
}

abbrev fork_reader : Reader
fork_reader = memory_reader (1 ∷ 2 ∷ 3 ∷ [])

abbrev name : Bytes
name = 0x61 ∷ []

abbrev path : Bytes
path = 0x2f ∷ 0x66 ∷ []

abbrev tree : Attributes
tree = record {
  list = λ cnid. ok ((name, 4 ∷ []) ∷ []);
  get = λ cnid n. ok (if same_bytes n name then some (4 ∷ []) else none);
}

abbrev cat_stat : Bytes → Result (Option FileRecord)
cat_stat p = ok (some sample)

abbrev fork_of : FileRecord → Bool → Reader
fork_of ff resource = fork_reader

listed :
    list_xattr cat_stat fork_of (some tree) path
    ≡ ok (xattr_finder_info ∷ xattr_resource_fork ∷ name ∷ [])
unfolding list_xattr
listed = refl

-- A folder with the size of a fork in its record lists none.
folder_listed :
    list_xattr (λ p. ok (some (record sample { is_file = false }))) fork_of (some tree) path
    ≡ ok (xattr_finder_info ∷ name ∷ [])
unfolding list_xattr
folder_listed = refl

not_found : get_xattr cat_stat fork_of (some tree) path (0x62 ∷ []) ≡ err attribute_not_found_error
unfolding get_xattr
not_found = refl

-- A file without a mode is a regular file that all may read.
mode_test : (hfs_native_to_stat sample false).mode ≡ 0x8124
unfolding hfs_native_to_stat
mode_test = refl

-- A compressed file without data: the size is the one of the header.
abbrev compressed : FileRecord
compressed = record sample { owner_flags = 0x20; data_size = 0 }

abbrev header_tree : Attributes
header_tree = record {
  list = λ cnid. ok [];
  get = λ cnid n.
      ok (some (0x66 ∷ 0x70 ∷ 0x6d ∷ 0x63 ∷ 3 ∷ 0 ∷ 0 ∷ 0 ∷ 9 ∷ 0 ∷ 0 ∷ 0 ∷ 0 ∷ 0 ∷ 0 ∷ 0 ∷ []));
}

compressed_size :
    stat_path (λ p. ok (some compressed)) fork_of (some header_tree) path
    ≡ ok (record (hfs_native_to_stat compressed false) { size = 9 })
unfolding stat_path
compressed_size = refl
