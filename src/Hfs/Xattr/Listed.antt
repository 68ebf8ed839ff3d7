-- ===== src/Hfs/Xattr/Listed.antt =====
-- That the attributes that are listed can be read.
use darling_dmg.Common.{
  ℕ, ◌<◌, ◌≡◌, Bool, true, false, Option, some, List, [], ◌∷◌, Bytes, Result, ok,
}
use darling_dmg.Common.Word.{i32_limit}
use darling_dmg.Io.{Reader}
use darling_dmg.Io.Serves.{Serves}
use darling_dmg.Hfs.Names.{ends_with, same_bytes, resource_fork_suffix}
use darling_dmg.Hfs.Xattr.{
  FileRecord, Attributes, xattr_finder_info, xattr_resource_fork, tree_names, list_xattr, get_xattr,
}

pub data HasName (name : Bytes) : List Bytes → Type 0 where
  here : (names : List Bytes) → HasName name (name ∷ names)
  later : (other : Bytes) (names : List Bytes) → HasName name names → HasName name (other ∷ names)

unfoldable pub keys : List (Bytes × Bytes) → List Bytes
keys [] = []
keys ((name, value) ∷ kvs) = name ∷ keys kvs

pub record Gives (result : Result Bytes) : Type 0 where
  pub bytes : Bytes
  pub gives : result ≡ ok bytes

module _ (cat_stat : Bytes → Result (Option FileRecord)) (fork_of : FileRecord → Bool → Reader)
    (attributes : Option Attributes) (path : Bytes) (ff : FileRecord) where
  -- The resource fork is a source as long as the record tells.
  pub record ServesFork : Type 0 where
    pub content : ℕ → ℕ
    pub serves : Serves (fork_of ff true) content
    pub same_size : (fork_of ff true).size ≡ ff.resource_size
    pub small : (fork_of ff true).size < i32_limit

  -- The attribute tree finds by its name each attribute that it lists, and those do not have the two names that
  -- stand for something else.
  pub record Finds (tree : Attributes) : Type 0 where
    pub kvs : List (Bytes × Bytes)
    pub lists : tree.list ff.file_id ≡ ok kvs
    pub value : Bytes → Bytes
    pub finds :
        (name : Bytes) → HasName name (keys kvs) → tree.get ff.file_id name ≡ ok (some (value name))
    pub not_fork :
        (name : Bytes) → HasName name (keys kvs) → same_bytes name xattr_resource_fork ≡ false
    pub not_finder :
        (name : Bytes) → HasName name (keys kvs) → same_bytes name xattr_finder_info ≡ false

  pub record IsConsistent : Type 0 where
    pub plain : ends_with path resource_fork_suffix ≡ false
    pub is_there : cat_stat path ≡ ok (some ff)
    pub fork : ff.is_file ≡ true → ServesFork
    pub tree : (t : Attributes) → attributes ≡ some t → Finds t

  pub record Lists : Type 0 where
    pub names : List Bytes
    pub lists : list_xattr cat_stat fork_of attributes path ≡ ok names
    pub each :
        (name : Bytes)
        → HasName name names
        → Gives (get_xattr cat_stat fork_of attributes path name)

  module _ (v : IsConsistent) where
    -- The names that the attribute tree adds, all of which can be read.
    record TreeNames : Type 0 where
      rest : List Bytes
      lists : tree_names cat_stat fork_of attributes ff ≡ ok rest
      each :
          (name : Bytes)
          → HasName name rest
          → Gives (get_xattr cat_stat fork_of attributes path name)
