-- ===== src/Hfs/Names.antt =====
-- src/HFSHighLevelVolume.cpp: the names under which resource forks are reached. A name is its bytes.
pub mod Suffix
mod Tests
use darling_dmg.Common.{
  ℕ, ◌+◌, ◌-◌, Bool, true, false, ◌&&◌, ltb, ◌==◌, if◌then◌else◌, [], ◌∷◌, Bytes, take, drop,
  length,
}

-- `#..namedfork#rsrc`.
abbrev pub resource_fork_suffix : Bytes
resource_fork_suffix =
    0x23 ∷ 0x2e ∷ 0x2e ∷ 0x6e ∷ 0x61 ∷ 0x6d ∷ 0x65 ∷ 0x64 ∷ 0x66 ∷ 0x6f ∷ 0x72 ∷ 0x6b ∷ 0x23 ∷ 0x72
    ∷ 0x73 ∷ 0x72 ∷ 0x63 ∷ []

unfoldable pub same_bytes : Bytes → Bytes → Bool
same_bytes [] [] = true
same_bytes (a ∷ x) (b ∷ y) = a == b && same_bytes x y
same_bytes _ _ = false

unfoldable pub ends_with : Bytes → Bytes → Bool
unfolding same_bytes
ends_with str what =
    if ltb (length str) (length what)
    then false
    else same_bytes (drop (length str - length what) str) what

-- `sizeof(RESOURCE_FORK_SUFFIX)`, of a pointer.
abbrev pub suffix_sizeof : ℕ
suffix_sizeof = 8

-- The name that `stat` and `openFile` look up, and whether it is a resource fork.
unfoldable pub stat_name : Bytes → Bytes × Bool
unfolding ends_with
stat_name path =
    if ends_with path resource_fork_suffix
    then (take (length path - (suffix_sizeof - 1)) path, true)
    else (path, false)

-- The name that `getXattr` looks up.
unfoldable pub xattr_name : Bytes → Bytes
unfolding ends_with
xattr_name path =
    if ends_with path resource_fork_suffix
    then take (length path - length resource_fork_suffix) path
    else path
