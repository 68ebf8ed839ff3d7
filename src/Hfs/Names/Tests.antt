-- ===== src/Hfs/Names/Tests.antt =====
-- Names of resource forks.
use darling_dmg.Common.{◌≡◌, ◌-◌, ◌↔◌, true, [], ◌∷◌, ◌++◌, Bytes, take, length}
use darling_dmg.Hfs.Names.{resource_fork_suffix, ends_with, stat_name, xattr_name}
use darling_dmg.Hfs.Names.Suffix

-- `/a`.
abbrev name : Bytes
name = 0x2f ∷ 0x61 ∷ []

ends_with_iff_example : (ends_with (name ++ resource_fork_suffix) resource_fork_suffix ≡ true) ↔ (
    name ++ resource_fork_suffix
    ≡ take
        (length (name ++ resource_fork_suffix) - length resource_fork_suffix)
        (name ++ resource_fork_suffix)
      ++ resource_fork_suffix)
ends_with_iff_example = Suffix.ends_with_iff (name ++ resource_fork_suffix) resource_fork_suffix

xattr_name-append_example : xattr_name (name ++ resource_fork_suffix) ≡ name
xattr_name-append_example = Suffix.xattr_name-append name

stat_name-append_example :
    stat_name (name ++ resource_fork_suffix) ≡ (name ++ take 10 resource_fork_suffix, true)
stat_name-append_example = Suffix.stat_name-append name
