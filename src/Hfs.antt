-- ===== src/Hfs.antt =====
-- The HFS+ file system: the volume, forks, B-trees, the catalog and what is told of a file.
pub mod Volume
pub mod Overflow
pub mod Names
pub mod Leaves
pub mod Fork
pub mod Node
pub mod Search
pub mod Xattr
pub mod Directory
pub mod Catalog
