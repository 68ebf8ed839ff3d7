-- ===== src/Cache.antt =====
-- The block cache: src/CacheZone.cpp in Zone, src/CachedReader.cpp in Reader.
pub mod Zone
pub mod Reader
