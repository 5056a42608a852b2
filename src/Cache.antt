-- ===== src/Cache.antt =====
-- internal/cache: keys, lifetimes, the index of entries over a storage, and shared fetches.
pub mod Lru
pub mod Ttl
pub mod Key
pub mod Singleflight
