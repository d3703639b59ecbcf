-- ===== src/FileCache.antt =====
-- filecache/: a cache of files under a root directory, bounded by their total size.
pub mod Paths
pub mod Lru
pub mod Os
pub mod Cache
pub mod Operations
mod Tests
