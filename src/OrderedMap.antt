-- ===== src/OrderedMap.antt =====
-- orderedmap/google_btree.go and orderedmap/orderedmap.go: an ordered map over a B-tree of items.
-- The tree is a library that the repository only calls, so it is the parameter `BTree`.
pub mod Sorted
pub mod Defs
pub mod Interface
pub mod Laws
pub mod Reference
mod Tests
