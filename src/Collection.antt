-- ===== src/Collection.antt =====
-- pkg/collection.
pub mod Any
pub mod SortedMap
mod Tests
