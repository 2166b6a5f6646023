-- ===== src/Rpc.antt =====
-- rpc/parser: the files that a proto file imports.
pub mod Imports
pub mod Names
pub mod TypeRef
pub mod Desc
pub mod Merge
mod Tests
