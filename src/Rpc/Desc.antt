-- ===== src/Rpc/Desc.antt =====
-- rpc/generator/ent/gen.go: what the generator of desc/ protos reads from the protos that are there,
-- and the files that it takes back when it fails.
pub mod Fields
pub mod Comments
pub mod Scan
pub mod Tracker
pub mod Plan
mod Tests
