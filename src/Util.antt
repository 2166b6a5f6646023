-- ===== src/Util.antt =====
-- util: the text helpers that the generators share.
pub mod Format
pub mod Casing
pub mod Words
pub mod Stringx
pub mod Name
pub mod Safe
pub mod Keywords
mod Tests
