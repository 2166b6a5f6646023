-- ===== src/Api/Parser/Total.antt =====
-- Every parsing method keeps the rules, and `Parse` with them.
pub mod Types
pub mod Values
pub mod Services
pub mod Stmts
pub mod Ends
