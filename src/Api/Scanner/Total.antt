-- ===== src/Api/Scanner/Total.antt =====
-- `NextToken` ends, without a panic, past the place where its token starts.
pub mod Durations
pub mod Literals
pub mod Next
pub mod Switch
