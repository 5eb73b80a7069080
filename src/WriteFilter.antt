-- ===== src/WriteFilter.antt =====
-- rust-grates/write-filter-grate: writes to a descriptor are refused by the name it was opened with.
pub mod Calls
pub mod Refusal
mod Tests
