-- ===== src/Path.antt =====
-- Paths as the grates treat them: texts of code points, cut at `/` and put together again, as
-- `str::split`, `join`, `trim_end_matches`, `starts_with` and `strip_prefix` of Rust do.
pub mod Text
pub mod Components
pub mod Agreement
pub mod Prefix
