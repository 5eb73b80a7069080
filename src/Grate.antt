-- ===== src/Grate.antt =====
-- What the grates share of lib/grate-rs and the runtime below it: the calls of the outside, the
-- state of a grate beside them, and the numbers of the system calls.
pub mod Outside
pub mod Steps
pub mod Syscalls
pub mod Utf8
pub mod Lossy
pub mod Keeps
pub mod Sample
pub mod FdTable
