-- ===== src/FsClamp.antt =====
-- rust-grates/fs-routing-clamp: file-system calls go to the clamped grates or to the kernel.
pub mod State
pub mod Paths
pub mod Mmap
pub mod Inheritance
pub mod Coverage
pub mod Routing
pub mod PathCalls
pub mod FdCalls
pub mod Duplicates
pub mod AtCalls
pub mod Lifecycle
pub mod Nesting
pub mod Sides
pub mod Escapes
mod Tests
mod CallTests
