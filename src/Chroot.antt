-- ===== src/Chroot.antt =====
-- rust-grates/chroot-grate: a cage sees a directory of the host as its root.
pub mod Paths
pub mod State
pub mod Host
pub mod Calls
pub mod PathCalls
pub mod FdCalls
pub mod Sockets
pub mod Directories
pub mod Entering
pub mod Walls
pub mod Confinement
mod Tests
mod CallTests
