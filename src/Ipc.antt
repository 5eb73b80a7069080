-- ===== src/Ipc.antt =====
-- rust-grates/ipc-grate: pipes and sockets between cages, kept in the grate.
pub mod Ring
pub mod Pipe
pub mod Flow
pub mod Blocking
pub mod EndOfFile
pub mod Stream
pub mod Sockets
pub mod Ports
pub mod Connection
mod ListRing
mod Tests
mod SocketTests
