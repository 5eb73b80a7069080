-- ===== src/Imfs.antt =====
-- rust-grates/imfs-grate: a file system in memory.
pub mod Paths
pub mod Node
pub mod Chunks
pub mod State
pub mod Resolve
pub mod Act
pub mod Fs
pub mod Rename
pub mod Tables
pub mod Fds
pub mod Calls
pub mod Dup
pub mod Atomic
pub mod Failure
pub mod Tree
pub mod Sharing
pub mod Tests
pub mod ChunkTests
pub mod Content
pub mod Bytes
pub mod Overwrite
pub mod SkipWrite
pub mod WriteBack
