-- ===== src/NetClamp.antt =====
-- rust-grates/net-routing-clamp: network calls go to the clamped grates or to the kernel, by port.
pub mod State
pub mod Calls
pub mod Lifecycle
pub mod Marks
mod Tests
