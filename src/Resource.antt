-- ===== src/Resource.antt =====
-- rust-grates/resource-grate: limits on what a cage may use.
pub mod Amounts
pub mod Nanny
pub mod Charges
pub mod Files
pub mod Sockets
pub mod Handlers
pub mod Rate
pub mod Counts
pub mod Limits
pub mod Accounting
mod Tests
