-- ===== src/Imfs/Tables.antt =====
-- What rust-grates/imfs-grate/src/imfs/mod.rs uses of the crate `fdtables`, which is not part of the
-- repository: the descriptor tables of the cages.
use lind_wasm_example_grates.Base.{ℕ, Bool, Option}

-- The operations of `fdtables` that a call of this grate makes, with its kind of descriptors;
-- `none` is their error.
pub record FdTables : Type 1 where
  pub Tables : Type 0
  -- the underfd and the close-on-exec flag of a descriptor
  pub translate_virtual_fd : Tables → ℕ → ℕ → Option (ℕ × Bool)
  pub get_unused_virtual_fd : Tables → ℕ → ℕ → Bool → Option (Tables × ℕ)
  pub get_unused_virtual_fd_from_startfd : Tables → ℕ → ℕ → Bool → ℕ → Option (Tables × ℕ)
  pub get_specific_virtual_fd : Tables → ℕ → ℕ → ℕ → Bool → Option Tables
  pub set_cloexec : Tables → ℕ → ℕ → Bool → Option Tables
  pub close_virtualfd : Tables → ℕ → ℕ → Option Tables
