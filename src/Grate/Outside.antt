-- ===== src/Grate/Outside.antt =====
-- What the handlers of the grates use of code outside the repository: the runtime's 3i functions
-- (imported in lib/grate-rs/src/ffi.rs), the clock, and the crate `fdtables`.
use lind_wasm_example_grates.Base.{ℕ, Bool, Option, List, ◌⊎◌}
use lind_wasm_example_grates.Base.Words.{ℤ}

-- fdtables::FDTableEntry
pub record Entry : Type 0 where
  pub fdkind : ℕ
  pub underfd : ℕ
  pub should_cloexec : Bool
  pub perfdinfo : ℕ

pub record Outside : Type 1 where
  -- the other cages, the kernel and their memories
  pub World : Type 0
  -- getpid_impl
  pub own_cage : ℕ
  -- make_syscall_impl: the call's number, the cage it is made as, the cage it is made for, the
  -- arguments and their cages
  pub make_syscall_impl : World → ℕ → ℕ → ℕ → List ℕ → List ℕ → World × ℤ
  -- register_handler_impl: a cage, a call's number, the grate and its handler
  pub register_handler_impl : World → ℕ → ℕ → ℕ → ℕ → World × ℤ
  -- cp_data_impl into a buffer of the grate: an address, its cage and a length
  pub copy_in : World → ℕ → ℕ → ℕ → Option (List ℕ)
  -- cp_data_impl from a buffer of the grate
  pub copy_out : World → List ℕ → ℕ → ℕ → ℕ → Option World
  -- Instant::now() in nanoseconds, and std::thread::yield_now()
  pub now : World → ℕ
  pub yield_now : World → World
  -- fdtables: an errno on the left is its error
  pub Tables : Type 0
  pub check_cage_exists : Tables → ℕ → Bool
  pub translate_virtual_fd : Tables → ℕ → ℕ → Option Entry
  pub get_unused_virtual_fd : Tables → ℕ → Entry → ℕ ⊎ (Tables × ℕ)
  pub get_unused_virtual_fd_from_startfd : Tables → ℕ → Entry → ℕ → ℕ ⊎ (Tables × ℕ)
  pub get_specific_virtual_fd : Tables → ℕ → ℕ → Entry → ℕ ⊎ Tables
  pub set_perfdinfo : Tables → ℕ → ℕ → ℕ → Option Tables
  pub close_virtualfd : Tables → ℕ → ℕ → Option Tables
  pub copy_fdtable_for_cage : Tables → ℕ → ℕ → Option Tables
  pub init_empty_cage : Tables → ℕ → Tables
  pub remove_cage_from_fdtable : Tables → ℕ → Tables
