-- ===== src/Chroot/Host.antt =====
-- What the chroot grate uses of its own process beside Grate/Outside: the memory in which it
-- passes texts and buffers to the kernel, `stat` of the host, and the copy of its handlers.
use lind_wasm_example_grates.Base.{ℕ, Option, List}
use lind_wasm_example_grates.Grate.Outside.{Outside}

pub record Host (O : Outside) : Type 0 where
  -- CString::as_ptr and Vec::as_ptr: the address of bytes that the grate has put in its memory
  pub own_bytes : O.World → List ℕ → O.World × ℕ
  -- the bytes of a buffer of the grate, from an address on and of a length
  pub read_own : O.World → ℕ → ℕ → List ℕ
  -- libc's stat of a path: the mode, if it returns no error
  pub stat : O.World → List ℕ → Option ℕ
  -- copy_handler_table_to_cage_impl: this cage and the new one
  pub copy_handler_table : O.World → ℕ → ℕ → O.World
