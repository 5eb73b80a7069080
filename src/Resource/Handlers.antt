-- ===== src/Resource/Handlers.antt =====
-- The other handlers of rust-grates/resource-grate/src/handlers.rs, and the table of all of them.
use lind_wasm_example_grates.Base.{ℕ, Bool, true, false, not, ◌&&◌, if◌then◌else◌}
use lind_wasm_example_grates.Base.Words.{ℤ, is_neg}
use lind_wasm_example_grates.Path.Text.{text}
use lind_wasm_example_grates.Grate.Outside.{Outside}
use lind_wasm_example_grates.Grate.Syscalls.{sys_clone, sys_exit, sys_getrandom}
use lind_wasm_example_grates.Grate.Steps.{as_u64, is_pos, is_thread_clone}
use lind_wasm_example_grates.Grate.Steps.{◌>>=◌, ◌>>◌, return, when, Args, try_tables}
use lind_wasm_example_grates.Resource.Amounts.{Amounts}
use lind_wasm_example_grates.Resource.Charges.{Do, forward, charge}
use lind_wasm_example_grates.Resource.Files.{
  eagain, add_item, remove_item, handle_open, handle_close, handle_read, handle_write,
  handle_pread64, handle_pwrite64, handle_readv, handle_writev, handle_sendto, handle_recvfrom,
  handle_sendmsg, handle_recvmsg,
}
use lind_wasm_example_grates.Resource.Sockets.{
  handle_socket, handle_bind, handle_listen, handle_accept, handle_connect,
}

pub data Handler : Type 0 where
  on_open : Handler
  on_close : Handler
  on_read : Handler
  on_write : Handler
  on_pread64 : Handler
  on_pwrite64 : Handler
  on_readv : Handler
  on_writev : Handler
  on_socket : Handler
  on_bind : Handler
  on_listen : Handler
  on_accept : Handler
  on_connect : Handler
  on_sendto : Handler
  on_recvfrom : Handler
  on_sendmsg : Handler
  on_recvmsg : Handler
  on_clone : Handler
  on_exit : Handler
  on_getrandom : Handler

module _ (A : Amounts) (O : Outside) where
  open A use {of_nat}

  -- CLONE_THREAD in the first eight bytes of `struct clone_args`
  abbrev pub cloned : ℕ → Args → Bool → Bool → Do A O ℤ
  cloned grate_cageid a is_thread false = return eagain
  cloned grate_cageid a is_thread true = do
    ret ← forward A O sys_clone grate_cageid a
    when (is_neg ret && is_thread) (remove_item A O (text "events"))
    when (is_pos ret && not is_thread)
        (try_tables O (λ t. O.copy_fdtable_for_cage t a.arg1cage (as_u64 ret)))
    return ret

  unfoldable pub handle_clone : ℕ → Args → Do A O ℤ
  unfolding is_thread_clone add_item remove_item
  handle_clone grate_cageid a = do
    is_thread ← is_thread_clone O a.arg1 a.arg1cage
    taken ← (if is_thread then add_item A O (text "events") else return true)
    cloned grate_cageid a is_thread taken

  unfoldable pub handle_exit : ℕ → Args → Do A O ℤ
  unfolding remove_item
  handle_exit grate_cageid a =
      remove_item A O (text "events") >> forward A O sys_exit grate_cageid a

  unfoldable pub handle_getrandom : ℕ → Args → Do A O ℤ
  handle_getrandom grate_cageid a = do
    charge A O (text "random") A.zero
    ret ← forward A O sys_getrandom grate_cageid a
    when (is_pos ret) (charge A O (text "random") (of_nat 1024))
    return ret

  -- The calls that main.rs registers a handler for.
  abbrev pub handle : Handler → ℕ → Args → Do A O ℤ
  handle h = elim h [
    | on_open ↦ handle_open A O
    | on_close ↦ handle_close A O
    | on_read ↦ handle_read A O
    | on_write ↦ handle_write A O
    | on_pread64 ↦ handle_pread64 A O
    | on_pwrite64 ↦ handle_pwrite64 A O
    | on_readv ↦ handle_readv A O
    | on_writev ↦ handle_writev A O
    | on_socket ↦ handle_socket A O
    | on_bind ↦ handle_bind A O
    | on_listen ↦ handle_listen A O
    | on_accept ↦ handle_accept A O
    | on_connect ↦ handle_connect A O
    | on_sendto ↦ handle_sendto A O
    | on_recvfrom ↦ handle_recvfrom A O
    | on_sendmsg ↦ handle_sendmsg A O
    | on_recvmsg ↦ handle_recvmsg A O
    | on_clone ↦ handle_clone
    | on_exit ↦ handle_exit
    | on_getrandom ↦ handle_getrandom
  ]
