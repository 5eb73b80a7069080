-- ===== src/Grate/FdTable.antt =====
-- FD_HANDLER_TABLE of lib/grate-rs/src/fd_support.rs: the calls with a default handler.
use lind_wasm_example_grates.Grate.Syscalls.{
  sys_read, sys_preadv, sys_write, sys_pwritev, sys_close, sys_lseek, sys_ioctl, sys_fstat,
  sys_fsync, sys_fdatasync, sys_ftruncate, sys_flock, sys_fchmod, sys_fchdir, sys_getdents,
  sys_fstatfs, sys_sync_file_range, sys_pread, sys_pwrite, sys_readv, sys_writev, sys_mmap,
  sys_bind, sys_listen, sys_connect, sys_shutdown, sys_sendto, sys_recvfrom, sys_sendmsg,
  sys_recvmsg, sys_setsockopt, sys_getsockopt, sys_getsockname, sys_getpeername, sys_epoll_wait,
  sys_unlinkat, sys_symlinkat, sys_readlinkat, sys_fchmodat, sys_open, sys_openat, sys_dup,
  sys_dup2, sys_dup3, sys_fcntl, sys_accept, sys_accept4, sys_socket, sys_socketpair,
  sys_epoll_create, sys_epoll_create1, sys_pipe, sys_pipe2, sys_poll, sys_ppoll, sys_epoll_ctl,
  sys_select,
}
use lind_wasm_example_grates.Base.{ℕ, Bool, List, false, ◌∷◌, eqb, ◌||◌, []}

abbrev pub fd_handler_table : List ℕ
fd_handler_table =
    sys_read ∷ sys_preadv ∷ sys_write ∷ sys_pwritev ∷ sys_close ∷ sys_lseek ∷ sys_ioctl ∷ sys_fstat
    ∷ sys_fsync ∷ sys_fdatasync ∷ sys_ftruncate ∷ sys_flock ∷ sys_fchmod ∷ sys_fchdir ∷ sys_getdents
    ∷ sys_fstatfs ∷ sys_sync_file_range ∷ sys_pread ∷ sys_pwrite ∷ sys_readv ∷ sys_writev ∷ sys_mmap
    ∷ sys_bind ∷ sys_listen ∷ sys_connect ∷ sys_shutdown ∷ sys_sendto ∷ sys_recvfrom ∷ sys_sendmsg
    ∷ sys_recvmsg ∷ sys_setsockopt ∷ sys_getsockopt ∷ sys_getsockname ∷ sys_getpeername
    ∷ sys_epoll_wait ∷ sys_unlinkat ∷ sys_symlinkat ∷ sys_readlinkat ∷ sys_fchmodat ∷ sys_open
    ∷ sys_openat ∷ sys_dup ∷ sys_dup2 ∷ sys_dup3 ∷ sys_fcntl ∷ sys_accept ∷ sys_accept4 ∷ sys_socket
    ∷ sys_socketpair ∷ sys_epoll_create ∷ sys_epoll_create1 ∷ sys_pipe ∷ sys_pipe2 ∷ sys_poll
    ∷ sys_ppoll ∷ sys_epoll_ctl ∷ sys_select ∷ []

-- set.contains(&n)
unfoldable pub mem : ℕ → List ℕ → Bool
mem n [] = false
mem n (m ∷ ms) = eqb n m || mem n ms
