-- ===== src/FsClamp/AtCalls.antt =====
-- fstatat, openat and clone of rust-grates/fs-routing-clamp/src/handlers/ns_handlers.rs, and the
-- table of the handlers.
use lind_wasm_example_grates.FsClamp.Duplicates.{ns_dup_handler, ns_dup2_handler, ns_dup3_handler}
use lind_wasm_example_grates.FsClamp.Paths.{path_matches_prefix, normalize_path}
use lind_wasm_example_grates.FsClamp.PathCalls.{
  path_handler, or_no_path, is_at_fdcwd, ns_getcwd_handler, at_dirfd, at_relative, sys_linkat_nr,
  ns_linkat_handler, ns_chdir_handler, ns_symlink_handler, ns_symlinkat_handler, at_handler,
  ns_utimensat_handler,
}
use lind_wasm_example_grates.FsClamp.State.{clone_cage_cwd, clone_cage_routes}
use lind_wasm_example_grates.Grate.Syscalls.{
  sys_open, sys_openat, sys_newfstatat, sys_xstat, sys_lstat, sys_getcwd, sys_clone, sys_access,
  sys_unlink, sys_link, sys_mkdir, sys_rmdir, sys_rename, sys_truncate, sys_chmod, sys_chown,
  sys_lchown, sys_chdir, sys_mknod, sys_symlink, sys_symlinkat, sys_readlink, sys_unlinkat,
  sys_readlinkat, sys_statfs, sys_getdents, sys_read, sys_write, sys_close, sys_writev, sys_readv,
  sys_pread, sys_pwrite, sys_preadv, sys_pwritev, sys_lseek, sys_fxstat, sys_statx, sys_faccessat,
  sys_fcntl, sys_ftruncate, sys_fchmod, sys_fchmodat, sys_fchownat, sys_fchdir, sys_utimensat,
  sys_fsync, sys_fdatasync, sys_fstatfs, sys_sync_file_range, sys_mmap, sys_munmap, sys_dup,
  sys_dup2, sys_dup3,
}
use lind_wasm_example_grates.Path.Text.{Text, is_empty, is_absolute}
use lind_wasm_example_grates.FsClamp.FdCalls.{
  send_to_side, close_underfd, ns_open_handler, record_opened, fd_handler, ns_close_handler,
  ns_fcntl_handler, ns_mmap_handler, ns_munmap_handler,
}
use lind_wasm_example_grates.Base.Words.{ℤ}
use lind_wasm_example_grates.Base.Dict.{Dict, get}
use lind_wasm_example_grates.Base.{
  nat_key, ℕ, Bool, Option, List, ◌⊎◌, if◌then◌else◌, inl, ◌&&◌, ◌∷◌, eqb, inr, false, ◌||◌, true,
  not, [],
}
use lind_wasm_example_grates.FsClamp.Routing.{
  do_syscall, read_path_from_cage, Ns, choose_nr, resolve_path_from_cage, do_clamp_syscall,
  below_prefix, route,
}
use lind_wasm_example_grates.Grate.Outside.{Outside}
use lind_wasm_example_grates.Grate.Steps.{
  ◌>>◌, Args, on_own, return, cages_of, args_of, ◌>>=◌, gets, is_thread_clone, translate, when,
  is_pos, as_u64,
}

module _ (O : Outside) where
  abbrev pub stat_prepared : Args → ℤ ⊎ (Bool × List ℕ) → Ns O ℤ
  stat_prepared a (inl e) = return e
  stat_prepared a (inr (clamped, args)) =
      send_to_side O a.arg1cage sys_newfstatat clamped args (cages_of a)

  -- The working directory is that of the cage of the path.
  unfoldable pub ns_fstatat_handler : Args → Ns O ℤ
  unfolding read_path_from_cage send_to_side
  ns_fstatat_handler a = do
    found ← read_path_from_cage O a.arg2 a.arg2cage
    let path = or_no_path found
    prepared ←
        (if is_absolute path
          then gets (λ s.
            inr (path_matches_prefix s.own.clamp.routing_prefix (normalize_path path), args_of a))
          else at_relative O a.arg1cage a.arg2cage a.arg1 path (args_of a) 0)
    stat_prepared a prepared

  -- The path is read again, from the cage of the first argument.
  abbrev pub openat_by_path : Args → Text → Ns O (ℤ ⊎ (Bool × List ℕ))
  openat_by_path a path =
      if is_empty path
      then return (inr (false, args_of a))
      else (resolve_path_from_cage O a.arg2cage a.arg2 a.arg1cage
          >>= (λ p. below_prefix O p >>= (λ matches. return (inr (matches, args_of a)))))

  abbrev pub openat_call : Args → Bool → List ℕ → ℕ → Ns O ℤ
  openat_call a clamped args nr =
      if clamped && eqb nr sys_openat
      then do_clamp_syscall O a.arg1cage sys_openat args (cages_of a)
      else do_syscall O a.arg1cage nr args (cages_of a)

  abbrev pub openat_prepared : Args → ℤ ⊎ (Bool × List ℕ) → Ns O ℤ
  openat_prepared a (inl e) = return e
  openat_prepared a (inr (clamped, args)) = do
    r ← route O a.arg1cage sys_openat
    ret ← openat_call a clamped args (choose_nr r clamped sys_openat)
    record_opened O a.arg1cage clamped ret

  unfoldable pub ns_openat_handler : Args → Ns O ℤ
  unfolding read_path_from_cage resolve_path_from_cage do_syscall do_clamp_syscall choose_nr
      close_underfd
  ns_openat_handler a = do
    found ← read_path_from_cage O a.arg2 a.arg2cage
    let path = or_no_path found
    prepared ←
        (if is_at_fdcwd a.arg1 || is_absolute path
          then openat_by_path a path
          else (translate O a.arg1cage a.arg1 >>= (λ e. return (at_dirfd O (args_of a) 0 e))))
    openat_prepared a prepared

  -- A new process gets the routes and the working directory of its parent.
  abbrev pub inherit : ℕ → ℕ → Ns O Unit
  inherit parent child = on_own O (λ g. record g {
    clamp = clone_cage_cwd (clone_cage_routes g.clamp parent child) parent child;
  })

  unfoldable pub ns_clone_handler : Args → Ns O ℤ
  unfolding do_syscall choose_nr
  ns_clone_handler a = do
    r ← route O a.arg1cage sys_clone
    is_thread ← is_thread_clone O a.arg1 a.arg1cage
    ret ← do_syscall O a.arg1cage (choose_nr r true sys_clone) (args_of a) (cages_of a)
    when (is_pos ret && not is_thread) (inherit a.arg1cage (as_u64 ret))
    return ret

  -- get_ns_handler: the handler that a call of this number goes to.
  abbrev pub ns_handlers : Dict ℕ (Args → Ns O ℤ)
  ns_handlers =
      (sys_open, ns_open_handler O)
      ∷ (sys_openat, ns_openat_handler)
      ∷ (sys_xstat, path_handler O sys_xstat)
      ∷ (sys_lstat, path_handler O sys_lstat)
      ∷ (sys_getcwd, ns_getcwd_handler O)
      ∷ (sys_access, path_handler O sys_access)
      ∷ (sys_unlink, path_handler O sys_unlink)
      ∷ (sys_link, path_handler O sys_link)
      ∷ (sys_linkat_nr, ns_linkat_handler O)
      ∷ (sys_mkdir, path_handler O sys_mkdir)
      ∷ (sys_rmdir, path_handler O sys_rmdir)
      ∷ (sys_rename, path_handler O sys_rename)
      ∷ (sys_truncate, path_handler O sys_truncate)
      ∷ (sys_chmod, path_handler O sys_chmod)
      ∷ (sys_chown, path_handler O sys_chown)
      ∷ (sys_lchown, path_handler O sys_lchown)
      ∷ (sys_chdir, ns_chdir_handler O)
      ∷ (sys_mknod, path_handler O sys_mknod)
      ∷ (sys_symlink, ns_symlink_handler O)
      ∷ (sys_symlinkat, ns_symlinkat_handler O)
      ∷ (sys_readlink, path_handler O sys_readlink)
      ∷ (sys_unlinkat, at_handler O sys_unlinkat)
      ∷ (sys_readlinkat, at_handler O sys_readlinkat)
      ∷ (sys_statfs, path_handler O sys_statfs)
      ∷ (sys_getdents, fd_handler O sys_getdents)
      ∷ (sys_read, fd_handler O sys_read)
      ∷ (sys_write, fd_handler O sys_write)
      ∷ (sys_close, ns_close_handler O)
      ∷ (sys_writev, fd_handler O sys_writev)
      ∷ (sys_readv, fd_handler O sys_readv)
      ∷ (sys_pread, fd_handler O sys_pread)
      ∷ (sys_pwrite, fd_handler O sys_pwrite)
      ∷ (sys_preadv, fd_handler O sys_preadv)
      ∷ (sys_pwritev, fd_handler O sys_pwritev)
      ∷ (sys_lseek, fd_handler O sys_lseek)
      ∷ (sys_fxstat, fd_handler O sys_fxstat)
      ∷ (sys_newfstatat, ns_fstatat_handler)
      ∷ (sys_statx, at_handler O sys_statx)
      ∷ (sys_faccessat, at_handler O sys_faccessat)
      ∷ (sys_fcntl, ns_fcntl_handler O)
      ∷ (sys_ftruncate, fd_handler O sys_ftruncate)
      ∷ (sys_fchmod, fd_handler O sys_fchmod)
      ∷ (sys_fchmodat, at_handler O sys_fchmodat)
      ∷ (sys_fchownat, at_handler O sys_fchownat)
      ∷ (sys_fchdir, fd_handler O sys_fchdir)
      ∷ (sys_utimensat, ns_utimensat_handler O)
      ∷ (sys_fsync, fd_handler O sys_fsync)
      ∷ (sys_fdatasync, fd_handler O sys_fdatasync)
      ∷ (sys_fstatfs, fd_handler O sys_fstatfs)
      ∷ (sys_sync_file_range, fd_handler O sys_sync_file_range)
      ∷ (sys_mmap, ns_mmap_handler O)
      ∷ (sys_munmap, ns_munmap_handler O)
      ∷ (sys_dup, ns_dup_handler O)
      ∷ (sys_dup2, ns_dup2_handler O)
      ∷ (sys_dup3, ns_dup3_handler O)
      ∷ (sys_clone, ns_clone_handler)
      ∷ []

  unfoldable pub get_ns_handler : ℕ → Option (Args → Ns O ℤ)
  get_ns_handler syscall_nr = get ns_handlers syscall_nr
