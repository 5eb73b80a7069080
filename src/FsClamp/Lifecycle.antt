-- ===== src/FsClamp/Lifecycle.antt =====
-- The lifecycle handlers of rust-grates/fs-routing-clamp/src/handlers/clamped_lifecycle.rs. The
-- address of a handler is written as the number of the call that it handles.
use lind_wasm_example_grates.FsClamp.PathCalls.{sys_linkat_nr}
use lind_wasm_example_grates.Grate.FdTable.{mem, fd_handler_table}
use lind_wasm_example_grates.Path.Text.{Text, text}
use lind_wasm_example_grates.Base.Words.{ℤ, neg, negsuc, pos, zeq}
use lind_wasm_example_grates.Grate.Syscalls.{
  sys_open, sys_exec, sys_clone, sys_exit_group, sys_openat, sys_register_handler, sys_xstat,
  sys_lstat, sys_access, sys_unlink, sys_link, sys_mkdir, sys_rmdir, sys_rename, sys_truncate,
  sys_chmod, sys_chown, sys_lchown, sys_chdir, sys_mknod, sys_symlink, sys_symlinkat, sys_readlink,
  sys_unlinkat, sys_readlinkat, sys_statfs, sys_getdents, sys_read, sys_write, sys_close, sys_readv,
  sys_writev, sys_pread, sys_pwrite, sys_preadv, sys_pwritev, sys_lseek, sys_fxstat, sys_newfstatat,
  sys_statx, sys_faccessat, sys_fcntl, sys_ftruncate, sys_fchmod, sys_fchmodat, sys_fchownat,
  sys_fchdir, sys_utimensat, sys_fsync, sys_fdatasync, sys_fstatfs, sys_sync_file_range, sys_mmap,
  sys_munmap, sys_dup, sys_dup2, sys_dup3, sys_getcwd,
}
use lind_wasm_example_grates.FsClamp.State.{
  ClampState, Request, alloc_alt_syscall, exit_nested_clamp, push_interposition_request,
  remove_cage_state, deregister_clamped_cage, get_interposition_request, enter_nested_clamp,
  set_route, is_cage_clamped, clone_cage_routes, clone_cage_cwd,
}
use lind_wasm_example_grates.FsClamp.Routing.{Ns, do_syscall, read_path_from_cage, set_clamp_entry}
use lind_wasm_example_grates.Grate.Outside.{Outside}
use lind_wasm_example_grates.Base.{
  text_key, List, ℕ, Option, ◌⊎◌, if◌then◌else◌, inl, ◌∷◌, some, ◌==◌, [], inr, none, ◌+◌, ltb, not,
  eqb,
}
use lind_wasm_example_grates.Grate.Steps.{
  ◌>>◌, Args, GrateError, on_own, register_handler, return, ◌>>=◌, args_of, gets, is_thread_clone,
  cages_of, copy_from_cage, le_bytes, as_u64, when, try_tables,
}

-- FS_CALLS
abbrev pub fs_calls : List ℕ
fs_calls =
    sys_open ∷ sys_openat ∷ sys_xstat ∷ sys_lstat ∷ sys_access ∷ sys_unlink ∷ sys_link
    ∷ sys_linkat_nr ∷ sys_mkdir ∷ sys_rmdir ∷ sys_rename ∷ sys_truncate ∷ sys_chmod ∷ sys_chown
    ∷ sys_lchown ∷ sys_chdir ∷ sys_mknod ∷ sys_symlink ∷ sys_symlinkat ∷ sys_readlink ∷ sys_unlinkat
    ∷ sys_readlinkat ∷ sys_statfs ∷ sys_getdents ∷ sys_read ∷ sys_write ∷ sys_close ∷ sys_readv
    ∷ sys_writev ∷ sys_pread ∷ sys_pwrite ∷ sys_preadv ∷ sys_pwritev ∷ sys_lseek ∷ sys_fxstat
    ∷ sys_newfstatat ∷ sys_statx ∷ sys_faccessat ∷ sys_fcntl ∷ sys_ftruncate ∷ sys_fchmod
    ∷ sys_fchmodat ∷ sys_fchownat ∷ sys_fchdir ∷ sys_utimensat ∷ sys_readv ∷ sys_writev ∷ sys_fsync
    ∷ sys_fdatasync ∷ sys_fstatfs ∷ sys_sync_file_range ∷ sys_mmap ∷ sys_munmap ∷ sys_dup ∷ sys_dup2
    ∷ sys_dup3 ∷ sys_getcwd ∷ []

module _ (O : Outside) where
  abbrev pub request_of : ℕ → ℕ → ℕ → ℕ → Request
  request_of target_cage syscall_nr grate_id handler_fn = record {
    target_cage = target_cage;
    syscall_nr = syscall_nr;
    grate_id = grate_id;
    handler_fn = handler_fn;
  }

  -- The arguments are the target cage, the number of the call, the grate and its handler.
  unfoldable pub register_handler_handler : Args → Ns O ℤ
  unfolding do_syscall
  register_handler_handler a = do
    on_own O (λ g. record g {
      clamp = push_interposition_request g.clamp (request_of a.arg1 a.arg1cage a.arg2cage a.arg3);
    })
    do_syscall O a.arg2cage sys_register_handler (a.arg1 ∷ 0 ∷ a.arg3 ∷ 0 ∷ 0 ∷ 0 ∷ [])
        (a.arg1cage ∷ a.arg2cage ∷ a.arg3cage ∷ a.arg4cage ∷ a.arg5cage ∷ a.arg6cage ∷ [])

  abbrev pub take_alt : Ns O ℕ
  take_alt s =
      let r = alloc_alt_syscall s.own.clamp in
      (record s { own = record s.own { clamp = r.0 } }, r.1)

  -- The grate's handler is registered under an alternate number, which becomes the route.
  abbrev pub add_route : ℕ → ℕ → Option (ℕ × ℕ) → Ns O ℤ
  add_route target_cage fs_syscall none = return (pos 0)
  add_route target_cage fs_syscall (some (grate_id, handler_fn)) = do
    alt_nr ← take_alt
    ret ←
        do_syscall O grate_id sys_register_handler (O.own_cage ∷ 0 ∷ handler_fn ∷ 0 ∷ 0 ∷ 0 ∷ [])
          (alt_nr ∷ grate_id ∷ 0 ∷ 0 ∷ 0 ∷ 0 ∷ [])
    when (zeq ret (pos 0))
        (on_own O (λ g. record g { clamp = (set_route g.clamp target_cage fs_syscall alt_nr).0 }))
    return ret

  abbrev pub registered : GrateError ⊎ (Unit {0}) → ℤ
  registered (inl e) = negsuc 0
  registered (inr u) = pos 0

  unfoldable pub register_target_call : ℕ → ℕ → Ns O ℤ
  unfolding do_syscall
  register_target_call target_cage fs_syscall = do
    request ← gets (λ s. get_interposition_request s.own.clamp target_cage fs_syscall)
    ret ← add_route target_cage fs_syscall request
    (if zeq ret (pos 0)
        then (register_handler O target_cage fs_syscall O.own_cage fs_syscall
            >>= (λ r. return (registered r)))
        else return ret)

  -- The loop over FS_CALLS, which ends at the first call that fails.
  unfoldable pub register_each : (ℕ → Ns O ℤ) → List ℕ → Ns O ℤ
  register_each register [] = return (pos 0)
  register_each register (nr ∷ nrs) =
      register nr >>= (λ ret. if zeq ret (pos 0) then register_each register nrs else return ret)

  abbrev pub register_default : ℕ → ℕ → Ns O ℤ
  register_default target_cage nr =
      if mem nr fs_calls
      then return (pos 0)
      else (register_handler O target_cage nr O.own_cage nr >>= (λ r. return (registered r)))

  unfoldable pub register_target_handlers : ℕ → Ns O ℤ
  unfolding register_target_call register_each
  register_target_handlers target_cage =
      register_each (register_target_call target_cage) fs_calls >>= (λ ret.
        if zeq ret (pos 0)
        then register_each (register_default target_cage) fd_handler_table
        else return ret)

  abbrev pub on_clamp : (ClampState → ClampState) → Ns O Unit
  on_clamp f = on_own O (λ g. record g { clamp = f g.clamp })

  abbrev pub exec_as_it_is : Args → Ns O ℤ
  exec_as_it_is a = do_syscall O a.arg1cage sys_exec (args_of a) (cages_of a)

  -- `argv` without its first entry, whose path is what the entry after it points to.
  abbrev pub exec_shifted : Args → Option (List ℕ) → Ns O ℤ
  exec_shifted a none = return (neg 2)
  exec_shifted a (some real_ptr) =
      do_syscall O a.arg2cage sys_exec
        (le_bytes real_ptr ∷ (a.arg2 + 8) ∷ a.arg3 ∷ a.arg4 ∷ a.arg5 ∷ a.arg6 ∷ [])
        (a.arg2cage ∷ a.arg2cage ∷ a.arg3cage ∷ a.arg4cage ∷ a.arg5cage ∷ a.arg6cage ∷ [])

  abbrev pub close_clamp : Args → Ns O ℤ
  close_clamp a = do
    register_target_handlers a.arg1cage
    on_clamp (λ c. (exit_nested_clamp (deregister_clamped_cage c a.arg1cage)).0)
    real_ptr ← copy_from_cage O (a.arg2 + 8) a.arg2cage 8
    exec_shifted a real_ptr

  abbrev pub exec_path : Args → ℕ → Text → Ns O ℤ
  exec_path a depth path =
      if path == text "%{"
      then (on_clamp (λ c. (enter_nested_clamp c).0) >> exec_as_it_is a)
      else if path == text "%}"
      then (if ltb 1 depth
          then (on_clamp (λ c. (exit_nested_clamp c).0) >> exec_as_it_is a)
          else close_clamp a)
      else (when (eqb depth 1) (on_clamp (λ c. set_clamp_entry c a.arg1cage)) >> exec_as_it_is a)

  abbrev pub exec_if_read : Args → Option Text → Ns O (Option ℤ)
  exec_if_read a none = return none
  exec_if_read a (some path) = do
    depth ← gets (λ s. s.own.clamp.clamp_depth)
    ret ← exec_path a depth path
    return (some ret)

  -- `none` is the panic on a path that cannot be read.
  unfoldable pub exec_handler : Args → Ns O (Option ℤ)
  unfolding read_path_from_cage register_target_handlers do_syscall
  exec_handler a = read_path_from_cage O a.arg1 a.arg1cage >>= exec_if_read a

  -- The result is not checked: after an error the tables are copied all the same.
  unfoldable pub fork_handler : Args → Ns O ℤ
  unfolding do_syscall
  fork_handler a = do
    is_thread ← is_thread_clone O a.arg1 a.arg1cage
    ret ← do_syscall O a.arg1cage sys_clone (args_of a) (cages_of a)
    let child = as_u64 ret
    when (not is_thread) (do
      try_tables O (λ t. O.copy_fdtable_for_cage t a.arg1cage child)
      on_clamp
          (λ c. if is_cage_clamped c a.arg1cage then clone_cage_routes c a.arg1cage child else c)
      on_clamp (λ c. clone_cage_cwd c a.arg1cage child))
    return ret

  unfoldable pub exit_handler : Args → Ns O ℤ
  unfolding do_syscall
  exit_handler a = do
    on_clamp (λ c. remove_cage_state c a.arg1cage)
    (λ s. (record s { tables = O.remove_cage_from_fdtable s.tables a.arg1cage }, tt))
    do_syscall O a.arg1cage sys_exit_group (args_of a) (cages_of a)

  -- Failures are only logged.
  unfoldable pub register_lifecycle_handlers : ℕ → Ns O Unit
  register_lifecycle_handlers cage_id = do
    register_handler O cage_id sys_exec O.own_cage sys_exec
    register_handler O cage_id sys_clone O.own_cage sys_clone
    register_handler O cage_id sys_exit_group O.own_cage sys_exit_group
    register_handler O cage_id sys_register_handler O.own_cage sys_register_handler
    return tt
