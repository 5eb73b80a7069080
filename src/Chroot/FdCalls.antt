-- ===== src/Chroot/FdCalls.antt =====
-- The handlers of rust-grates/chroot-grate/src/main.rs that keep the directory of each descriptor
-- and the working directory of each cage.
use lind_wasm_example_grates.Grate.Utf8.{to_utf8}
use lind_wasm_example_grates.Chroot.Paths.{c_string, normalize_path}
use lind_wasm_example_grates.Path.Text.{Text, is_empty, is_absolute}
use lind_wasm_example_grates.Base.Dict.{get, insert}
use lind_wasm_example_grates.Chroot.Calls.{
  JailSys, make_syscall_from_grate, owned, read_path_from_cage, Jail, check_dir, dev_fd_target,
  own_text, resolve_virtual_at_path, efault, or_return, register_dir_fd_if_directory, with_at_path,
  einval, enoent, own_memory, register_child_fd_paths,
}
use lind_wasm_example_grates.Base.Words.{ℤ, negsuc, pos, neg, u32_mod, is_neg, as_i32}
use lind_wasm_example_grates.Chroot.State.{
  State, set_cage_cwd, fd_dir_path, get_cage_cwd, chroot_path, clear_fd_dir_path, copy_fd_dir_path,
  register_cage,
}
use lind_wasm_example_grates.Grate.Steps.{
  ◌>>=◌, ◌>>◌, Args, args_of, is_thread_clone, on_own, return, when, cages_of, as_u64, is_pos,
}
use lind_wasm_example_grates.Grate.Outside.{Outside}
use lind_wasm_example_grates.Grate.Syscalls.{
  sys_close, sys_dup, sys_dup2, sys_dup3, sys_fcntl, sys_clone, sys_openat, sys_open,
}
use lind_wasm_example_grates.Base.{
  nat_key, ℕ, Bool, Option, eqb, List, ◌%◌, if◌then◌else◌, not, some, ◌∷◌, [], ltb, none, ◌||◌,
  length, ◌&&◌, ◌+◌, ◌++◌, set,
}
use lind_wasm_example_grates.Chroot.Host.{Host}

abbrev pub f_dupfd : ℕ
f_dupfd = 0

abbrev pub f_dupfd_cloexec : ℕ
f_dupfd_cloexec = 1030

abbrev pub f_getfl_cmd : ℕ
f_getfl_cmd = 3

-- cages.entry(c).or_insert_with(HashMap::new)
abbrev pub known_fds : State → ℕ → Option (List (ℕ × Text)) → State
known_fds s cage (some fds) = s
known_fds s cage none = record s { cage_dir_fds = insert s.cage_dir_fds cage [] }

-- The closure of `preexec` in main: the first cage gets the working directory of the grate.
unfoldable pub preexec : State → ℕ → State
preexec s child_cage =
    let s' = set_cage_cwd s child_cage s.initial_cwd in
    known_fds s' child_cage (get s'.cage_dir_fds child_cage)

module _ (O : Outside) (H : Host O) where
  -- if ret >= 0 { .. } ret
  unfoldable pub if_ok : ℤ → Jail O H Unit → Jail O H ℤ
  if_ok ret m = when (not (is_neg ret)) m >> return ret

  -- /dev/fd/N and /proc/self/fd/N are duplicated.
  unfoldable pub dup_dev_fd : ℕ → ℕ → Jail O H ℤ
  unfolding make_syscall_from_grate if_ok
  dup_dev_fd cage fd = do
    ret ←
        make_syscall_from_grate O H sys_dup cage (fd ∷ 0 ∷ 0 ∷ 0 ∷ 0 ∷ 0 ∷ [])
          (cage ∷ cage ∷ cage ∷ cage ∷ cage ∷ cage ∷ [])
    if_ok ret (on_own O (λ s. copy_fd_dir_path s cage fd (as_u64 ret)))

  unfoldable pub open_at_path : Args → Text → Jail O H ℤ
  unfolding owned own_text make_syscall_from_grate if_ok register_dir_fd_if_directory
  open_at_path a path = do
    cwd ← owned O H (λ s. get_cage_cwd s a.arg1cage)
    host ← owned O H (λ s. chroot_path s path a.arg1cage)
    or_return O H (c_string host) einval (λ t. do
      ptr ← own_text O H t
      ret ←
          make_syscall_from_grate O H sys_open a.arg1cage (set (args_of a) 0 ptr)
            (set (cages_of a) 0 (own_memory O H))
      if_ok ret
          (register_dir_fd_if_directory O H a.arg1cage (as_u64 ret) (normalize_path path cwd)))

  unfoldable pub open_handler : Args → Jail O H ℤ
  unfolding read_path_from_cage dev_fd_target dup_dev_fd open_at_path
  open_handler a = do
    read ← read_path_from_cage O H a.arg1 a.arg1cage
    or_return O H read efault (λ path.
        if is_empty path then return enoent else elim (dev_fd_target path) [
          | some fd ↦ dup_dev_fd a.arg1cage fd
          | none ↦ open_at_path a path
        ])

  abbrev register_opened : ℕ → ℤ → Option Text → Jail O H Unit
  register_opened cageid ret none = return tt
  register_opened cageid ret (some path) = register_dir_fd_if_directory O H cageid (as_u64 ret) path

  unfoldable pub openat_at_path : Args → Text → Jail O H ℤ
  unfolding owned resolve_virtual_at_path with_at_path make_syscall_from_grate if_ok
      register_dir_fd_if_directory
  openat_at_path a path = do
    virtual_path ← owned O H (resolve_virtual_at_path a.arg2cage a.arg1 path)
    with_at_path O H a.arg2cage a.arg1 a.arg2 a.arg2cage (λ fd ptr. do
      ret ←
          make_syscall_from_grate O H sys_openat a.arg2cage (set (set (args_of a) 0 fd) 1 ptr)
            (set (cages_of a) 1 (own_memory O H))
      if_ok ret (register_opened a.arg2cage ret virtual_path))

  unfoldable pub openat_handler : Args → Jail O H ℤ
  unfolding read_path_from_cage dev_fd_target dup_dev_fd openat_at_path
  openat_handler a = do
    read ← read_path_from_cage O H a.arg2 a.arg2cage
    or_return O H read efault (λ path.
        if is_empty path
        then return enoent
        else elim (if is_absolute path then dev_fd_target path else none) [
          | some fd ↦ dup_dev_fd a.arg2cage fd
          | none ↦ openat_at_path a path
        ])

  -- The call as it is, as the cage of its first argument.
  unfoldable pub pass_on : ℕ → Args → Jail O H ℤ
  unfolding make_syscall_from_grate
  pass_on syscall_no a = make_syscall_from_grate O H syscall_no a.arg1cage (args_of a) (cages_of a)

  unfoldable pub close_handler : Args → Jail O H ℤ
  unfolding pass_on if_ok
  close_handler a = do
    ret ← pass_on sys_close a
    if_ok ret (on_own O (λ s. clear_fd_dir_path s a.arg1cage a.arg1))

  unfoldable pub dup_handler : Args → Jail O H ℤ
  unfolding pass_on if_ok
  dup_handler a = do
    ret ← pass_on sys_dup a
    if_ok ret (on_own O (λ s. copy_fd_dir_path s a.arg1cage a.arg1 (as_u64 ret)))

  unfoldable pub dup_to : ℕ → Args → Jail O H ℤ
  unfolding pass_on if_ok
  dup_to syscall_no a = do
    ret ← pass_on syscall_no a
    if_ok ret (on_own O (λ s. copy_fd_dir_path s a.arg1cage a.arg1 a.arg2))

  abbrev pub dup2_handler : Args → Jail O H ℤ
  dup2_handler = dup_to sys_dup2

  abbrev pub dup3_handler : Args → Jail O H ℤ
  dup3_handler = dup_to sys_dup3

  -- `cmd as i32` keeps the low 32 bits.
  abbrev pub is_dup_cmd : ℕ → Bool
  is_dup_cmd cmd = eqb (cmd % u32_mod) f_dupfd || eqb (cmd % u32_mod) f_dupfd_cloexec

  unfoldable pub fcntl_handler : Args → Jail O H ℤ
  unfolding pass_on if_ok
  fcntl_handler a = do
    ret ← pass_on sys_fcntl a
    if_ok ret (
        when (is_dup_cmd a.arg2)
          (on_own O (λ s. copy_fd_dir_path s a.arg1cage a.arg1 (as_u64 ret))))

  -- let _ = copy_handler_table_to_cage(thiscage, child)
  unfoldable pub copy_handler_table_to_cage : ℕ → Jail O H Unit
  copy_handler_table_to_cage child s =
      (record s { world = H.copy_handler_table s.world O.own_cage child }, tt)

  unfoldable pub fork_handler : Args → Jail O H ℤ
  unfolding pass_on copy_handler_table_to_cage
  fork_handler a = do
    is_thread ← is_thread_clone O a.arg1 a.arg1cage
    ret ← pass_on sys_clone a
    when (is_pos ret && not is_thread) (
        on_own O (λ s.
          register_child_fd_paths (register_cage s a.arg1cage (as_u64 ret)) a.arg1cage (as_u64 ret))
        >> copy_handler_table_to_cage (as_u64 ret))
    return ret

  unfoldable pub chdir_to : ℕ → Text → Jail O H ℤ
  unfolding owned check_dir
  chdir_to cageid path = do
    cwd ← owned O H (λ s. get_cage_cwd s cageid)
    host ← owned O H (λ s. chroot_path s (normalize_path path cwd) cageid)
    dir ← check_dir O H host
    on_own O (λ s. if dir then set_cage_cwd s cageid (normalize_path path cwd) else s)
    return (if dir then pos 0 else neg 20)

  unfoldable pub chdir_handler : Args → Jail O H ℤ
  unfolding read_path_from_cage chdir_to
  chdir_handler a = do
    read ← read_path_from_cage O H a.arg1 a.arg1cage
    or_return O H read efault (chdir_to a.arg1cage)

  -- if ret < 0 { ret } else { -ENOTDIR }
  abbrev pub or_enotdir : ℤ → ℤ
  or_enotdir (negsuc n) = negsuc n
  or_enotdir (pos n) = neg 20

  -- With a directory of the descriptor the grate enters it; else the kernel says whether the
  -- descriptor is open.
  abbrev pub enter_dir : Args → Option Text → Jail O H ℤ
  enter_dir a (some path) = on_own O (λ s. set_cage_cwd s a.arg1cage path) >> return (pos 0)
  enter_dir a none = do
    ret ←
        make_syscall_from_grate O H sys_fcntl a.arg1cage (set (args_of a) 1 f_getfl_cmd)
          (cages_of a)
    return (or_enotdir ret)

  unfoldable pub fchdir_handler : Args → Jail O H ℤ
  unfolding owned make_syscall_from_grate
  fchdir_handler a = owned O H (λ s. fd_dir_path s a.arg1cage a.arg1) >>= enter_dir a

  -- copy_data_between_cages into the cage: an error is EFAULT.
  abbrev pub copied_out : JailSys O H → ℤ → Option O.World → JailSys O H × ℤ
  copied_out s ret none = (s, efault)
  copied_out s ret (some w) = (record s { world = w }, ret)

  unfoldable pub getcwd_handler : Args → Jail O H ℤ
  unfolding owned
  getcwd_handler a = do
    cwd ← owned O H (λ s. get_cage_cwd s a.arg1cage)
    if ltb a.arg2 (length (to_utf8 cwd) + 1) then return (neg 34) else (λ s.
        copied_out s (as_i32 (length (to_utf8 cwd) + 1))
          (O.copy_out s.world (to_utf8 cwd ++ 0 ∷ []) a.arg1 a.arg1cage (length (to_utf8 cwd) + 1)))

  unfoldable pub chroot_handler : Args → Jail O H ℤ
  chroot_handler a = return (negsuc 0)
