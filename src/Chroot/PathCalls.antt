-- ===== src/Chroot/PathCalls.antt =====
-- The handlers of rust-grates/chroot-grate/src/main.rs for calls that name files: each path becomes
-- one below the root directory, or stays relative to a descriptor.
use lind_wasm_example_grates.Chroot.Paths.{c_string, strip_chroot_prefix}
use lind_wasm_example_grates.Grate.Utf8.{to_utf8}
use lind_wasm_example_grates.Chroot.State.{chroot_path, at_fdcwd}
use lind_wasm_example_grates.Path.Text.{Text, is_absolute, is_empty}
use lind_wasm_example_grates.Grate.Lossy.{from_utf8_lossy}
use lind_wasm_example_grates.Base.{ℕ, List, [], if◌then◌else◌, ◌∷◌, eqb, ◌||◌, ◌++◌, replicate, set}
use lind_wasm_example_grates.Chroot.Calls.{
  call_with_at_path, make_syscall_from_grate, owned, read_path_from_cage, rewrite_symlink_target,
  with_at_path, Jail, own_text, write_bytes_to_cage, call_with_rewrites, or_return, at_index,
  efault, own_memory, enoent, einval, own_vec,
}
use lind_wasm_example_grates.Base.Words.{ℤ, pos, negsuc}
use lind_wasm_example_grates.Grate.Outside.{Outside}
use lind_wasm_example_grates.Grate.Steps.{◌>>=◌, Args, args_of, return, cages_of, gets}
use lind_wasm_example_grates.Grate.Syscalls.{
  sys_access, sys_chmod, sys_chown, sys_faccessat, sys_fchmodat, sys_fchownat, sys_lchown, sys_link,
  sys_listxattr, sys_mkdir, sys_newfstatat, sys_rename, sys_renameat, sys_renameat2, sys_rmdir,
  sys_setxattr, sys_statfs, sys_statx, sys_symlinkat, sys_truncate, sys_unlink, sys_xstat,
  sys_readlinkat, sys_utimensat, sys_execve, sys_readlink, sys_unlinkat, sys_symlink,
}
use lind_wasm_example_grates.Chroot.Host.{Host}

module _ (O : Outside) (H : Host O) where
  -- input_path_handler!: the paths at the places, one after the other, and then the call
  unfoldable pub rewrite_paths : ℕ → Args → List ℕ → List (ℕ × ℕ) → Jail O H ℤ
  unfolding read_path_from_cage owned own_text call_with_rewrites at_index
  rewrite_paths syscall_no a [] rewrites =
      call_with_rewrites O H syscall_no a.arg1cage (args_of a) (cages_of a) rewrites
  rewrite_paths syscall_no a (idx ∷ places) rewrites =
      let cage = at_index (cages_of a) idx in
      read_path_from_cage O H (at_index (args_of a) idx) cage >>= (λ read.
        or_return O H read efault (λ path.
          if is_empty path
          then return enoent
          else (owned O H (λ s. chroot_path s path cage) >>= (λ host.
              or_return O H (c_string host) (negsuc 0) (λ t.
                own_text O H t
                >>= (λ ptr. rewrite_paths syscall_no a places (rewrites ++ (idx, ptr) ∷ [])))))))

  unfoldable pub input_path_handler : ℕ → List ℕ → Args → Jail O H ℤ
  unfolding rewrite_paths
  input_path_handler syscall_no places a = rewrite_paths syscall_no a places []

  abbrev pub stat_handler : Args → Jail O H ℤ
  stat_handler = input_path_handler sys_xstat (0 ∷ [])

  abbrev pub access_handler : Args → Jail O H ℤ
  access_handler = input_path_handler sys_access (0 ∷ [])

  abbrev pub statfs_handler : Args → Jail O H ℤ
  statfs_handler = input_path_handler sys_statfs (0 ∷ [])

  abbrev pub mkdir_handler : Args → Jail O H ℤ
  mkdir_handler = input_path_handler sys_mkdir (0 ∷ [])

  abbrev pub rmdir_handler : Args → Jail O H ℤ
  rmdir_handler = input_path_handler sys_rmdir (0 ∷ [])

  abbrev pub unlink_handler : Args → Jail O H ℤ
  unlink_handler = input_path_handler sys_unlink (0 ∷ [])

  abbrev pub chmod_handler : Args → Jail O H ℤ
  chmod_handler = input_path_handler sys_chmod (0 ∷ [])

  abbrev pub chown_handler : Args → Jail O H ℤ
  chown_handler = input_path_handler sys_chown (0 ∷ [])

  abbrev pub lchown_handler : Args → Jail O H ℤ
  lchown_handler = input_path_handler sys_lchown (0 ∷ [])

  abbrev pub truncate_handler : Args → Jail O H ℤ
  truncate_handler = input_path_handler sys_truncate (0 ∷ [])

  abbrev pub setxattr_handler : Args → Jail O H ℤ
  setxattr_handler = input_path_handler sys_setxattr (0 ∷ [])

  abbrev pub listxattr_handler : Args → Jail O H ℤ
  listxattr_handler = input_path_handler sys_listxattr (0 ∷ [])

  abbrev pub rename_handler : Args → Jail O H ℤ
  rename_handler = input_path_handler sys_rename (0 ∷ 1 ∷ [])

  abbrev pub link_handler : Args → Jail O H ℤ
  link_handler = input_path_handler sys_link (0 ∷ 1 ∷ [])

  -- The calls with a descriptor first and a path second.
  unfoldable pub at_handler : ℕ → Args → Jail O H ℤ
  unfolding call_with_at_path
  at_handler syscall_no a = call_with_at_path O H syscall_no a.arg2cage (args_of a) (cages_of a) 0 1

  abbrev pub faccessat_handler : Args → Jail O H ℤ
  faccessat_handler = at_handler sys_faccessat

  abbrev pub fchmodat_handler : Args → Jail O H ℤ
  fchmodat_handler = at_handler sys_fchmodat

  abbrev pub fchownat_handler : Args → Jail O H ℤ
  fchownat_handler = at_handler sys_fchownat

  abbrev pub fstatat_handler : Args → Jail O H ℤ
  fstatat_handler = at_handler sys_newfstatat

  abbrev pub statx_handler : Args → Jail O H ℤ
  statx_handler = at_handler sys_statx

  unfoldable pub utimensat_handler : Args → Jail O H ℤ
  unfolding at_handler make_syscall_from_grate
  utimensat_handler a =
      if eqb a.arg2 0
      then make_syscall_from_grate O H sys_utimensat a.arg1cage (args_of a) (cages_of a)
      else at_handler sys_utimensat a

  unfoldable pub renameat_common : ℕ → Args → Jail O H ℤ
  unfolding with_at_path make_syscall_from_grate
  renameat_common syscall_no a =
      with_at_path O H a.arg2cage a.arg1 a.arg2 a.arg2cage (λ old_fd old_ptr.
        with_at_path O H a.arg2cage a.arg3 a.arg4 a.arg4cage (λ new_fd new_ptr.
          make_syscall_from_grate O H syscall_no a.arg2cage
            (old_fd ∷ old_ptr ∷ new_fd ∷ new_ptr ∷ a.arg5 ∷ a.arg6 ∷ [])
            (a.arg1cage
              ∷ own_memory O H
              ∷ a.arg3cage
              ∷ own_memory O H
              ∷ a.arg5cage
              ∷ a.arg6cage
              ∷ [])))

  abbrev pub renameat_handler : Args → Jail O H ℤ
  renameat_handler = renameat_common sys_renameat

  abbrev pub renameat2_handler : Args → Jail O H ℤ
  renameat2_handler = renameat_common sys_renameat2

  unfoldable pub symlink_handler : Args → Jail O H ℤ
  unfolding rewrite_symlink_target read_path_from_cage owned own_text make_syscall_from_grate
  symlink_handler a = rewrite_symlink_target O H a.arg2cage a.arg1 a.arg1cage (λ target.
      read_path_from_cage O H a.arg2 a.arg2cage >>= (λ read. or_return O H read efault (λ linkpath.
        owned O H (λ s. chroot_path s linkpath a.arg2cage) >>= (λ host.
          or_return O H (c_string host) einval (λ t. own_text O H t >>= (λ link.
            make_syscall_from_grate O H sys_symlink a.arg1cage
              (target ∷ link ∷ a.arg3 ∷ a.arg4 ∷ a.arg5 ∷ a.arg6 ∷ [])
              (own_memory O H
                ∷ own_memory O H
                ∷ a.arg3cage
                ∷ a.arg4cage
                ∷ a.arg5cage
                ∷ a.arg6cage
                ∷ [])))))))

  unfoldable pub symlinkat_handler : Args → Jail O H ℤ
  unfolding rewrite_symlink_target with_at_path make_syscall_from_grate
  symlinkat_handler a = rewrite_symlink_target O H a.arg3cage a.arg1 a.arg1cage (λ target.
      with_at_path O H a.arg3cage a.arg2 a.arg3 a.arg3cage (λ fd link.
        make_syscall_from_grate O H sys_symlinkat a.arg3cage
          (target ∷ fd ∷ link ∷ a.arg4 ∷ a.arg5 ∷ a.arg6 ∷ [])
          (own_memory O H
            ∷ a.arg2cage
            ∷ own_memory O H
            ∷ a.arg4cage
            ∷ a.arg5cage
            ∷ a.arg6cage
            ∷ [])))

  unfoldable pub execve_handler : Args → Jail O H ℤ
  unfolding read_path_from_cage owned own_text make_syscall_from_grate
  execve_handler a = do
    read ← read_path_from_cage O H a.arg1 a.arg1cage
    or_return O H read efault (λ path. do
      host ← owned O H (λ s. chroot_path s path a.arg1cage)
      or_return O H (c_string host) (negsuc 0) (λ t. do
        ptr ← own_text O H t
        make_syscall_from_grate O H sys_execve a.arg1cage (set (args_of a) 0 ptr)
            (set (cages_of a) 0 (own_memory O H))))

  -- The path of readlinkat and unlinkat: an absolute one, or one of the working directory, is
  -- rewritten with the descriptor, another one stays as it is.
  unfoldable pub chrooted_or_relative : ℕ → ℕ → Text → (ℕ → ℕ → Jail O H ℤ) → Jail O H ℤ
  unfolding owned own_text
  chrooted_or_relative cageid dirfd path next =
      let use_chrooted = is_absolute path || eqb dirfd at_fdcwd in
      owned O H (λ s. if use_chrooted then chroot_path s path cageid else (s, path)) >>= (λ host.
        or_return O H (c_string host) (negsuc 0)
          (λ t. own_text O H t >>= (λ ptr. next (if use_chrooted then at_fdcwd else dirfd) ptr)))

  unfoldable pub unlinkat_handler : Args → Jail O H ℤ
  unfolding read_path_from_cage chrooted_or_relative make_syscall_from_grate
  unlinkat_handler a = do
    read ← read_path_from_cage O H a.arg2 a.arg2cage
    or_return O H read efault (λ path.
        if is_empty path
        then return enoent
        else chrooted_or_relative a.arg2cage a.arg1 path (λ fd ptr.
          make_syscall_from_grate O H sys_unlinkat a.arg2cage (fd ∷ ptr ∷ a.arg3 ∷ 0 ∷ 0 ∷ 0 ∷ [])
            (a.arg1cage ∷ own_memory O H ∷ a.arg3cage ∷ 0 ∷ 0 ∷ 0 ∷ [])))

  -- What follows readlink: the target in the buffer of the grate loses the root directory.
  unfoldable pub virtual_target : ℕ → ℕ → ℕ → ℕ → ℤ → Jail O H ℤ
  unfolding from_utf8_lossy write_bytes_to_cage
  virtual_target result_buf buf buf_cage bufsiz (negsuc n) = return (negsuc n)
  virtual_target result_buf buf buf_cage bufsiz (pos result_len) = do
    result ← gets (λ s. from_utf8_lossy (H.read_own s.world result_buf result_len))
    dir ← gets (λ s. s.own.chroot_dir)
    write_bytes_to_cage O H buf buf_cage bufsiz (to_utf8 (strip_chroot_prefix dir result))

  unfoldable pub readlink_handler : Args → Jail O H ℤ
  unfolding read_path_from_cage owned own_text own_vec make_syscall_from_grate virtual_target
  readlink_handler a = do
    read ← read_path_from_cage O H a.arg1 a.arg1cage
    or_return O H read efault (λ path. do
      host ← owned O H (λ s. chroot_path s path a.arg1cage)
      or_return O H (c_string host) (negsuc 0) (λ t. do
        ptr ← own_text O H t
        result_buf ← own_vec O H (replicate a.arg3 0)
        ret ←
            make_syscall_from_grate O H sys_readlink a.arg1cage
              (ptr ∷ result_buf ∷ a.arg3 ∷ 0 ∷ 0 ∷ 0 ∷ [])
              (own_memory O H ∷ own_memory O H ∷ O.own_cage ∷ 0 ∷ 0 ∷ 0 ∷ [])
        virtual_target result_buf a.arg2 a.arg2cage a.arg3 ret))

  unfoldable pub readlinkat_handler : Args → Jail O H ℤ
  unfolding read_path_from_cage chrooted_or_relative own_vec make_syscall_from_grate virtual_target
  readlinkat_handler a = do
    read ← read_path_from_cage O H a.arg2 a.arg2cage
    or_return O H read efault (λ path. chrooted_or_relative a.arg2cage a.arg1 path (λ fd ptr. do
      result_buf ← own_vec O H (replicate a.arg4 0)
      ret ←
          make_syscall_from_grate O H sys_readlinkat a.arg2cage
            (fd ∷ ptr ∷ result_buf ∷ a.arg4 ∷ 0 ∷ 0 ∷ [])
            (a.arg1cage ∷ own_memory O H ∷ own_memory O H ∷ O.own_cage ∷ 0 ∷ 0 ∷ [])
      virtual_target result_buf a.arg3 a.arg3cage a.arg4 ret))
