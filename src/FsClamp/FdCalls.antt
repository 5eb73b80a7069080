-- ===== src/FsClamp/FdCalls.antt =====
-- The handlers of rust-grates/fs-routing-clamp/src/handlers/ns_handlers.rs that route a call by a
-- descriptor, and those that open one. The `perfdinfo` of a descriptor is 1 when it is clamped.
use lind_wasm_example_grates.FsClamp.Mmap.{
  record_clamped_mmap, remove_clamped_mmap, is_clamped_mmap,
}
use lind_wasm_example_grates.Grate.Syscalls.{sys_close, sys_fcntl, sys_mmap, sys_munmap, sys_open}
use lind_wasm_example_grates.Base.Words.{ℤ, zeq, pos, is_neg, negsuc, as_i32}
use lind_wasm_example_grates.FsClamp.Routing.{
  Ns, do_syscall, resolve_path_from_cage, send_by, send_clamped, do_clamp_syscall, route,
  below_prefix, ebadf, emfile,
}
use lind_wasm_example_grates.Base.{
  Bool, ℕ, List, not, ◌⊎◌, Option, eqb, if◌then◌else◌, set, ◌∷◌, [], inl, inr, some, true, none,
  ◌||◌, false,
}
use lind_wasm_example_grates.Grate.Outside.{Entry, Outside}
use lind_wasm_example_grates.Grate.Steps.{
  ◌>>◌, Args, translate, when, args_of, has_bit, return, ◌>>=◌, cages_of, on_own, try_tables,
  as_u64, gets, new_fd, new_fd_from,
}

abbrev pub is_clamped : Entry → Bool
is_clamped e = not (eqb e.perfdinfo 0)

-- The entry of a new descriptor.
abbrev pub entry_for : ℕ → Bool → ℕ → Entry
entry_for underfd cloexec perfdinfo = record {
  fdkind = 0;
  underfd = underfd;
  should_cloexec = cloexec;
  perfdinfo = perfdinfo;
}

-- [fd, 0, 0, 0, 0, 0] and [cage; 6]
abbrev pub fd_args : ℕ → List ℕ
fd_args fd = fd ∷ 0 ∷ 0 ∷ 0 ∷ 0 ∷ 0 ∷ []

abbrev pub same_cages : ℕ → List ℕ
same_cages cage = cage ∷ cage ∷ cage ∷ cage ∷ cage ∷ cage ∷ []

abbrev pub as_flag : Bool → ℕ
as_flag true = 1
as_flag false = 0

abbrev pub f_dupfd : ℕ
f_dupfd = 0

abbrev pub f_dupfd_cloexec : ℕ
f_dupfd_cloexec = 1030

abbrev pub dup_result : ℕ ⊎ ℕ → ℤ
dup_result (inl errno) = emfile
dup_result (inr vfd) = as_i32 vfd

module _ (O : Outside) where
  -- match translate_virtual_fd(..) { Ok(entry) => body, Err(_) => -EBADF }
  abbrev pub or_ebadf : (Entry → Ns O ℤ) → Option Entry → Ns O ℤ
  or_ebadf body none = return ebadf
  or_ebadf body (some e) = body e

  -- A call for the side that a descriptor belongs to: a clamped one goes to the route or to the
  -- clamp's entry cage, any other to the kernel.
  unfoldable pub send_to_side : ℕ → ℕ → Bool → List ℕ → List ℕ → Ns O ℤ
  unfolding send_clamped do_syscall
  send_to_side cage_id nr clamped args arg_cages =
      if clamped
      then send_clamped O cage_id nr args arg_cages
      else do_syscall O cage_id nr args arg_cages

  -- fd_route_handler!
  unfoldable pub fd_handler : ℕ → Args → Ns O ℤ
  unfolding send_to_side
  fd_handler sysno a =
      translate O a.arg1cage a.arg1
      >>= or_ebadf (λ e.
        send_to_side a.arg1cage sysno (is_clamped e) (set (args_of a) 0 e.underfd) (cages_of a))

  -- The kernel's descriptor of a call is closed when no virtual one can be had for it.
  unfoldable pub close_underfd : ℕ → ℕ → Ns O ℤ
  unfolding do_syscall
  close_underfd cage_id underfd =
      do_syscall O cage_id sys_close (fd_args underfd) (same_cages cage_id)

  abbrev pub opened_as : ℕ → ℕ → ℤ → ℕ ⊎ ℕ → Ns O ℤ
  opened_as cage_id underfd e (inr vfd) = return (as_i32 vfd)
  opened_as cage_id underfd e (inl errno) = close_underfd cage_id underfd >> return e

  -- A result that is no error becomes a virtual descriptor.
  abbrev pub record_opened : ℕ → Bool → ℤ → Ns O ℤ
  record_opened cage_id clamped (negsuc n) = return (negsuc n)
  record_opened cage_id clamped (pos ret) =
      new_fd O cage_id (entry_for ret false (as_flag clamped)) >>= opened_as cage_id ret emfile

  unfoldable pub ns_open_handler : Args → Ns O ℤ
  unfolding resolve_path_from_cage send_by close_underfd
  ns_open_handler a = do
    path ← resolve_path_from_cage O a.arg2cage a.arg1 a.arg1cage
    matches ← below_prefix O path
    ret ← send_by O a.arg1cage sys_open matches (args_of a) (cages_of a)
    record_opened a.arg1cage matches ret

  abbrev pub close_as : Args → Entry → Ns O ℤ
  close_as a e = do
    ret ← send_by O a.arg1cage sys_close (is_clamped e) (set (args_of a) 0 e.underfd) (cages_of a)
    when (not (is_neg ret)) (try_tables O (λ t. O.close_virtualfd t a.arg1cage a.arg1))
    return ret

  unfoldable pub ns_close_handler : Args → Ns O ℤ
  unfolding send_by
  ns_close_handler a = translate O a.arg1cage a.arg1 >>= or_ebadf (close_as a)

  abbrev pub map_for : Args → Entry → Ns O ℤ
  map_for a e =
      let args = set (args_of a) 4 e.underfd in
      if is_clamped e
      then (do
        ret ← send_clamped O a.arg1cage sys_mmap args (cages_of a)
        when (not (is_neg ret)) (
            on_own O (λ g. record g {
              mmaps = record_clamped_mmap g.mmaps a.arg1cage (as_u64 ret) a.arg2;
            }))
        return ret)
      else do_syscall O a.arg1cage sys_mmap args (cages_of a)

  -- MAP_ANON is 0x20.
  unfoldable pub ns_mmap_handler : Args → Ns O ℤ
  unfolding send_clamped do_syscall
  ns_mmap_handler a =
      if has_bit 5 a.arg4
      then do_syscall O a.arg1cage sys_mmap (args_of a) (cages_of a)
      else translate O a.arg1cage a.arg5 >>= or_ebadf (map_for a)

  -- What follows an unmap that succeeded.
  abbrev pub unmapped : Args → ℤ → Ns O ℤ
  unmapped a ret = do
    when (zeq ret (pos 0))
        (on_own O (λ g. record g { mmaps = remove_clamped_mmap g.mmaps a.arg1cage a.arg1 a.arg2 }))
    return ret

  abbrev pub unmap_by : Args → Option ℕ → Ns O ℤ
  unmap_by a (some alt) = do_syscall O a.arg1cage alt (args_of a) (cages_of a) >>= unmapped a
  unmap_by a none = gets (λ s. is_clamped_mmap s.own.mmaps a.arg1cage a.arg1 a.arg2) >>= (λ clamped.
      if clamped
      then do_clamp_syscall O a.arg1cage sys_munmap (args_of a) (cages_of a) >>= unmapped a
      else do_syscall O a.arg1cage sys_munmap (args_of a) (cages_of a))

  unfoldable pub ns_munmap_handler : Args → Ns O ℤ
  unfolding do_syscall do_clamp_syscall
  ns_munmap_handler a = route O a.arg1cage sys_munmap >>= unmap_by a

  abbrev pub fcntl_ret : Args → Entry → ℤ → Ns O ℤ
  fcntl_ret a e (negsuc n) = return (negsuc n)
  fcntl_ret a e (pos ret) =
      if eqb a.arg2 f_dupfd || eqb a.arg2 f_dupfd_cloexec
      then (new_fd_from O a.arg1cage (entry_for ret (eqb a.arg2 f_dupfd_cloexec) e.perfdinfo) a.arg3
          >>= (λ r. return (dup_result r)))
      else return (pos ret)

  abbrev pub fcntl_for : Args → Entry → Ns O ℤ
  fcntl_for a e =
      send_by O a.arg1cage sys_fcntl (is_clamped e) (set (args_of a) 0 e.underfd) (cages_of a)
      >>= fcntl_ret a e

  unfoldable pub ns_fcntl_handler : Args → Ns O ℤ
  unfolding send_by
  ns_fcntl_handler a = translate O a.arg1cage a.arg1 >>= or_ebadf (fcntl_for a)
