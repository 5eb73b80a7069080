-- ===== src/FsClamp/Duplicates.antt =====
-- dup, dup2 and dup3 of rust-grates/fs-routing-clamp/src/handlers/ns_handlers.rs.
use lind_wasm_example_grates.Grate.Syscalls.{sys_dup, sys_fcntl}
use lind_wasm_example_grates.FsClamp.Routing.{Ns, do_syscall, einval}
use lind_wasm_example_grates.Base.Words.{ℤ, as_i32, negsuc, neg, pos, is_neg}
use lind_wasm_example_grates.FsClamp.FdCalls.{
  close_underfd, send_to_side, entry_for, is_clamped, fd_args, or_ebadf, same_cages,
}
use lind_wasm_example_grates.Grate.Outside.{Outside, Entry}
use lind_wasm_example_grates.Base.{
  ℕ, Bool, List, Option, eqb, ◌∷◌, [], if◌then◌else◌, ◌||◌, not, ◌^◌, some, false, none, inr, inl,
  true, ◌⊎◌,
}
use lind_wasm_example_grates.Grate.Steps.{
  ◌>>◌, Args, place_fd, return, translate, ◌>>=◌, try_tables, has_bit, new_fd,
}

-- F_SETFD and FD_CLOEXEC
abbrev pub setfd_args : ℕ → List ℕ
setfd_args fd = fd ∷ 2 ∷ 1 ∷ 0 ∷ 0 ∷ 0 ∷ []

-- `flags & !O_CLOEXEC` is 0: the flags are none or O_CLOEXEC, which is bit 19.
abbrev pub o_cloexec_bit : ℕ
o_cloexec_bit = 19

abbrev pub only_cloexec : ℕ → Bool
only_cloexec flags = eqb flags 0 || eqb flags (2 ^ 19)

module _ (O : Outside) where
  -- SYS_DUP of an underfd, on the side of its descriptor.
  unfoldable pub dup_underfd : ℕ → Entry → Ns O ℤ
  unfolding send_to_side
  dup_underfd cage_id e =
      send_to_side O cage_id sys_dup (is_clamped e) (fd_args e.underfd) (same_cages cage_id)

  -- A failure closes the new underfd.
  abbrev pub dup_made : ℕ → ℕ → ℕ ⊎ ℕ → Ns O ℤ
  dup_made cage_id underfd (inr vfd) = return (as_i32 vfd)
  dup_made cage_id underfd (inl errno) = close_underfd O cage_id underfd >> return (neg errno)

  abbrev pub dup_new : ℕ → Entry → ℤ → Ns O ℤ
  dup_new cage_id e (negsuc n) = return (negsuc n)
  dup_new cage_id e (pos ret) =
      new_fd O cage_id (entry_for ret false e.perfdinfo) >>= dup_made cage_id ret

  unfoldable pub ns_dup_handler : Args → Ns O ℤ
  unfolding dup_underfd close_underfd
  ns_dup_handler a =
      translate O a.arg1cage a.arg1
      >>= or_ebadf O (λ e. dup_underfd a.arg1cage e >>= dup_new a.arg1cage e)

  -- A descriptor that is replaced: its underfd is closed as one of the kernel.
  abbrev pub replace : ℕ → ℕ → Option Entry → Ns O Unit
  replace cage_id fd none = return tt
  replace cage_id fd (some e) = do
    close_underfd O cage_id e.underfd
    try_tables O (λ t. O.close_virtualfd t cage_id fd)

  abbrev pub installed : ℕ → ℕ → ℕ → Option ℕ → Ns O ℤ
  installed cage_id newfd underfd none = return (as_i32 newfd)
  installed cage_id newfd underfd (some errno) =
      close_underfd O cage_id underfd >> return (neg errno)

  abbrev pub install : ℕ → ℕ → ℕ → Bool → ℕ → Ns O ℤ
  install cage_id newfd underfd cloexec perfdinfo =
      place_fd O cage_id newfd (entry_for underfd cloexec perfdinfo)
      >>= installed cage_id newfd underfd

  abbrev pub dup2_ret : Args → Entry → ℤ → Ns O ℤ
  dup2_ret a e (negsuc n) = return (negsuc n)
  dup2_ret a e (pos ret) = install a.arg1cage a.arg2 ret false e.perfdinfo

  abbrev pub dup2_from : Args → Entry → Ns O ℤ
  dup2_from a e =
      if eqb a.arg1 a.arg2
      then return (as_i32 a.arg2)
      else ((translate O a.arg1cage a.arg2 >>= replace a.arg1cage a.arg2)
          >> (dup_underfd a.arg1cage e >>= dup2_ret a e))

  unfoldable pub ns_dup2_handler : Args → Ns O ℤ
  unfolding dup_underfd close_underfd
  ns_dup2_handler a = translate O a.arg1cage a.arg1 >>= or_ebadf O (dup2_from a)

  abbrev pub close_and : ℕ → ℕ → ℤ → Ns O ℤ
  close_and cage_id underfd e = close_underfd O cage_id underfd >> return e

  -- FD_CLOEXEC is set on the new underfd first, when it was asked for.
  abbrev pub dup3_ret : Args → Entry → ℤ → Ns O ℤ
  dup3_ret a e (negsuc n) = return (negsuc n)
  dup3_ret a e (pos ret) =
      if has_bit o_cloexec_bit a.arg3
      then (do_syscall O a.arg1cage sys_fcntl (setfd_args ret) (same_cages a.arg1cage) >>= (λ r.
          if is_neg r
          then close_and a.arg1cage ret r
          else install a.arg1cage a.arg2 ret true e.perfdinfo))
      else install a.arg1cage a.arg2 ret false e.perfdinfo

  abbrev pub dup3_from : Args → Entry → Ns O ℤ
  dup3_from a e =
      if eqb a.arg1 a.arg2 || not (only_cloexec a.arg3)
      then return einval
      else ((translate O a.arg1cage a.arg2 >>= replace a.arg1cage a.arg2)
          >> (dup_underfd a.arg1cage e >>= dup3_ret a e))

  unfoldable pub ns_dup3_handler : Args → Ns O ℤ
  unfolding dup_underfd close_underfd do_syscall
  ns_dup3_handler a = translate O a.arg1cage a.arg1 >>= or_ebadf O (dup3_from a)
