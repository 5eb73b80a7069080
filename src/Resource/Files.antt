-- ===== src/Resource/Files.antt =====
-- The slots, and the handlers for files and for data, of rust-grates/resource-grate/src/handlers.rs.
use lind_wasm_example_grates.Base.{ℕ, ◌%◌, Bool, true, false, not, ◌||◌, eqb, if◌then◌else◌}
use lind_wasm_example_grates.Base.Words.{ℤ, neg, is_neg, u32_mod}
use lind_wasm_example_grates.Path.Text.{Text, text}
use lind_wasm_example_grates.Grate.Outside.{Outside, Entry}
use lind_wasm_example_grates.Grate.Syscalls.{
  sys_read, sys_write, sys_open, sys_close, sys_pread, sys_pwrite, sys_readv, sys_writev,
  sys_sendto, sys_recvfrom, sys_sendmsg, sys_recvmsg,
}
use lind_wasm_example_grates.Grate.Steps.{as_u64}
use lind_wasm_example_grates.Grate.Steps.{
  ◌>>=◌, ◌>>◌, return, when, Args, has_bit, place_fd, try_tables, on_own,
}
use lind_wasm_example_grates.Resource.Amounts.{Amounts}
use lind_wasm_example_grates.Resource.Nanny.{tattle_add_item, tattle_remove_item}
use lind_wasm_example_grates.Resource.Charges.{
  Do, forward, charge, charge_read_pre, charge_read_post, charge_write_pre, charge_write_post,
  fd_kind, socket_flags, fd_file, fd_socket, sock_listening,
}

abbrev pub eagain : ℤ
eagain = neg 11

abbrev pub eacces : ℤ
eacces = neg 13

abbrev pub emfile : ℤ
emfile = neg 24

abbrev pub file_entry : ℕ → Entry
file_entry flags = record {
  fdkind = fd_file;
  underfd = 0;
  should_cloexec = false;
  perfdinfo = flags;
}

-- flags & O_ACCMODE is O_WRONLY or O_RDWR
abbrev pub for_writing : ℕ → Bool
for_writing flags = eqb (flags % 4) 1 || eqb (flags % 4) 2

module _ (A : Amounts) (O : Outside) where
  open A use {of_nat}

  unfoldable pub add_item : Text → Do A O Bool
  unfolding tattle_add_item
  add_item name s = let r = tattle_add_item A s.own name in (record s { own = r.0 }, r.1)

  unfoldable pub remove_item : Text → Do A O Unit
  unfolding tattle_remove_item
  remove_item name = on_own O (λ s. tattle_remove_item A s name)

  abbrev pub attempted : Text → (ℤ → Do A O Unit) → ℤ → Do A O ℤ
  attempted name succeeded ret = do
    (if is_neg ret then remove_item name else succeeded ret)
    return ret

  abbrev pub granted : Text → Do A O ℤ → (ℤ → Do A O Unit) → Bool → Do A O ℤ
  granted name call succeeded false = return emfile
  granted name call succeeded true = call >>= attempted name succeeded

  -- The shape that open, listen, accept and connect share: a slot is taken before the call and
  -- given back when the call fails.
  unfoldable pub with_slot : Text → Do A O ℤ → (ℤ → Do A O Unit) → Do A O ℤ
  unfolding add_item remove_item
  with_slot name call succeeded = add_item name >>= granted name call succeeded

  unfoldable pub opened : ℕ → ℕ → ℤ → Do A O Unit
  opened cage_id flags ret = do
    place_fd O cage_id (as_u64 ret) (file_entry flags)
    charge A O (text "fileread") (of_nat 4096)
    when (for_writing flags) (charge A O (text "filewrite") (of_nat 4096))

  unfoldable pub handle_open : ℕ → Args → Do A O ℤ
  unfolding with_slot opened
  handle_open grate_cageid a =
      with_slot (text "filesopened")
        (charge A O (text "fileread") A.zero >> forward A O sys_open grate_cageid a)
        (opened a.arg1cage (a.arg2 % u32_mod))

  -- The slot of a descriptor that is closed, by its kind.
  unfoldable pub release : ℕ → ℕ → Do A O Unit
  unfolding remove_item
  release kind sflags =
      if eqb kind fd_file
      then remove_item (text "filesopened")
      else if eqb kind fd_socket
      then (if has_bit sock_listening sflags
          then remove_item (text "insockets")
          else remove_item (text "outsockets"))
      else return tt

  unfoldable pub handle_close : ℕ → Args → Do A O ℤ
  unfolding release
  handle_close grate_cageid a = do
    kind ← fd_kind A O a.arg1cage a.arg1
    flags ← socket_flags A O a.arg1cage a.arg1
    ret ← forward A O sys_close grate_cageid a
    when (not (is_neg ret)) (do
      release kind (if eqb kind fd_socket then flags else 0)
      try_tables O (λ t. O.close_virtualfd t a.arg1cage a.arg1))
    return ret

  unfoldable pub charged_read : ℕ → ℕ → Args → Do A O ℤ
  charged_read nr grate_cageid a = do
    charge_read_pre A O a.arg1cage a.arg1
    ret ← forward A O nr grate_cageid a
    charge_read_post A O a.arg1cage a.arg1 ret
    return ret

  unfoldable pub charged_write : ℕ → ℕ → Args → Do A O ℤ
  charged_write nr grate_cageid a = do
    charge_write_pre A O a.arg1cage a.arg1
    ret ← forward A O nr grate_cageid a
    charge_write_post A O a.arg1cage a.arg1 ret
    return ret

  abbrev pub handle_read : ℕ → Args → Do A O ℤ
  handle_read = charged_read sys_read

  abbrev pub handle_pread64 : ℕ → Args → Do A O ℤ
  handle_pread64 = charged_read sys_pread

  abbrev pub handle_readv : ℕ → Args → Do A O ℤ
  handle_readv = charged_read sys_readv

  abbrev pub handle_recvfrom : ℕ → Args → Do A O ℤ
  handle_recvfrom = charged_read sys_recvfrom

  abbrev pub handle_recvmsg : ℕ → Args → Do A O ℤ
  handle_recvmsg = charged_read sys_recvmsg

  abbrev pub handle_write : ℕ → Args → Do A O ℤ
  handle_write = charged_write sys_write

  abbrev pub handle_pwrite64 : ℕ → Args → Do A O ℤ
  handle_pwrite64 = charged_write sys_pwrite

  abbrev pub handle_writev : ℕ → Args → Do A O ℤ
  handle_writev = charged_write sys_writev

  abbrev pub handle_sendto : ℕ → Args → Do A O ℤ
  handle_sendto = charged_write sys_sendto

  abbrev pub handle_sendmsg : ℕ → Args → Do A O ℤ
  handle_sendmsg = charged_write sys_sendmsg
