-- ===== src/Chroot/Sockets.antt =====
-- rust-grates/chroot-grate/src/sockets.rs: the paths in the addresses of Unix sockets go below the
-- root directory on the way to the kernel, and lose it on the way back.
use lind_wasm_example_grates.Chroot.Paths.{strip_chroot_prefix}
use lind_wasm_example_grates.Chroot.State.{chroot_path, State}
use lind_wasm_example_grates.Base.Words.{ℤ, is_neg, neg}
use lind_wasm_example_grates.Grate.Utf8.{to_utf8, before_nul}
use lind_wasm_example_grates.Path.Text.{Text}
use lind_wasm_example_grates.Chroot.Calls.{
  Jail, JailSys, at_index, call_with_rewrites, owned, make_syscall_from_grate, efault, or_return,
  own_vec,
}
use lind_wasm_example_grates.Grate.Lossy.{from_utf8_lossy}
use lind_wasm_example_grates.Grate.Steps.{
  ◌>>=◌, ◌>>◌, Args, GrateError, return, when, make_threei_call, args_of, make_syscall_error,
  cages_of, handler_registration_error, le_bytes, copy_from_cage,
}
use lind_wasm_example_grates.Grate.Outside.{Outside}
use lind_wasm_example_grates.Grate.Syscalls.{
  sys_bind, sys_accept, sys_connect, sys_getpeername, sys_getsockname, sys_recvfrom, sys_sendto,
}
use lind_wasm_example_grates.Base.{
  ℕ, List, Option, min, some, ◌+◌, ◌⊎◌, if◌then◌else◌, inl, inr, length, none, not, ◌*◌, ◌∷◌, drop,
  eqb, ltb, ◌++◌, ◌-◌, [], take, ◌||◌, ◌&&◌, set,
}
use lind_wasm_example_grates.Chroot.Host.{Host}

abbrev pub af_unix : ℕ
af_unix = 1

-- u16::from_ne_bytes of the first two bytes; a machine of this kind has the lowest byte first.
abbrev pub family_of : List ℕ → ℕ
family_of buf = at_index buf 0 + 256 * at_index buf 1

-- A chrooted path as an address: the family, the path and a NUL.
abbrev pub unix_address : List ℕ → Text → List ℕ
unix_address buf path = at_index buf 0 ∷ at_index buf 1 ∷ to_utf8 path ++ 0 ∷ []

abbrev pub path_of : List ℕ → Text
path_of buf = from_utf8_lossy (before_nul (drop 2 buf))

-- The address that goes to the kernel, of the bytes copied from the cage.
unfoldable pub translate_buf : State → ℕ → List ℕ → ℕ → State × (List ℕ × ℕ)
unfolding from_utf8_lossy to_utf8 before_nul at_index chroot_path
translate_buf s cageid buf addrlen =
    if eqb (family_of buf) af_unix && ltb 2 addrlen
    then (if eqb (at_index buf 2) 0
        then (s, (buf, addrlen))
        else (let (s', host) = chroot_path s (path_of buf) cageid in
            (s', (unix_address buf host, length (unix_address buf host)))))
    else (s, (buf, addrlen))

-- dest[..n].copy_from_slice(part), and a NUL behind it if there is room
abbrev pub put_front : List ℕ → List ℕ → List ℕ
put_front part dest =
    let n = min (length part) (length dest - 1) in
    if ltb n (length dest) then take n part ++ 0 ∷ drop (n + 1) dest else take n part ++ drop n dest

unfoldable pub untranslate_sockaddr : Text → List ℕ → List ℕ
unfolding from_utf8_lossy to_utf8 before_nul at_index strip_chroot_prefix
untranslate_sockaddr chroot_dir buf =
    if not (ltb 2 (length buf)) || not (eqb (family_of buf) af_unix)
    then buf
    else take 2 buf
      ++ put_front (to_utf8 (strip_chroot_prefix chroot_dir (path_of buf))) (drop 2 buf)

module _ (O : Outside) (H : Host O) where
  -- translate_sockaddr with what follows it: the address of the bytes and their number
  unfoldable pub translate_sockaddr : ℕ → ℕ → ℕ → ℕ → (ℕ → ℕ → Jail O H ℤ) → Jail O H ℤ
  unfolding owned translate_buf
  translate_sockaddr cageid addr addr_cage addrlen next =
      if ltb addrlen 2
      then return efault
      else (copy_from_cage O addr addr_cage addrlen >>= (λ copied.
          or_return O H copied efault (λ buf.
            owned O H (λ s. translate_buf s cageid buf addrlen)
            >>= (λ r. own_vec O H r.0 >>= (λ ptr. next ptr r.1)))))

  -- socket_translate_handler!: the place of the address and that of its length
  unfoldable pub socket_translate_handler : ℕ → ℕ → ℕ → Args → Jail O H ℤ
  unfolding translate_sockaddr call_with_rewrites make_syscall_from_grate at_index
  socket_translate_handler syscall_no idx idx_len a =
      let args = args_of a in
      let cages = cages_of a in
      if eqb (at_index args idx) 0
      then make_syscall_from_grate O H syscall_no a.arg1cage args cages
      else translate_sockaddr a.arg1cage (at_index args idx) (at_index cages idx)
          (at_index args idx_len)
          (λ ptr new_len.
            call_with_rewrites O H syscall_no a.arg1cage (set args idx_len new_len) cages
              ((idx, ptr) ∷ []))

  abbrev pub bind_handler : Args → Jail O H ℤ
  bind_handler = socket_translate_handler sys_bind 1 2

  abbrev pub connect_handler : Args → Jail O H ℤ
  connect_handler = socket_translate_handler sys_connect 1 2

  abbrev pub sendto_handler : Args → Jail O H ℤ
  sendto_handler = socket_translate_handler sys_sendto 4 5

  -- let _ = copy_data_between_cages(..) into the cage
  abbrev copied_back : JailSys O H → Option O.World → JailSys O H × Unit {0}
  copied_back s none = (s, tt)
  copied_back s (some w) = (record s { world = w }, tt)

  -- What follows the copy of the address, if there is one.
  abbrev write_back : ℕ → ℕ → ℕ → Option (List ℕ) → Jail O H Unit
  write_back addr addr_cage addrlen none s = (s, tt)
  write_back addr addr_cage addrlen (some buf) s =
      copied_back s
        (O.copy_out s.world (untranslate_sockaddr s.own.chroot_dir buf) addr addr_cage addrlen)

  abbrev untranslate_of_len : ℕ → ℕ → Option (List ℕ) → Jail O H Unit
  untranslate_of_len addr addr_cage none = return tt
  untranslate_of_len addr addr_cage (some len_buf) = when (not (eqb (le_bytes len_buf) 0)) (
      copy_from_cage O addr addr_cage (le_bytes len_buf)
      >>= write_back addr addr_cage (le_bytes len_buf))

  unfoldable pub untranslate_sockaddr_in_cage : ℕ → ℕ → ℕ → ℕ → Jail O H Unit
  unfolding untranslate_sockaddr
  untranslate_sockaddr_in_cage addr addr_cage addrlen_ptr addrlen_cage =
      when (not (eqb addr 0 || eqb addrlen_ptr 0))
        (copy_from_cage O addrlen_ptr addrlen_cage 4 >>= untranslate_of_len addr addr_cage)

  -- make_threei_call's result, where an error that is not the kernel's is EIO
  abbrev pub or_eio : GrateError ⊎ ℤ → ℤ ⊎ ℤ
  or_eio (inr ret) = inr ret
  or_eio (inl (make_syscall_error e)) = inr e
  or_eio (inl (handler_registration_error e)) = inl (neg 5)

  abbrev after_call : (Jail O H Unit) → ℤ ⊎ ℤ → Jail O H ℤ
  after_call m (inl e) = return e
  after_call m (inr ret) = when (not (is_neg ret)) m >> return ret

  -- socket_untranslate_handler!
  unfoldable pub socket_untranslate_handler : ℕ → ℕ → ℕ → Args → Jail O H ℤ
  unfolding untranslate_sockaddr_in_cage at_index
  socket_untranslate_handler syscall_no idx idx_len a =
      make_threei_call O syscall_no O.own_cage a.arg1cage (args_of a) (cages_of a) >>= (λ r.
        after_call
          (untranslate_sockaddr_in_cage (at_index (args_of a) idx) (at_index (cages_of a) idx)
            (at_index (args_of a) idx_len) (at_index (cages_of a) idx_len))
          (or_eio r))

  abbrev pub accept_handler : Args → Jail O H ℤ
  accept_handler = socket_untranslate_handler sys_accept 1 2

  abbrev pub getsockname_handler : Args → Jail O H ℤ
  getsockname_handler = socket_untranslate_handler sys_getsockname 1 2

  abbrev pub getpeername_handler : Args → Jail O H ℤ
  getpeername_handler = socket_untranslate_handler sys_getpeername 1 2

  abbrev pub recvfrom_handler : Args → Jail O H ℤ
  recvfrom_handler = socket_untranslate_handler sys_recvfrom 4 5
