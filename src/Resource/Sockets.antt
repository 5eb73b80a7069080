-- ===== src/Resource/Sockets.antt =====
-- The handlers for sockets of rust-grates/resource-grate/src/handlers.rs.
use lind_wasm_example_grates.Base.{ℕ, Bool, false, not, ◌&&◌, Option, none, some, if◌then◌else◌}
use lind_wasm_example_grates.Base.Words.{ℤ, is_neg}
use lind_wasm_example_grates.Path.Text.{Text, text}
use lind_wasm_example_grates.Grate.Outside.{Outside, Entry}
use lind_wasm_example_grates.Grate.Syscalls.{
  sys_socket, sys_bind, sys_listen, sys_accept, sys_connect,
}
use lind_wasm_example_grates.Grate.Steps.{as_u64}
use lind_wasm_example_grates.Grate.Steps.{
  ◌>>=◌, ◌>>◌, return, gets, when, Args, has_bit, translate, place_fd, try_tables,
}
use lind_wasm_example_grates.Resource.Amounts.{Amounts}
use lind_wasm_example_grates.Resource.Nanny.{NannyState, is_item_allowed}
use lind_wasm_example_grates.Resource.Charges.{
  Do, forward, charge, extract_port, is_loopback_addr, socket_flags, fd_socket, sock_loopback,
  sock_listening, with_bit, without_bit,
}
use lind_wasm_example_grates.Resource.Files.{eacces, with_slot}

abbrev pub socket_entry : ℕ → Entry
socket_entry flags = record {
  fdkind = fd_socket;
  underfd = 0;
  should_cloexec = false;
  perfdinfo = flags;
}

module _ (A : Amounts) (O : Outside) where
  open A use {of_nat}

  unfoldable pub handle_socket : ℕ → Args → Do A O ℤ
  handle_socket grate_cageid a = do
    ret ← forward A O sys_socket grate_cageid a
    when (not (is_neg ret)) (place_fd O a.arg1cage (as_u64 ret) (socket_entry 0) >> return tt)
    return ret

  abbrev pub relabelled : ℕ → ℕ → (ℕ → ℕ) → Option Entry → Do A O Unit
  relabelled cage_id fd change none = return tt
  relabelled cage_id fd change (some e) = do
    try_tables O (λ t. O.close_virtualfd t cage_id fd)
    place_fd O cage_id fd (record e { fdkind = fd_socket; perfdinfo = change e.perfdinfo })
    return tt

  -- The entry of a socket is put back with other flags.
  unfoldable pub relabel : ℕ → ℕ → (ℕ → ℕ) → Do A O Unit
  relabel cage_id fd change = translate O cage_id fd >>= relabelled cage_id fd change

  -- A port that neither list of ports admits.
  abbrev pub is_refused : NannyState A → Option ℕ → Bool
  is_refused s none = false
  is_refused s (some port) =
      not (is_item_allowed A s (text "messport") port)
      && not (is_item_allowed A s (text "connport") port)

  unfoldable pub bound : ℕ → Args → Do A O ℤ
  unfolding relabel
  bound grate_cageid a = do
    loopback ← is_loopback_addr A O a.arg2 a.arg2cage
    when loopback (relabel a.arg1cage a.arg1 (with_bit sock_loopback))
    forward A O sys_bind grate_cageid a

  unfoldable pub handle_bind : ℕ → Args → Do A O ℤ
  unfolding bound
  handle_bind grate_cageid a = do
    port ← extract_port A O a.arg2 a.arg2cage
    refused ← gets (λ s. is_refused s.own port)
    (if refused then return eacces else bound grate_cageid a)

  unfoldable pub handle_listen : ℕ → Args → Do A O ℤ
  unfolding with_slot relabel
  handle_listen grate_cageid a =
      with_slot A O (text "insockets") (forward A O sys_listen grate_cageid a)
        (λ ret. relabel a.arg1cage a.arg1 (with_bit sock_listening))

  abbrev pub overhead : Bool → Text → Text → Text → Text → Do A O Unit
  overhead loopback loop_most loop_least net_most net_least =
      if loopback
      then (charge A O loop_most (of_nat 128) >> charge A O loop_least (of_nat 64))
      else (charge A O net_most (of_nat 128) >> charge A O net_least (of_nat 64))

  unfoldable pub accepted : Args → ℤ → Do A O Unit
  accepted a ret = do
    parent_flags ← socket_flags A O a.arg1cage a.arg1
    let loopback = has_bit sock_loopback parent_flags
    place_fd O a.arg1cage (as_u64 ret) (socket_entry (if loopback then 1 else 0))
    overhead loopback (text "looprecv") (text "loopsend") (text "netrecv") (text "netsend")

  unfoldable pub handle_accept : ℕ → Args → Do A O ℤ
  unfolding with_slot accepted
  handle_accept grate_cageid a =
      with_slot A O (text "outsockets") (forward A O sys_accept grate_cageid a) (accepted a)

  unfoldable pub connected : Args → ℤ → Do A O Unit
  unfolding relabel
  connected a ret = do
    loopback ← is_loopback_addr A O a.arg2 a.arg2cage
    relabel a.arg1cage a.arg1 (λ flags.
        if loopback then with_bit sock_loopback flags else without_bit sock_loopback flags)
    overhead loopback (text "loopsend") (text "looprecv") (text "netsend") (text "netrecv")

  unfoldable pub handle_connect : ℕ → Args → Do A O ℤ
  unfolding with_slot connected
  handle_connect grate_cageid a =
      with_slot A O (text "outsockets")
        (charge A O (text "netsend") A.zero
          >> charge A O (text "netrecv") A.zero
          >> forward A O sys_connect grate_cageid a)
        (connected a)
