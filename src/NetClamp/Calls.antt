-- ===== src/NetClamp/Calls.antt =====
-- The handlers of rust-grates/net-routing-clamp/src/handlers/ns_handlers.rs, and the parts of
-- src/helpers.rs that leave the grate. The `perfdinfo` of a descriptor is not 0 when it is clamped.
use lind_wasm_example_grates.Grate.Syscalls.{
  sys_bind, sys_connect, sys_dup, sys_dup2, sys_accept, sys_close, sys_socket, sys_sendto,
}
use lind_wasm_example_grates.Base.Words.{ℤ, negsuc, is_neg, u32_mod}
use lind_wasm_example_grates.NetClamp.State.{
  NetState, extract_port_from_sockaddr, port_in_range, clone_cage_routes, get_route,
}
use lind_wasm_example_grates.Grate.Outside.{Entry, Outside}
use lind_wasm_example_grates.Grate.Steps.{
  ◌>>=◌, ◌>>◌, GrateError, Args, Step, Sys, gets, place_fd, try_tables, on_own, return, as_u64,
  copy_from_cage, make_threei_call, when, args_of, cages_of,
}
use lind_wasm_example_grates.Base.{
  nat_key, pair_key, ℕ, Bool, Option, none, some, List, if◌then◌else◌, false, ◌⊎◌, inr, inl, eqb,
  not, min, true, ◌%◌, ◌&&◌, ◌||◌,
}

-- Ok(ret) => ret, Err(_) => -1
abbrev pub ret_or_minus_one : GrateError ⊎ ℤ → ℤ
ret_or_minus_one (inr ret) = ret
ret_or_minus_one (inl e) = negsuc 0

abbrev pub port_from : Option (List ℕ) → Option ℕ
port_from none = none
port_from (some buf) = extract_port_from_sockaddr buf

-- match route { Some(alt) if test => alt, _ => nr }
unfoldable pub pick_nr : Option ℕ → Bool → ℕ → ℕ
pick_nr none test nr = nr
pick_nr (some alt) test nr = if test then alt else nr

abbrev pub info_in : Option Entry → ℕ
info_in none = 0
info_in (some e) = e.perfdinfo

abbrev pub in_range_of : NetState → Option ℕ → Bool
in_range_of s none = false
in_range_of s (some port) = port_in_range s port

-- An entry whose underfd is the descriptor itself.
abbrev pub same_fd : ℕ → ℕ → Entry
same_fd fd perfdinfo = record {
  fdkind = 0;
  underfd = fd;
  should_cloexec = false;
  perfdinfo = perfdinfo;
}

module _ (O : Outside) where
  abbrev pub NetSys : Type 0
  NetSys = Sys O NetState

  abbrev pub Net : Type 0 → Type 0
  Net = Step NetSys

  unfoldable pub do_syscall : ℕ → ℕ → List ℕ → List ℕ → Net ℤ
  do_syscall callingcage nr args arg_cages = do
    r ← make_threei_call O (nr % u32_mod) O.own_cage callingcage args arg_cages
    return (ret_or_minus_one r)

  unfoldable pub read_port_from_cage : ℕ → ℕ → ℕ → Net (Option ℕ)
  read_port_from_cage addr_ptr addr_cage addrlen = do
    buf ← copy_from_cage O addr_ptr addr_cage (min addrlen 128)
    return (port_from buf)

  -- .map(|port| port_in_range(port)).unwrap_or(false)
  abbrev pub addr_in_range : ℕ → ℕ → ℕ → Net Bool
  addr_in_range addr_ptr addr_cage addrlen = do
    port ← read_port_from_cage addr_ptr addr_cage addrlen
    gets (λ s. in_range_of s.own port)

  -- The perfdinfo of a descriptor, 0 for one that is not there.
  unfoldable pub fd_info : ℕ → ℕ → Net ℕ
  fd_info cage_id fd = gets (λ s.
      if O.check_cage_exists s.tables cage_id
      then info_in (O.translate_virtual_fd s.tables cage_id fd)
      else 0)

  unfoldable pub is_fd_clamped : ℕ → ℕ → Net Bool
  unfolding fd_info
  is_fd_clamped cage_id fd = do info ← fd_info cage_id fd; return (not (eqb info 0))

  -- The call, under the number of the route if it is clamped.
  unfoldable pub send : ℕ → Bool → Args → Net ℤ
  unfolding do_syscall pick_nr
  send sysno clamped a = do
    r ← gets (λ s. get_route s.own a.arg1cage sysno)
    do_syscall a.arg1cage (pick_nr r clamped sysno) (args_of a) (cages_of a)

  -- What follows a call that returned no error, in a cage that the tables know.
  abbrev pub on_success : ℕ → ℤ → Net Unit → Net ℤ
  on_success cage_id ret m = do
    known ← gets (λ s. O.check_cage_exists s.tables cage_id)
    when (not (is_neg ret) && known) m
    return ret

  abbrev pub place : ℕ → ℕ → ℕ → Net Unit
  place cage_id fd perfdinfo = place_fd O cage_id fd (same_fd fd perfdinfo) >> return tt

  -- fd_route_handler!
  unfoldable pub route_handler : ℕ → Args → Net ℤ
  unfolding is_fd_clamped send
  route_handler sysno a = do clamped ← is_fd_clamped a.arg1cage a.arg1; send sysno clamped a

  unfoldable pub ns_socket_handler : Args → Net ℤ
  unfolding send
  ns_socket_handler a = do
    ret ← send sys_socket true a
    on_success a.arg1cage ret (place a.arg1cage (as_u64 ret) 0)

  -- bind and connect: a descriptor that gets a port of the range is marked.
  unfoldable pub addr_handler : ℕ → Args → Net ℤ
  unfolding read_port_from_cage send
  addr_handler sysno a = do
    in_range ← addr_in_range a.arg2 a.arg2cage a.arg3
    ret ← send sysno in_range a
    on_success a.arg1cage ret
        (when in_range (try_tables O (λ t. O.set_perfdinfo t a.arg1cage a.arg1 1)))

  abbrev pub ns_bind_handler : Args → Net ℤ
  ns_bind_handler = addr_handler sys_bind

  abbrev pub ns_connect_handler : Args → Net ℤ
  ns_connect_handler = addr_handler sys_connect

  unfoldable pub ns_accept_handler : Args → Net ℤ
  unfolding is_fd_clamped send
  ns_accept_handler a = do
    clamped ← is_fd_clamped a.arg1cage a.arg1
    ret ← send sys_accept clamped a
    on_success a.arg1cage ret (place a.arg1cage (as_u64 ret) (if clamped then 1 else 0))

  unfoldable pub ns_sendto_handler : Args → Net ℤ
  unfolding is_fd_clamped read_port_from_cage send
  ns_sendto_handler a = do
    fd_clamped ← is_fd_clamped a.arg1cage a.arg1
    addr_clamped ← (if eqb a.arg5 0 then return false else addr_in_range a.arg5 a.arg5cage a.arg6)
    send sys_sendto (fd_clamped || addr_clamped) a

  unfoldable pub ns_close_handler : Args → Net ℤ
  unfolding is_fd_clamped send
  ns_close_handler a = do
    clamped ← is_fd_clamped a.arg1cage a.arg1
    ret ← send sys_close clamped a
    known ← gets (λ s. O.check_cage_exists s.tables a.arg1cage)
    when known (try_tables O (λ t. O.close_virtualfd t a.arg1cage a.arg1))
    return ret

  -- The new descriptor has the mark of the old one.
  abbrev pub dup_to : ℕ → Args → (ℤ → ℕ) → Net ℤ
  dup_to sysno a new_fd = do
    info ← fd_info a.arg1cage a.arg1
    ret ← send sysno (not (eqb info 0)) a
    on_success a.arg1cage ret (place a.arg1cage (new_fd ret) info)

  unfoldable pub ns_dup_handler : Args → Net ℤ
  unfolding fd_info send
  ns_dup_handler a = dup_to sys_dup a as_u64

  unfoldable pub ns_dup2_handler : Args → Net ℤ
  unfolding fd_info send
  ns_dup2_handler a = dup_to sys_dup2 a (λ ret. a.arg2)

  -- A cage that the tables do not know gets the three standard descriptors.
  abbrev pub new_cage_fds : ℕ → Net Unit
  new_cage_fds child = do
    (λ s. (record s { tables = O.init_empty_cage s.tables child }, tt))
    place child 0 0
    place child 1 0
    place child 2 0

  abbrev pub copy_parent : ℕ → ℕ → Net Unit
  copy_parent parent child = do
    try_tables O (λ t. O.copy_fdtable_for_cage t parent child)
    on_own O (λ g. clone_cage_routes g parent child)
