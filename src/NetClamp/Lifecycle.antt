-- ===== src/NetClamp/Lifecycle.antt =====
-- The lifecycle handlers of rust-grates/net-routing-clamp/src/handlers, with clone of ns_handlers.rs.
-- The address of a handler is written as the number of the call that it handles.
use lind_wasm_example_grates.Base.Dict.{is_some}
use lind_wasm_example_grates.Grate.FdTable.{mem}
use lind_wasm_example_grates.NetClamp.State.{
  alloc_alt_syscall, deregister_clamped_cage, register_clamped_cage, remove_cage_state, set_route,
  is_cage_clamped, get_route,
}
use lind_wasm_example_grates.Base.Words.{ℤ, neg, negsuc, pos, zeq}
use lind_wasm_example_grates.Grate.Utf8.{from_utf8, before_nul}
use lind_wasm_example_grates.NetClamp.Calls.{Net, do_syscall, send, copy_parent, new_cage_fds}
use lind_wasm_example_grates.Path.Text.{Text, text}
use lind_wasm_example_grates.Grate.Syscalls.{
  sys_socket, sys_bind, sys_exec, sys_register_handler, sys_clone, sys_connect, sys_exit,
  sys_listen, sys_accept, sys_shutdown, sys_read, sys_write, sys_readv, sys_writev, sys_sendto,
  sys_recvfrom, sys_sendmsg, sys_recvmsg, sys_close, sys_dup, sys_dup2,
}
use lind_wasm_example_grates.Grate.Outside.{Outside}
use lind_wasm_example_grates.Grate.Steps.{
  ◌>>=◌, ◌>>◌, Args, GrateError, register_handler, on_own, return, ◌>>=◌, args_of, copy_from_cage,
  gets, cages_of, le_bytes, is_thread_clone, when, is_pos, as_u64,
}
use lind_wasm_example_grates.Base.{
  nat_key, pair_key, text_key, ℕ, Bool, Option, none, some, List, ◌∷◌, ◌⊎◌, if◌then◌else◌, inl, [],
  ◌==◌, inr, true, ◌+◌, not,
}

-- The calls that `get_ns_handler` has a handler for.
abbrev pub ns_calls : List ℕ
ns_calls =
    sys_socket ∷ sys_bind ∷ sys_connect ∷ sys_listen ∷ sys_accept ∷ sys_shutdown ∷ sys_read
    ∷ sys_write ∷ sys_readv ∷ sys_writev ∷ sys_sendto ∷ sys_recvfrom ∷ sys_sendmsg ∷ sys_recvmsg
    ∷ sys_close ∷ sys_dup ∷ sys_dup2 ∷ sys_clone ∷ []

abbrev pub max_path_len : ℕ
max_path_len = 4096

abbrev pub text_in : Option (List ℕ) → Option Text
text_in none = none
text_in (some buf) = from_utf8 (before_nul buf)

module _ (O : Outside) where
  -- Failures are ignored.
  unfoldable pub register_lifecycle_handlers : ℕ → Net O Unit
  register_lifecycle_handlers cage_id = do
    register_handler O cage_id sys_exec O.own_cage sys_exec
    register_handler O cage_id sys_clone O.own_cage sys_clone
    register_handler O cage_id sys_exit O.own_cage sys_exit
    register_handler O cage_id sys_register_handler O.own_cage sys_register_handler
    return tt

  unfoldable pub ns_clone_handler : Args → Net O ℤ
  unfolding send register_lifecycle_handlers
  ns_clone_handler a = do
    ret ← send O sys_clone true a
    known ← gets (λ s. O.check_cage_exists s.tables a.arg1cage)
    when (is_pos ret) (do
      (if known then copy_parent O a.arg1cage (as_u64 ret) else new_cage_fds O (as_u64 ret))
      register_lifecycle_handlers (as_u64 ret))
    return ret

  unfoldable pub read_path_from_cage : ℕ → ℕ → Net O (Option Text)
  read_path_from_cage path_ptr path_cage = do
    buf ← copy_from_cage O path_ptr path_cage max_path_len
    return (text_in buf)

  -- SYS_REGISTER_HANDLER of a grate's handler, for a cage and a call.
  abbrev pub pass_registration : ℕ → ℕ → ℕ → ℕ → Net O ℤ
  pass_registration target_cage syscall_nr grate_id handler_fn =
      do_syscall O grate_id sys_register_handler (target_cage ∷ 0 ∷ handler_fn ∷ 0 ∷ 0 ∷ 0 ∷ [])
        (syscall_nr ∷ grate_id ∷ 0 ∷ 0 ∷ 0 ∷ 0 ∷ [])

  abbrev pub take_alt : Net O ℕ
  take_alt s = let r = alloc_alt_syscall s.own in (record s { own = r.0 }, r.1)

  abbrev pub clamped_and : ℕ → Net O ℤ
  clamped_and target_cage = on_own O (λ g. register_clamped_cage g target_cage) >> return (pos 0)

  abbrev pub after_registration : ℕ → GrateError ⊎ (Unit {0}) → Net O ℤ
  after_registration target_cage (inl e) = return (negsuc 0)
  after_registration target_cage (inr u) = clamped_and target_cage

  -- The route is set whether the grate's registration succeeds or not.
  abbrev pub interpose : ℕ → ℕ → ℕ → ℕ → Net O ℤ
  interpose target_cage syscall_nr grate_id handler_fn = do
    alt_nr ← take_alt
    ret ← pass_registration O.own_cage alt_nr grate_id handler_fn
    on_own O (λ g. (set_route g target_cage syscall_nr alt_nr).0)
    (if zeq ret (pos 0)
        then (register_handler O target_cage syscall_nr O.own_cage syscall_nr
            >>= after_registration target_cage)
        else return ret)

  abbrev pub register_clamped : ℕ → ℕ → ℕ → ℕ → Bool → Net O ℤ
  register_clamped target_cage syscall_nr grate_id handler_fn already =
      if already
      then clamped_and target_cage
      else if mem syscall_nr ns_calls
      then interpose target_cage syscall_nr grate_id handler_fn
      else pass_registration target_cage syscall_nr grate_id handler_fn

  -- The arguments are the target cage, the number of the call, the grate and its handler.
  unfoldable pub register_handler_handler : Args → Net O ℤ
  unfolding do_syscall
  register_handler_handler a = do
    clamped ← gets (λ s. is_cage_clamped s.own a.arg2cage)
    already ← gets (λ s. is_some (get_route s.own a.arg1 a.arg1cage))
    (if clamped
        then register_clamped a.arg1 a.arg1cage a.arg2cage a.arg3 already
        else pass_registration a.arg1 a.arg1cage a.arg2cage a.arg3)

  abbrev pub exec_as_it_is : Args → Net O ℤ
  exec_as_it_is a = do_syscall O a.arg1cage sys_exec (args_of a) (cages_of a)

  abbrev pub exec_shifted : Args → Option (List ℕ) → Net O ℤ
  exec_shifted a none = return (neg 2)
  exec_shifted a (some real_ptr) =
      do_syscall O a.arg2cage sys_exec
        (le_bytes real_ptr ∷ (a.arg2 + 8) ∷ a.arg3 ∷ a.arg4 ∷ a.arg5 ∷ a.arg6 ∷ [])
        (a.arg2cage ∷ a.arg2cage ∷ a.arg3cage ∷ a.arg4cage ∷ a.arg5cage ∷ a.arg6cage ∷ [])

  abbrev pub close_clamp : Args → Net O ℤ
  close_clamp a = do
    on_own O (λ g. deregister_clamped_cage g a.arg1cage)
    real_ptr ← copy_from_cage O (a.arg2 + 8) a.arg2cage 8
    exec_shifted a real_ptr

  abbrev pub exec_path : Args → Option Text → Net O ℤ
  exec_path a none = exec_as_it_is a
  exec_path a (some path) = if path == text "%}" then close_clamp a else exec_as_it_is a

  unfoldable pub exec_handler : Args → Net O ℤ
  unfolding read_path_from_cage do_syscall
  exec_handler a = read_path_from_cage a.arg1 a.arg1cage >>= exec_path a

  -- The result is not checked.
  unfoldable pub fork_handler : Args → Net O ℤ
  unfolding do_syscall register_lifecycle_handlers
  fork_handler a = do
    ret ← do_syscall O a.arg1cage sys_clone (args_of a) (cages_of a)
    is_thread ← is_thread_clone O a.arg1 a.arg1cage
    clamped ← gets (λ s. is_cage_clamped s.own a.arg1cage)
    when (not is_thread) (do
      when clamped (copy_parent O a.arg1cage (as_u64 ret))
      register_lifecycle_handlers (as_u64 ret))
    return ret

  unfoldable pub exit_handler : Args → Net O ℤ
  unfolding do_syscall
  exit_handler a = do
    on_own O (λ g. remove_cage_state g a.arg1cage)
    (λ s. (record s { tables = O.remove_cage_from_fdtable s.tables a.arg1cage }, tt))
    do_syscall O a.arg1cage sys_exit (args_of a) (cages_of a)
