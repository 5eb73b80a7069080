-- ===== src/NetClamp/Marks.antt =====
-- A socket that got a port of the clamped range is marked, and its later calls are routed
-- (rust-grates/net-routing-clamp/src/handlers/ns_handlers.rs).
use lind_wasm_example_grates.Base.Words.{ℤ, is_neg, negsuc, pos}
use lind_wasm_example_grates.Grate.Steps.{
  ◌>>=◌, gets, return, Args, when, try_tables, make_threei_call, copy_from_cage,
}
use lind_wasm_example_grates.NetClamp.Calls.{
  NetSys, route_handler, is_fd_clamped, fd_info, send, on_success, addr_handler, addr_in_range,
  do_syscall, read_port_from_cage,
}
use lind_wasm_example_grates.Grate.Outside.{Entry, Outside}
use lind_wasm_example_grates.Base.{
  refl, ℕ, Bool, some, not, ◌≡◌, eqb, true, ◌||◌, ◌&&◌, false, arith,
}

-- What the handlers rely on of `fdtables`: the mark of an open descriptor can be set.
pub record KeepsMarks (O : Outside) : Type 0 where
  pub set_mark :
      (t : O.Tables) (cage fd info : ℕ) (e : Entry)
      → O.translate_virtual_fd t cage fd ≡ some e
      → (t' : O.Tables) × (O.set_perfdinfo t cage fd info ≡ some t')
        × (O.translate_virtual_fd t' cage fd ≡ some (record e { perfdinfo = info }))
        × (O.check_cage_exists t' cage ≡ true)

abbrev pub has_mark : Entry → Bool
has_mark e = not (eqb e.perfdinfo 0)

module _ (O : Outside) where
  -- The descriptor is open, in a cage that the tables know, and has a mark or not.
  abbrev pub HasMark : NetSys O → ℕ → ℕ → Bool → Type 0
  HasMark s cage fd mark =
      (O.check_cage_exists s.tables cage ≡ true)
      × (e : Entry) × (O.translate_virtual_fd s.tables cage fd ≡ some e)
      × (has_mark e ≡ mark)

  pub route_handler-HasMark :
      (sysno : ℕ) (b : Args) (s : NetSys O) (mark : Bool)
      → HasMark s b.arg1cage b.arg1 mark
      → route_handler O sysno b s ≡ send O sysno mark b s
  unfolding route_handler is_fd_clamped fd_info ◌>>=◌ gets return
  route_handler-HasMark sysno b s mark (known, e, found, is_mark) = rw (known, found, is_mark) refl

  -- Whether the address of a bind or connect has a port of the clamped range.
  unfoldable pub gets_clamped_port : Args → NetSys O → Bool
  unfolding read_port_from_cage
  gets_clamped_port a s = (addr_in_range O a.arg2 a.arg2cage a.arg3 s).1

  -- The descriptor has the mark it had, or the one that a call which succeeded gave it, and a call
  -- on it by a handler of fd_route_handler! goes by that mark.
  abbrev pub Routed : ℕ → Args → Bool → Bool → NetSys O × ℤ → Type 0
  Routed sysno b mark in_range (s, ret) =
      HasMark s b.arg1cage b.arg1 (mark || (in_range && not (is_neg ret)))
      × (route_handler O sysno b s ≡ send O sysno (mark || (in_range && not (is_neg ret))) b s)

  module _ (keeps : KeepsMarks O) where
    -- What follows the call of bind or connect.
    marked_after :
        (cage fd : ℕ) (ret : ℤ) (in_range : Bool) (s : NetSys O) (e : Entry)
        → O.check_cage_exists s.tables cage ≡ true
        → O.translate_virtual_fd s.tables cage fd ≡ some e
        → HasMark
            (on_success O cage ret
              (when in_range (try_tables O (λ t. O.set_perfdinfo t cage fd 1)))
              s).0
            cage
            fd
            (has_mark e || (in_range && not (is_neg ret)))
    unfolding ◌>>=◌ gets return when
    marked_after cage fd (negsuc n) in_range s e known found = (known, e, found, ground arith)
    marked_after cage fd (pos n) false s e known found = rw known (known, e, found, ground arith)
    marked_after cage fd (pos n) true s e known found =
        let (t, is_set, new, still) = keeps.set_mark s.tables cage fd 1 e found in
        rw (known, is_set) (still, record e { perfdinfo = 1 }, new, ground arith)

    -- If the tables can set the mark of an open descriptor, then after a bind or connect on an
    -- open descriptor of a known cage the descriptor has the mark it had, or one from a call that
    -- returned no error with a port of the clamped range, and a handler made by fd_route_handler!
    -- routes a call on it by that mark; a later bind, connect or sendto on it is not spoken of.
    pub clamped_port_is_Routed :
        (call sysno : ℕ) (a b : Args) (s : NetSys O) (e : Entry)
        → O.check_cage_exists s.tables a.arg1cage ≡ true
        → O.translate_virtual_fd s.tables a.arg1cage a.arg1 ≡ some e
        → b.arg1 ≡ a.arg1
        → b.arg1cage ≡ a.arg1cage
        → Routed sysno b (has_mark e) (gets_clamped_port a s) (addr_handler O call a s)
    unfolding addr_handler gets_clamped_port ◌>>=◌ send do_syscall make_threei_call gets return
        read_port_from_cage copy_from_cage
    clamped_port_is_Routed call sysno a b s e known found same_fd same_cage =
        let r = addr_handler O call a s in
        let mark = has_mark e || (gets_clamped_port a s && not (is_neg r.1)) in
        let marked : HasMark r.0 b.arg1cage b.arg1 mark =
          rw (same_fd, same_cage)
            (marked_after a.arg1cage a.arg1 _ (gets_clamped_port a s) _ e known found) in
        (marked, route_handler-HasMark sysno b _ _ marked)
