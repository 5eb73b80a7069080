-- ===== src/WriteFilter/Refusal.antt =====
-- Which writes the write filter refuses (rust-grates/write-filter-grate/src/handlers.rs).
use lind_wasm_example_grates.Grate.Syscalls.{sys_open}
use lind_wasm_example_grates.Base.Words.{ℤ, pos, negsuc}
use lind_wasm_example_grates.WriteFilter.Calls.{
  open_handler, FilterSys, filtered, is_fd_blocked, forward_call, is_log, path_in_buffer, max_path,
  ret_or_minus_one, plain_entry, placed_plain, forward_ret, eperm, blocks,
}
use lind_wasm_example_grates.Grate.Steps.{
  ◌>>=◌, Args, when, return, GrateError, make_threei_call, copy_from_cage, gets, ◌>>◌, try_tables,
  as_u64, args_of, cages_of, as_call_result,
}
use lind_wasm_example_grates.Grate.Outside.{Outside, Entry}
use lind_wasm_example_grates.Base.{
  refl, ℕ, Bool, ◌≡◌, inr, some, ◌⊎◌, if◌then◌else◌, not, inl, arith, true, false, Bool-cases,
}

module _ (O : Outside) where
  -- The tables keep the entry they are given, and can set its mark.
  pub record TracksEntries : Type 0 where
    pub placed :
        (t : O.Tables) (cage fd : ℕ) (e : Entry) (t' : O.Tables)
        → O.get_specific_virtual_fd t cage fd e ≡ inr t'
        → O.translate_virtual_fd t' cage fd ≡ some e
    pub marked :
        (t : O.Tables) (cage fd info : ℕ) (e : Entry)
        → O.translate_virtual_fd t cage fd ≡ some e
        → (t' : O.Tables) × (O.set_perfdinfo t cage fd info ≡ some t')
          × (O.translate_virtual_fd t' cage fd ≡ some (record e { perfdinfo = info }))

  -- The name that open reads is one of a log.
  unfoldable pub opens_log : Args → FilterSys O → Bool
  opens_log a s = is_log (path_in_buffer (O.copy_in s.world a.arg1 a.arg1cage max_path))

  module _ (tracks : TracksEntries) where
    -- What follows the call of an open that returned a descriptor.
    blocks-opened :
        (cage : ℕ) (log : Bool) (r : GrateError ⊎ ℤ) (s : FilterSys O) (n : ℕ) (t : O.Tables)
        → ret_or_minus_one r ≡ pos n
        → O.get_specific_virtual_fd s.tables cage n (plain_entry n) ≡ inr t
        → (let after =
              (placed_plain O cage r
                  >> when
                      (not log)
                      (try_tables O (λ u. O.set_perfdinfo u cage (as_u64 (ret_or_minus_one r)) 1)))
                s in
            blocks (O.translate_virtual_fd after.0.tables cage n) ≡ not log)
    unfolding ◌>>=◌ when return
    blocks-opened cage log (inl e) s n t is_ret is_placed = absurd (ground arith)
    blocks-opened cage log (inr (negsuc m)) s n t is_ret is_placed = absurd (ground arith)
    blocks-opened cage true (inr (pos m)) s n t is_ret is_placed =
        let same : m ≡ n = ground arith in
        rw (same, is_placed, tracks.placed s.tables cage n (plain_entry n) t is_placed) refl
    blocks-opened cage false (inr (pos m)) s n t is_ret is_placed =
        let same : m ≡ n = ground arith in
        let here = tracks.placed s.tables cage n (plain_entry n) t is_placed in
        let (t', is_set, new) = tracks.marked t cage n 1 (plain_entry n) here in
        rw (same, is_placed, is_set, new) refl

    blocks-open_handler :
        (a : Args) (s : FilterSys O) (n : ℕ) (t : O.Tables)
        → (open_handler O a s).1 ≡ pos n
        → O.get_specific_virtual_fd s.tables a.arg1cage n (plain_entry n) ≡ inr t
        → blocks (O.translate_virtual_fd (open_handler O a s).0.tables a.arg1cage n)
          ≡ not (opens_log a s)
    unfolding open_handler opens_log forward_call make_threei_call copy_from_cage ◌>>=◌ gets return
    blocks-open_handler a s n t is_ret is_placed =
        let call =
          O.make_syscall_impl s.world sys_open O.own_cage a.arg1cage (args_of a) (cages_of a) in
        blocks-opened a.arg1cage (opens_log a s) (as_call_result O call.1)
          (record s { world = call.0 }) n t is_ret is_placed

    -- If the tables track the entries they are given, take the one of the new descriptor, and open
    -- returned it, then a write, writev or pwrite to it goes to the kernel when the extension of
    -- the path that open read is `log`, and else returns EPERM and changes nothing.
    pub filtered-open_handler :
        (sysno : ℕ) (a b : Args) (s : FilterSys O) (t : O.Tables)
        → (open_handler O a s).1 ≡ pos b.arg1
        → b.arg1cage ≡ a.arg1cage
        → O.get_specific_virtual_fd s.tables a.arg1cage b.arg1 (plain_entry b.arg1) ≡ inr t
        → (let opened = (open_handler O a s).0 in
            filtered O sysno b opened
            ≡ (if opens_log a s then forward_ret O sysno b opened else (opened, eperm)))
    unfolding filtered is_fd_blocked ◌>>=◌ gets return
    filtered-open_handler sysno a b s t is_ret same_cage is_placed =
        let blocked = blocks-open_handler a s b.arg1 t is_ret is_placed in
        elim (Bool-cases (opens_log a s)) [
          | inl e ↦ rw (same_cage, blocked, e) refl
          | inr e ↦ rw (same_cage, blocked, e) refl
        ]
