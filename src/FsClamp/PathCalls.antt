-- ===== src/FsClamp/PathCalls.antt =====
-- The handlers of rust-grates/fs-routing-clamp/src/handlers/ns_handlers.rs that route a call by a
-- path among its arguments.
use lind_wasm_example_grates.FsClamp.Paths.{path_matches_prefix, normalize_path}
use lind_wasm_example_grates.Grate.Syscalls.{sys_symlinkat, sys_chdir, sys_symlink, sys_utimensat}
use lind_wasm_example_grates.FsClamp.State.{get_cage_cwd, set_cage_cwd}
use lind_wasm_example_grates.Grate.Utf8.{to_utf8}
use lind_wasm_example_grates.Base.Words.{ℤ, as_i32, zeq, pos}
use lind_wasm_example_grates.Grate.Steps.{
  Args, args_of, return, ◌>>=◌, ◌>>◌, copy_from_cage, gets, cages_of, translate, when, on_own,
}
use lind_wasm_example_grates.FsClamp.Routing.{
  NsSys, read_path_from_cage, resolve_path_from_cage, send_by, Ns, efault, below_prefix, ebadf,
  map_option, resolved, text_in,
}
use lind_wasm_example_grates.Grate.Outside.{Outside, Entry}
use lind_wasm_example_grates.Path.Text.{Text, is_absolute, is_empty}
use lind_wasm_example_grates.Base.{
  ℕ, Bool, Option, none, some, eqb, ◌^◌, ◌-◌, List, [], ◌⊎◌, if◌then◌else◌, inl, inr, ◌++◌, false,
  not, ◌||◌, ◌∷◌, set, true,
}

-- `dirfd as i64` is AT_FDCWD, which is -100
abbrev pub is_at_fdcwd : ℕ → Bool
is_at_fdcwd dirfd = eqb dirfd (2 ^ 64 - 100)

abbrev pub or_no_path : Option Text → Text
or_no_path none = []
or_no_path (some path) = path

-- SYS_LINKAT_NR
abbrev pub sys_linkat_nr : ℕ
sys_linkat_nr = 265

module _ (O : Outside) where
  -- define_path_handler!
  unfoldable pub path_handler : ℕ → Args → Ns O ℤ
  unfolding resolve_path_from_cage send_by
  path_handler sysno a = do
    path ← resolve_path_from_cage O a.arg1cage a.arg1 a.arg1cage
    matches ← below_prefix O path
    send_by O a.arg1cage sysno matches (args_of a) (cages_of a)

  -- The arguments of an at-call on a relative path, with the virtual descriptor of a directory that
  -- is not clamped replaced; the Boolean says whether it is clamped.
  abbrev pub at_dirfd : List ℕ → ℕ → Option Entry → ℤ ⊎ (Bool × List ℕ)
  at_dirfd args idx none = inl ebadf
  at_dirfd args idx (some e) =
      if eqb e.perfdinfo 0 then inr (false, set args idx e.underfd) else inr (true, args)

  -- The decision for a relative path with a directory's descriptor, and for the working directory.
  abbrev pub at_relative : ℕ → ℕ → ℕ → Text → List ℕ → ℕ → Ns O (ℤ ⊎ (Bool × List ℕ))
  at_relative cage_id cwd_cage dirfd path args idx =
      if is_at_fdcwd dirfd
      then (if is_empty path
          then return (inr (false, args))
          else gets (λ s.
            inr
              (path_matches_prefix s.own.clamp.routing_prefix (resolved O cwd_cage path s), args)))
      else (translate O cage_id dirfd >>= (λ e. return (at_dirfd args idx e)))

  unfoldable pub prepare_at_path_route : ℕ → ℕ → ℕ → ℕ → List ℕ → ℕ → Ns O (ℤ ⊎ (Bool × List ℕ))
  unfolding read_path_from_cage
  prepare_at_path_route cage_id dirfd path_ptr path_cage args idx = do
    found ← read_path_from_cage O path_ptr path_cage
    let path = or_no_path found
    (if is_absolute path
        then gets
            (λ s. inr (path_matches_prefix s.own.clamp.routing_prefix (normalize_path path), args))
        else at_relative cage_id cage_id dirfd path args idx)

  abbrev pub send_prepared : ℕ → Args → ℤ ⊎ (Bool × List ℕ) → Ns O ℤ
  send_prepared sysno a (inl e) = return e
  send_prepared sysno a (inr (clamped, args)) = send_by O a.arg1cage sysno clamped args (cages_of a)

  -- readlinkat, unlinkat, faccessat, statx, fchmodat and fchownat
  unfoldable pub at_handler : ℕ → Args → Ns O ℤ
  unfolding prepare_at_path_route send_by
  at_handler sysno a =
      prepare_at_path_route a.arg1cage a.arg1 a.arg2 a.arg2cage (args_of a) 0
      >>= send_prepared sysno a

  unfoldable pub ns_symlink_handler : Args → Ns O ℤ
  unfolding read_path_from_cage send_by
  ns_symlink_handler a = do
    path ← read_path_from_cage O a.arg2 a.arg2cage
    target ← gets (λ s. map_option (λ p. resolved O a.arg1cage p s) path)
    matches ← below_prefix O target
    send_by O a.arg1cage sys_symlink matches (args_of a) (cages_of a)

  unfoldable pub ns_symlinkat_handler : Args → Ns O ℤ
  unfolding prepare_at_path_route send_by
  ns_symlinkat_handler a =
      prepare_at_path_route a.arg1cage a.arg2 a.arg3 a.arg3cage (args_of a) 1
      >>= send_prepared sys_symlinkat a

  abbrev pub utime_of_fd : List ℕ → Option Entry → ℤ ⊎ (Bool × List ℕ)
  utime_of_fd args none = inl ebadf
  utime_of_fd args (some e) = inr (not (eqb e.perfdinfo 0), set args 0 e.underfd)

  unfoldable pub ns_utimensat_handler : Args → Ns O ℤ
  unfolding prepare_at_path_route send_by
  ns_utimensat_handler a = do
    prepared ←
        (if eqb a.arg2 0
          then (if is_at_fdcwd a.arg1
              then return (inr (false, args_of a))
              else (translate O a.arg1cage a.arg1 >>= (λ e. return (utime_of_fd (args_of a) e))))
          else prepare_at_path_route a.arg1cage a.arg1 a.arg2 a.arg2cage (args_of a) 0)
    send_prepared sys_utimensat a prepared

  abbrev pub link_new : Args → ℤ ⊎ (Bool × List ℕ) → Ns O (ℤ ⊎ (Bool × List ℕ))
  link_new a (inl e) = return (inl e)
  link_new a (inr (old_clamped, args)) =
      prepare_at_path_route a.arg1cage a.arg3 a.arg4 a.arg4cage args 2 >>= (λ r. return (elim r [
        | inl e ↦ inl e
        | inr (new_clamped, both) ↦ inr (old_clamped || new_clamped, both)
      ]))

  unfoldable pub ns_linkat_handler : Args → Ns O ℤ
  unfolding prepare_at_path_route send_by
  ns_linkat_handler a = do
    old ← prepare_at_path_route a.arg1cage a.arg1 a.arg2 a.arg2cage (args_of a) 0
    both ← link_new a old
    send_prepared sys_linkat_nr a both

  abbrev pub chdir_to : Args → Option Text → Ns O ℤ
  chdir_to a none = return efault
  chdir_to a (some path) = do
    resolved_path ← gets (resolved O a.arg1cage path)
    matches ← below_prefix O (some resolved_path)
    ret ← send_by O a.arg1cage sys_chdir matches (args_of a) (cages_of a)
    when (zeq ret (pos 0))
        (on_own O (λ g. record g { clamp = set_cage_cwd g.clamp a.arg1cage resolved_path }))
    return ret

  unfoldable pub ns_chdir_handler : Args → Ns O ℤ
  unfolding send_by
  ns_chdir_handler a = do buf ← copy_from_cage O a.arg1 a.arg1cage 4096; chdir_to a (text_in buf)

  abbrev pub copied_out : NsSys O → Option O.World → ℤ → NsSys O × ℤ
  copied_out s none ret = (s, efault)
  copied_out s (some w) ret = (record s { world = w }, ret)

  -- At most 4096 bytes are copied, up to the zero byte.
  unfoldable pub ns_getcwd_handler : Args → Ns O ℤ
  ns_getcwd_handler a s =
      let buf = to_utf8 (get_cage_cwd s.own.clamp a.arg2cage) ++ 0 ∷ [] in
      copied_out s (O.copy_out s.world buf a.arg1 a.arg1cage 4096) (as_i32 a.arg1cage)
