-- ===== src/Chroot/Entering.antt =====
-- A directory that is opened by a path is the one that chdir enters by that path
-- (rust-grates/chroot-grate/src/main.rs).
use lind_wasm_example_grates.Chroot.Directories.{dir_of, dir_of_lem, known-set_fd_dir_path}
use lind_wasm_example_grates.Grate.Utf8.{to_utf8}
use lind_wasm_example_grates.Base.Words.{ℤ, is_neg, pos, negsuc}
use lind_wasm_example_grates.Grate.Syscalls.{sys_open}
use lind_wasm_example_grates.Chroot.Paths.{c_string, normalize_path}
use lind_wasm_example_grates.Chroot.FdCalls.{
  if_ok, open_at_path, chdir_to, fchdir_handler, open_handler, chdir_handler,
}
use lind_wasm_example_grates.Chroot.Calls.{
  register_dir_fd_if_directory, dir_mode, owned, check_dir, JailSys, is_dir_in, own_text, own_vec,
  make_syscall_from_grate, path_in, read_path_from_cage, dev_fd_target, enoent,
}
use lind_wasm_example_grates.Path.Text.{Text}
use lind_wasm_example_grates.Chroot.State.{
  State, chroot_path, ensure_cage_cwd, get_cage_cwd, add_cwd, set_cage_cwd, fallback,
  set_fd_dir_path, fd_dir_path,
}
use lind_wasm_example_grates.Grate.Steps.{
  ◌>>=◌, when, return, gets, as_u64, make_threei_call, Args, copy_from_cage,
}
use lind_wasm_example_grates.Grate.Outside.{Outside}
use lind_wasm_example_grates.Base.Dict.{get-insert, get}
use lind_wasm_example_grates.Base.{
  nat_key, refl, ℕ, ◌≡◌, Option-cases, arith, ◌∷◌, [], inr, inl, List, true, some, false, Option,
  none, Bool-cases, sym, ap, ◌∙◌,
}
use lind_wasm_example_grates.Chroot.Host.{Host}

-- A cage that has been filled in is not filled in again.
ensure_twice : (s : State) (c : ℕ) → ensure_cage_cwd (ensure_cage_cwd s c) c ≡ ensure_cage_cwd s c
unfolding ensure_cage_cwd add_cwd
ensure_twice s c = elim (Option-cases (get s.cage_cwds c)) [
  | inr (cwd, e) ↦ rw (e, e) refl
  | inl e ↦ rw (e, get-insert s.cage_cwds c (fallback s.initial_cwd) c) (ground arith)
]

get_cage_cwd-set_cage_cwd :
    (s : State) (c : ℕ) (cwd : Text) → (get_cage_cwd (set_cage_cwd s c cwd) c).1 ≡ cwd
unfolding get_cage_cwd set_cage_cwd ensure_cage_cwd add_cwd
get_cage_cwd-set_cage_cwd s c cwd = ground (arith, get-insert s.cage_cwds c cwd c)

abbrev ensured : State → ℕ → State
ensured s c = (get_cage_cwd s c).0

chroot_path-ensured :
    (s : State) (path : Text) (c : ℕ) → (chroot_path (ensured s c) path c).0 ≡ ensured s c
unfolding chroot_path get_cage_cwd
chroot_path-ensured s [] c = refl
chroot_path-ensured s (x ∷ path) c = ensure_twice s c

module _ (O : Outside) (H : Host O) where
  -- A directory stays one while the grate puts bytes in its memory and a file is opened.
  pub record DirsStay : Type 0 where
    pub own_bytes :
        (w : O.World) (bs t : List ℕ)
        → dir_mode (H.stat w t) ≡ true
        → dir_mode (H.stat (H.own_bytes w bs).0 t) ≡ true
    pub opening :
        (w : O.World) (self target : ℕ) (args cages t : List ℕ)
        → dir_mode (H.stat w t) ≡ true
        → dir_mode (H.stat (O.make_syscall_impl w sys_open self target args cages).0 t) ≡ true

  register-Known :
      (c fd : ℕ) (path : Text) (s : JailSys O H)
      → is_dir_in O H s.world (c_string (chroot_path s.own path c).1) ≡ true
      → dir_of (register_dir_fd_if_directory O H c fd path s).0.own c fd ≡ some path
  unfolding register_dir_fd_if_directory owned check_dir ◌>>=◌ gets
  register-Known c fd path s dir =
      rw
        (
          dir,
          dir_of_lem (set_fd_dir_path (chroot_path s.own path c).0 c fd path) c fd,
          known-set_fd_dir_path (chroot_path s.own path c).0 c fd path c fd,
        )
        (ground arith)

  registered :
      (c : ℕ) (path : Text) (ret : ℤ) (s : JailSys O H)
      → is_dir_in O H s.world (c_string (chroot_path s.own path c).1) ≡ true
      → (let r = if_ok O H ret (register_dir_fd_if_directory O H c (as_u64 ret) path) s in
          is_neg r.1 ≡ false → dir_of r.0.own c (as_u64 r.1) ≡ some path)
  unfolding if_ok ◌>>=◌ when return
  registered c path (pos n) s dir h = register-Known c n path s dir
  registered c path (negsuc n) s dir h = absurd (ground arith)

  -- The working directory of a cage, and a path by it.
  abbrev pub by_cwd : State → ℕ → Text → Text
  by_cwd s c path = normalize_path path (get_cage_cwd s c).1

  abbrev host_of : State → ℕ → Text → Option Text
  host_of s c path = c_string (chroot_path (ensured s c) (by_cwd s c path) c).1

  -- The path of the first argument of a call.
  abbrev pub path_read : Args → JailSys O H → Option Text
  path_read a s = path_in (O.copy_in s.world a.arg1 a.arg1cage 4096)

  module _ (stay : DirsStay) where
    -- What is a directory before the path is put in memory and opened is one after it.
    is_dir-open :
        (w : O.World) (bs : List ℕ) (self target : ℕ) (args cages : List ℕ) (dir : Option Text)
        → is_dir_in O H w dir ≡ true
        → is_dir_in O H
            (O.make_syscall_impl (H.own_bytes w bs).0 sys_open self target args cages).0
            dir
          ≡ true
    is_dir-open w bs self target args cages none h = h
    is_dir-open w bs self target args cages (some t) h =
        stay.opening _ self target args cages (to_utf8 t) (stay.own_bytes w bs (to_utf8 t) h)

    open_at_path-Known :
        (a : Args) (path : Text) (s : JailSys O H)
        → is_dir_in O H s.world (host_of s.own a.arg1cage path) ≡ true
        → (let r = open_at_path O H a path s in
            is_neg r.1 ≡ false
            → dir_of r.0.own a.arg1cage (as_u64 r.1) ≡ some (by_cwd s.own a.arg1cage path))
    unfolding open_at_path ◌>>=◌ owned own_text own_vec make_syscall_from_grate make_threei_call
        return
    open_at_path-Known a path s dir =
        elim (Option-cases (c_string (chroot_path (ensured s.own a.arg1cage) path a.arg1cage).1)) [
          | inl e ↦ rw e (λ h. absurd (ground arith))
          | inr (t, e) ↦ rw e (
              registered a.arg1cage _ _ _ (
                rw (chroot_path-ensured s.own path a.arg1cage)
                  (is_dir-open s.world _ _ _ _ _ _ dir)))
        ]

    chdir_to-Entered :
        (c : ℕ) (path : Text) (s : JailSys O H)
        → (chdir_to O H c path s).1 ≡ pos 0
        → (is_dir_in O H s.world (host_of s.own c path) ≡ true)
          × ((get_cage_cwd (chdir_to O H c path s).0.own c).1 ≡ by_cwd s.own c path)
    unfolding chdir_to ◌>>=◌ owned check_dir gets return
    chdir_to-Entered c path s h = elim (Bool-cases (is_dir_in O H s.world (host_of s.own c path))) [
      | inl e ↦ (e, rw e (get_cage_cwd-set_cage_cwd _ c _))
      | inr e ↦ absurd (ground (arith, e, h))
    ]

    fchdir_handler-Entered :
        (b : Args) (s : JailSys O H) (path : Text)
        → (fd_dir_path s.own b.arg1cage b.arg1).1 ≡ some path
        → ((fchdir_handler O H b s).1 ≡ pos 0)
          × ((get_cage_cwd (fchdir_handler O H b s).0.own b.arg1cage).1 ≡ path)
    unfolding fchdir_handler ◌>>=◌ owned return
    fchdir_handler-Entered b s path e = rw e (refl, get_cage_cwd-set_cage_cwd _ b.arg1cage path)

    open_handler-open_at_path :
        (a : Args) (x : ℕ) (path : Text) (s : JailSys O H)
        → path_read a s ≡ some (x ∷ path)
        → dev_fd_target (x ∷ path) ≡ none
        → open_handler O H a s ≡ open_at_path O H a (x ∷ path) s
    unfolding open_handler ◌>>=◌ read_path_from_cage copy_from_cage gets return
    open_handler-open_at_path a x path s is_read no_fd = rw (is_read, no_fd) refl

    chdir_handler-chdir_to :
        (a : Args) (path : Text) (s : JailSys O H)
        → path_read a s ≡ some path
        → chdir_handler O H a s ≡ chdir_to O H a.arg1cage path s
    unfolding chdir_handler ◌>>=◌ read_path_from_cage copy_from_cage gets return
    chdir_handler-chdir_to a path s is_read = rw is_read refl

    open_handler-empty :
        (a : Args) (s : JailSys O H) → path_read a s ≡ some [] → (open_handler O H a s).1 ≡ enoent
    unfolding open_handler ◌>>=◌ read_path_from_cage copy_from_cage gets return
    open_handler-empty a s is_read = rw is_read refl

    -- If directories of the host stay directories meanwhile, the path read is not one of /dev/fd,
    -- chdir to it returns 0 and open of it no error, then fchdir to the descriptor returns 0 and
    -- leaves the cage the working directory that chdir gives it.
    pub fchdir_handler-open_handler :
        (a b : Args) (path : Text) (s : JailSys O H)
        → path_read a s ≡ some path
        → dev_fd_target path ≡ none
        → (chdir_handler O H a s).1 ≡ pos 0
        → is_neg (open_handler O H a s).1 ≡ false
        → b.arg1cage ≡ a.arg1cage
        → b.arg1 ≡ as_u64 (open_handler O H a s).1
        → let entered = fchdir_handler O H b (open_handler O H a s).0 in
          (entered.1 ≡ pos 0)
          × ((get_cage_cwd entered.0.own b.arg1cage).1
              ≡ (get_cage_cwd (chdir_handler O H a s).0.own a.arg1cage).1)
    fchdir_handler-open_handler a b [] s is_read no_fd is_in is_open same_cage fd =
        absurd (ground (arith, open_handler-empty a s is_read, is_open))
    fchdir_handler-open_handler a b (x ∷ path) s is_read no_fd is_in is_open same_cage fd =
        let opens = open_handler-open_at_path a x path s is_read no_fd in
        let enters = chdir_handler-chdir_to a (x ∷ path) s is_read in
        let c = a.arg1cage in
        let (dir, cwd) = chdir_to-Entered c (x ∷ path) s (sym (ap (λ r. r.1) enters) ∙ is_in) in
        let known =
          open_at_path-Known a (x ∷ path) s dir (sym (ap (λ r. is_neg r.1) opens) ∙ is_open) in
        let (ret, there) =
          fchdir_handler-Entered b (open_handler O H a s).0 (by_cwd s.own c (x ∷ path))
            (rw (same_cage, fd, opens) known) in
        (ret, there ∙ sym cwd ∙ sym (ap (λ r. (get_cage_cwd r.0.own c).1) enters))
