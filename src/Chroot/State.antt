-- ===== src/Chroot/State.antt =====
-- The tables of the chroot grate (paths.rs and main.rs of rust-grates/chroot-grate/src): the root,
-- the working directory of each cage, and the directory behind each of its directory descriptors.
-- Each `Mutex<Option<_>>` is `Some` from `init_state` on; a state here is one after that call.
use lind_wasm_example_grates.Base.{
  ℕ, ◌||◌, Option, none, some, [], ◌∷◌, eqb, if◌then◌else◌, nat_key, ◌-◌,
}
use lind_wasm_example_grates.Base.Dict.{Dict, get, insert, remove}
use lind_wasm_example_grates.Base.Words.{ℤ, neg, u64_mod}
use lind_wasm_example_grates.Path.Text.{Text, slash, is_absolute, is_empty}
use lind_wasm_example_grates.Chroot.Paths.{normalize_path, under_chroot, c_string}

pub record State : Type 0 where
  pub chroot_dir : Text
  pub initial_cwd : Text
  pub cage_cwds : Dict ℕ Text
  pub cage_dir_fds : Dict ℕ (Dict ℕ Text)

abbrev root : Text
root = slash ∷ []

-- entry(k).or_insert_with(v)
abbrev pub or_insert {ℓ} : {V : Type ℓ} → Dict ℕ V → ℕ → V → Option V → Dict ℕ V
or_insert m k v none = insert m k v
or_insert m k v (some w) = m

abbrev pub fallback : Text → Text
fallback initial = if is_empty initial then root else initial

unfoldable pub add_cwd : State → ℕ → Option Text → State
add_cwd s cageid (some cwd) = s
add_cwd s cageid none = record s {
  cage_cwds = insert s.cage_cwds cageid (fallback s.initial_cwd);
  cage_dir_fds = or_insert s.cage_dir_fds cageid [] (get s.cage_dir_fds cageid);
}

unfoldable pub ensure_cage_cwd : State → ℕ → State
unfolding add_cwd
ensure_cage_cwd s cageid = add_cwd s cageid (get s.cage_cwds cageid)

abbrev or_root : Option Text → Text
or_root none = root
or_root (some cwd) = cwd

-- The lookup also fills in a missing cage, so the state comes back.
unfoldable pub get_cage_cwd : State → ℕ → State × Text
unfolding ensure_cage_cwd
get_cage_cwd s cageid = let s' = ensure_cage_cwd s cageid in (s', or_root (get s'.cage_cwds cageid))

unfoldable pub set_cage_cwd : State → ℕ → Text → State
set_cage_cwd s cageid cwd = record s { cage_cwds = insert s.cage_cwds cageid cwd }

unfoldable pub register_cage : State → ℕ → ℕ → State
unfolding get_cage_cwd set_cage_cwd
register_cage s parent child = let (s', cwd) = get_cage_cwd s parent in set_cage_cwd s' child cwd

unfoldable pub chroot_path : State → Text → ℕ → State × Text
unfolding get_cage_cwd
chroot_path s [] cageid = (s, [])
chroot_path s (c ∷ path) cageid =
    let (s', cwd) = get_cage_cwd s cageid in
    (s', under_chroot s'.chroot_dir (normalize_path (c ∷ path) cwd))

abbrev pub get_fd : Option (Dict ℕ Text) → ℕ → Option Text
get_fd none fd = none
get_fd (some fds) fd = get fds fd

unfoldable pub fd_dir_path : State → ℕ → ℕ → State × Option Text
unfolding ensure_cage_cwd
fd_dir_path s cageid fd =
    let s' = ensure_cage_cwd s cageid in (s', get_fd (get s'.cage_dir_fds cageid) fd)

abbrev pub or_none : Option (Dict ℕ Text) → Dict ℕ Text
or_none none = []
or_none (some fds) = fds

unfoldable pub set_fd_dir_path : State → ℕ → ℕ → Text → State
set_fd_dir_path s cageid fd path = record s {
  cage_dir_fds =
      insert s.cage_dir_fds cageid (insert (or_none (get s.cage_dir_fds cageid)) fd path);
}

unfoldable pub clear_in : State → ℕ → ℕ → Option (Dict ℕ Text) → State
clear_in s cageid fd none = s
clear_in s cageid fd (some fds) = record s {
  cage_dir_fds = insert s.cage_dir_fds cageid (remove fds fd);
}

unfoldable pub clear_fd_dir_path : State → ℕ → ℕ → State
unfolding clear_in
clear_fd_dir_path s cageid fd = clear_in s cageid fd (get s.cage_dir_fds cageid)

unfoldable pub copy_dir : State → ℕ → ℕ → Option Text → State
unfolding set_fd_dir_path clear_fd_dir_path
copy_dir s cageid newfd none = clear_fd_dir_path s cageid newfd
copy_dir s cageid newfd (some path) = set_fd_dir_path s cageid newfd path

unfoldable pub copy_fd_dir_path : State → ℕ → ℕ → ℕ → State
unfolding copy_dir fd_dir_path
copy_fd_dir_path s cageid oldfd newfd =
    let (s', dir) = fd_dir_path s cageid oldfd in copy_dir s' cageid newfd dir

-- AT_FDCWD as u64: -100 in two's complement.
abbrev pub at_fdcwd : ℕ
at_fdcwd = u64_mod - 100

pub data Rewritten : Type 0 where
  rewritten : ℕ → Text → Rewritten
  failed : ℤ → Rewritten

abbrev to_c_string : ℕ → Option Text → Rewritten
to_c_string dirfd none = failed (neg 22)
to_c_string dirfd (some path) = rewritten dirfd path

abbrev pub at_dir : State → ℕ → ℕ → Text → Option Text → State × ℕ × Text
at_dir s cageid dirfd path none = (s, dirfd, path)
at_dir s cageid dirfd path (some dir) =
    let (s', host) = chroot_path s (normalize_path path dir) cageid in (s', at_fdcwd, host)

-- The descriptor and path that `rewrite_at_path` passes on, before `CString::new`.
unfoldable pub at_target : State → ℕ → ℕ → Text → State × ℕ × Text
at_target s cageid dirfd path =
    if is_absolute path || eqb dirfd at_fdcwd
    then (let (s', host) = chroot_path s path cageid in (s', at_fdcwd, host))
    else if is_empty path
    then (s, dirfd, path)
    else (let (s', dir) = fd_dir_path s cageid dirfd in at_dir s' cageid dirfd path dir)

-- `read` is what `read_path_from_cage` returned: `none` is a fault in the cage's memory (EFAULT).
unfoldable pub rewrite_at_path : State → ℕ → ℕ → Option Text → State × Rewritten
unfolding at_target
rewrite_at_path s cageid dirfd none = (s, failed (neg 14))
rewrite_at_path s cageid dirfd (some path) =
    let (s', fd, host) = at_target s cageid dirfd path in (s', to_c_string fd (c_string host))
