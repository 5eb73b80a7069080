-- ===== src/Chroot/Calls.antt =====
-- How a handler of the chroot grate reads its paths and sends calls on, in rust-grates/chroot-grate:
-- src/main.rs, and `read_path_from_cage` of src/paths.rs.
use lind_wasm_example_grates.Base.{
  ℕ, zero, suc, ◌+◌, ◌-◌, ◌*◌, ◌^◌, ◌&&◌, ◌||◌, not, Bool, true, false, Option, none, some, List,
  [], ◌∷◌, ◌++◌, eqb, leb, ltb, if◌then◌else◌, nat_key, take, length, min, set,
}
use lind_wasm_example_grates.Base.Words.{ℤ, pos, neg, u64_mod}
use lind_wasm_example_grates.Base.Dict.{get, insert}
use lind_wasm_example_grates.Path.Text.{Text, text, is_absolute, is_empty, strip_prefix}
use lind_wasm_example_grates.Grate.Outside.{Outside}
use lind_wasm_example_grates.Grate.Steps.{
  Step, Sys, ◌>>=◌, return, gets, on_own, copy_from_cage, make_threei_call, passed, has_bit,
}
use lind_wasm_example_grates.Grate.Utf8.{before_nul, to_utf8}
use lind_wasm_example_grates.Grate.Lossy.{from_utf8_lossy}
use lind_wasm_example_grates.Chroot.Host.{Host}
use lind_wasm_example_grates.Chroot.Paths.{normalize_path, c_string}
use lind_wasm_example_grates.Chroot.State.{
  State, get_cage_cwd, chroot_path, fd_dir_path, set_fd_dir_path, clear_fd_dir_path,
  rewrite_at_path, rewritten, failed, at_fdcwd,
}

abbrev pub efault : ℤ
efault = neg 14

abbrev pub einval : ℤ
einval = neg 22

abbrev pub enoent : ℤ
enoent = neg 2

-- `c | GRATE_MEMORY_FLAG`
abbrev pub in_memory_of : ℕ → ℕ
in_memory_of c = if has_bit 63 c then c else c + 2 ^ 63

-- args[i]
unfoldable pub at_index : List ℕ → ℕ → ℕ
at_index [] i = 0
at_index (x ∷ xs) zero = x
at_index (x ∷ xs) (suc i) = at_index xs i

abbrev pub path_in : Option (List ℕ) → Option Text
path_in none = none
path_in (some buf) = some (from_utf8_lossy (before_nul buf))

-- A mode has the bit of S_IFDIR.
abbrev pub dir_mode : Option ℕ → Bool
dir_mode none = false
dir_mode (some mode) = has_bit 14 mode

abbrev pub is_digit : ℕ → Bool
is_digit c = leb 48 c && leb c 57

unfoldable pub all_digits : Text → Bool
all_digits [] = true
all_digits (c ∷ s) = is_digit c && all_digits s

unfoldable pub digits_value : ℕ → Text → ℕ
digits_value n [] = n
digits_value n (c ∷ s) = digits_value (n * 10 + (c - 48)) s

-- A text of digits as an u64, if it is not empty and the number fits.
abbrev pub parse_fd : Text → Option ℕ
parse_fd fd =
    if is_empty fd || not (all_digits fd)
    then none
    else if ltb (digits_value 0 fd) u64_mod
    then some (digits_value 0 fd)
    else none

abbrev pub or_prefix : Text → Option Text → Option ℕ
or_prefix path (some fd) = parse_fd fd
or_prefix path none = elim (strip_prefix path (text "/proc/self/fd/")) [
  | none ↦ none
  | some fd ↦ parse_fd fd
]

unfoldable pub dev_fd_target : Text → Option ℕ
unfolding all_digits digits_value
dev_fd_target path = or_prefix path (strip_prefix path (text "/dev/fd/"))

-- The descriptors of the child are those of the parent, if the parent has a table.
abbrev pub copy_fds : State → ℕ → Option (List (ℕ × Text)) → State
copy_fds s child none = s
copy_fds s child (some fds) = record s { cage_dir_fds = insert s.cage_dir_fds child fds }

unfoldable pub register_child_fd_paths : State → ℕ → ℕ → State
register_child_fd_paths s parent child = copy_fds s child (get s.cage_dir_fds parent)

abbrev map_dir : Text → State × Option Text → State × Option Text
map_dir path (s, none) = (s, none)
map_dir path (s, some dir) = (s, some (normalize_path path dir))

unfoldable pub resolve_virtual_at_path : ℕ → ℕ → Text → State → State × Option Text
unfolding get_cage_cwd fd_dir_path
resolve_virtual_at_path cageid dirfd path s =
    if is_absolute path || eqb dirfd at_fdcwd
    then (let (s', cwd) = get_cage_cwd s cageid in (s', some (normalize_path path cwd)))
    else map_dir path (fd_dir_path s cageid dirfd)

module _ (O : Outside) (H : Host O) where
  abbrev pub JailSys : Type 0
  JailSys = Sys O State

  abbrev pub Jail : Type 0 → Type 0
  Jail = Step JailSys

  -- An operation on the tables that returns a value.
  unfoldable pub owned : {A : Type 0} → (State → State × A) → Jail A
  owned f s = let r = f s.own in (record s { own = r.0 }, r.1)

  -- What follows a value that may be missing: without it the handler returns `ret`.
  abbrev pub or_return : {A : Type 0} → Option A → ℤ → (A → Jail ℤ) → Jail ℤ
  or_return none ret next = return ret
  or_return (some a) ret next = next a

  unfoldable pub read_path_from_cage : ℕ → ℕ → Jail (Option Text)
  unfolding from_utf8_lossy
  read_path_from_cage ptr src_cage = do
    buf ← copy_from_cage O ptr src_cage 4096
    return (path_in buf)

  -- The address of bytes in the grate's memory, and of a text there as a CString.
  unfoldable pub own_vec : List ℕ → Jail ℕ
  own_vec bytes s = let r = H.own_bytes s.world bytes in (record s { world = r.0 }, r.1)

  unfoldable pub own_text : Text → Jail ℕ
  unfolding own_vec
  own_text t = own_vec (to_utf8 t ++ 0 ∷ [])

  abbrev pub own_memory : ℕ
  own_memory = in_memory_of O.own_cage

  -- Whether a path of the host is a directory; a text with a NUL is none.
  abbrev pub is_dir_in : O.World → Option Text → Bool
  is_dir_in w none = false
  is_dir_in w (some path) = dir_mode (H.stat w (to_utf8 path))

  unfoldable pub check_dir : Text → Jail Bool
  check_dir dir = gets (λ s. is_dir_in s.world (c_string dir))

  unfoldable pub make_syscall_from_grate : ℕ → ℕ → List ℕ → List ℕ → Jail ℤ
  make_syscall_from_grate syscall_no target_cageid args arg_cages = do
    r ← make_threei_call O syscall_no O.own_cage target_cageid args arg_cages
    return (passed r)

  -- Each rewrite puts a pointer into the grate's memory in the place of an argument.
  unfoldable pub call_with_rewrites : ℕ → ℕ → List ℕ → List ℕ → List (ℕ × ℕ) → Jail ℤ
  unfolding make_syscall_from_grate
  call_with_rewrites syscall_no calling_cageid args arg_cages [] =
      make_syscall_from_grate syscall_no calling_cageid args arg_cages
  call_with_rewrites syscall_no calling_cageid args arg_cages ((idx, cstr) ∷ rewrites) =
      if leb 6 idx
      then return einval
      else call_with_rewrites syscall_no calling_cageid (set args idx cstr)
          (set arg_cages idx own_memory) rewrites

  -- rewrite_at_path with what follows it: a descriptor and the address of the path
  unfoldable pub with_at_path : ℕ → ℕ → ℕ → ℕ → (ℕ → ℕ → Jail ℤ) → Jail ℤ
  unfolding read_path_from_cage owned own_text
  with_at_path cageid dirfd path_ptr path_cage next = do
    read ← read_path_from_cage path_ptr path_cage
    r ← owned (λ s. rewrite_at_path s cageid dirfd read)
    elim r [ failed e ↦ return e | rewritten fd path ↦ own_text path >>= (λ ptr. next fd ptr) ]

  unfoldable pub call_with_at_path : ℕ → ℕ → List ℕ → List ℕ → ℕ → ℕ → Jail ℤ
  unfolding with_at_path make_syscall_from_grate at_index
  call_with_at_path syscall_no cageid args arg_cages dirfd_idx path_idx =
      with_at_path cageid (at_index args dirfd_idx) (at_index args path_idx)
        (at_index arg_cages path_idx)
        (λ fd ptr.
          make_syscall_from_grate syscall_no (at_index arg_cages path_idx)
            (set (set args dirfd_idx fd) path_idx ptr) (set arg_cages path_idx own_memory))

  unfoldable pub rewrite_symlink_target : ℕ → ℕ → ℕ → (ℕ → Jail ℤ) → Jail ℤ
  unfolding read_path_from_cage owned own_text
  rewrite_symlink_target cageid target_ptr target_cage next = do
    read ← read_path_from_cage target_ptr target_cage
    or_return read efault (λ target. do
      host ← owned (λ s. if is_absolute target then chroot_path s target cageid else (s, target))
      or_return (c_string host) einval (λ t. do ptr ← own_text t; next ptr))

  unfoldable pub register_dir_fd_if_directory : ℕ → ℕ → Text → Jail Unit
  unfolding owned check_dir
  register_dir_fd_if_directory cageid fd virtual_path = do
    host ← owned (λ s. chroot_path s virtual_path cageid)
    dir ← check_dir host
    on_own O (λ s.
        if dir then set_fd_dir_path s cageid fd virtual_path else clear_fd_dir_path s cageid fd)

  -- The text is cut to the size of the cage's buffer.
  unfoldable pub write_bytes_to_cage : ℕ → ℕ → ℕ → List ℕ → Jail ℤ
  write_bytes_to_cage buf_ptr buf_cage bufsiz bytes s =
      elim (O.copy_out s.world (take (min (length bytes) bufsiz) bytes) buf_ptr buf_cage
        (min (length bytes) bufsiz)) [
          | none ↦ (s, efault)
          | some w ↦ (record s { world = w }, pos (min (length bytes) bufsiz))
        ]
