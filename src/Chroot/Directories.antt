-- ===== src/Chroot/Directories.antt =====
-- The directory of a descriptor follows it (rust-grates/chroot-grate/src/main.rs): a duplicate has
-- that of its original, and a directory that is opened is the one that fchdir enters.
use lind_wasm_example_grates.Chroot.Calls.{Jail, JailSys, make_syscall_from_grate}
use lind_wasm_example_grates.Chroot.FdCalls.{
  dup_handler, if_ok, dup_to, dup2_handler, fcntl_handler, dup3_handler, pass_on, f_dupfd,
  f_dupfd_cloexec,
}
use lind_wasm_example_grates.Base.Words.{ℤ, is_neg, pos, negsuc}
use lind_wasm_example_grates.Path.Text.{Text}
use lind_wasm_example_grates.Chroot.State.{
  State, ensure_cage_cwd, fd_dir_path, add_cwd, get_fd, or_insert, clear_fd_dir_path, copy_dir,
  copy_fd_dir_path, or_none, set_fd_dir_path, clear_in,
}
use lind_wasm_example_grates.Grate.Steps.{
  ◌>>=◌, Args, as_u64, when, return, on_own, make_threei_call,
}
use lind_wasm_example_grates.Grate.Outside.{Outside}
use lind_wasm_example_grates.Base.Dict.{get-insert, get-remove, Dict, get, insert, remove}
use lind_wasm_example_grates.Base.{
  nat_key, refl, ℕ, Option, ◌≡◌, if◌then◌else◌, eqb, ◌&&◌, Option-cases, [], inr, inl, Bool-cases,
  ◌==◌, ap, some, arith, none, false, true,
}
use lind_wasm_example_grates.Chroot.Host.{Host}

-- The directory that the grate knows of a descriptor.
abbrev pub dir_of : State → ℕ → ℕ → Option Text
dir_of s cage fd = (fd_dir_path s cage fd).1

-- The descriptor has the directory that the old one had before, and the others keep theirs.
abbrev pub Duplicated : State → State → ℕ → ℕ → ℕ → Type 0
Duplicated s s' cage oldfd newfd =
    (c fd : ℕ)
    → dir_of s' c fd ≡ (if eqb c cage && eqb fd newfd then dir_of s cage oldfd else dir_of s c fd)

-- A table that is made empty has no directories either.
get_fd-or_insert :
    (m : Dict ℕ (Dict ℕ Text)) (cage c fd : ℕ)
    → get_fd (get (or_insert m cage [] (get m cage)) c) fd ≡ get_fd (get m c) fd
get_fd-or_insert m cage c fd = elim (Option-cases (get m cage)) [
  | inr (fds, e) ↦ rw e refl
  | inl e ↦
      rw (e, get-insert m cage [] c)
        (elim (Bool-cases (cage == c)) [
          | inl same ↦
              let here = ap (get m) ((nat_key.same_iff cage c).0 same) in
              rw (same, ← here, e) (unfold get in refl)
          | inr other ↦ rw other refl
        ])
]

-- Filling in a cage that is missing changes no directory.
get-ensure :
    (s : State) (cage c fd : ℕ)
    → get_fd (get (ensure_cage_cwd s cage).cage_dir_fds c) fd ≡ get_fd (get s.cage_dir_fds c) fd
unfolding ensure_cage_cwd add_cwd
get-ensure s cage c fd = elim (Option-cases (get s.cage_cwds cage)) [
  | inr (cwd, e) ↦ rw e refl
  | inl e ↦ rw e (get_fd-or_insert s.cage_dir_fds cage c fd)
]

pub dir_of_lem : (s : State) (cage fd : ℕ) → dir_of s cage fd ≡ get_fd (get s.cage_dir_fds cage) fd
unfolding fd_dir_path
dir_of_lem s cage fd = get-ensure s cage cage fd

-- A table with one change, seen from outside.
abbrev pub known : State → ℕ → ℕ → Option Text
known s cage fd = get_fd (get s.cage_dir_fds cage) fd

get_fd-or_none : (m : Option (Dict ℕ Text)) (fd : ℕ) → get (or_none m) fd ≡ get_fd m fd
unfolding get
get_fd-or_none none fd = refl
get_fd-or_none (some fds) fd = refl

pub known-set_fd_dir_path :
    (s : State) (cage newfd : ℕ) (path : Text) (c fd : ℕ)
    → known (set_fd_dir_path s cage newfd path) c fd
      ≡ (if eqb c cage && eqb fd newfd then some path else known s c fd)
unfolding set_fd_dir_path
known-set_fd_dir_path s cage newfd path c fd = ground (
  arith,
  get-insert s.cage_dir_fds cage (insert (or_none (get s.cage_dir_fds cage)) newfd path) c,
  get-insert (or_none (get s.cage_dir_fds cage)) newfd path fd,
  get_fd-or_none (get s.cage_dir_fds cage) fd,
)

known-clear_fd_dir_path :
    (s : State) (cage newfd c fd : ℕ)
    → known (clear_fd_dir_path s cage newfd) c fd
      ≡ (if eqb c cage && eqb fd newfd then none else known s c fd)
unfolding clear_fd_dir_path clear_in
known-clear_fd_dir_path s cage newfd c fd = elim (Option-cases (get s.cage_dir_fds cage)) [
  | inl e ↦ rw e (ground arith)
  | inr (fds, e) ↦
      rw e (
        ground
          (arith, get-insert s.cage_dir_fds cage (remove fds newfd) c, get-remove fds newfd fd))
]

known-copy_dir :
    (s : State) (cage newfd : ℕ) (dir : Option Text) (c fd : ℕ)
    → known (copy_dir s cage newfd dir) c fd
      ≡ (if eqb c cage && eqb fd newfd then dir else known s c fd)
unfolding copy_dir
known-copy_dir s cage newfd none c fd = known-clear_fd_dir_path s cage newfd c fd
known-copy_dir s cage newfd (some path) c fd = known-set_fd_dir_path s cage newfd path c fd

pub copy_fd_dir_path-Duplicated :
    (s : State) (cage oldfd newfd : ℕ)
    → Duplicated s (copy_fd_dir_path s cage oldfd newfd) cage oldfd newfd
copy_fd_dir_path-Duplicated s cage oldfd newfd c fd =
    rw (dir_of_lem (copy_fd_dir_path s cage oldfd newfd) c fd, dir_of_lem s c fd)
      (unfold copy_fd_dir_path fd_dir_path in
        rw (← get-ensure s cage c fd) (known-copy_dir (ensure_cage_cwd s cage) cage newfd _ c fd))

-- The calls that duplicate a descriptor.
pub data Duplicator : Type 0 where
  by_dup : Duplicator
  by_dup2 : Duplicator
  by_dup3 : Duplicator
  by_fcntl : Duplicator
  by_fcntl_cloexec : Duplicator

-- The descriptor that a duplicating call made, by its arguments and result.
abbrev pub duplicate_fd : Duplicator → Args → ℤ → ℕ
duplicate_fd by_dup a ret = as_u64 ret
duplicate_fd by_dup2 a ret = a.arg2
duplicate_fd by_dup3 a ret = a.arg2
duplicate_fd by_fcntl a ret = as_u64 ret
duplicate_fd by_fcntl_cloexec a ret = as_u64 ret

module _ (O : Outside) (H : Host O) where
  abbrev pub duplicate : Duplicator → Args → Jail O H ℤ
  duplicate by_dup a = dup_handler O H a
  duplicate by_dup2 a = dup2_handler O H a
  duplicate by_dup3 a = dup3_handler O H a
  duplicate by_fcntl a = fcntl_handler O H (record a { arg2 = f_dupfd })
  duplicate by_fcntl_cloexec a = fcntl_handler O H (record a { arg2 = f_dupfd_cloexec })

  abbrev pub Copies : State → ℕ → ℕ → (ℤ → ℕ) → JailSys O H × ℤ → Type 0
  Copies s cage oldfd new (s', ret) =
      (is_neg ret ≡ false → Duplicated s s'.own cage oldfd (new ret))
      × (is_neg ret ≡ true → s'.own ≡ s)

  if_ok-Copies :
      (cage oldfd : ℕ) (new : ℤ → ℕ) (ret : ℤ) (s : JailSys O H)
      → Copies s.own cage oldfd new
          (if_ok O H ret (on_own O (λ t. copy_fd_dir_path t cage oldfd (new ret))) s)
  unfolding if_ok ◌>>=◌ when return
  if_ok-Copies cage oldfd new (pos n) s =
      (λ h. copy_fd_dir_path-Duplicated s.own cage oldfd (new (pos n)), λ h. ground arith)
  if_ok-Copies cage oldfd new (negsuc n) s = (λ h. ground arith, λ h. refl)

  -- A descriptor that dup, dup2, dup3 or a duplicating fcntl makes has the directory that its
  -- original had, known or not, and every other descriptor of every cage keeps its own; a call
  -- that returns an error changes no table.
  pub duplicates_keep_directory :
      (d : Duplicator) (a : Args) (s : JailSys O H)
      → Copies s.own a.arg1cage a.arg1 (duplicate_fd d a) (duplicate d a s)
  unfolding ◌>>=◌ dup_handler dup_to fcntl_handler pass_on make_syscall_from_grate make_threei_call
      return when
  duplicates_keep_directory by_dup a s = if_ok-Copies a.arg1cage a.arg1 as_u64 _ _
  duplicates_keep_directory by_dup2 a s = if_ok-Copies a.arg1cage a.arg1 (λ ret. a.arg2) _ _
  duplicates_keep_directory by_dup3 a s = if_ok-Copies a.arg1cage a.arg1 (λ ret. a.arg2) _ _
  duplicates_keep_directory by_fcntl a s = if_ok-Copies a.arg1cage a.arg1 as_u64 _ _
  duplicates_keep_directory by_fcntl_cloexec a s = if_ok-Copies a.arg1cage a.arg1 as_u64 _ _
