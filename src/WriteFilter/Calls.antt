-- ===== src/WriteFilter/Calls.antt =====
-- The handlers of rust-grates/write-filter-grate/src/handlers.rs. A descriptor whose `perfdinfo` is 1
-- is blocked.
use lind_wasm_example_grates.Grate.Utf8.{before_nul}
use lind_wasm_example_grates.Grate.Lossy.{from_utf8_lossy}
use lind_wasm_example_grates.Base.Words.{ℤ, neg, negsuc, is_neg}
use lind_wasm_example_grates.Path.Text.{Text, text, is_empty, split}
use lind_wasm_example_grates.Grate.Steps.{
  ◌>>=◌, ◌>>◌, Args, GrateError, Step, Sys, place_fd, return, translate, try_tables, copy_from_cage,
  when, as_u64, make_threei_call, args_of, is_pos, cages_of, is_thread_clone,
}
use lind_wasm_example_grates.Grate.Outside.{Outside, Entry}
use lind_wasm_example_grates.Grate.Syscalls.{
  sys_open, sys_clone, sys_close, sys_dup, sys_dup2, sys_execve, sys_pwrite, sys_write, sys_writev,
}
use lind_wasm_example_grates.Base.{
  nat_key, text_key, [], ◌∷◌, inl, inr, some, none, false, Option, List, ℕ, Bool, eqb,
  if◌then◌else◌, ◌==◌, ◌⊎◌, not, ◌||◌,
}

abbrev pub max_path : ℕ
max_path = 256

-- The text before the last dot and the text behind it, if there is a dot.
unfoldable pub rsplit_dot : Text → Option (Text × Text)
rsplit_dot [] = none
rsplit_dot (c ∷ s) = elim (rsplit_dot s) [
  | none ↦ if eqb c 46 then some ([], s) else none
  | some (front, back) ↦ some (c ∷ front, back)
]

abbrev pub behind_name : Option (Text × Text) → Option Text
behind_name none = none
behind_name (some ([], back)) = none
behind_name (some (c ∷ front, back)) = some back

-- The last component of a path that is neither empty nor `.`, unless it is `..`.
unfoldable pub last_normal : Option Text → List Text → Option Text
last_normal found [] = found
last_normal found (w ∷ ws) = last_normal (if is_empty w || w == text "." then found else some w) ws

abbrev pub file_name : Option Text → Option Text
file_name none = none
file_name (some w) = if w == text ".." then none else some w

abbrev pub extension_of : Option Text → Option Text
extension_of none = none
extension_of (some name) = behind_name (rsplit_dot name)

abbrev pub is_text : Text → Option Text → Bool
is_text t none = false
is_text t (some s) = s == t

-- Path::new(path).extension() == Some("log")
unfoldable pub is_log : Text → Bool
unfolding rsplit_dot last_normal
is_log path = is_text (text "log") (extension_of (file_name (last_normal none (split path))))

-- The buffer of zeros, if the copy fails, holds an empty path.
abbrev pub path_in_buffer : Option (List ℕ) → Text
path_in_buffer none = []
path_in_buffer (some buf) = from_utf8_lossy (before_nul buf)

abbrev pub blocks : Option Entry → Bool
blocks none = false
blocks (some e) = eqb e.perfdinfo 1

-- Ok(ret) => ret, Err(_) => -1
abbrev pub ret_or_minus_one : GrateError ⊎ ℤ → ℤ
ret_or_minus_one (inr ret) = ret
ret_or_minus_one (inl e) = negsuc 0

abbrev pub eperm : ℤ
eperm = neg 1

-- The entry of a new descriptor.
abbrev pub plain_entry : ℕ → Entry
plain_entry fd = record { fdkind = 0; underfd = fd; should_cloexec = false; perfdinfo = 0 }

module _ (O : Outside) where
  -- The grate keeps no state of its own.
  abbrev pub FilterSys : Type 0
  FilterSys = Sys O Unit

  abbrev pub Filter : Type 0 → Type 0
  Filter = Step FilterSys

  -- The call as it is, as the cage of its first argument.
  unfoldable pub forward_call : ℕ → Args → Filter (GrateError ⊎ ℤ)
  forward_call sysno a = make_threei_call O sysno O.own_cage a.arg1cage (args_of a) (cages_of a)

  unfoldable pub forward_ret : ℕ → Args → Filter ℤ
  unfolding forward_call
  forward_ret sysno a = do r ← forward_call sysno a; return (ret_or_minus_one r)

  unfoldable pub is_fd_blocked : ℕ → ℕ → Filter Bool
  is_fd_blocked cageid fd = do e ← translate O cageid fd; return (blocks e)

  abbrev pub place_entry : ℕ → ℕ → Entry → Filter Unit
  place_entry cage fd e = place_fd O cage fd e >> return tt

  abbrev pub placed_plain : ℕ → GrateError ⊎ ℤ → Filter Unit
  placed_plain cage (inr ret) = place_entry cage (as_u64 ret) (plain_entry (as_u64 ret))
  placed_plain cage (inl e) = return tt

  unfoldable pub open_handler : Args → Filter ℤ
  unfolding forward_call
  open_handler a = do
    buf ← copy_from_cage O a.arg1 a.arg1cage max_path
    r ← forward_call sys_open a
    placed_plain a.arg1cage r
    when (not (is_log (path_in_buffer buf)))
        (try_tables O (λ t. O.set_perfdinfo t a.arg1cage (as_u64 (ret_or_minus_one r)) 1))
    return (ret_or_minus_one r)

  -- write, writev and pwrite
  unfoldable pub filtered : ℕ → Args → Filter ℤ
  unfolding is_fd_blocked forward_ret
  filtered sysno a = do
    blocked ← is_fd_blocked a.arg1cage a.arg1
    if blocked then return eperm else forward_ret sysno a

  abbrev pub write_handler : Args → Filter ℤ
  write_handler = filtered sys_write

  abbrev pub writev_handler : Args → Filter ℤ
  writev_handler = filtered sys_writev

  abbrev pub pwrite_handler : Args → Filter ℤ
  pwrite_handler = filtered sys_pwrite

  unfoldable pub fork_handler : Args → Filter ℤ
  unfolding forward_ret
  fork_handler a = do
    ret ← forward_ret sys_clone a
    if not (is_pos ret)
        then return ret
        else (is_thread_clone O a.arg1 a.arg1cage >>= (λ is_thread.
            when (not is_thread)
              (try_tables O (λ t. O.copy_fdtable_for_cage t a.arg1cage (as_u64 ret)))
            >> return ret))

  -- Standard input and output, as main and exec place them.
  abbrev pub place_standard : ℕ → Filter Unit
  place_standard cage = do
    place_entry cage 0 (plain_entry 0)
    place_entry cage 1 (plain_entry 1)
    place_entry cage 2 (plain_entry 2)

  -- `empty_fds_for_exec` is that of fdtables.
  unfoldable pub exec_handler : (O.Tables → ℕ → O.Tables) → Args → Filter ℤ
  unfolding forward_ret
  exec_handler empty_fds_for_exec a = do
    try_tables O (λ t. some (empty_fds_for_exec t a.arg1cage))
    place_standard a.arg1cage
    forward_ret sys_execve a

  -- The closure of `preexec` in main.
  unfoldable pub preexec : ℕ → Filter Unit
  preexec cageid = try_tables O (λ t. some (O.init_empty_cage t cageid)) >> place_standard cageid

  abbrev pub copy_entry : ℕ → ℕ → Option Entry → Filter Unit
  copy_entry cage newfd none = return tt
  copy_entry cage newfd (some e) = place_entry cage newfd e

  -- After a duplicating call that returned no error the new descriptor gets the entry.
  unfoldable pub duplicated : ℕ → ℕ → ℤ → ℕ → Filter ℤ
  duplicated cage fd ret newfd = do
    when (not (is_neg ret)) (translate O cage fd >>= copy_entry cage newfd)
    return ret

  unfoldable pub dup_handler : Args → Filter ℤ
  unfolding forward_ret duplicated
  dup_handler a = do ret ← forward_ret sys_dup a; duplicated a.arg1cage a.arg1 ret (as_u64 ret)

  unfoldable pub dup2_handler : Args → Filter ℤ
  unfolding forward_ret duplicated
  dup2_handler a = do ret ← forward_ret sys_dup2 a; duplicated a.arg1cage a.arg1 ret a.arg2

  unfoldable pub close_handler : Args → Filter ℤ
  unfolding forward_ret
  close_handler a = do
    ret ← forward_ret sys_close a
    try_tables O (λ t. O.close_virtualfd t a.arg1cage a.arg1)
    return ret
