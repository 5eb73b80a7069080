-- ===== src/Imfs/Rename.antt =====
-- rename, and the operations on the metadata and the size of one node, of
-- rust-grates/imfs-grate/src/imfs/mod.rs.
use Prim.Native.Nat.{bit_and, bit_or}
use lind_wasm_example_grates.Base.{
  ℕ, Bool, true, false, not, ◌&&◌, ◌||◌, none, some, [], ◌∷◌, ◌++◌, length, eqb, leb, ltb,
  if◌then◌else◌, text_key, nat_key,
}
use lind_wasm_example_grates.Base.Words.{ℤ, pos, neg, zeq}
use lind_wasm_example_grates.Base.Dict.{insert, get}
use lind_wasm_example_grates.Path.Text.{Text, slash, trim_end, starts_with}
use lind_wasm_example_grates.Imfs.Node.{max_node_name, now}
use lind_wasm_example_grates.Imfs.State.{
  ImfsState, add_child, remove_child, unlink_node, update_ctime, is_dir_node, is_own_entry,
}
use lind_wasm_example_grates.Imfs.Resolve.{
  Result, ok, err, resolve_path, resolve_parent_and_name, enotdir,
}
use lind_wasm_example_grates.Imfs.Act.{
  Act, ◌>>=◌, ◌>>◌, return, ask, attempt, do_, fail_if, node_at, set_node, with_path,
}
use lind_wasm_example_grates.Imfs.Fs.{touch, eperm, einval, enametoolong, is_root}

-- The node at the new name makes room. `true`: it is the old node itself, and nothing is to do.
unfoldable pub replace_target : ℕ → ℕ → Result ℕ → Act ImfsState Bool
unfolding touch
replace_target old_idx new_parent_idx (err e) = do fail_if (not (zeq e (neg 2))) e; return false
replace_target old_idx new_parent_idx (ok existing_idx) =
    if eqb existing_idx old_idx then return true else (do
      n ← node_at existing_idx
      fail_if (is_dir_node n.node_type) eperm
      do_ (λ s. remove_child s existing_idx)
      touch new_parent_idx
      do_ (λ s. update_ctime s existing_idx)
      do_ (λ s. unlink_node s existing_idx)
      return false)

unfoldable pub move_entry : ℕ → ℕ → ℕ → Text → Act ImfsState ℤ
unfolding touch
move_entry old_idx old_parent_idx new_parent_idx new_name = do
  do_ (λ s. remove_child s old_idx)
  n ← node_at old_idx
  set_node old_idx (record n { name = new_name })
  do_ (λ s. add_child s new_parent_idx old_idx)
  touch old_parent_idx
  (if eqb new_parent_idx old_parent_idx then return tt else touch new_parent_idx)
  do_ (λ s. update_ctime s old_idx)
  return (pos 0)

unfoldable pub rename_resolved_paths : Text → Text → Act ImfsState ℤ
unfolding replace_target move_entry
rename_resolved_paths norm_oldpath norm_newpath = do
  fail_if (is_root norm_oldpath) eperm
  (old_parent_idx, old_name) ← ask (λ s. resolve_parent_and_name s norm_oldpath)
  old_idx ← ask (λ s. resolve_path s norm_oldpath false)
  fail_if (is_own_entry old_name) eperm
  fail_if (is_root norm_newpath) eperm
  (new_parent_idx, new_name) ← ask (λ s. resolve_parent_and_name s norm_newpath)
  fail_if (is_own_entry new_name) eperm
  fail_if (leb max_node_name (length new_name)) enametoolong
  old ← node_at old_idx
  fail_if
      (is_dir_node old.node_type && starts_with norm_newpath (trim_end norm_oldpath ++ slash ∷ []))
      einval
  r ← attempt (λ s. resolve_path s norm_newpath false)
  same ← replace_target old_idx new_parent_idx r
  (if same then return (pos 0) else move_entry old_idx old_parent_idx new_parent_idx new_name)

-- (mode & S_IFMT) | (new & S_MODE_BITS)
unfoldable pub with_mode : ℕ → ℕ → ℕ
with_mode old mode = bit_or (bit_and old 0o170000) (bit_and mode 0o7777)

unfoldable pub chmod_resolved_path : Text → ℕ → Act ImfsState ℤ
unfolding with_mode
chmod_resolved_path norm_path mode = do
  node_idx ← ask (λ s. resolve_path s norm_path true)
  n ← node_at node_idx
  set_node node_idx (record n { mode = with_mode n.mode mode; ctime = now })
  return (pos 0)

abbrev pub chown_no_change : ℕ
chown_no_change = 4294967295

-- The new value, unless it is CHOWN_NO_CHANGE.
abbrev pub or_keep : ℕ → ℕ → ℕ
or_keep old new = if eqb new chown_no_change then old else new

-- mode & !(S_ISUID | S_ISGID), of 32 bits
abbrev pub drop_setid : ℕ → ℕ
drop_setid mode = bit_and mode 0o37777771777

unfoldable pub chown_node : ℕ → ℕ → ℕ → Act ImfsState ℤ
chown_node node_idx owner group = do
  n ← node_at node_idx
  let owner' = or_keep n.owner owner
  let group' = or_keep n.group group
  let kept = eqb owner' n.owner && eqb group' n.group
  set_node node_idx (record n {
    owner = owner';
    group = group';
    mode = if kept then n.mode else drop_setid n.mode;
    ctime = now;
  })
  return (pos 0)

unfoldable pub chown_at : Text → ℕ → ℕ → Bool → Act ImfsState ℤ
unfolding chown_node
chown_at norm_path owner group follow_final = do
  node_idx ← ask (λ s. resolve_path s norm_path follow_final)
  chown_node node_idx owner group

-- `chown` follows the last link, `lchown` does not.
unfoldable pub chown : ℕ → Text → ℕ → ℕ → Bool → Act ImfsState ℤ
unfolding chown_at
chown cage_id path owner group follow_final =
    with_path cage_id path (λ norm_path. chown_at norm_path owner group follow_final)

unfoldable pub chdir_at : ℕ → Text → Act ImfsState ℤ
chdir_at cage_id norm_path = do
  node_idx ← ask (λ s. resolve_path s norm_path true)
  n ← node_at node_idx
  fail_if (not (is_dir_node n.node_type)) enotdir
  do_ (λ s. some (record s { cwd_info = insert s.cwd_info cage_id norm_path }))
  return (pos 0)

unfoldable pub chdir : ℕ → Text → Act ImfsState ℤ
unfolding chdir_at
chdir cage_id path = with_path cage_id path (chdir_at cage_id)

unfoldable pub rename : ℕ → Text → Text → Act ImfsState ℤ
unfolding rename_resolved_paths
rename cage_id oldpath newpath =
    with_path cage_id oldpath
      (λ old. with_path cage_id newpath (λ new. rename_resolved_paths old new))

unfoldable pub chmod : ℕ → Text → ℕ → Act ImfsState ℤ
unfolding chmod_resolved_path
chmod cage_id path mode = with_path cage_id path (λ norm_path. chmod_resolved_path norm_path mode)

unfoldable pub getcwd : ℕ → Act ImfsState Text
getcwd cage_id =
    ask (λ s. some (elim (get s.cwd_info cage_id) [ none ↦ err eperm | some cwd ↦ ok cwd ]))

-- A bit that is asked for and that the mode does not have.
abbrev pub denied : ℕ → ℕ → ℕ → ℕ → Bool
denied mode ask_bit m node_bit = not (eqb (bit_and mode ask_bit) 0) && eqb (bit_and m node_bit) 0

unfoldable pub access_resolved_path : Text → ℕ → Act ImfsState ℤ
access_resolved_path norm_path mode = do
  node_idx ← ask (λ s. resolve_path s norm_path true)
  (if eqb mode 0
      then ask (λ s. some (if ltb node_idx (length s.nodes) then ok (pos 0) else err (neg 2)))
      else (do
        n ← node_at node_idx
        fail_if
            (denied mode 4 n.mode 0o400 || denied mode 2 n.mode 0o200 || denied mode 1 n.mode 0o100)
            (neg 13)
        return (pos 0)))
