-- ===== src/Imfs/Fs.antt =====
-- The operations on paths of rust-grates/imfs-grate/src/imfs/mod.rs, after the path is normalised.
use Prim.Native.Nat.{bit_and}
use lind_wasm_example_grates.Base.{
  ℕ, Bool, true, false, not, ◌||◌, Option, none, some, List, [], ◌∷◌, length, eqb, leb,
  if◌then◌else◌, ◌==◌, text_key, nat_key,
}
use lind_wasm_example_grates.Base.Words.{ℤ, pos, neg, zeq}
use lind_wasm_example_grates.Path.Text.{Text, slash}
use lind_wasm_example_grates.Path.Components.{dot, dotdot}
use lind_wasm_example_grates.Imfs.Node.{
  NodeType, NodeInfo, DirEntry, hard_link, symlink, symlink_target, children_of, max_node_name, now,
}
use lind_wasm_example_grates.Imfs.State.{
  ImfsState, create_node, add_child, remove_child, unlink_node, update_ctime, update_mtime,
  is_dir_node, is_own_entry,
}
use lind_wasm_example_grates.Imfs.Resolve.{
  Result, ok, err, resolve_path, resolve_parent_and_name, enotdir,
}
use lind_wasm_example_grates.Imfs.Act.{
  Act, ◌>>=◌, ◌>>◌, return, fail, ask, attempt, need, do_, make, fail_if, node_at, set_node,
  with_path,
}

abbrev pub eperm : ℤ
eperm = neg 1

abbrev pub eexist : ℤ
eexist = neg 17

abbrev pub einval : ℤ
einval = neg 22

abbrev pub enametoolong : ℤ
enametoolong = neg 36

abbrev pub is_root : Text → Bool
is_root path = path == slash ∷ []

abbrev pub is_reg_node : NodeType → Bool
is_reg_node NodeType.reg = true
is_reg_node _ = false

-- update_mtime and update_ctime of one node
unfoldable pub touch : ℕ → Act ImfsState Unit
touch i = do do_ (λ s. update_mtime s i); do_ (λ s. update_ctime s i)

-- The name must be free: only ENOENT lets the operation go on.
unfoldable pub must_be_absent : Result ℕ → Act ImfsState Unit
must_be_absent (ok i) = fail eexist
must_be_absent (err e) = fail_if (not (zeq e (neg 2))) e

-- nodes[i].info = info
unfoldable pub set_info : ℕ → NodeInfo → Act ImfsState Unit
set_info i info = do n ← node_at i; set_node i (record n { info = info })

unfoldable pub add_link : ℕ → Text → ℕ → Act ImfsState ℕ
unfolding set_info
add_link dir_idx name target = do
  i ← make (λ s. create_node s name NodeType.lnk 0)
  set_info i (hard_link target)
  do_ (λ s. add_child s dir_idx i)
  return i

abbrev pub resolved : Result ℕ → Bool
resolved (ok i) = true
resolved (err e) = false

unfoldable pub mkdir_at : Text → ℕ → Act ImfsState ℤ
unfolding add_link touch
mkdir_at norm_path mode = do
  r ← attempt (λ s. resolve_path s norm_path true)
  fail_if (resolved r) eexist
  fail_if (is_root norm_path) eexist
  (parent_idx, dirname) ← ask (λ s. resolve_parent_and_name s norm_path)
  fail_if (is_own_entry dirname) eexist
  dir_idx ← make (λ s. create_node s dirname NodeType.dir mode)
  do_ (λ s. add_child s parent_idx dir_idx)
  dot_idx ← add_link dir_idx dot dir_idx
  dotdot_idx ← add_link dir_idx dotdot parent_idx
  touch parent_idx
  touch dir_idx
  return (pos 0)

unfoldable pub mkdir : ℕ → Text → ℕ → Act ImfsState ℤ
unfolding mkdir_at
mkdir cage_id path mode = with_path cage_id path (λ norm_path. mkdir_at norm_path mode)

unfoldable pub node_type_of : ℕ → Option NodeType
node_type_of mode =
    let kind = bit_and mode 0o170000 in
    if eqb kind 0o010000
    then some NodeType.pip
    else if eqb kind 0o100000 || eqb kind 0
    then some NodeType.reg
    else none

unfoldable pub mknod_at : Text → ℕ → NodeType → Act ImfsState ℤ
unfolding touch
mknod_at norm_path mode node_type = do
  r ← attempt (λ s. resolve_path s norm_path true)
  fail_if (resolved r) eexist
  (parent_idx, name) ← ask (λ s. resolve_parent_and_name s norm_path)
  fail_if (is_own_entry name) eexist
  fail_if (leb max_node_name (length name)) enametoolong
  node_idx ← make (λ s. create_node s name node_type mode)
  do_ (λ s. add_child s parent_idx node_idx)
  touch parent_idx
  touch node_idx
  return (pos 0)

unfoldable pub mknod_as : ℕ → Text → ℕ → Option NodeType → Act ImfsState ℤ
unfolding mknod_at
mknod_as cage_id path mode none = fail eperm
mknod_as cage_id path mode (some node_type) =
    with_path cage_id path (λ norm_path. mknod_at norm_path mode node_type)

unfoldable pub mknod : ℕ → Text → ℕ → Act ImfsState ℤ
unfolding mknod_as node_type_of
mknod cage_id path mode = mknod_as cage_id path mode (node_type_of mode)

unfoldable pub link_resolved_paths : Text → Text → Bool → Act ImfsState ℤ
unfolding set_info touch must_be_absent
link_resolved_paths norm_oldpath norm_newpath follow_old = do
  old_idx ← ask (λ s. resolve_path s norm_oldpath follow_old)
  old ← node_at old_idx
  fail_if (is_dir_node old.node_type) eperm
  r ← attempt (λ s. resolve_path s norm_newpath false)
  must_be_absent r
  (parent_idx, filename) ← ask (λ s. resolve_parent_and_name s norm_newpath)
  fail_if (is_own_entry filename) eperm
  fail_if (leb max_node_name (length filename)) enametoolong
  new_idx ← make (λ s. create_node s filename NodeType.lnk old.mode)
  do_ (λ s. add_child s parent_idx new_idx)
  set_info new_idx (hard_link old_idx)
  touch parent_idx
  do_ (λ s. update_ctime s old_idx)
  touch new_idx
  return (pos 0)

unfoldable pub symlink_resolved_path : Text → Text → Act ImfsState ℤ
unfolding touch must_be_absent
symlink_resolved_path target norm_linkpath = do
  r ← attempt (λ s. resolve_path s norm_linkpath false)
  must_be_absent r
  (parent_idx, filename) ← ask (λ s. resolve_parent_and_name s norm_linkpath)
  fail_if (is_own_entry filename) eexist
  fail_if (leb max_node_name (length filename)) enametoolong
  new_idx ← make (λ s. create_node s filename NodeType.lnk 0o777)
  n ← node_at new_idx
  set_node new_idx (record n { info = symlink target; total_size = length target })
  do_ (λ s. add_child s parent_idx new_idx)
  touch parent_idx
  touch new_idx
  return (pos 0)

unfoldable pub readlink_resolved_path : Text → Act ImfsState Text
readlink_resolved_path norm_path = do
  node_idx ← ask (λ s. resolve_path s norm_path false)
  n ← node_at node_idx
  (elim (symlink_target n.info) [
    | none ↦ fail einval
    | some target ↦ (do set_node node_idx (record n { atime = now }); return target)
  ])

unfoldable pub unlink_resolved_path : Text → Act ImfsState ℤ
unfolding touch
unlink_resolved_path norm_path = do
  fail_if (is_root norm_path) eperm
  (parent_idx, filename) ← ask (λ s. resolve_parent_and_name s norm_path)
  fail_if (is_own_entry filename) eperm
  node_idx ← ask (λ s. resolve_path s norm_path false)
  n ← node_at node_idx
  fail_if (is_dir_node n.node_type) (neg 21)
  do_ (λ s. remove_child s node_idx)
  touch parent_idx
  do_ (λ s. update_ctime s node_idx)
  do_ (λ s. unlink_node s node_idx)
  return (pos 0)

unfoldable pub any_child : List DirEntry → Bool
any_child [] = false
any_child (e ∷ es) = not (is_own_entry e.name) || any_child es

abbrev pub children_or : ℤ → NodeInfo → Result (List DirEntry)
children_or e info = elim (children_of info) [ none ↦ err e | some es ↦ ok es ]

unfoldable pub rmdir_resolved_path : Text → Act ImfsState ℤ
unfolding touch any_child
rmdir_resolved_path norm_path = do
  node_idx ← ask (λ s. resolve_path s norm_path true)
  root_idx ← need (λ s. some s.root_idx)
  fail_if (eqb node_idx root_idx) (neg 16)
  n ← node_at node_idx
  entries ← ask (λ s. some (children_or enotdir n.info))
  fail_if (any_child entries) (neg 39)
  do_ (λ s. remove_child s node_idx)
  touch n.parent_idx
  do_ (λ s. update_ctime s node_idx)
  do_ (λ s. unlink_node s node_idx)
  return (pos 0)

unfoldable pub unlink : ℕ → Text → Act ImfsState ℤ
unfolding unlink_resolved_path
unlink cage_id path = with_path cage_id path unlink_resolved_path

unfoldable pub rmdir : ℕ → Text → Act ImfsState ℤ
unfolding rmdir_resolved_path
rmdir cage_id path = with_path cage_id path rmdir_resolved_path

unfoldable pub link : ℕ → Text → Text → Act ImfsState ℤ
unfolding link_resolved_paths
link cage_id oldpath newpath =
    with_path cage_id oldpath
      (λ old. with_path cage_id newpath (λ new. link_resolved_paths old new true))

unfoldable pub symlink_to : ℕ → Text → Text → Act ImfsState ℤ
unfolding symlink_resolved_path
symlink_to cage_id target linkpath = with_path cage_id linkpath (symlink_resolved_path target)
