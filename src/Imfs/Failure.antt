-- ===== src/Imfs/Failure.antt =====
-- The error paths of the path operations of rust-grates/imfs-grate/src/imfs/mod.rs.
use lind_wasm_example_grates.Base.{ℕ, Bool, Option, none, some, ◌≡◌}
use lind_wasm_example_grates.Base.Words.{ℤ}
use lind_wasm_example_grates.Path.Text.{Text}
use lind_wasm_example_grates.Imfs.State.{ImfsState}
use lind_wasm_example_grates.Imfs.Resolve.{Result, ok, err}
use lind_wasm_example_grates.Imfs.Act.{Act, fail_if}
use lind_wasm_example_grates.Imfs.Fs.{
  touch, unlink, unlink_resolved_path, rmdir, rmdir_resolved_path, add_link, set_info, mkdir_at,
  mkdir, mknod_as, mknod_at, mknod, link, link_resolved_paths, symlink_to, symlink_resolved_path,
  must_be_absent, eexist, eperm,
}
use lind_wasm_example_grates.Imfs.Node.{NodeInfo, NodeType}
use lind_wasm_example_grates.Imfs.Rename.{
  chown_node, chown_at, chown, chmod, chmod_resolved_path, chdir, chdir_at, rename,
  rename_resolved_paths, replace_target, move_entry,
}
use lind_wasm_example_grates.Imfs.Atomic.{
  Never, Atomic, never, failed, ask-Reads, return-Never, if-Never, if-Atomic, attempt-Reads,
  need-Reads, need-Never, fail_if-Reads, reads, fail-Reads, Reads, with_path-Atomic, do_-Never,
  make-Never, reads_then, Never-then, atomic_then,
}

touch-Never : (i : ℕ) → Never (touch i)
unfolding touch
touch-Never i = Never-then _ _ (do_-Never _) (λ u. do_-Never _)

ruleset checks_first = (
  reads_then, never, Never-then, fail_if-Reads, ask-Reads, attempt-Reads, need-Reads, need-Never,
  do_-Never, make-Never, return-Never, if-Never, if-Atomic, touch-Never, with_path-Atomic,
)

fail_if-Atomic : {S : Type 0} (test : Bool) (e : ℤ) → Atomic {S = S} (fail_if test e)
fail_if-Atomic test e = reads (fail_if test e) (fail_if-Reads test e)

ok_if_absent-Atomic : (r : Result ℕ) → Reads (must_be_absent r)
unfolding must_be_absent
ok_if_absent-Atomic (ok i) = fail-Reads eexist
ok_if_absent-Atomic (err e) = fail_if-Reads _ _

set_info-Never : (i : ℕ) (info : NodeInfo) → Never (set_info i info)
unfolding set_info
set_info-Never i info = search checks_first depth 30

add_link-Never : (dir_idx : ℕ) (name : Text) (target : ℕ) → Never (add_link dir_idx name target)
unfolding add_link
add_link-Never dir_idx name target = search (checks_first, set_info-Never) depth 30

chown_node-Never : (i owner group : ℕ) → Never (chown_node i owner group)
unfolding chown_node
chown_node-Never i owner group = search checks_first depth 30

move_entry-Never : (i old new : ℕ) (name : Text) → Never (move_entry i old new name)
unfolding move_entry
move_entry-Never i old new name = search checks_first depth 30

mkdir-Atomic : (cage_id : ℕ) (path : Text) (mode : ℕ) → Atomic (mkdir cage_id path mode)
unfolding mkdir mkdir_at
mkdir-Atomic cage_id path mode = search (checks_first, add_link-Never) depth 30

mknod_as-Atomic :
    (cage_id : ℕ) (path : Text) (mode : ℕ) (kind : Option NodeType)
    → Atomic (mknod_as cage_id path mode kind)
unfolding mknod_as mknod_at
mknod_as-Atomic cage_id path mode none = reads _ (fail-Reads eperm)
mknod_as-Atomic cage_id path mode (some node_type) = search checks_first depth 30

link-Atomic : (cage_id : ℕ) (old new : Text) → Atomic (link cage_id old new)
unfolding link link_resolved_paths
link-Atomic cage_id old new = search (checks_first, set_info-Never, ok_if_absent-Atomic) depth 40

symlink_to-Atomic : (cage_id : ℕ) (target path : Text) → Atomic (symlink_to cage_id target path)
unfolding symlink_to symlink_resolved_path
symlink_to-Atomic cage_id target path = search (checks_first, ok_if_absent-Atomic) depth 30

unlink-Atomic : (cage_id : ℕ) (path : Text) → Atomic (unlink cage_id path)
unfolding unlink unlink_resolved_path
unlink-Atomic cage_id path = search checks_first depth 30

rmdir-Atomic : (cage_id : ℕ) (path : Text) → Atomic (rmdir cage_id path)
unfolding rmdir rmdir_resolved_path
rmdir-Atomic cage_id path = search checks_first depth 30

chmod-Atomic : (cage_id : ℕ) (path : Text) (mode : ℕ) → Atomic (chmod cage_id path mode)
unfolding chmod chmod_resolved_path
chmod-Atomic cage_id path mode = search checks_first depth 30

chown-Atomic :
    (cage_id : ℕ) (path : Text) (owner group : ℕ) (follow : Bool)
    → Atomic (chown cage_id path owner group follow)
unfolding chown chown_at
chown-Atomic cage_id path owner group follow = search (checks_first, chown_node-Never) depth 30

chdir-Atomic : (cage_id : ℕ) (path : Text) → Atomic (chdir cage_id path)
unfolding chdir chdir_at
chdir-Atomic cage_id path = search checks_first depth 30

replace_target-Atomic : (old parent : ℕ) (r : Result ℕ) → Atomic (replace_target old parent r)
unfolding replace_target
replace_target-Atomic old parent (err e) = search checks_first depth 30
replace_target-Atomic old parent (ok i) = search checks_first depth 30

rename-Atomic : (cage_id : ℕ) (old new : Text) → Atomic (rename cage_id old new)
unfolding rename rename_resolved_paths
rename-Atomic cage_id old new =
    search (checks_first, atomic_then, replace_target-Atomic, move_entry-Never) depth 40

-- A call that changes the tree or a node's metadata.
pub data PathCall : Type 0 where
  to_mkdir : ℕ → Text → ℕ → PathCall
  to_mknod : ℕ → Text → ℕ → PathCall
  to_link : ℕ → Text → Text → PathCall
  to_symlink : ℕ → Text → Text → PathCall
  to_unlink : ℕ → Text → PathCall
  to_rmdir : ℕ → Text → PathCall
  to_rename : ℕ → Text → Text → PathCall
  to_chmod : ℕ → Text → ℕ → PathCall
  to_chown : ℕ → Text → ℕ → ℕ → Bool → PathCall
  to_chdir : ℕ → Text → PathCall

abbrev pub run_call : PathCall → Act ImfsState ℤ
run_call (to_mkdir cage_id path mode) = mkdir cage_id path mode
run_call (to_mknod cage_id path mode) = mknod cage_id path mode
run_call (to_link cage_id oldpath newpath) = link cage_id oldpath newpath
run_call (to_symlink cage_id target path) = symlink_to cage_id target path
run_call (to_unlink cage_id path) = unlink cage_id path
run_call (to_rmdir cage_id path) = rmdir cage_id path
run_call (to_rename cage_id oldpath newpath) = rename cage_id oldpath newpath
run_call (to_chmod cage_id path mode) = chmod cage_id path mode
run_call (to_chown cage_id path owner group follow) = chown cage_id path owner group follow
run_call (to_chdir cage_id path) = chdir cage_id path

run_call-Atomic : (call : PathCall) → Atomic (run_call call)
unfolding mknod
run_call-Atomic (to_mkdir cage_id path mode) = mkdir-Atomic cage_id path mode
run_call-Atomic (to_mknod cage_id path mode) = mknod_as-Atomic cage_id path mode _
run_call-Atomic (to_link cage_id oldpath newpath) = link-Atomic cage_id oldpath newpath
run_call-Atomic (to_symlink cage_id target path) = symlink_to-Atomic cage_id target path
run_call-Atomic (to_unlink cage_id path) = unlink-Atomic cage_id path
run_call-Atomic (to_rmdir cage_id path) = rmdir-Atomic cage_id path
run_call-Atomic (to_rename cage_id oldpath newpath) = rename-Atomic cage_id oldpath newpath
run_call-Atomic (to_chmod cage_id path mode) = chmod-Atomic cage_id path mode
run_call-Atomic (to_chown cage_id path owner group follow) =
    chown-Atomic cage_id path owner group follow
run_call-Atomic (to_chdir cage_id path) = chdir-Atomic cage_id path

-- A mkdir, mknod, link, symlink, unlink, rmdir, rename, chmod, chown, lchown or chdir that returns
-- an errno has left the whole file system as it was.
pub failed_call_changes_nothing :
    (call : PathCall) (s s' : ImfsState) (e : ℤ) → run_call call s ≡ some (s', err e) → s' ≡ s
failed_call_changes_nothing call = failed (run_call call) (run_call-Atomic call)
