-- ===== src/Imfs/Dup.antt =====
-- dup, dup2 and F_DUPFD of rust-grates/imfs-grate/src/imfs/mod.rs, and fchdir.
use lind_wasm_example_grates.Base.{
  ℕ, zero, suc, ◌+◌, Bool, true, false, not, Option, none, some, List, length, get_elem?, eqb, ltb,
  if◌then◌else◌, nat_key, pair_key,
}
use lind_wasm_example_grates.Base.Words.{ℤ, pos, is_neg}
use lind_wasm_example_grates.Base.Dict.{get, insert}
use lind_wasm_example_grates.Imfs.Node.{Node, NodeInfo, pip_info}
use lind_wasm_example_grates.Imfs.State.{ImfsState, is_dir_node}
use lind_wasm_example_grates.Imfs.Resolve.{Result, ok, err, absolute_path_for_node, enotdir}
use lind_wasm_example_grates.Imfs.Act.{
  Act, ◌>>=◌, ◌>>◌, return, fail, ask, need, do_, fail_if, node_at, set_node,
}
use lind_wasm_example_grates.Imfs.Fs.{einval}
use lind_wasm_example_grates.Imfs.Tables.{FdTables}
use lind_wasm_example_grates.Imfs.Fds.{
  ebadf, emfile, access_mode, o_wronly, count_up, share_info, link_target, as_usize,
}
use lind_wasm_example_grates.Imfs.Calls.{Sys, on_imfs, underfd_of, adopt, close}

-- One more reader or writer, by the access mode.
abbrev pub join_pipe : ℕ → NodeInfo → NodeInfo
join_pipe access (pip_info bytes readers writers) =
    if eqb access o_wronly
    then pip_info bytes readers (writers + 1)
    else pip_info bytes (readers + 1) writers
join_pipe access info = info

unfoldable pub count_pipe_end : ℕ → ℕ → Act ImfsState Unit
count_pipe_end node_idx flags = do
  n ← node_at node_idx
  set_node node_idx (record n { info = join_pipe (access_mode flags) n.info })

-- self.fd_info.get(&(cage_id, fd)).cloned(): the place of the FdInfo, with its flags
unfoldable pub cloned_info : ImfsState → ℕ → ℕ → Option (Result (ℕ × ℕ))
cloned_info s cage_id fd = elim (get s.fd_info (cage_id, fd)) [
  | none ↦ some (err ebadf)
  | some h ↦ elim (get_elem? s.fd_heap h) [ none ↦ none | some i ↦ some (ok (h, i.flags)) ]
]

-- Hard link nodes are followed, each index checked; `fuel` as for `follow_links`.
unfoldable pub follow_checked : ℕ → List Node → ℕ → Option (Result ℕ)
follow_checked zero nodes i = elim (link_target nodes i) [
  | none ↦ some (err ebadf)
  | some none ↦ some (ok i)
  | some (some target) ↦ none
]
follow_checked (suc fuel) nodes i = elim (link_target nodes i) [
  | none ↦ some (err ebadf)
  | some none ↦ some (ok i)
  | some (some target) ↦ follow_checked fuel nodes target
]

module _ (T : FdTables) where
  open T use {
    Tables, translate_virtual_fd, get_unused_virtual_fd, get_unused_virtual_fd_from_startfd,
    get_specific_virtual_fd,
  }

  -- The node and the FdInfo of the descriptor that is duplicated.
  unfoldable pub dup_source : ℕ → ℕ → Act (Sys T) (ℕ × ℕ × ℕ)
  unfolding cloned_info
  dup_source cage_id oldfd = do
    node_idx ← underfd_of T cage_id oldfd
    (h, flags) ← ask (λ (s : Sys T). cloned_info s.imfs cage_id oldfd)
    return (node_idx, h, flags)

  abbrev pub in_nodes : ℕ → Act (Sys T) Unit
  in_nodes node_idx =
      ask (λ s. some (if ltb node_idx (length s.imfs.nodes) then ok tt else err ebadf))

  unfoldable pub dup : ℕ → ℕ → Act (Sys T) ℕ
  unfolding dup_source count_pipe_end count_up
  dup cage_id oldfd = do
    (node_idx, h, flags) ← dup_source cage_id oldfd
    in_nodes node_idx
    on_imfs T (count_pipe_end node_idx flags)
    given ← (λ (s : Sys T). adopt T (get_unused_virtual_fd s.tables cage_id node_idx false) s)
    (elim given [
      | none ↦ fail emfile
      | some newfd ↦ (do
        on_imfs T (count_up node_idx)
        on_imfs T (do_ (λ s. some (share_info s cage_id newfd h)))
        return newfd)
    ])

  -- The end of `dup2` and of `dup_from_startfd`, which count the pipe end after the descriptor is given.
  unfoldable pub share_fd : ℕ → ℕ → ℕ → ℕ → ℕ → Act (Sys T) ℕ
  unfolding count_pipe_end count_up
  share_fd cage_id node_idx h flags newfd = do
    on_imfs T (count_up node_idx)
    on_imfs T (count_pipe_end node_idx flags)
    on_imfs T (do_ (λ s. some (share_info s cage_id newfd h)))
    return newfd

  abbrev pub with_tables : Option Tables → Sys T → Option (Sys T × Result Bool)
  with_tables none s = some (s, ok false)
  with_tables (some t) s = some (record s { tables = t }, ok true)

  unfoldable pub close_if_open : ℕ → ℕ → Act (Sys T) Unit
  close_if_open cage_id newfd = do
    entry ← need (λ (s : Sys T). some (translate_virtual_fd s.tables cage_id newfd))
    (elim entry [ none ↦ return tt | some e ↦ close T cage_id newfd >> return tt ])

  unfoldable pub dup2 : ℕ → ℕ → ℕ → Bool → Act (Sys T) ℕ
  unfolding dup_source share_fd close_if_open
  dup2 cage_id oldfd newfd cloexec = do
    (node_idx, h, flags) ← dup_source cage_id oldfd
    (if eqb oldfd newfd then return newfd else (do
      in_nodes node_idx
      close_if_open cage_id newfd
      given ← (λ (s : Sys T).
          with_tables (get_specific_virtual_fd s.tables cage_id newfd node_idx cloexec) s)
      (if given then share_fd cage_id node_idx h flags newfd else fail emfile)))

  unfoldable pub dup_from_startfd : ℕ → ℕ → ℤ → Bool → Act (Sys T) ℕ
  unfolding dup_source share_fd
  dup_from_startfd cage_id oldfd startfd cloexec = do
    fail_if (is_neg startfd) einval
    (node_idx, h, flags) ← dup_source cage_id oldfd
    in_nodes node_idx
    given ← (λ (s : Sys T).
        adopt T
          (get_unused_virtual_fd_from_startfd s.tables cage_id node_idx cloexec (as_usize startfd))
          s)
    (elim given [ none ↦ fail emfile | some newfd ↦ share_fd cage_id node_idx h flags newfd ])

  unfoldable pub fchdir : ℕ → ℕ → Act (Sys T) ℤ
  unfolding follow_checked
  fchdir cage_id fd = do
    first ← underfd_of T cage_id fd
    node_idx ← ask (λ (s : Sys T). follow_checked (length s.imfs.nodes) s.imfs.nodes first)
    n ← on_imfs T (node_at node_idx)
    fail_if (not (is_dir_node n.node_type)) enotdir
    cwd ← need (λ (s : Sys T). absolute_path_for_node s.imfs node_idx)
    on_imfs T (do_ (λ s. some (record s { cwd_info = insert s.cwd_info cage_id cwd })))
    return (pos 0)
