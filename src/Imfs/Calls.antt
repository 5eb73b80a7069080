-- ===== src/Imfs/Calls.antt =====
-- The public operations on descriptors of rust-grates/imfs-grate/src/imfs/mod.rs: the state of the
-- file system beside the descriptor tables.
use lind_wasm_example_grates.Base.{
  ℕ, zero, suc, Bool, false, not, ◌&&◌, Option, none, some, List, length, get_elem?, eqb, ltb,
  if◌then◌else◌, nat_key, pair_key,
}
use lind_wasm_example_grates.Base.Words.{ℤ, pos, neg, is_neg, as_i32, plus}
use lind_wasm_example_grates.Base.Dict.{remove}
use lind_wasm_example_grates.Path.Text.{Text}
use lind_wasm_example_grates.Imfs.Node.{NodeInfo, reg_info, pip_info, dir_info, now}
use lind_wasm_example_grates.Imfs.State.{ImfsState, reclaim_node, is_dir_node}
use lind_wasm_example_grates.Imfs.Resolve.{Result, ok, err}
use lind_wasm_example_grates.Imfs.Act.{
  Act, ◌>>=◌, ◌>>◌, return, fail, ask, need, do_, fail_if, node_at, set_node,
}
use lind_wasm_example_grates.Imfs.Fs.{touch, einval, is_reg_node}
use lind_wasm_example_grates.Imfs.Tables.{FdTables}
use lind_wasm_example_grates.Imfs.Fds.{
  ebadf, emfile, is_file, read_from_node, write_to_node, truncate_node, follow_links, has, as_usize,
  access_mode, o_rdonly, o_wronly, o_append, open_node, count_up, count_down, insert_perfdinfo,
  info_of, get_offset, set_offset,
}

module _ (T : FdTables) where
  open T use {
    Tables, translate_virtual_fd, get_unused_virtual_fd, get_unused_virtual_fd_from_startfd,
    get_specific_virtual_fd, close_virtualfd,
  }

  pub record Sys : Type 0 where
    pub tables : Tables
    pub imfs : ImfsState

  abbrev pub back : {A : Type 0} → Tables → Option (ImfsState × Result A) → Option (Sys × Result A)
  back t none = none
  back t (some (s, r)) = some (record { tables = t; imfs = s }, r)

  -- an operation on the file system alone
  abbrev pub on_imfs : {A : Type 0} → Act ImfsState A → Act Sys A
  on_imfs m s = back s.tables (m s.imfs)

  abbrev pub or_err : {A : Type 0} → ℤ → Option A → Result A
  or_err e none = err e
  or_err e (some a) = ok a

  -- fdtables::translate_virtual_fd, of which the underfd is used
  abbrev pub underfd_of : ℕ → ℕ → Act Sys ℕ
  underfd_of cage_id fd = ask (λ s. some (elim (translate_virtual_fd s.tables cage_id fd) [
    | none ↦ err ebadf
    | some (underfd, cloexec) ↦ ok underfd
  ]))

  unfoldable pub get_node_and_flags : ℕ → ℕ → Act Sys (ℕ × ℕ)
  get_node_and_flags cage_id fd = do
    node_idx ← underfd_of cage_id fd
    i ← need (λ s. info_of s.imfs cage_id fd)
    idx ← need (λ s. follow_links (length s.imfs.nodes) s.imfs.nodes node_idx)
    return (idx, i.flags)

  -- The file that a descriptor is open on, unless its access mode is the one that is refused.
  unfoldable pub regular_file : ℕ → ℕ → ℕ → Act Sys (ℕ × ℕ)
  unfolding get_node_and_flags
  regular_file cage_id fd refused = do
    (node_idx, flags) ← get_node_and_flags cage_id fd
    n ← on_imfs (node_at node_idx)
    fail_if (not (is_file n)) ebadf
    fail_if (eqb (access_mode flags) refused) ebadf
    return (node_idx, flags)

  unfoldable pub update_atime : ℕ → Act ImfsState Unit
  update_atime i = do n ← node_at i; set_node i (record n { atime = now })

  abbrev pub unless_empty : ℕ → Act ImfsState Unit → Act ImfsState Unit
  unless_empty zero m = return tt
  unless_empty (suc k) m = m

  -- The bytes that a read returns; the call's own result is their number.
  unfoldable pub read : ℕ → ℕ → ℕ → Act Sys (List ℕ)
  unfolding regular_file update_atime read_from_node
  read cage_id fd len = do
    (node_idx, flags) ← regular_file cage_id fd o_wronly
    offset ← need (λ s. get_offset s.imfs cage_id fd)
    bytes ← on_imfs (read_from_node node_idx (as_usize offset) len)
    on_imfs (unless_empty (length bytes) (update_atime node_idx))
    on_imfs (do_ (λ s. set_offset s cage_id fd (plus offset (pos (length bytes)))))
    return bytes

  unfoldable pub pread : ℕ → ℕ → ℕ → ℤ → Act Sys (List ℕ)
  unfolding regular_file update_atime read_from_node
  pread cage_id fd len offset = do
    fail_if (is_neg offset) einval
    (node_idx, flags) ← regular_file cage_id fd o_wronly
    bytes ← on_imfs (read_from_node node_idx (as_usize offset) len)
    on_imfs (unless_empty (length bytes) (update_atime node_idx))
    return bytes

  unfoldable pub write_offset : ℕ → ℕ → ℕ → ℕ → Act Sys ℤ
  write_offset cage_id fd node_idx flags =
      if has flags o_append
      then (do n ← on_imfs (node_at node_idx); return (pos n.total_size))
      else need (λ s. get_offset s.imfs cage_id fd)

  unfoldable pub write : ℕ → ℕ → List ℕ → Act Sys ℤ
  unfolding regular_file write_offset write_to_node touch
  write cage_id fd buf = do
    (node_idx, flags) ← regular_file cage_id fd o_rdonly
    offset ← write_offset cage_id fd node_idx flags
    n ← on_imfs (write_to_node node_idx (as_usize offset) buf)
    on_imfs (unless_empty n (touch node_idx))
    on_imfs (do_ (λ s. set_offset s cage_id fd (plus offset (pos n))))
    return (as_i32 n)

  unfoldable pub pwrite : ℕ → ℕ → List ℕ → ℤ → Act Sys ℤ
  unfolding regular_file write_to_node touch
  pwrite cage_id fd buf offset = do
    fail_if (is_neg offset) einval
    (node_idx, flags) ← regular_file cage_id fd o_rdonly
    n ← on_imfs (write_to_node node_idx (as_usize offset) buf)
    on_imfs (unless_empty n (touch node_idx))
    return (as_i32 n)

  -- The new offset, for one of SEEK_SET, SEEK_CUR and SEEK_END.
  unfoldable pub seek_to : ℤ → ℤ → ℕ → ℕ → Result ℤ
  seek_to offset current size whence =
      if eqb whence 0
      then ok offset
      else if eqb whence 1
      then ok (plus current offset)
      else if eqb whence 2
      then ok (plus (pos size) offset)
      else err einval

  unfoldable pub seek_file : ℕ → ℕ → ℤ → ℕ → ℕ → Act Sys ℤ
  unfolding seek_to
  seek_file cage_id fd offset whence size = do
    current ← need (λ s. get_offset s.imfs cage_id fd)
    new_offset ← ask (λ s. some (seek_to offset current size whence))
    fail_if (is_neg new_offset) einval
    on_imfs (do_ (λ s. set_offset s cage_id fd new_offset))
    return new_offset

  abbrev pub seek_in : ℕ → ℕ → ℤ → ℕ → ℕ → NodeInfo → Act Sys ℤ
  seek_in cage_id fd offset whence size (reg_info head tail) =
      seek_file cage_id fd offset whence size
  seek_in cage_id fd offset whence size (pip_info bytes readers writers) = fail (neg 29)
  seek_in cage_id fd offset whence size (dir_info es) = return offset
  seek_in cage_id fd offset whence size _ = fail ebadf

  -- The result is an `i64` here, which the source casts to `i32`.
  unfoldable pub lseek : ℕ → ℕ → ℤ → ℕ → Act Sys ℤ
  unfolding get_node_and_flags seek_file
  lseek cage_id fd offset whence = do
    (node_idx, flags) ← get_node_and_flags cage_id fd
    n ← on_imfs (node_at node_idx)
    seek_in cage_id fd offset whence n.total_size n.info

  unfoldable pub ftruncate : ℕ → ℕ → ℤ → Act Sys ℤ
  unfolding get_node_and_flags truncate_node touch
  ftruncate cage_id fd new_length = do
    fail_if (is_neg new_length) einval
    (node_idx, flags) ← get_node_and_flags cage_id fd
    fail_if (eqb (access_mode flags) o_rdonly) ebadf
    n ← on_imfs (node_at node_idx)
    fail_if (is_dir_node n.node_type) (neg 21)
    fail_if (not (is_reg_node n.node_type)) einval
    on_imfs (truncate_node node_idx (as_usize new_length))
    on_imfs (touch node_idx)
    return (pos 0)

  abbrev pub adopt : {A : Type 0} → Option (Tables × A) → Sys → Option (Sys × Result (Option A))
  adopt none s = some (s, ok none)
  adopt (some (t, a)) s = some (record s { tables = t }, ok (some a))

  -- The end of `open_resolved_path`: the descriptor and its FdInfo.
  unfoldable pub open_resolved_path : ℕ → Text → ℕ → ℕ → Act Sys ℕ
  unfolding open_node count_up count_down insert_perfdinfo
  open_resolved_path cage_id norm_path flags mode = do
    node_idx ← on_imfs (open_node norm_path flags mode)
    on_imfs (count_up node_idx)
    given ← (λ s. adopt (get_unused_virtual_fd s.tables cage_id node_idx false) s)
    (elim given [
      | none ↦ on_imfs (count_down node_idx) >> fail emfile
      | some vfd ↦ (do on_imfs (do_ (λ s. some (insert_perfdinfo s cage_id vfd flags))); return vfd)
    ])

  -- Where the last descriptor of a doomed node closes, its slot is free again.
  unfoldable pub release_node : ImfsState → ℕ → Option ImfsState
  release_node s node_idx =
      let released : Option ImfsState = elim (count_down node_idx s) [
        | none ↦ none
        | some (s', r) ↦ elim (get_elem? s'.nodes node_idx) [
          | none ↦ none
          | some n ↦ if n.doomed && eqb n.in_use 0 then reclaim_node s' node_idx else some s'
        ]
      ] in
      if ltb node_idx (length s.nodes) then released else some s

  abbrev pub release_entry : Option (ℕ × Bool) → ImfsState → Option ImfsState
  release_entry none s = some s
  release_entry (some (node_idx, cloexec)) s = release_node s node_idx

  unfoldable pub close : ℕ → ℕ → Act Sys ℤ
  unfolding release_node
  close cage_id fd = do
    entry ← need (λ s. some (translate_virtual_fd s.tables cage_id fd))
    on_imfs (do_ (release_entry entry))
    on_imfs (do_ (λ s. some (record s { fd_info = remove s.fd_info (cage_id, fd) })))
    (λ s. elim (close_virtualfd s.tables cage_id fd) [
      | none ↦ some (s, err ebadf)
      | some t ↦ some (record s { tables = t }, ok (pos 0))
    ])
