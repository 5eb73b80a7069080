-- ===== src/Imfs/Fds.antt =====
-- The operations on descriptors of rust-grates/imfs-grate/src/imfs/mod.rs, over the descriptor
-- tables. Flags and constants are words; an offset is an `i64`, which is never out of its range here.
use Prim.Native.Nat.{bit_and}
use lind_wasm_example_grates.Base.{
  ℕ, zero, suc, ◌+◌, ◌-◌, ◌^◌, Bool, true, false, not, ◌&&◌, ◌||◌, Option, none, some, List, [],
  ◌∷◌, ◌++◌, length, get_elem?, set, eqb, leb, if◌then◌else◌, nat_key, pair_key,
}
use lind_wasm_example_grates.Base.Words.{ℤ, pos, negsuc, neg}
use lind_wasm_example_grates.Base.Dict.{Dict, insert, get}
use lind_wasm_example_grates.Path.Text.{Text}
use lind_wasm_example_grates.Imfs.Node.{
  Node, NodeType, NodeInfo, reg_info, hardlink_target, max_node_name,
}
use lind_wasm_example_grates.Imfs.Chunks.{
  File, ChunkStore, read_from_file, write_to_file, truncate_file,
}
use lind_wasm_example_grates.Imfs.State.{
  ImfsState, FdInfo, put_node, create_node, add_child, is_dir_node,
}
use lind_wasm_example_grates.Imfs.Resolve.{Result, ok, err, resolve_path, resolve_parent_and_name}
use lind_wasm_example_grates.Imfs.Act.{
  Act, ◌>>=◌, ◌>>◌, return, ask, attempt, need, do_, make, fail_if, node_at, set_node,
}
use lind_wasm_example_grates.Imfs.Fs.{touch, enametoolong, eexist, is_reg_node}

abbrev pub ebadf : ℤ
ebadf = neg 9

abbrev pub emfile : ℤ
emfile = neg 24

-- The chunk list of a regular file and its size, as the chunk functions take them.
abbrev pub file_in : ℕ → NodeInfo → Option File
file_in size (reg_info head tail) = some (record { head = head; tail = tail; total_size = size })
file_in size _ = none

abbrev pub file_of : Node → Option File
file_of n = file_in n.total_size n.info

abbrev pub with_file : Node → File → Node
with_file n f = record n { info = reg_info f.head f.tail; total_size = f.total_size }

abbrev pub is_file : Node → Bool
is_file n = elim (file_of n) [ none ↦ false | some f ↦ true ]

-- A node that is no regular file gives 0 bytes.
abbrev pub read_file : ChunkStore → Option File → ℕ → ℕ → Option (List ℕ)
read_file store none offset len = some []
read_file store (some f) offset len = read_from_file store f offset len

unfoldable pub read_from_node : ℕ → ℕ → ℕ → Act ImfsState (List ℕ)
read_from_node node_idx offset len = do
  n ← node_at node_idx
  need (λ s. read_file s.store (file_of n) offset len)

abbrev pub put_file : ImfsState → ℕ → Node → Option (ChunkStore × File × ℕ) → Option (ℕ × ImfsState)
put_file s i n none = none
put_file s i n (some (store', f', written)) =
    elim (put_node (record s { store = store' }) i (with_file n f')) [
      | none ↦ none
      | some s' ↦ some (written, s')
    ]

abbrev pub write_file : ImfsState → ℕ → Node → Option File → ℕ → List ℕ → Option (ℕ × ImfsState)
write_file s i n none offset buf = some (0, s)
write_file s i n (some f) offset buf = put_file s i n (write_to_file s.store f offset buf)

unfoldable pub write_to_node : ℕ → ℕ → List ℕ → Act ImfsState ℕ
write_to_node node_idx offset buf = do
  n ← node_at node_idx
  make (λ s. write_file s node_idx n (file_of n) offset buf)

abbrev pub put_truncated : ImfsState → ℕ → Node → Option (ChunkStore × File) → Option ImfsState
put_truncated s i n none = none
put_truncated s i n (some (store', f')) = put_node (record s { store = store' }) i (with_file n f')

abbrev pub truncate_in : ImfsState → ℕ → Node → Option File → ℕ → Option ImfsState
truncate_in s i n none new_size = some s
truncate_in s i n (some f) new_size = put_truncated s i n (truncate_file s.store f new_size)

unfoldable pub truncate_node : ℕ → ℕ → Act ImfsState Unit
truncate_node node_idx new_size = do
  n ← node_at node_idx
  do_ (λ s. truncate_in s node_idx n (file_of n) new_size)

-- Hard link nodes are followed; the number of nodes is enough where they form no cycle.
abbrev pub link_target : List Node → ℕ → Option (Option ℕ)
link_target nodes i = elim (get_elem? nodes i) [
  | none ↦ none
  | some n ↦ some (hardlink_target n.info)
]

unfoldable pub follow_links : ℕ → List Node → ℕ → Option ℕ
follow_links zero nodes i = elim (link_target nodes i) [
  | none ↦ none
  | some none ↦ some i
  | some (some target) ↦ none
]
follow_links (suc fuel) nodes i = elim (link_target nodes i) [
  | none ↦ none
  | some none ↦ some i
  | some (some target) ↦ follow_links fuel nodes target
]

-- Some bit of the flags, which the source writes `flags & bit != 0`.
abbrev pub has : ℕ → ℕ → Bool
has flags bit = not (eqb (bit_and flags bit) 0)

-- The value of an offset that is not negative.
abbrev pub as_usize : ℤ → ℕ
as_usize (pos n) = n
as_usize (negsuc n) = 2 ^ 64 - suc n

-- flags & O_ACCMODE
abbrev pub access_mode : ℕ → ℕ
access_mode flags = bit_and flags 3

abbrev pub o_rdonly : ℕ
o_rdonly = 0

abbrev pub o_wronly : ℕ
o_wronly = 1

abbrev pub o_rdwr : ℕ
o_rdwr = 2

abbrev pub o_creat : ℕ
o_creat = 0o100

abbrev pub o_excl : ℕ
o_excl = 0o200

abbrev pub o_trunc : ℕ
o_trunc = 0o1000

abbrev pub o_append : ℕ
o_append = 0o2000

abbrev pub o_directory : ℕ
o_directory = 0o200000

-- What the owner's mode bits do not allow.
unfoldable pub forbidden : ℕ → ℕ → Bool
forbidden access m =
    let no_read = not (has m 0o400) in
    let no_write = not (has m 0o200) in
    if eqb access o_rdonly
    then no_read
    else if eqb access o_wronly
    then no_write
    else eqb access o_rdwr && (no_read || no_write)

-- The branch of `open_resolved_path` for a path that exists.
unfoldable pub open_existing : ℕ → ℕ → Act ImfsState ℕ
unfolding forbidden truncate_node touch
open_existing idx flags = do
  fail_if (has flags o_excl && has flags o_creat) eexist
  n ← node_at idx
  fail_if (has flags o_directory && not (is_dir_node n.node_type)) (neg 20)
  fail_if
      (is_dir_node n.node_type
        && (eqb (access_mode flags) o_wronly || eqb (access_mode flags) o_rdwr))
      (neg 21)
  fail_if (forbidden (access_mode flags) n.mode) (neg 13)
  (if is_reg_node n.node_type && (has flags o_trunc && not (eqb (access_mode flags) o_rdonly))
      then truncate_node idx 0 >> touch idx
      else return tt)
  return idx

-- The branch for a path that does not resolve.
unfoldable pub open_new : Text → ℕ → ℕ → Act ImfsState ℕ
unfolding touch
open_new norm_path flags mode = do
  fail_if (not (has flags o_creat)) (neg 2)
  (parent_idx, filename) ← ask (λ s. resolve_parent_and_name s norm_path)
  fail_if (leb max_node_name (length filename)) enametoolong
  new_idx ← make (λ s. create_node s filename NodeType.reg mode)
  do_ (λ s. add_child s parent_idx new_idx)
  touch parent_idx
  touch new_idx
  return new_idx

abbrev pub open_node_as : Text → ℕ → ℕ → Result ℕ → Act ImfsState ℕ
open_node_as norm_path flags mode (ok idx) = open_existing idx flags
open_node_as norm_path flags mode (err e) = open_new norm_path flags mode

unfoldable pub open_node : Text → ℕ → ℕ → Act ImfsState ℕ
unfolding open_existing open_new
open_node norm_path flags mode = do
  r ← attempt (λ s. resolve_path s norm_path true)
  open_node_as norm_path flags mode r

-- One more or one less open descriptor; `in_use` stays at 0.
unfoldable pub count_up : ℕ → Act ImfsState Unit
count_up i = do n ← node_at i; set_node i (record n { in_use = n.in_use + 1 })

unfoldable pub count_down : ℕ → Act ImfsState Unit
count_down i = do n ← node_at i; set_node i (record n { in_use = n.in_use - 1 })

-- self.fd_info.insert(key, info), with a new info or one that another descriptor has
abbrev pub share_info : ImfsState → ℕ → ℕ → ℕ → ImfsState
share_info s cage_id fd handle = record s { fd_info = insert s.fd_info (cage_id, fd) handle }

unfoldable pub insert_perfdinfo : ImfsState → ℕ → ℕ → ℕ → ImfsState
insert_perfdinfo s cageid fd flags =
    share_info (record s { fd_heap = s.fd_heap ++ record { flags = flags; offset = pos 0 } ∷ [] })
      cageid fd (length s.fd_heap)

-- self.fd_info.get(key).unwrap().lock().unwrap()
abbrev pub info_at : ImfsState → Option ℕ → Option FdInfo
info_at s none = none
info_at s (some h) = get_elem? s.fd_heap h

unfoldable pub info_of : ImfsState → ℕ → ℕ → Option FdInfo
info_of s cageid fd = info_at s (get s.fd_info (cageid, fd))

abbrev pub offset_of : Option FdInfo → Option ℤ
offset_of none = none
offset_of (some i) = some i.offset

unfoldable pub get_offset : ImfsState → ℕ → ℕ → Option ℤ
unfolding info_of
get_offset s cageid fd = offset_of (info_of s cageid fd)

-- What is at a place of the heap, with another offset.
abbrev pub put_offset : ImfsState → ℕ → ℤ → Option FdInfo → Option ImfsState
put_offset s h offset none = none
put_offset s h offset (some i) =
    some (record s { fd_heap = set s.fd_heap h (record i { offset = offset }) })

abbrev pub set_offset_at : ImfsState → ℤ → Option ℕ → Option ImfsState
set_offset_at s offset none = none
set_offset_at s offset (some h) = put_offset s h offset (get_elem? s.fd_heap h)

unfoldable pub set_offset : ImfsState → ℕ → ℕ → ℤ → Option ImfsState
set_offset s cageid fd offset = set_offset_at s offset (get s.fd_info (cageid, fd))

-- The child shares each FdInfo of its parent; `pairs` is the map that the loop goes over.
unfoldable pub share_all : ℕ → ℕ → Dict (ℕ × ℕ) ℕ → ImfsState → ImfsState
share_all parent_cage child_cage [] s = s
share_all parent_cage child_cage (((cage_id, fd), h) ∷ pairs) s =
    let rest = share_all parent_cage child_cage pairs s in
    if eqb cage_id parent_cage then share_info rest child_cage fd h else rest

unfoldable pub fork : ImfsState → ℕ → ℕ → ImfsState
unfolding share_all
fork s parent_cage child_cage =
    let s' = share_all parent_cage child_cage s.fd_info s in
    elim (get s'.cwd_info parent_cage) [
      | none ↦ s'
      | some cwd ↦ record s' { cwd_info = insert s'.cwd_info child_cage cwd }
    ]
